-- ===== src/Storage/Edit/Urls.antt =====
-- That no owner has two servers with one query URL, over lists of servers.
use mathlib.Core.Path.{subst}
use rw_manager_backend.Base.{
  String, Bool, false, Option, none, some, List, [], ◌∷◌, ◌++◌, any, find?, update_first,
  opt_eq_iff, eq_iff, arith, Bool-cases, inl, inr, ◌≡◌, refl, ap,
}
use rw_manager_backend.Data.Server.{ServerConfig}
use rw_manager_backend.Config.{AppConfig}
use rw_manager_backend.Store.Servers.{has_id}
use rw_manager_backend.Store.Servers.Views.{HasUniqueIds}
use rw_manager_backend.Storage.Edit.{is_duplicate, is_other_duplicate}

module _ (config : AppConfig) where
  -- No later server of the same owner (of any, where there are no accounts) has the URL.
  abbrev pub HasDistinctUrls : List ServerConfig → Type 0
  HasDistinctUrls [] = Unit
  HasDistinctUrls (s ∷ ss) =
      (any (is_duplicate config s.user_id s.query_url) ss ≡ false) × HasDistinctUrls ss

  duplicate_sym :
      (a b : ServerConfig)
      → is_duplicate config a.user_id a.query_url b ≡ false
      → is_duplicate config b.user_id b.query_url a ≡ false
  duplicate_sym a b h = ground (
    arith,
    opt_eq_iff a.user_id b.user_id,
    opt_eq_iff b.user_id a.user_id,
    eq_iff a.query_url b.query_url,
    eq_iff b.query_url a.query_url,
  )

  any-append :
      (p : ServerConfig → Bool) (ss : List ServerConfig) (new : ServerConfig)
      → any p ss ≡ false
      → p new ≡ false
      → any p (ss ++ new ∷ []) ≡ false
  unfolding any
  any-append p [] new h k = ground arith
  any-append p (s ∷ ss) new h k = ground (arith, any-append p ss new)

  pub HasDistinctUrls-append :
      (ss : List ServerConfig) (new : ServerConfig)
      → HasDistinctUrls ss
      → any (is_duplicate config new.user_id new.query_url) ss ≡ false
      → HasDistinctUrls (ss ++ new ∷ [])
  unfolding any
  HasDistinctUrls-append [] new h free = (refl, tt)
  HasDistinctUrls-append (s ∷ ss) new (h, hs) free = (
    any-append (is_duplicate config s.user_id s.query_url) ss new h
        (duplicate_sym new s (ground arith)),
    HasDistinctUrls-append ss new hs (ground arith),
  )

  -- Where nobody has the id, the other servers are all servers.
  any-other :
      (id url : String) (owner : Option String) (ss : List ServerConfig)
      → find? (has_id id) ss ≡ none
      → any (is_other_duplicate config id owner url) ss ≡ false
      → any (is_duplicate config owner url) ss ≡ false
  unfolding any find?
  any-other id url owner [] absent h = refl
  any-other id url owner (s ∷ ss) absent h = ground (arith, any-other id url owner ss)

  any-update :
      (p q : ServerConfig → Bool) (f : ServerConfig → ServerConfig) (ss : List ServerConfig)
      (s : ServerConfig)
      → find? q ss ≡ some s
      → any p ss ≡ false
      → p (f s) ≡ false
      → any p (update_first q f ss) ≡ false
  unfolding any find? update_first
  any-update p q f [] s found h k = refl
  any-update p q f (x ∷ xs) s found h k =
      ground (arith, any-update p q f xs s, (λ (e : x ≡ s). ap (λ y. p (f y)) e))

  any-tail :
      (p : ServerConfig → Bool) (s : ServerConfig) (ss : List ServerConfig)
      → any p (s ∷ ss) ≡ false
      → any p ss ≡ false
  unfolding any
  any-tail p s ss h = ground arith

  any-head :
      (p : ServerConfig → Bool) (s : ServerConfig) (ss : List ServerConfig)
      → any p (s ∷ ss) ≡ false
      → p s ≡ false
  unfolding any
  any-head p s ss h = ground arith

  pub HasDistinctUrls-update :
      (id : String) (f : ServerConfig → ServerConfig) (ss : List ServerConfig) (s : ServerConfig)
      → HasUniqueIds ss
      → find? (has_id id) ss ≡ some s
      → (f s).user_id ≡ s.user_id
      → any (is_other_duplicate config id s.user_id (f s).query_url) ss ≡ false
      → HasDistinctUrls ss
      → HasDistinctUrls (update_first (has_id id) f ss)
  unfolding find? update_first
  HasDistinctUrls-update id f [] s u found owner free h = tt
  HasDistinctUrls-update id f (x ∷ xs) s (u, us) found owner free (h, hs) =
      elim (Bool-cases (has_id id x)) [
        | inl e ↦
            let same : x ≡ s = ground (arith, e, found) in
            let gone : find? (has_id id) xs ≡ none =
              subst (λ k. find? (has_id k) xs ≡ none) ((eq_iff x.id id).0 e) u in
            rw e (
              rw same (
                  rw owner (
                    any-other id (f s).query_url s.user_id xs gone (
                      any-tail (is_other_duplicate config id s.user_id (f s).query_url) x xs
                        free))),
              hs,
            )
        | inr e ↦
            let later : find? (has_id id) xs ≡ some s = ground (arith, e, found) in
            let rest =
              any-tail (is_other_duplicate config id s.user_id (f s).query_url) x xs free in
            rw e (
              any-update (is_duplicate config x.user_id x.query_url) (has_id id) f xs s later h (
                  duplicate_sym (f s) x (
                    rw owner (
                      ground (
                        arith,
                        e,
                        free,
                        any-head (is_other_duplicate config id s.user_id (f s).query_url) x xs free,
                      )))),
              HasDistinctUrls-update id f xs s us later owner rest hs,
            )
      ]
