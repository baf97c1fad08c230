-- ===== src/Auth/Account/Names.antt =====
-- Users of distinct names: how additions, changes and renamings keep the names apart.
use mathlib.Core.Path.{subst}
use rw_manager_backend.Base.{
  String, Bool, true, false, Option, none, some, List, [], ◌∷◌, ◌++◌, map, find?, includes,
  update_first, str_eq, eq_iff, if◌then◌else◌, arith, IsDistinct, IsDistinct-append, ◌≡◌, ◌≢◌, refl,
  sym, ap, ◌∙◌, Bool-cases, inl, inr,
}
use rw_manager_backend.Data.User.{DbUser}
use rw_manager_backend.Store.Users.{is_user, has_username}
use rw_manager_backend.Store.Users.Views.{HasUniqueUsers}

abbrev pub names : List DbUser → List String
names = map (λ (u : DbUser). u.username)

-- No two users have one name.
abbrev pub HasDistinctNames : List DbUser → Type 0
HasDistinctNames us = IsDistinct (names us)

pub free_name :
    (n : String) (us : List DbUser)
    → find? (has_username n) us ≡ none
    → includes n (names us) ≡ false
unfolding find? includes
free_name n [] h = refl
free_name n (u ∷ us) h = ground (arith, free_name n us, eq_iff u.username n, eq_iff n u.username, h)

names-append : (us : List DbUser) (u : DbUser) → names (us ++ u ∷ []) ≡ names us ++ u.username ∷ []
names-append [] u = refl
names-append (v ∷ us) u = ap (λ ns. v.username ∷ ns) (names-append us u)

pub HasDistinctNames-append :
    (us : List DbUser) (u : DbUser)
    → HasDistinctNames us
    → find? (has_username u.username) us ≡ none
    → HasDistinctNames (us ++ u ∷ [])
HasDistinctNames-append us u h free =
    subst IsDistinct (sym (names-append us u))
      (IsDistinct-append (names us) u.username h (free_name u.username us free))

pub names-update :
    (p : DbUser → Bool) (f : DbUser → DbUser) (us : List DbUser)
    → ((u : DbUser) → (f u).username ≡ u.username)
    → names (update_first p f us) ≡ names us
unfolding update_first
names-update p f [] same = refl
names-update p f (u ∷ us) same = ground (arith, same u, names-update p f us same)

module _ (n : String) (p : DbUser → Bool) (f : DbUser → DbUser)
    (named : (u : DbUser) → (f u).username ≡ n) where
  includes-renamed :
      (x : String) (us : List DbUser)
      → includes x (names us) ≡ false
      → str_eq n x ≡ false
      → includes x (names (update_first p f us)) ≡ false
  unfolding includes update_first
  includes-renamed x [] h ne = refl
  includes-renamed x (u ∷ us) h ne =
      ground (arith, ap (λ y. str_eq y x) (named u), includes-renamed x us, h, ne)

  -- A free name keeps the names apart.
  pub HasDistinctNames-renamed :
      (us : List DbUser)
      → HasDistinctNames us
      → includes n (names us) ≡ false
      → HasDistinctNames (update_first p f us)
  unfolding includes update_first
  HasDistinctNames-renamed [] h free = tt
  HasDistinctNames-renamed (u ∷ us) (h, hs) free = elim (Bool-cases (p u)) [
    | inl e ↦ rw (e, named u) (ground (arith, free), hs)
    | inr e ↦ rw e (
      includes-renamed u.username us h
          (ground (arith, free, eq_iff u.username n, eq_iff n u.username)),
      HasDistinctNames-renamed us hs (ground (arith, free)),
    )
  ]

found_id :
    (q : DbUser → Bool) (us : List DbUser) (u : DbUser)
    → find? q us ≡ some u
    → find? (is_user u.id) us ≢ none
unfolding find?
found_id q [] u h e = cc
found_id q (v ∷ us) u h e = elim (Bool-cases (q v)) [
  | inl hit ↦ ground (arith, hit, h, e, eq_iff v.id u.id, ap (λ (o : Option DbUser). o) h)
  | inr miss ↦ found_id q us u (ground (arith, miss, h)) (ground (arith, e))
]

some_inj : {u v : DbUser} → some u ≡ some v → u ≡ v
some_inj h = cc

-- The user's own name changes nothing.
pub names-own :
    (n id : String) (f : DbUser → DbUser) (us : List DbUser) (u : DbUser)
    → ((v : DbUser) → (f v).username ≡ n)
    → HasUniqueUsers us
    → find? (has_username n) us ≡ some u
    → u.id ≡ id
    → names (update_first (is_user id) f us) ≡ names us
unfolding find? update_first
names-own n id f [] u named unique found own = refl
names-own n id f (v ∷ us) u named (h, hs) found own = elim (Bool-cases (has_username n v)) [
  | inl hit ↦
      let head : v ≡ u =
        some_inj
          (subst (λ b. (if b then some v else find? (has_username n) us) ≡ some u) hit found) in
      let mine : is_user id v ≡ true = (eq_iff v.id id).1 (ap (λ (w : DbUser). w.id) head ∙ own) in
      rw mine (ap (λ x. x ∷ names us) (named v ∙ sym ((eq_iff v.username n).0 hit)))
  | inr miss ↦
      let later : find? (has_username n) us ≡ some u =
        subst (λ b. (if b then some v else find? (has_username n) us) ≡ some u) miss found in
      elim (Bool-cases (is_user id v)) [
        | inl mine ↦ absurd (
            found_id (has_username n) us u later
              (subst (λ k. find? (is_user k) us ≡ none) ((eq_iff v.id id).0 mine ∙ sym own) h))
        | inr other ↦
            rw other (ap (λ ns. v.username ∷ ns) (names-own n id f us u named hs later own))
      ]
]
