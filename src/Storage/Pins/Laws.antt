-- ===== src/Storage/Pins/Laws.antt =====
-- What pinning and unpinning do to the users, and that pins stay bounded and distinct.
use rw_manager_backend.Base.{
  String, Bool, false, Option, none, some, List, [], ◌∷◌, ◌++◌, length, leb, includes, get_or,
  truthy, return, after, ◌≡◌, sym, ◌∙◌, arith, find?, update_first, Option-cases, Bool-cases, inl,
  inr, All, IsDistinct, IsDistinct-append, length-append, after-return, ◌≤◌, ◌≢◌,
}
use mathlib.Core.Path.{subst}
use rw_manager_backend.Data.User.{DbUser}
use rw_manager_backend.Config.{AppConfig}
use rw_manager_backend.Store.State.{MongoCollections, Store, users_of}
use rw_manager_backend.Store.Patch.{UserPatch, no_user_patch, assign_user}
use rw_manager_backend.Store.Servers.{find_server_by_id}
use rw_manager_backend.Store.Users.{find_user_by_id, update_user, to_public_user, is_user}
use rw_manager_backend.Store.Users.Views.{find_user_by_id-view, users-update_user, id_of_user}
use rw_manager_backend.Storage.Mapper.{map_public_user_to_dto}
use rw_manager_backend.Storage.Access.{Context}
use rw_manager_backend.Storage.Pins.{pins_of, pin_for, pin_server}

-- The patch that pinning makes.
abbrev pub pin_patch : String → DbUser → UserPatch
pin_patch sid u = record no_user_patch { pinned_servers = some (pins_of u ++ sid ∷ []) }

none≢some : {A : Type 0} {a : A} → ◌≢◌ {A = Option A} none (some a)
none≢some h = cc

module _ (m : MongoCollections) (config : AppConfig) where
  -- Pinning changes nothing, or adds the pin to a user that has room for it and lacks it.
  pub data PinStep (sid : String) (context : Context) (st : Store m) : Store m → Type 0 where
    unchanged : {st' : Store m} → st' ≡ st → PinStep sid context st st'
    pinned :
        {st' : Store m} (u : DbUser)
        → find? (is_user (get_or context.user_id "")) (users_of m st) ≡ some u
        → includes sid (pins_of u) ≡ false
        → leb config.max_pinned_servers (length (pins_of u)) ≡ false
        → st' ≡ (update_user m u.id (pin_patch sid u) st).1
        → PinStep sid context st st'

  pin_for_cases :
      (sid : String) (context : Context) (st : Store m) (u : DbUser)
      → find? (is_user (get_or context.user_id "")) (users_of m st) ≡ some u
      → PinStep sid context st (pin_for m config sid u st).1
  unfolding pin_for
  pin_for_cases sid context st u found = elim (Bool-cases (includes sid (pins_of u))) [
    | inl old ↦ unchanged (ground (arith, old))
    | inr new ↦ elim (Bool-cases (leb config.max_pinned_servers (length (pins_of u)))) [
      | inl full ↦ unchanged (ground (arith, new, full))
      | inr room ↦ pinned u found new room (ground (arith, new, room))
    ]
  ]

  pub pin_server_cases :
      (sid : String) (context : Context) (st : Store m)
      → PinStep sid context st (pin_server m config sid context st).1
  unfolding pin_server
  pin_server_cases sid context st = elim (Bool-cases (truthy context.user_id)) [
    | inr anonymous ↦ unchanged (ground (arith, anonymous))
    | inl known ↦ elim (Option-cases (find_server_by_id m sid st)) [
      | inl missing ↦ unchanged (ground (arith, known, missing))
      | inr (s, there) ↦ elim (Option-cases (find_user_by_id m (get_or context.user_id "") st)) [
        | inl nobody ↦ unchanged (ground (arith, known, there, nobody))
        | inr (u, found) ↦
            let same : (pin_server m config sid context st).1
                ≡ (after (pin_for m config sid u st)
                    (λ p. return (map_public_user_to_dto (to_public_user p)))).1 =
              ground (arith, known, there, found) in
            subst (PinStep sid context st) (sym (same ∙ after-return (pin_for m config sid u st) _))
              (pin_for_cases sid context st u (sym (find_user_by_id-view m _ st) ∙ found))
      ]
    ]
  ]

  -- The pins of every user are distinct, and no more than the limit.
  abbrev pub HasGoodPins : DbUser → Type 0
  HasGoodPins u = IsDistinct (pins_of u) × (length (pins_of u) ≤ config.max_pinned_servers)

  update_first-All :
      (P : DbUser → Type 0) (p : DbUser → Bool) (f : DbUser → DbUser) (us : List DbUser)
      (u : DbUser)
      → find? p us ≡ some u
      → P (f u)
      → All P us
      → All P (update_first p f us)
  unfolding find? update_first
  update_first-All P p f [] u found h hs = tt
  update_first-All P p f (x ∷ us) u found h hs = elim (Bool-cases (p x)) [
    | inl e ↦ rw e (subst (λ y. P (f y)) (ground (arith, e, found)) h, hs.1)
    | inr e ↦ rw e (hs.0, update_first-All P p f us u (ground (arith, e, found)) h hs.1)
  ]

  found-All :
      (P : DbUser → Type 0) (p : DbUser → Bool) (us : List DbUser) (u : DbUser)
      → find? p us ≡ some u
      → All P us
      → P u
  unfolding find?
  found-All P p [] u found hs = absurd (none≢some found)
  found-All P p (x ∷ us) u found hs = elim (Bool-cases (p x)) [
    | inl e ↦ subst P (ground (arith, e, found)) hs.0
    | inr e ↦ found-All P p us u (ground (arith, e, found)) hs.1
  ]

  pinned-HasGoodPins :
      (sid : String) (u : DbUser)
      → includes sid (pins_of u) ≡ false
      → leb config.max_pinned_servers (length (pins_of u)) ≡ false
      → HasGoodPins u
      → HasGoodPins (assign_user (pin_patch sid u) u)
  unfolding assign_user
  pinned-HasGoodPins sid u new room (distinct, bounded) =
      (IsDistinct-append (pins_of u) sid distinct new, rw length-append (ground arith))

  -- Where the pins of every user are distinct and within the limit, pinning leaves them so, whatever
  -- the answer.
  pub pin_server-HasGoodPins :
      (sid : String) (context : Context) (st : Store m)
      → All HasGoodPins (users_of m st)
      → All HasGoodPins (users_of m (pin_server m config sid context st).1)
  pin_server-HasGoodPins sid context st good = go (pin_server_cases sid context st)
    where
      go : {st' : Store m} → PinStep sid context st st' → All HasGoodPins (users_of m st')
      go (unchanged e) = rw e good
      go (pinned u found new room e) =
          let same = id_of_user _ (users_of m st) found in
          rw (e, users-update_user, same)
            (update_first-All HasGoodPins _ _ (users_of m st) u found
              (pinned-HasGoodPins sid u new room
                (found-All HasGoodPins _ (users_of m st) u found good))
              good)
