-- ===== src/Auth/Steam/Fallback.antt =====
-- The search for a free name ends, with a free name.
use rw_manager_backend.Base.{
  ℕ, zero, suc, String, true, false, not, Option, none, some, List, [], ◌∷◌, ◌+◌, ◌≤◌, ◌<◌, ◌≢◌,
  length, includes, filter, find?, is_some, str_eq, eq_iff, if◌then◌else◌, arith, ◌≡◌, refl, sym,
  ap, ◌∙◌, Bool-cases, inl, inr,
}
use rw_manager_backend.Data.User.{DbUser}
use rw_manager_backend.Config.{AppConfig}
use rw_manager_backend.Store.State.{MongoCollections, Store, users_of}
use rw_manager_backend.Store.Users.{has_username, list_users}
use rw_manager_backend.Store.Users.Views.{find_user_by_username-view, list_users-view}
use rw_manager_backend.Auth.Account.{AuthHost}
use rw_manager_backend.Auth.Account.Names.{names}
use rw_manager_backend.Auth.Steam.{
  fallback_name, steam_name, first_free, next_steam_fallback_username,
}

abbrev but : String → List String → List String
but x xs = filter (λ y. not (str_eq y x)) xs

length-but-le : (x : String) (xs : List String) → length (but x xs) ≤ length xs
unfolding filter
length-but-le x [] = ground arith
length-but-le x (y ∷ ys) = ground (arith, length-but-le x ys)

length-but : (x : String) (xs : List String) → includes x xs ≡ true → length (but x xs) < length xs
unfolding includes filter
length-but x [] h = cc
length-but x (y ∷ ys) h =
    ground (arith, h, length-but x ys, length-but-le x ys, eq_iff x y, eq_iff y x)

includes-but : (x y : String) (xs : List String) → y ≢ x → includes y (but x xs) ≡ includes y xs
unfolding includes filter
includes-but x y [] ne = refl
includes-but x y (z ∷ zs) ne =
    ground (arith, includes-but x y zs ne, eq_iff z x, eq_iff z y, eq_iff y z, ne)

module _ (f : ℕ → String) (apart : (i j : ℕ) → f i ≡ f j → i ≡ j) where
  -- The first of f i, f (i + 1), ... that is not in the list.
  missing : (turns i : ℕ) → List String → Option String
  missing zero i xs = none
  missing (suc turns) i xs =
      let rest = missing turns (i + 1) xs in if includes (f i) xs then rest else some (f i)

  missing-but :
      (turns i k : ℕ) (xs : List String)
      → k < i
      → missing turns i (but (f k) xs) ≡ missing turns i xs
  unfolding missing
  missing-but zero i k xs h = refl
  missing-but (suc turns) i k xs h =
      let same = includes-but (f k) (f i) xs (λ e. omega (arith, h, apart i k e)) in
      let ih = missing-but turns (i + 1) k xs (omega (arith, h)) in ground (arith, same, ih)

  missing-found :
      (turns i : ℕ) (xs : List String)
      → length xs < turns
      → (j : ℕ) × (i ≤ j) × (missing turns i xs ≡ some (f j)) × (includes (f j) xs ≡ false)
  unfolding missing
  missing-found zero i xs h = absurd (omega (arith, h))
  missing-found (suc turns) i xs h = elim (Bool-cases (includes (f i) xs)) [
    | inr free ↦ (i, omega arith, ground (arith, free), free)
    | inl taken ↦
        let fewer = length-but (f i) xs taken in
        let (j, above, found, out) =
          missing-found turns (i + 1) (but (f i) xs) (omega (arith, fewer, h)) in
        let same = missing-but turns (i + 1) i xs (omega arith) in
        let other = includes-but (f i) (f j) xs (λ e. omega (arith, above, apart j i e)) in
        (j, omega (arith, above), ground (arith, taken, sym same ∙ found), sym other ∙ out)
  ]

includes-names :
    (n : String) (us : List DbUser) → is_some (find? (has_username n) us) ≡ includes n (names us)
unfolding find? includes
includes-names n [] = refl
includes-names n (u ∷ us) =
    ground (arith, includes-names n us, eq_iff u.username n, eq_iff n u.username)

length-names : (us : List DbUser) → length (names us) ≡ length us
length-names [] = refl
length-names (u ∷ us) = ap suc (length-names us)

free_of :
    (n : String) (us : List DbUser)
    → includes n (names us) ≡ false
    → find? (has_username n) us ≡ none
free_of n us h = none_of (find? (has_username n) us) (includes-names n us ∙ h)
  where
    none_of : (o : Option DbUser) → is_some o ≡ false → o ≡ none
    none_of none h = refl
    none_of (some u) h = cc

module _ (m : MongoCollections) (config : AppConfig) (host : AuthHost) (show : ℕ → String) where
  first_free-missing :
      (base : String)
      (apart : (i j : ℕ) → fallback_name show base i ≡ fallback_name show base j → i ≡ j)
      (turns i : ℕ) (st : Store m)
      → first_free m config host show turns i base st
        ≡ missing (fallback_name show base) apart turns i (names (users_of m st))
  unfolding first_free missing
  first_free-missing base apart zero i st = refl
  first_free-missing base apart (suc turns) i st =
      let ih = first_free-missing base apart turns (i + 1) st in
      let taken =
        ap is_some (find_user_by_username-view m (fallback_name show base i) st)
        ∙ includes-names (fallback_name show base i) (users_of m st) in
      ground (arith, ih, taken)

  -- Where the names that are tried are distinct, the search for a name of a new Steam account ends
  -- within one turn more than there are users, with a name that no user has.
  pub next_steam_fallback_username-free :
      (steam : String) (st : Store m)
      → ((i j : ℕ)
          → fallback_name show (steam_name steam) i ≡ fallback_name show (steam_name steam) j
          → i ≡ j)
      → (n : String) × (next_steam_fallback_username m config host show steam st ≡ some n)
        × (find? (has_username n) (users_of m st) ≡ none)
  unfolding next_steam_fallback_username
  next_steam_fallback_username-free steam st apart =
      let turns = suc (length (list_users m st)) in
      let enough = ap length (list_users-view m st) ∙ sym (length-names (users_of m st)) in
      let (j, above, found, out) =
        missing-found (fallback_name show (steam_name steam)) apart turns 0 (names (users_of m st))
          (omega (arith, enough)) in
      (
        fallback_name show (steam_name steam) j,
        first_free-missing (steam_name steam) apart turns 0 st ∙ found,
        free_of _ (users_of m st) out,
      )
