-- ===== src/Base/Lists.antt =====
-- Array methods over Boolean tests: find, filter, some, every, map by id, and Set of strings.
use Prim.Native.Nat.{ℕ, suc, ◌+◌, ◌≤◌}
use Prim.Native.String.{String}
use mathlib.Core.Path.{◌≡◌, refl}
use mathlib.Core.Logic.{inl, inr}
use mathlib.Core.Bool.{Bool, true, false, ◌&&◌, ◌||◌}
use mathlib.Core.Option.{Option, none, some}
use mathlib.Core.Option
use mathlib.Core.List.{List, [], ◌∷◌, ◌++◌}
use native.Mathlib.Omega.{arith}
use text.Mathlib.Text.{◌==◌ as str_eq}
use rw_manager_backend.Base.Tests.{if◌then◌else◌, get_or, Bool-cases}

module _ {ℓ} {A : Type ℓ} where
  abbrev pub length : List A → ℕ
  length [] = 0
  length (x ∷ xs) = suc (length xs)

  -- xs.find(p)
  unfoldable pub find? : (A → Bool) → List A → Option A
  find? p [] = none
  find? p (x ∷ xs) = if p x then some x else find? p xs

  -- xs.filter(p)
  unfoldable pub filter : (A → Bool) → List A → List A
  filter p [] = []
  filter p (x ∷ xs) = if p x then x ∷ filter p xs else filter p xs

  -- xs.some(p)
  unfoldable pub any : (A → Bool) → List A → Bool
  any p [] = false
  any p (x ∷ xs) = p x || any p xs

  -- xs.every(p)
  unfoldable pub all : (A → Bool) → List A → Bool
  all p [] = true
  all p (x ∷ xs) = p x && all p xs

  -- xs[xs.findIndex(p)] = f(old), if there is one.
  unfoldable pub update_first : (A → Bool) → (A → A) → List A → List A
  update_first p f [] = []
  update_first p f (x ∷ xs) = if p x then f x ∷ xs else x ∷ update_first p f xs

  -- The same, and `a` at the end where nothing matches.
  unfoldable pub upsert : (A → Bool) → (A → A) → A → List A → List A
  upsert p f a [] = a ∷ []
  upsert p f a (x ∷ xs) = if p x then f x ∷ xs else x ∷ upsert p f a xs

  -- Without the first match.
  unfoldable pub remove_first : (A → Bool) → List A → List A
  remove_first p [] = []
  remove_first p (x ∷ xs) = if p x then xs else x ∷ remove_first p xs

  abbrev insert_by : (A → A → Bool) → A → List A → List A
  insert_by less x [] = x ∷ []
  insert_by less x (y ∷ ys) =
      let rest = insert_by less x ys in if less y x then y ∷ rest else x ∷ y ∷ ys

  -- xs.sort(compare), where `less x y` is compare(x, y) < 0; equal elements keep their order.
  unfoldable pub sort_by : (A → A → Bool) → List A → List A
  sort_by less [] = []
  sort_by less (x ∷ xs) = insert_by less x (sort_by less xs)

  abbrev pub All {κ} : (A → Type κ) → List A → Type κ
  All P [] = Unit
  All P (x ∷ xs) = P x × All P xs

  -- Every element that `find?` returns passes the test.
  pub find?-passes : (p : A → Bool) (xs : List A) {a : A} → find? p xs ≡ some a → p a ≡ true
  unfolding find?
  find?-passes p [] h = cc
  find?-passes p (x ∷ xs) {a} h = elim (Bool-cases (p x)) [
    | inl e ↦ ground (arith, e)
    | inr e ↦ find?-passes p xs (rw e at h)
  ]

  pub upsert_miss :
      (p : A → Bool) (f : A → A) (a : A) (xs : List A)
      → find? p xs ≡ none
      → upsert p f a xs ≡ xs ++ a ∷ []
  unfolding find? upsert
  upsert_miss p f a [] h = refl
  upsert_miss p f a (x ∷ xs) h = ground (arith, upsert_miss p f a xs)

  pub upsert_hit :
      (p : A → Bool) (f : A → A) (a b : A) (xs : List A)
      → find? p xs ≡ some b
      → upsert p f a xs ≡ update_first p f xs
  unfolding find? upsert update_first
  upsert_hit p f a b [] h = cc
  upsert_hit p f a b (x ∷ xs) h = ground (arith, upsert_hit p f a b xs)

  pub update_first_miss :
      (p : A → Bool) (f : A → A) (xs : List A) → find? p xs ≡ none → update_first p f xs ≡ xs
  unfolding find? update_first
  update_first_miss p f [] h = refl
  update_first_miss p f (x ∷ xs) h = ground (arith, update_first_miss p f xs)

  -- Only the first match is read when it is updated.
  pub update_first_congr :
      (p : A → Bool) (f g : A → A) (xs : List A) (a : A)
      → find? p xs ≡ some a
      → f a ≡ g a
      → update_first p f xs ≡ update_first p g xs
  unfolding find? update_first
  update_first_congr p f g [] a h e = refl
  update_first_congr p f g (x ∷ xs) a h e = ground (arith, update_first_congr p f g xs a)

  pub All-filter {κ} :
      (P : A → Type κ) (p : A → Bool) (xs : List A) → All P xs → All P (filter p xs)
  unfolding filter
  All-filter P p [] h = tt
  All-filter P p (x ∷ xs) h = ground (arith, All-filter P p xs h.1)

  pub All-passes : (p : A → Bool) (xs : List A) → All (λ x. p x ≡ true) (filter p xs)
  unfolding filter
  All-passes p [] = tt
  All-passes p (x ∷ xs) = ground (arith, All-passes p xs)

  pub length-filter-le : (p : A → Bool) (xs : List A) → length (filter p xs) ≤ length xs
  unfolding filter
  length-filter-le p [] = omega arith
  length-filter-le p (x ∷ xs) = ground (arith, length-filter-le p xs)

  pub length-append : (xs ys : List A) → length (xs ++ ys) ≡ length xs + length ys
  length-append [] ys = omega arith
  length-append (x ∷ xs) ys = omega (arith, length-append xs ys)

-- xs.includes(s), on strings
unfoldable pub includes : String → List String → Bool
includes s [] = false
includes s (x ∷ xs) = str_eq x s || includes s xs

-- The entries of `new Set(xs)` after those in `seen`: the first of each, in order.
unfoldable pub unique_from : List String → List String → List String
unique_from seen [] = []
unique_from seen (x ∷ xs) =
    let old = unique_from seen xs in
    let new = x ∷ unique_from (x ∷ seen) xs in if includes x seen then old else new

-- [...new Set(xs)]
unfoldable pub unique : List String → List String
unique xs = unique_from [] xs

module _ {A : Type 0} (p : A → Bool) (f : A → A) (a : A) where
  -- What an upsert writes is found, and nothing else that is found changes.
  pub find?-upsert_same :
      (xs : List A)
      → p a ≡ true
      → ((x : A) → p x ≡ true → p (f x) ≡ true)
      → find? p (upsert p f a xs) ≡ some (get_or (Option.map f (find? p xs)) a)
  unfolding find? upsert
  find?-upsert_same [] new keeps = rw new refl
  find?-upsert_same (x ∷ xs) new keeps = elim (Bool-cases (p x)) [
    | inl e ↦ rw (e, keeps x e) refl
    | inr e ↦ rw (e, e) (find?-upsert_same xs new keeps)
  ]

  pub find?-upsert_other :
      (q : A → Bool) (xs : List A)
      → q a ≡ false
      → ((x : A) → p x ≡ true → (q x ≡ false) × (q (f x) ≡ false))
      → find? q (upsert p f a xs) ≡ find? q xs
  unfolding find? upsert
  find?-upsert_other q [] new apart = rw new refl
  find?-upsert_other q (x ∷ xs) new apart = elim (Bool-cases (p x)) [
    | inl e ↦ rw (e, (apart x e).0, (apart x e).1) refl
    | inr e ↦ rw e (ground (arith, find?-upsert_other q xs new apart))
  ]

module _ {A : Type 0} (p : A → Bool) (f : A → A)
    (keeps : (x : A) → p x ≡ true → p (f x) ≡ true) where
  pub find?-update_first : (xs : List A) → find? p (update_first p f xs) ≡ Option.map f (find? p xs)
  unfolding find? update_first
  find?-update_first [] = refl
  find?-update_first (x ∷ xs) = elim (Bool-cases (p x)) [
    | inl e ↦ rw (e, keeps x e) refl
    | inr e ↦ rw (e, e) (find?-update_first xs)
  ]
