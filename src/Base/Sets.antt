-- ===== src/Base/Sets.antt =====
-- Facts about sets of strings.
use Prim.Native.String.{String}
use mathlib.Core.Path.{◌≡◌, refl}
use mathlib.Core.Bool.{false, ◌||◌}
use mathlib.Core.List.{List, [], ◌∷◌, ◌++◌}
use native.Mathlib.Omega.{arith}
use text.Mathlib.TextEquality.{eq_iff}
use rw_manager_backend.Base.Tests.{if◌then◌else◌}
use rw_manager_backend.Base.Lists.{includes, unique_from, unique}

-- No string stands twice.
abbrev pub IsDistinct : List String → Type 0
IsDistinct [] = Unit
IsDistinct (x ∷ xs) = (includes x xs ≡ false) × IsDistinct xs

includes-unique_from :
    (seen xs : List String) (s : String)
    → includes s (unique_from seen xs) ≡ (if includes s seen then false else includes s xs)
unfolding includes unique_from
includes-unique_from seen [] s = ground arith
includes-unique_from seen (x ∷ xs) s =
    ground (arith, includes-unique_from seen xs s, includes-unique_from (x ∷ seen) xs s, eq_iff x s)

-- A set of strings has the strings of the list.
pub includes-unique : (xs : List String) (s : String) → includes s (unique xs) ≡ includes s xs
unfolding includes unique
includes-unique xs s = includes-unique_from [] xs s

unique_from-IsDistinct : (seen xs : List String) → IsDistinct (unique_from seen xs)
unfolding unique_from includes
unique_from-IsDistinct seen [] = tt
unique_from-IsDistinct seen (x ∷ xs) = ground (
  arith,
  unique_from-IsDistinct seen xs,
  unique_from-IsDistinct (x ∷ seen) xs,
  includes-unique_from (x ∷ seen) xs x,
  eq_iff x x,
)

-- No string stands twice in `[...new Set(xs)]`.
pub unique-IsDistinct : (xs : List String) → IsDistinct (unique xs)
unfolding unique
unique-IsDistinct xs = unique_from-IsDistinct [] xs

pub includes-append :
    (xs ys : List String) (s : String) → includes s (xs ++ ys) ≡ (includes s xs || includes s ys)
unfolding includes
includes-append [] ys s = refl
includes-append (x ∷ xs) ys s = ground (arith, includes-append xs ys s)

-- A new string at the end keeps a list of distinct strings distinct.
pub IsDistinct-append :
    (xs : List String) (s : String)
    → IsDistinct xs
    → includes s xs ≡ false
    → IsDistinct (xs ++ s ∷ [])
unfolding includes
IsDistinct-append [] s h new = (refl, tt)
IsDistinct-append (x ∷ xs) s h new =
    ground
      (arith, includes-append xs (s ∷ []) x, eq_iff s x, eq_iff x s, IsDistinct-append xs s h.1)
