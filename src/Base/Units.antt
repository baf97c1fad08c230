-- ===== src/Base/Units.antt =====
-- The UTF-16 code units of a string, which `length` counts and `sort` compares, and its UTF-8 bytes.
use Prim.Native.Nat.{ℕ, ◌+◌, ◌-◌, ◌/◌, ◌%◌}
use Prim.Native.Char.{code}
use Prim.Native.String.{String}
use mathlib.Core.Path.{◌≡◌, refl, ◌∙◌}
use mathlib.Core.Bool.{Bool, true, false, ◌||◌}
use mathlib.Core.List.{List, [], ◌∷◌}
use native.Mathlib.Omega.{arith}
use text.Mathlib.Text.{◌==◌ as str_eq}
use text.Mathlib.TextEquality.{eq_iff}
use rw_manager_backend.Base.Tests.{if◌then◌else◌, ltb, nat_eq}
use rw_manager_backend.Base.Lists.{length, includes}
use rw_manager_backend.Base.Sets.{IsDistinct}

-- A character beyond the basic plane is a surrogate pair.
unfoldable pub units : String → List ℕ
units String.[] = []
units (String.◌∷◌ c s) =
    let rest = units s in
    if ltb (code c) 0x10000
    then code c ∷ rest
    else (0xd800 + (code c - 0x10000) / 0x400) ∷ (0xdc00 + (code c - 0x10000) % 0x400) ∷ rest

unfoldable pub utf16_length : String → ℕ
unfolding units
utf16_length s = length (units s)

-- Buffer.byteLength(s)
unfoldable pub byte_length : String → ℕ
byte_length String.[] = 0
byte_length (String.◌∷◌ c s) = width (code c) + byte_length s
  where
    width : ℕ → ℕ
    width n = if ltb n 0x80 then 1 else if ltb n 0x800 then 2 else if ltb n 0x10000 then 3 else 4

abbrev before : List ℕ → List ℕ → Bool
before [] [] = false
before [] (n ∷ ns) = true
before (m ∷ ms) [] = false
before (m ∷ ms) (n ∷ ns) = let rest = before ms ns in if nat_eq m n then rest else ltb m n

-- The order of `sort()` without a comparison.
unfoldable pub sorts_before : String → String → Bool
unfolding units
sorts_before s t = before (units s) (units t)

abbrev insert : String → List String → List String
insert s [] = s ∷ []
insert s (t ∷ ts) = let rest = insert s ts in if sorts_before t s then t ∷ rest else s ∷ t ∷ ts

-- xs.sort()
unfoldable pub sort : List String → List String
sort [] = []
sort (s ∷ ss) = insert s (sort ss)

includes-insert :
    (x s : String) (ts : List String) → includes x (insert s ts) ≡ (str_eq s x || includes x ts)
unfolding includes
includes-insert x s [] = ground arith
includes-insert x s (t ∷ ts) = ground (arith, includes-insert x s ts)

pub includes-sort : (x : String) (ss : List String) → includes x (sort ss) ≡ includes x ss
unfolding includes sort
includes-sort x [] = refl
includes-sort x (s ∷ ss) = includes-insert x s (sort ss) ∙ ground (arith, includes-sort x ss)

insert-IsDistinct :
    (s : String) (ts : List String)
    → includes s ts ≡ false
    → IsDistinct ts
    → IsDistinct (insert s ts)
unfolding includes
insert-IsDistinct s [] new h = (refl, tt)
insert-IsDistinct s (t ∷ ts) new h =
    ground (arith, insert-IsDistinct s ts, includes-insert t s ts, eq_iff s t, eq_iff t s)

pub sort-IsDistinct : (ss : List String) → IsDistinct ss → IsDistinct (sort ss)
unfolding includes sort
sort-IsDistinct [] h = tt
sort-IsDistinct (s ∷ ss) h =
    insert-IsDistinct s (sort ss) (includes-sort s ss ∙ h.0) (sort-IsDistinct ss h.1)

length-insert : (s : String) (ts : List String) → length (insert s ts) ≡ 1 + length ts
length-insert s [] = ground arith
length-insert s (t ∷ ts) = ground (arith, length-insert s ts)

pub length-sort : (ss : List String) → length (sort ss) ≡ length ss
unfolding sort
length-sort [] = refl
length-sort (s ∷ ss) = omega (arith, length-insert s (sort ss), length-sort ss)

-- Each string is not after the one that follows it.
abbrev pub IsSorted : List String → Type 0
IsSorted [] = Unit
IsSorted (s ∷ []) = Unit
IsSorted (s ∷ t ∷ ts) = (sorts_before t s ≡ false) × IsSorted (t ∷ ts)

before_asym : (ms ns : List ℕ) → before ms ns ≡ true → before ns ms ≡ false
before_asym [] [] h = ground (arith, h)
before_asym [] (n ∷ ns) h = refl
before_asym (m ∷ ms) [] h = ground (arith, h)
before_asym (m ∷ ms) (n ∷ ns) h = ground (arith, h, before_asym ms ns)

insert-IsSorted : (s : String) (ts : List String) → IsSorted ts → IsSorted (insert s ts)
unfolding sorts_before
insert-IsSorted s [] h = tt
insert-IsSorted s (t ∷ []) h = ground (arith, before_asym (units t) (units s))
insert-IsSorted s (t ∷ u ∷ ts) h =
    ground (arith, before_asym (units t) (units s), insert-IsSorted s (u ∷ ts) h.1)

pub sort-IsSorted : (ss : List String) → IsSorted (sort ss)
unfolding sort
sort-IsSorted [] = tt
sort-IsSorted (s ∷ ss) = insert-IsSorted s (sort ss) (sort-IsSorted ss)
