-- ===== src/Base/Text.antt =====
-- String methods: trim and the tests of the regular expressions that the program uses.
use Prim.Native.Nat.{ℕ}
use Prim.Native.Char.{Char, code}
use Prim.Native.String.{String}
use Prim.Native.String
use mathlib.Core.Path.{◌≡◌, refl}
use mathlib.Core.List.{List, [], ◌∷◌}
use native.Mathlib.Omega.{arith}
use text.Mathlib.TextLemmas.{cons-append, nil-append}
use mathlib.Core.Bool.{Bool, true, false, not, ◌&&◌, ◌||◌}
use rw_manager_backend.Base.Tests.{leb, nat_eq, if◌then◌else◌}

-- White space and line terminators of ECMAScript.
unfoldable pub is_space : Char → Bool
is_space c =
    (leb 9 (code c) && leb (code c) 13)
    || nat_eq (code c) 32
    || nat_eq (code c) 0xa0
    || nat_eq (code c) 0x1680
    || (leb 0x2000 (code c) && leb (code c) 0x200a)
    || nat_eq (code c) 0x2028
    || nat_eq (code c) 0x2029
    || nat_eq (code c) 0x202f
    || nat_eq (code c) 0x205f
    || nat_eq (code c) 0x3000
    || nat_eq (code c) 0xfeff

unfoldable pub trim_start : String → String
trim_start String.[] = String.[]
trim_start (String.◌∷◌ c s) = let rest = trim_start s in if is_space c then rest else String.◌∷◌ c s

abbrev trim_cons : Char → String → String
trim_cons c String.[] = if is_space c then String.[] else String.◌∷◌ c String.[]
trim_cons c (String.◌∷◌ d s) = String.◌∷◌ c (String.◌∷◌ d s)

unfoldable pub trim_end : String → String
trim_end String.[] = String.[]
trim_end (String.◌∷◌ c s) = trim_cons c (trim_end s)

-- s.trim()
unfoldable pub trim : String → String
unfolding trim_start trim_end is_space
trim s = trim_end (trim_start s)

unfoldable pub is_digit : Char → Bool
is_digit c = leb b'0' (code c) && leb (code c) b'9'

unfoldable pub is_lower : Char → Bool
is_lower c = leb b'a' (code c) && leb (code c) b'z'

unfoldable pub is_upper : Char → Bool
is_upper c = leb b'A' (code c) && leb (code c) b'Z'

-- Every character passes.
unfoldable pub all_chars : (Char → Bool) → String → Bool
all_chars p String.[] = true
all_chars p (String.◌∷◌ c s) = p c && all_chars p s

-- The first character passes `p`, and the others, at most `n`, pass `q`.
unfoldable pub headed : (Char → Bool) → (Char → Bool) → ℕ → String → Bool
headed p q n String.[] = false
headed p q n (String.◌∷◌ c s) = p c && all_chars q s && leb (Prim.Native.String.count s) n

abbrev is_char : Char → Char → Bool
is_char d c = nat_eq (code c) (code d)

abbrev put_char : Char → List String → List String
put_char c [] = String.◌∷◌ c String.[] ∷ []
put_char c (s ∷ ss) = String.◌∷◌ c s ∷ ss

-- s.split(d)
unfoldable pub split_on : Char → String → List String
split_on d String.[] = "" ∷ []
split_on d (String.◌∷◌ c s) =
    let rest = split_on d s in if is_char d c then "" ∷ rest else put_char c rest

unfoldable pub lacks : Char → String → Bool
unfolding all_chars
lacks d s = all_chars (λ c. not (is_char d c)) s

-- The text before the first separator is the first part.
pub split_on-append :
    (d : Char) (s t : String)
    → lacks d s ≡ true
    → split_on d (String.◌++◌ s (String.◌∷◌ d t)) ≡ s ∷ split_on d t
unfolding split_on lacks all_chars
split_on-append d String.[] t h = rw (nil-append (String.◌∷◌ d t)) (ground arith)
split_on-append d (String.◌∷◌ c s) t h =
    let ih = split_on-append d s t (ground (arith, h)) in
    rw (cons-append c s (String.◌∷◌ d t)) (ground (arith, ih, h))

pub split_on-lacks : (d : Char) (s : String) → lacks d s ≡ true → split_on d s ≡ s ∷ []
unfolding split_on lacks all_chars
split_on-lacks d String.[] h = refl
split_on-lacks d (String.◌∷◌ c s) h =
    let ih = split_on-lacks d s (ground (arith, h)) in ground (arith, ih, h)
