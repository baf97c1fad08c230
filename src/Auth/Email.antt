-- ===== src/Auth/Email.antt =====
-- The validators of sign-up: /^[^\s@]+@[^\s@]+\.[^\s@]+$/ and src/utils/normalize-steam-id.ts.
use Prim.Native.Char.{Char, code}
use rw_manager_backend.Base.{
  ℕ, String, Bool, true, false, not, ◌&&◌, ◌||◌, Option, none, some, ◌+◌, ◌-◌, ◌*◌, ◌^◌, ltb,
  nat_eq, str_eq, is_space, is_digit, all_chars, trim, if◌then◌else◌,
}

-- [^\s@]
abbrev is_email_char : Char → Bool
is_email_char c = not (is_space c || nat_eq (code c) b'@')

-- A dot with a character before and after it: `first` is whether this is the first character.
dotted : Bool → String → Bool
dotted first String.[] = false
dotted first (String.◌∷◌ c s) =
    let rest = dotted false s in (not first && nat_eq (code c) b'.' && not (str_eq s "")) || rest

-- What follows the local part.
abbrev domain : String → Bool
domain s = all_chars is_email_char s && dotted true s

local : Bool → String → Bool
unfolding dotted
local empty String.[] = false
local empty (String.◌∷◌ c s) =
    let rest = local false s in
    if nat_eq (code c) b'@' then not empty && domain s else is_email_char c && rest

unfoldable pub is_email : String → Bool
unfolding local
is_email s = local true s

-- BigInt(digits)
decimal : ℕ → String → ℕ
decimal n String.[] = n
decimal n (String.◌∷◌ c s) = decimal (n * 10 + (code c - b'0')) s

-- A trimmed text of digits, at most 2 ^ 64 - 1.
unfoldable pub normalize_steam_id : String → Option String
unfolding decimal
normalize_steam_id value =
    let steam = trim value in
    if str_eq steam "" || not (all_chars is_digit steam) || ltb (2 ^ 64 - 1) (decimal 0 steam)
    then none
    else some steam
