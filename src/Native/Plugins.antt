-- ===== src/Native/Plugins.antt =====
-- service/native-plugin-list.ts: the list of plugins that a game server has. JSON.parse and
-- toLowerCase, which are of the language, are arguments.
use Prim.Native.Char.{Char, code}
use mathlib.Core.Option
use rw_manager_backend.Base.{
  String, Bool, true, false, not, ◌&&◌, ◌||◌, Option, none, some, List, [], ◌∷◌, any, nat_eq,
  str_eq, trim, trim_start, is_space, is_digit, is_lower, is_upper, or_else, if◌then◌else◌,
}
use rw_manager_backend.Data.Value.{Value, get, text?, array?}
use rw_manager_backend.Auth.Token.{strip_word}

pub record QueryPluginInfo : Type 0 where
  pub name : String
  pub version : Option String
  pub valid : Bool

abbrev is_cr : Char → Bool
is_cr c = nat_eq (code c) 13

abbrev is_lf : Char → Bool
is_lf c = nat_eq (code c) 10

-- \n as two characters, and the rest
abbrev escaped_break : String → String
escaped_break s = String.◌∷◌ "\\" (String.◌∷◌ "n" s)

-- The loop of escapeLiteralStringNewlines. `skip` holds after a carriage return that was replaced: a
-- line feed that follows it is passed over.
unfoldable pub escape_from : (in_string escaped skip : Bool) → String → String
escape_from in_string escaped skip String.[] = String.[]
escape_from in_string escaped skip (String.◌∷◌ c s) =
    let skipped = escape_from in_string escaped false s in
    let replaced_cr = escape_from in_string escaped true s in
    let after_escape = escape_from in_string false false s in
    let to_escape = escape_from in_string true false s in
    let toggled = escape_from (not in_string) false false s in
    if skip && is_lf c
    then skipped
    else if in_string && is_cr c
    then escaped_break replaced_cr
    else if in_string && is_lf c
    then escaped_break skipped
    else String.◌∷◌ c (
        if escaped
        then after_escape
        else if nat_eq (code c) b'\\'
        then to_escape
        else if nat_eq (code c) b'"'
        then toggled
        else after_escape)

unfoldable pub escape_literal_string_newlines : String → String
unfolding escape_from
escape_literal_string_newlines raw = escape_from false false false raw

abbrev pub replace_space : String → String
replace_space String.[] = String.[]
replace_space (String.◌∷◌ c s) =
    let rest = replace_space s in String.◌∷◌ (if nat_eq (code c) 32 then "-" else c) rest

-- The states in which a version is read: at the start, after `v`, in digits, after a point, after a
-- sign, and in the part that follows a sign.
pub data VersionState : Type 0 where
  start after_v digits point sign suffix : VersionState

abbrev is_sign : Char → Bool
is_sign c = nat_eq (code c) b'+' || nat_eq (code c) b'-'

abbrev is_point : Char → Bool
is_point c = nat_eq (code c) b'.'

-- [0-9A-Za-z.-]
abbrev is_suffix : Char → Bool
is_suffix c = is_digit c || is_lower c || is_upper c || is_point c || nat_eq (code c) b'-'

abbrev next_state : VersionState → Char → Option VersionState
next_state start c =
    if nat_eq (code c) b'v' then some after_v else if is_digit c then some digits else none
next_state after_v c = if is_digit c then some digits else none
next_state digits c =
    if is_digit c
    then some digits
    else if is_point c
    then some point
    else if is_sign c
    then some sign
    else none
next_state point c = if is_digit c then some digits else none
next_state sign c = if is_suffix c then some suffix else none
next_state suffix c = if is_suffix c then some suffix else if is_sign c then some sign else none

abbrev accepts : VersionState → Bool
accepts digits = true
accepts suffix = true
accepts s = false

pub reads : Option VersionState → String → Bool
reads none s = false
reads (some state) String.[] = accepts state
reads (some state) (String.◌∷◌ c s) = reads (next_state state c) s

-- /^v?\d+(?:\.\d+)*(?:[-+][0-9A-Za-z.-]+)*$/
unfoldable pub is_plain_version : String → Bool
unfolding reads
is_plain_version s = reads (some start) s

-- [^\s]+
take_word : String → String
take_word String.[] = String.[]
take_word (String.◌∷◌ c s) =
    let rest = take_word s in if is_space c then String.[] else String.◌∷◌ c rest

abbrev filled : String → Option String
filled s = if str_eq s "" then none else some s

-- :\s*([^\s]+)
after_colon : String → Option String
unfolding take_word
after_colon String.[] = none
after_colon (String.◌∷◌ c s) =
    if nat_eq (code c) b':' then filled (take_word (trim_start s)) else none

after_star : String → String
after_star String.[] = String.[]
after_star (String.◌∷◌ c s) = if nat_eq (code c) b'*' then trim_start s else String.◌∷◌ c s

-- \s*(?:\*\s*)?Version\s*:\s*([^\s]+), with the capture
abbrev version_here : String → Option String
version_here s =
    Option.bind (strip_word "version" (after_star (trim_start s)))
      (λ rest. after_colon (trim_start rest))

-- The same at the start of the string, or after the first line feed where it matches.
pub version_from : Bool → String → Option String
unfolding after_star after_colon
version_from at_start String.[] = none
version_from at_start (String.◌∷◌ c s) =
    let rest = version_from (is_lf c) s in
    if at_start then or_else (version_here (String.◌∷◌ c s)) rest else rest

abbrev pub manifest_version : Option String → Option String
manifest_version none = none
manifest_version (some value) =
    if is_plain_version value then some value else version_from true value

-- typeof value === 'string' && value.trim() ? value.trim() : undefined
abbrev pub non_blank_string : Value → Option String
non_blank_string v = Option.bind (text? v) (λ s. filled (trim s))

abbrev plugin_of : Value → Option String → List QueryPluginInfo → List QueryPluginInfo
plugin_of v none rest = rest
plugin_of v (some name) rest =
    record {
      name = name;
      version = manifest_version (non_blank_string (get "version" v));
      valid = true;
    }
    ∷ rest

abbrev plugins_of : List Value → List QueryPluginInfo
plugins_of [] = []
plugins_of (v ∷ vs) = plugin_of v (non_blank_string (get "name" v)) (plugins_of vs)

module _ (parse_json : String → Option Value) where
  unfoldable pub parse_json_with_escaped_string_newlines : String → Option Value
  unfolding escape_literal_string_newlines
  parse_json_with_escaped_string_newlines raw =
      or_else (parse_json raw) (parse_json (escape_literal_string_newlines raw))

  unfoldable pub parse_native_plugin_list : String → Option (List QueryPluginInfo)
  unfolding parse_json_with_escaped_string_newlines
  parse_native_plugin_list raw =
      Option.map plugins_of
        (Option.bind (parse_json_with_escaped_string_newlines raw) (λ v. array? (get "plugins" v)))

module _ (to_lower_case : String → String) where
  abbrev pub native_plugin_route_id : String → String
  native_plugin_route_id name = replace_space (to_lower_case name)

  unfoldable pub has_native_plugin_route : Option (List QueryPluginInfo) → String → Bool
  has_native_plugin_route none route = false
  has_native_plugin_route (some plugins) route =
      any
        (λ (p : QueryPluginInfo).
          p.valid && not (str_eq p.name "") && str_eq (native_plugin_route_id p.name) route)
        plugins
