-- ===== src/Data/Value.antt =====
-- A value of TypeScript's `unknown`, as JSON.parse yields it, with `undefined` for a missing property.
-- Numbers: `nat n` is n, `negative n` is -(n + 1), `inexact` is any number that is no integer.
use rw_manager_backend.Base.{
  ℕ, String, Bool, false, Option, none, some, List, [], ◌∷◌, str_eq, nat_eq, trim, if◌then◌else◌,
}

pub data Number : Type 0 where
  nat negative : ℕ → Number
  inexact : String → Number

mutual
  pub data Value : Type 0 where
    undefined null : Value
    bool : Bool → Value
    num : Number → Value
    text : String → Value
    array : Items → Value
    object : Props → Value

  pub data Items : Type 0 where
    nil : Items
    cons : Value → Items → Items

  pub data Props : Type 0 where
    end : Props
    prop : String → Value → Props → Props

abbrev pub elems : Items → List Value
elems nil = []
elems (cons v vs) = v ∷ elems vs

abbrev pub property : String → Props → Value
property k end = undefined
property k (prop j v ps) = if str_eq j k then v else property k ps

-- value[key]; a value that is no object has none of the properties that the program reads.
abbrev pub get : String → Value → Value
get k (object ps) = property k ps
get k v = undefined

-- typeof value === 'string', with the string
abbrev pub text? : Value → Option String
text? (text s) = some s
text? v = none

-- Array.isArray(value), with the elements
abbrev pub array? : Value → Option (List Value)
array? (array vs) = some (elems vs)
array? v = none

-- value !== undefined, with the value
abbrev pub defined? : Value → Option Value
defined? undefined = none
defined? v = some v

-- value === 1
abbrev pub is_one : Value → Bool
is_one (num (nat n)) = nat_eq n 1
is_one v = false

-- The string without the white space around it, unless that is empty.
abbrev pub filled : Option String → Option String
filled none = none
filled (some s) = if str_eq (trim s) "" then none else some (trim s)
