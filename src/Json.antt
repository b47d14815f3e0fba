-- ===== src/Json.antt =====
-- The values that `JSON.parse` returns and `JSON.stringify` writes, with the accessors that the
-- readers of the state files use. Numbers are integers: a fractional number, which the program never
-- writes to a state file, is not modelled. A property that is absent, or not of the wanted type, is `none`.
use discord_copilot_sdk.Base.{
  ◌≡◌, refl, ap, ℤ, Bool, String, List, [], ◌∷◌, Option, none, some, ◌==◌, if◌then◌else◌, ◌>>=◌,
  string_eq,
}

mutual
  pub data Json : Type 0 where
    null : Json
    bool : Bool → Json
    num : ℤ → Json
    str : String → Json
    arr : Items → Json
    obj : Fields → Json

  pub data Items : Type 0 where
    nil : Items
    cons : Json → Items → Items

  pub data Fields : Type 0 where
    end : Fields
    field : String → Json → Fields → Fields

abbrev pub elems : Items → List Json
elems nil = []
elems (cons v vs) = v ∷ elems vs

abbrev pub items_of : List Json → Items
items_of [] = nil
items_of (v ∷ vs) = cons v (items_of vs)

pub elems-items_of : (vs : List Json) → elems (items_of vs) ≡ vs
elems-items_of [] = refl
elems-items_of (v ∷ vs) = ap (◌∷◌ v) (elems-items_of vs)

-- `o[key]`
unfoldable pub prop : String → Fields → Option Json
prop key end = none
prop key (field k v fs) = if k == key then some v else prop key fs

-- `v && typeof v === "object" && !Array.isArray(v)`
abbrev pub as_object : Json → Option Fields
as_object (obj fs) = some fs
as_object _ = none

abbrev pub as_array : Json → Option (List Json)
as_array (arr vs) = some (elems vs)
as_array _ = none

abbrev pub as_string : Json → Option String
as_string (str s) = some s
as_string _ = none

abbrev pub as_number : Json → Option ℤ
as_number (num n) = some n
as_number _ = none

abbrev pub str_prop : String → Fields → Option String
str_prop key fs = prop key fs >>= as_string

abbrev pub num_prop : String → Fields → Option ℤ
num_prop key fs = prop key fs >>= as_number

abbrev pub arr_prop : String → Fields → Option (List Json)
arr_prop key fs = prop key fs >>= as_array

-- What `fs.readFileSync` and `JSON.parse` make of a state file.
pub data Content : Type 0 where
  missing : Content
  unreadable : Content
  malformed : Content
  parsed : Json → Content
