-- ===== src/Core/Js.antt =====
-- The values that `JSON.parse` yields, and `undefined`: what a request's body holds whatever the
-- TypeScript types say.
use text.Mathlib.Text.{◌==◌ as str_eq}
use tetrac_login_sdk.Prelude.{
  ℕ, zero, ◌≡◌, refl, Bool, true, false, List, [], ◌∷◌, ◌++◌, String, Text, codes, length,
  if◌then◌else◌,
}

mutual
  pub data Js : Type 0 where
    undefined null : Js
    bool : Bool → Js
    -- A number that is a natural number, -0 included.
    num : ℕ → Js
    -- Any other number, by its text: negative, or not an integer.
    other_num : Text → Js
    str : Text → Js
    arr : Items → Js
    obj : Fields → Js

  pub data Items : Type 0 where
    nil : Items
    item : Js → Items → Items

  pub data Fields : Type 0 where
    end : Fields
    field : String → Js → Fields → Fields

unfoldable pub items : Items → List Js
items nil = []
items (item v vs) = v ∷ items vs

-- `if (v)`
unfoldable pub truthy : Js → Bool
truthy undefined = false
truthy null = false
truthy (bool b) = b
truthy (num zero) = false
truthy (str []) = false
truthy _ = true

-- `v == null`
unfoldable pub nullish : Js → Bool
nullish undefined = true
nullish null = true
nullish _ = false

-- `v ?? w`
unfoldable pub default_to : Js → Js → Js
default_to undefined w = w
default_to null w = w
default_to v w = v

find_field : String → Fields → Js
find_field name end = undefined
find_field name (field k v fs) = if str_eq k name then v else find_field name fs

-- `v?.name` for a name that no prototype has. A text and an array have no such property.
unfoldable pub prop : String → Js → Js
unfolding find_field
prop name (obj fs) = find_field name fs
prop name _ = undefined

-- `v?.length`
unfoldable pub length_prop : Js → Js
unfolding prop items
length_prop (str s) = num (length s)
length_prop (arr vs) = num (length (items vs))
length_prop v = prop "length" v

-- An element under `join`, which writes nothing for `null` and `undefined`.
abbrev element : Js → Text → Text
element v text = if nullish v then [] else text

unfoldable mutual
  -- `String(v)`, the coercion of a template string and of a regular expression's `test`.
  pub to_text : (ℕ → Text) → Js → Text
  to_text number undefined = codes "undefined"
  to_text number null = codes "null"
  to_text number (bool true) = codes "true"
  to_text number (bool false) = codes "false"
  to_text number (num n) = number n
  to_text number (other_num s) = s
  to_text number (str s) = s
  to_text number (arr nil) = []
  to_text number (arr (item v vs)) = element v (to_text number v) ++ join_rest number vs
  to_text number (obj fs) = codes "[object Object]"

  pub join_rest : (ℕ → Text) → Items → Text
  join_rest number nil = []
  join_rest number (item v vs) = codes "," ++ (element v (to_text number v) ++ join_rest number vs)

pub to_text-str : (number : ℕ → Text) (s : Text) → to_text number (str s) ≡ s
unfolding to_text
to_text-str number s = refl
