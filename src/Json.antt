-- ===== src/Json.antt =====
-- JSON values, as JSON.parse returns them, and what JavaScript reads of them. Numbers are the natural
-- ones; the parser and the printers themselves are the JavaScript engine's, and stand in `Codec`.
use text.Mathlib.Text.{◌==◌}
use delibera_xyz.Prelude.{
  ℕ, zero, suc, String, Bool, true, false, not, Option, none, some, List, [], ◌∷◌, map,
  if◌then◌else◌,
}
use delibera_xyz.Prelude.Text.{is_empty, ◌<>◌}

mutual
  pub data Json : Type 0 where
    null : Json
    bool : Bool → Json
    num : ℕ → Json
    str : String → Json
    arr : Items → Json
    obj : Fields → Json

  pub data Items : Type 0 where
    nil : Items
    cons : Json → Items → Items

  pub data Fields : Type 0 where
    end : Fields
    field : String → Json → Fields → Fields

-- JSON.parse (`none` where it throws), JSON.stringify and the decimal text of a number.
pub record Codec : Type 0 where
  pub parse : String → Option Json
  pub stringify : Json → String
  pub decimal : ℕ → String

abbrev pub items : List Json → Items
items [] = nil
items (j ∷ js) = cons j (items js)

abbrev pub list_of : Items → List Json
list_of nil = []
list_of (cons j js) = j ∷ list_of js

abbrev pub fields : List (String × Json) → Fields
fields [] = end
fields ((k, j) ∷ fs) = field k j (fields fs)

abbrev pub object : List (String × Json) → Json
object fs = obj (fields fs)

abbrev pub strings : List String → Json
strings ss = arr (items (map str ss))

-- `some null` is null and `none` is undefined.
abbrev pub find_field : String → Fields → Option Json
find_field k end = none
find_field k (field j v fs) = if j == k then some v else find_field k fs

-- `v?.k` on a value, for a name `k` that no built-in property has.
abbrev pub member : String → Json → Option Json
member k (obj fs) = find_field k fs
member k null = none
member k j = none

abbrev pub member? : String → Option Json → Option Json
member? k none = none
member? k (some j) = member k j

-- The truth of a value in a test; undefined is false.
abbrev pub truthy : Json → Bool
truthy null = false
truthy (bool b) = b
truthy (num zero) = false
truthy (num (suc n)) = true
truthy (str s) = not (is_empty s)
truthy (arr xs) = true
truthy (obj fs) = true

abbrev pub truthy? : Option Json → Bool
truthy? none = false
truthy? (some j) = truthy j

-- `v === s` for a text `s`.
abbrev pub is_text : Json → String → Bool
is_text (str t) s = t == s
is_text null s = false
is_text j s = false

-- `v ?? n` where the interfaces declare a number: undefined and null give way to `n`. A value of
-- another type, which the interfaces do not allow, is read as undefined.
abbrev pub number_or : Option Json → ℕ → ℕ
number_or (some (num m)) n = m
number_or none n = n
number_or (some j) n = n

-- `v || n` for a number.
abbrev pub number_or_else : Option Json → ℕ → ℕ
number_or_else (some (num (suc n))) d = suc n
number_or_else v d = d

-- `v || d`
abbrev pub value_or_else : Option Json → Json → Json
value_or_else none d = d
value_or_else (some j) d = if truthy j then j else d

-- A field that is left out if it is undefined.
abbrev pub given : String → Option Json → List (String × Json)
given k none = []
given k (some j) = (k, j) ∷ []

-- What an item adds to the text of its array: nothing, if it is null.
abbrev pub item_text : Json → String → String
item_text null s = ""
item_text j s = s

-- `${v}`: the text of a value in a template. In an array null gives the empty text.
unfoldable mutual
  pub template_text : Codec → Json → String
  template_text c null = "null"
  template_text c (bool b) = if b then "true" else "false"
  template_text c (num n) = c.decimal n
  template_text c (str s) = s
  template_text c (arr xs) = join_texts c xs
  template_text c (obj fs) = "[object Object]"

  pub join_texts : Codec → Items → String
  join_texts c nil = ""
  join_texts c (cons j js) = item_text j (template_text c j) <> join_rest c js

  pub join_rest : Codec → Items → String
  join_rest c nil = ""
  join_rest c (cons j js) = "," <> (item_text j (template_text c j) <> join_rest c js)
