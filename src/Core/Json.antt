-- ===== src/Core/Json.antt =====
-- Parsed JSON, as `JSON.parse` returns it, and reading a property of it. A number of a document is
-- a whole number from 0 on.
use nap.Base.{ℕ, Option, none, some, if◌then◌else◌, ◌>>=◌, List, [], ◌∷◌, Bool}
use nap.Text.{Text, ◌==◌}

mutual
  pub data Json : Type 0 where
    null : Json
    bool : Bool → Json
    num : ℕ → Json
    str : Text → Json
    arr : Items → Json
    obj : Fields → Json

  pub data Items : Type 0 where
    nil : Items
    cons : Json → Items → Items

  pub data Fields : Type 0 where
    end : Fields
    field : Text → Json → Fields → Fields

unfoldable pub find_field : Text → Fields → Option Json
find_field k end = none
find_field k (field j v fs) = if j == k then some v else find_field k fs

-- `json[key]`; nothing but an object has a property that the program reads.
abbrev pub property : Text → Json → Option Json
property k (obj fs) = find_field k fs
property k _ = none

abbrev pub as_text : Json → Option Text
as_text (str s) = some s
as_text _ = none

abbrev pub as_number : Json → Option ℕ
as_number (num n) = some n
as_number _ = none

abbrev pub text_property : Text → Json → Option Text
text_property k j = do v ← property k j; as_text v

abbrev pub number_property : Text → Json → Option ℕ
number_property k j = do v ← property k j; as_number v

unfoldable pub as_texts : Items → Option (List Text)
as_texts nil = some []
as_texts (cons j js) = do s ← as_text j; rest ← as_texts js; some (s ∷ rest)

abbrev as_tag : Json → Option (List Text)
as_tag (arr items) = as_texts items
as_tag _ = none

unfoldable pub as_tags : Items → Option (List (List Text))
as_tags nil = some []
as_tags (cons j js) = do tag ← as_tag j; rest ← as_tags js; some (tag ∷ rest)

-- `isStringArrayArray(value)`, with the strings that it finds.
abbrev pub string_array_array : Json → Option (List (List Text))
string_array_array (arr items) = as_tags items
string_array_array _ = none
