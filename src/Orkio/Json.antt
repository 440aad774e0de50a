-- ===== src/Orkio/Json.antt =====
-- The JSON values that src/glip/integrations/orkio/contracts.py takes apart.
use arquitech_glip_premium_b.Prelude.{
  ℕ, zero, suc, Bool, true, false, Option, none, some, List, [], ◌∷◌, if◌then◌else◌, Text,
  same_text, is_empty, strip,
}

mutual
  pub data Value : Type 0 where
    null : Value
    boolean : Bool → Value
    number : ℕ → Value
    text : Text → Value
    array : Items → Value
    object : Fields → Value

  pub data Items : Type 0 where
    no_items : Items
    item : Value → Items → Items

  pub data Fields : Type 0 where
    no_fields : Fields
    field : Text → Value → Fields → Fields

-- `data.get(key)`
unfoldable pub get : Text → Fields → Option Value
get key no_fields = none
get key (field k v rest) = let later = get key rest in if same_text k key then some v else later

abbrev pub fields_of : List (Text × Value) → Fields
fields_of [] = no_fields
fields_of ((k, v) ∷ rest) = field k v (fields_of rest)

abbrev pub items_of : List Value → Items
items_of [] = no_items
items_of (v ∷ rest) = item v (items_of rest)

-- `value is True`
abbrev pub is_true : Option Value → Bool
is_true (some (boolean b)) = b
is_true _ = false

-- `isinstance(value, str) and value.strip()`, as the text.
abbrev pub filled : Option Value → Option Text
filled (some (text t)) = if is_empty (strip t) then none else some t
filled _ = none

-- `value == t`
abbrev pub is_text : Text → Option Value → Bool
is_text t (some (text s)) = same_text s t
is_text t _ = false

-- `value in (None, {})`
abbrev pub is_no_error : Option Value → Bool
is_no_error none = true
is_no_error (some null) = true
is_no_error (some (object no_fields)) = true
is_no_error _ = false

unfoldable pub values : Items → List Value
values no_items = []
values (item v rest) = v ∷ values rest

unfoldable pub keys : Fields → List Value
keys no_fields = []
keys (field k v rest) = text k ∷ keys rest

unfoldable pub characters : Text → List Value
characters [] = []
characters (c ∷ rest) = text (c ∷ []) ∷ characters rest

-- `list(value or [])`; `none` is the `TypeError` of a value that cannot be iterated.
unfoldable pub list_of : Option Value → Option (List Value)
list_of none = some []
list_of (some null) = some []
list_of (some (boolean false)) = some []
list_of (some (boolean true)) = none
list_of (some (number zero)) = some []
list_of (some (number (suc n))) = none
list_of (some (text t)) = some (characters t)
list_of (some (array xs)) = some (values xs)
list_of (some (object fs)) = some (keys fs)
