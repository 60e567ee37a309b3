-- ===== src/Compiler/Conforms.antt =====
-- What a JSON Schema asks of a document, by the keywords that the settings schema of Compiler/Render
-- has: a specification, with the matching of a pattern as a parameter.
use opengroupware.Prelude.{
  ℕ, suc, String, Bool, true, false, ◌&&◌, ◌||◌, Option, none, some, pos, leb, leb_ℤ, length, ◌==◌,
  string_eq, if◌then◌else◌,
}
use opengroupware.Prelude.Texts.{codes}
use opengroupware.Db.Audit.{
  Value, null, int, float, boolean, text, uuid, arr, obj, Values, nil, cons, Fields, end, field,
}

unfoldable pub member : String → Fields → Option Value
member name end = none
member name (field key v rest) =
    let later = member name rest in if key == name then some v else later

-- `type`
unfoldable pub has_type : Value → Value → Bool
has_type (text t) (obj fs) = t == "object"
has_type (text t) (arr vs) = t == "array"
has_type (text t) (text s) = t == "string"
has_type (text t) (uuid u) = t == "string"
has_type (text t) (int n) = t == "integer" || t == "number"
has_type (text t) (float x) = t == "number"
has_type (text t) (boolean b) = t == "boolean"
has_type (text t) null = t == "null"
has_type _ v = true

abbrev is_some : Option Value → Bool
is_some none = false
is_some (some v) = true

-- `required`
abbrev all_members : Values → Fields → Bool
unfolding member
all_members nil fs = true
all_members (cons (text name) names) fs = is_some (member name fs) && all_members names fs
all_members (cons _ names) fs = all_members names fs

unfoldable pub has_required : Value → Value → Bool
unfolding member
has_required (arr names) (obj fs) = all_members names fs
has_required _ v = true

abbrev pub count_values : Values → ℕ
count_values nil = 0
count_values (cons v vs) = suc (count_values vs)

-- `minItems`, `minLength`, `minimum` of integers
unfoldable pub has_min_items : Value → Value → Bool
has_min_items (int (pos n)) (arr vs) = leb n (count_values vs)
has_min_items _ v = true

unfoldable pub has_min_length : Value → Value → Bool
has_min_length (int (pos n)) (text s) = leb n (length (codes s))
has_min_length _ v = true

unfoldable pub has_minimum : Value → Value → Bool
has_minimum (int low) (int n) = leb_ℤ low n
has_minimum _ v = true

-- `pattern`
unfoldable pub has_pattern : (matches : String → String → Bool) → Value → Value → Bool
has_pattern matches (text pattern) (text s) = matches pattern s
has_pattern matches _ v = true

-- `items`
abbrev pub all_values : (Value → Bool) → Values → Bool
all_values p nil = true
all_values p (cons v vs) = p v && all_values p vs

abbrev all_items : (Value → Bool) → Value → Bool
all_items p (arr vs) = all_values p vs
all_items p _ = true

-- A member that there is.
abbrev if_some : (Value → Bool) → Option Value → Bool
if_some p none = true
if_some p (some v) = p v

unfoldable mutual
  unfolding has_type has_required has_min_items has_min_length has_minimum has_pattern member

  pub conforms : (matches : String → String → Bool) → Value → Value → Bool
  conforms m (obj fs) v = keywords m fs v
  conforms m (boolean b) v = b
  conforms m _ v = true

  pub keywords : (matches : String → String → Bool) → Fields → Value → Bool
  keywords m end v = true
  keywords m (field name s rest) v =
      let inside = properties m s v in
      let each = all_items (conforms m s) v in
      let others = keywords m rest v in
      (if name == "type"
        then has_type s v
        else if name == "required"
        then has_required s v
        else if name == "properties"
        then inside
        else if name == "items"
        then each
        else if name == "minItems"
        then has_min_items s v
        else if name == "minLength"
        then has_min_length s v
        else if name == "minimum"
        then has_minimum s v
        else if name == "pattern"
        then has_pattern m s v
        else true)
      && others

  -- `properties`: each member that the document has is as its schema asks.
  pub properties : (matches : String → String → Bool) → Value → Value → Bool
  properties m (obj ps) (obj fs) = members m ps fs
  properties m _ v = true

  pub members : (matches : String → String → Bool) → Fields → Fields → Bool
  members m end fs = true
  members m (field name s rest) fs = if_some (conforms m s) (member name fs) && members m rest fs
