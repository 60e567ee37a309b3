-- ===== src/Compiler/Schema.antt =====
-- `crates/config-schema/src/lib.rs`: the validation of a document. The `jsonschema` crate is a
-- parameter.
use opengroupware.Prelude.{String, List, [], ◌∷◌, map, Result, ok, err}
use opengroupware.Prelude.Decimal.{◌⊕◌}
use opengroupware.Db.Audit.{Value}

-- A violation, as `jsonschema` prints it, and the place in the document that has it.
pub record Violation : Type 0 where
  pub message : String
  pub instance_path : String

-- `JSONSchema::compile`, with the print of its error, and `JSONSchema::validate` of what it compiles:
-- `err` where there are violations.
abbrev pub JsonSchema : Type 0
JsonSchema = Value → Result String (Value → Result (List Violation) Unit)

abbrev pub violation_text : Violation → String
violation_text e = e.message ⊕ " (at " ⊕ e.instance_path ⊕ ")"

-- `msgs.join("; ")`
abbrev pub join_messages : List String → String
join_messages [] = ""
join_messages (t ∷ []) = t
join_messages (t ∷ u ∷ ts) = t ⊕ "; " ⊕ join_messages (u ∷ ts)

abbrev pub report : Result (List Violation) Unit → Result String Unit
report (ok _) = ok tt
report (err errors) = err (join_messages (map violation_text errors))

abbrev pub validate_compiled :
    Value → Result String (Value → Result (List Violation) Unit) → Result String Unit
validate_compiled doc (err e) = err ("invalid schema: " ⊕ e)
validate_compiled doc (ok compiled) = report (compiled doc)

unfoldable pub validate : JsonSchema → Value → Value → Result String Unit
validate compile schema doc = validate_compiled doc (compile schema)

unfoldable pub validate_json_schema : JsonSchema → Value → Value → Result String Unit
validate_json_schema compile schema doc = validate compile schema doc
