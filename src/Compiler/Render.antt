-- ===== src/Compiler/Render.antt =====
-- `render_doc`, `settings_schema` and `render_ucl` of crates/config-compiler/src/render.rs.
use opengroupware.Prelude.{String, List, [], ◌∷◌, Float64, pos}
use opengroupware.Prelude.Decimal.{◌⊕◌}
use opengroupware.Db.Audit.{
  Value, Values, Fields, int, number, text, arr, obj, nil, cons, end, field,
}
use opengroupware.Compiler.Policies.{TenantPolicy, replace}

abbrev pub texts : List String → Values
texts [] = nil
texts (t ∷ ts) = cons (text t) (texts ts)

abbrev pub policy_value : TenantPolicy → Value
policy_value p = obj (
    field "slug" (text p.slug) (
      field "settings_id" (text p.settings_id) (
        field "domains" (arr (texts p.domains)) (
          field "actions"
            (obj (
              field "reject" (number p.reject) (
                field "add_header" (number p.add_header)
                  (field "greylist" (number p.greylist) end))))
            end))))

abbrev pub policy_values : List TenantPolicy → Values
policy_values [] = nil
policy_values (p ∷ ps) = cons (policy_value p) (policy_values ps)

unfoldable pub render_doc : List TenantPolicy → Value
render_doc ps = obj (field "version" (int (pos 1)) (field "tenants" (arr (policy_values ps)) end))

abbrev typed : String → Fields → Value
typed t more = obj (field "type" (text t) more)

abbrev pub nonempty_string : Value
nonempty_string = typed "string" (field "minLength" (int (pos 1)) end)

abbrev actions_schema : Value
actions_schema = typed "object" (
    field "required" (arr (texts ("reject" ∷ "add_header" ∷ "greylist" ∷ []))) (
      field "properties"
        (obj (
          field "reject" (typed "number" end)
            (field "add_header" (typed "number" end) (field "greylist" (typed "number" end) end))))
        end))

abbrev pub tenant_schema : Value
tenant_schema = typed "object" (
    field "required" (arr (texts ("slug" ∷ "settings_id" ∷ "domains" ∷ "actions" ∷ []))) (
      field "properties"
        (obj (
          field "slug" nonempty_string (
            field "settings_id" (typed "string" (field "pattern" (text "^tenant_[a-z0-9_]+$") end))
              (field "domains"
                (typed "array" (field "minItems" (int (pos 1)) (field "items" nonempty_string end)))
                (field "actions" actions_schema end)))))
        end))

unfoldable pub settings_schema : Value
settings_schema = typed "object" (
    field "required" (arr (texts ("version" ∷ "tenants" ∷ []))) (
      field "properties"
        (obj (
          field "version" (typed "integer" (field "minimum" (int (pos 1)) end))
            (field "tenants" (typed "array" (field "items" tenant_schema end)) end)))
        end))

-- `[…].join(", ")`
abbrev pub join : List String → String
join [] = ""
join (t ∷ []) = t
join (t ∷ u ∷ ts) = t ⊕ ", " ⊕ join (u ∷ ts)

-- `format!("\"/@{}$/\"", d.replace('.', "\\."))` of each domain.
abbrev pub rcpt_patterns : List String → List String
rcpt_patterns [] = []
rcpt_patterns (d ∷ ds) = ("\"/@" ⊕ replace b'.' "\\." d ⊕ "$/\"") ∷ rcpt_patterns ds

-- The block of one tenant; `display` is Rust's `{}` of an `f64`.
abbrev pub ucl_block : (Float64 → String) → TenantPolicy → String
ucl_block display p =
    p.settings_id
    ⊕ " {\n  priority = 10;\n  rcpt = ["
    ⊕ join (rcpt_patterns p.domains)
    ⊕ "];\n  apply {\n    actions {\n      reject = "
    ⊕ display p.reject
    ⊕ ";\n      add_header = "
    ⊕ display p.add_header
    ⊕ ";\n      greylist = "
    ⊕ display p.greylist
    ⊕ ";\n    }\n  }\n}\n"

abbrev pub ucl_blocks : (Float64 → String) → List TenantPolicy → String
ucl_blocks display [] = ""
ucl_blocks display (p ∷ ps) = ucl_block display p ⊕ ucl_blocks display ps

unfoldable pub render_ucl : (Float64 → String) → List TenantPolicy → String
render_ucl display ps =
    "# GENERATED by opengroupware config-compiler — DO NOT EDIT.\n"
    ⊕ "# Rspamd settings-module content for local.d/settings.conf.\n"
    ⊕ "# Source: control-plane desired state (active tenants + domains).\n"
    ⊕ ucl_blocks display ps
