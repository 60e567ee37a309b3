-- ===== src/Compiler/Cycle.antt =====
-- `compile_once` of crates/config-compiler/src/render.rs.
use opengroupware.Prelude.{
  ℕ, ◌+◌, String, none, List, [], ◌∷◌, Float64, pos, Result, ok, err, length,
}
use opengroupware.Db.Errors.{SqlError}
use opengroupware.Db.World.{World}
use opengroupware.Db.Connect.{Db}
use opengroupware.Db.Transaction.{platform, transact}
use opengroupware.Db.Audit.{int, obj, end, field, of_path, AuditEntry, record_entry}
use opengroupware.Admin.Tables.{Control, control_audit}
use opengroupware.Compiler.Policies.{TenantPolicy, Collation, load_policies}
use opengroupware.Compiler.Render.{render_doc, settings_schema, render_ucl}
use opengroupware.Compiler.Schema.{JsonSchema, validate}
use opengroupware.Compiler.Disk.{Files, FileSystem, write_atomic}

pub data CompileError : Type 0 where
  db : SqlError → CompileError
  schema : String → CompileError
  io : (path source : String) → CompileError

-- The database's order of texts, the `jsonschema` crate, Rust's `{}` of an `f64`, and the file system.
pub record Surroundings : Type 0 where
  pub order : Collation
  pub jsonschema : JsonSchema
  pub display : Float64 → String
  pub fs : FileSystem

abbrev pub Compiled : Type 0
Compiled = Result CompileError ℕ × World Control × Files

unfoldable pub domain_count : List TenantPolicy → ℕ
domain_count [] = 0
domain_count (p ∷ ps) = length p.domains + domain_count ps

abbrev pub compiled_entry : String → List TenantPolicy → AuditEntry
compiled_entry out_path ps = record {
  tenant_id = none;
  actor = "config-compiler";
  action = "config.compiled";
  entity_type = "rspamd_settings";
  entity_id = of_path out_path;
  payload =
      obj (
        field "tenants" (int (pos (length ps)))
          (field "domains" (int (pos (domain_count ps))) end));
}

abbrev pub answered_with :
    List TenantPolicy → Files → Result SqlError Unit × World Control → Compiled
answered_with ps d (ok _, w) = (ok (length ps), w, d)
answered_with ps d (err e, w) = (err (db e), w, d)

abbrev pub after_write :
    Db → String → List TenantPolicy → World Control → Result String Unit × Files → Compiled
after_write b out_path ps w (err e, d) = (err (io out_path e), w, d)
after_write b out_path ps w (ok _, d) =
    answered_with ps d
      (transact (λ e. e) b platform (record_entry (λ e. e) (compiled_entry out_path ps)) w)

abbrev pub after_validation :
    Surroundings
    → Db
    → String
    → List TenantPolicy
    → World Control
    → Files
    → Result String Unit
    → Compiled
after_validation u b out_path ps w d (err e) = (err (schema e), w, d)
after_validation u b out_path ps w d (ok _) =
    after_write b out_path ps w (write_atomic u.fs out_path (render_ucl u.display ps) d)

abbrev pub after_load :
    Surroundings
    → Db
    → String
    → Files
    → Result SqlError (List TenantPolicy) × World Control
    → Compiled
after_load u b out_path d (err e, w) = (err (db e), w, d)
after_load u b out_path d (ok ps, w) =
    after_validation u b out_path ps w d (validate u.jsonschema settings_schema (render_doc ps))

unfoldable pub compile_once : Surroundings → Db → String → World Control → Files → Compiled
compile_once u b out_path w d = after_load u b out_path d (load_policies u.order b w)
