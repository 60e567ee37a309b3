-- ===== src/Compiler/Validated.antt =====
-- What a whole cycle of Compiler/Cycle leaves in the settings file.
use opengroupware.Prelude.{String, ◌≡◌, refl, ◌⊎◌, inl, inr, some, List, Result, ok, err, length}
use opengroupware.Db.Errors.{SqlError}
use opengroupware.Db.World.{World}
use opengroupware.Db.Connect.{Db}
use opengroupware.Db.Transaction.{platform, transact}
use opengroupware.Db.Audit.{record_entry}
use opengroupware.Admin.Tables.{Control, control_audit}
use opengroupware.Compiler.Policies.{TenantPolicy, load_policies}
use opengroupware.Compiler.Render.{render_doc, settings_schema, render_ucl}
use opengroupware.Compiler.Schema.{validate}
use opengroupware.Compiler.Disk.{Files, write_atomic}
use opengroupware.Compiler.Atomic.{IsAtomic, write_atomic-IsAtomic}
use opengroupware.Compiler.Cycle.{
  Surroundings, Compiled, compiled_entry, answered_with, after_write, after_validation, after_load,
  compile_once,
}

module _ (u : Surroundings) (b : Db) (out_path : String) where
  -- The file holds the settings of these policies, whose document the schema accepts.
  abbrev pub HoldsSettings : List TenantPolicy → Files → Type 0
  HoldsSettings ps d =
      (validate u.jsonschema settings_schema (render_doc ps) ≡ ok tt)
      × (d out_path ≡ some (render_ucl u.display ps))

  abbrev pub IsCompiled : Files → Compiled → Type 0
  IsCompiled d (ok n, w, d') = (ps : List TenantPolicy) × (n ≡ length ps) × HoldsSettings ps d'
  IsCompiled d (err e, w, d') =
      (d' out_path ≡ d out_path) ⊎ ((ps : List TenantPolicy) × HoldsSettings ps d')

  answered-IsCompiled :
      (ps : List TenantPolicy) (d d' : Files) (r : Result SqlError Unit × World Control)
      → HoldsSettings ps d'
      → IsCompiled d (answered_with ps d' r)
  answered-IsCompiled ps d d' (ok _, w) h = (ps, refl, h)
  answered-IsCompiled ps d d' (err e, w) h = inr (ps, h)

  written-IsCompiled :
      (ps : List TenantPolicy) (w : World Control) (d : Files) (r : Result String Unit × Files)
      → validate u.jsonschema settings_schema (render_doc ps) ≡ ok tt
      → IsAtomic out_path (render_ucl u.display ps) d r
      → IsCompiled d (after_write b out_path ps w r)
  written-IsCompiled ps w d (err e, d') valid (same, _) = inl same
  written-IsCompiled ps w d (ok _, d') valid (full, _) =
      answered-IsCompiled ps d d'
        (transact (λ e. e) b platform (record_entry (λ e. e) (compiled_entry out_path ps)) w)
        (valid, full)

  validated-IsCompiled :
      (ps : List TenantPolicy) (w : World Control) (d : Files) (r : Result String Unit)
      → validate u.jsonschema settings_schema (render_doc ps) ≡ r
      → IsCompiled d (after_validation u b out_path ps w d r)
  validated-IsCompiled ps w d (err e) valid = inl refl
  validated-IsCompiled ps w d (ok _) valid =
      written-IsCompiled ps w d (write_atomic u.fs out_path (render_ucl u.display ps) d) valid
        (write_atomic-IsAtomic u.fs out_path (render_ucl u.display ps) d)

  loaded-IsCompiled :
      (d : Files) (r : Result SqlError (List TenantPolicy) × World Control)
      → IsCompiled d (after_load u b out_path d r)
  loaded-IsCompiled d (err e, w) = inl refl
  loaded-IsCompiled d (ok ps, w) =
      validated-IsCompiled ps w d (validate u.jsonschema settings_schema (render_doc ps)) refl

-- After a cycle the settings file is as it was, or holds the whole rendering of policies whose
-- document the schema accepted; a cycle that answers `n` leaves the rendering of `n` policies.
pub compile_once-IsCompiled :
    (u : Surroundings) (b : Db) (out_path : String) (w : World Control) (d : Files)
    → IsCompiled u b out_path d (compile_once u b out_path w d)
unfolding compile_once
compile_once-IsCompiled u b out_path w d =
    loaded-IsCompiled u b out_path d (load_policies u.order b w)
