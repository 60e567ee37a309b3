-- ===== src/Auth/Caller.antt =====
-- `Caller` of crates/og-auth/src/lib.rs.
use opengroupware.Prelude.{String, Option, List}
use opengroupware.Db.World.{Uuid}

pub record Caller : Type 0 where
  pub subject : String
  pub tenant_id : Option Uuid
  pub roles : List String

abbrev pub actor : Caller → String
actor c = c.subject
