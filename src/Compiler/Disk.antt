-- ===== src/Compiler/Disk.antt =====
-- `write_atomic` of crates/config-compiler/src/render.rs, on files by their paths.
use opengroupware.Prelude.{
  String, Bool, Option, none, some, Result, ok, err, ◌==◌, string_eq, if◌then◌else◌,
}
use opengroupware.Prelude.Decimal.{◌⊕◌}

-- The contents of the files.
abbrev pub Files : Type 0
Files = String → Option String

abbrev pub set_file : String → Option String → Files → Files
set_file path contents d q = if q == path then contents else d q

-- How the calls to `std::fs` end: whether the path has a parent directory, the error of each call if
-- it fails, and what a failed write has left in the file.
pub record FileSystem : Type 0 where
  pub has_parent : String → Bool
  pub create_dir_all : Option String
  pub create : Option String
  pub write_all : Option (String × String)
  pub flush : Option String
  pub rename : Option String

abbrev pub tmp_of : String → String
tmp_of path = path ⊕ ".tmp"

abbrev pub renamed : String → Option String → Files → Result String Unit × Files
renamed path (some e) d = (err e, d)
renamed path none d = (ok tt, set_file (tmp_of path) none (set_file path (d (tmp_of path)) d))

abbrev pub flushed : FileSystem → String → Option String → Files → Result String Unit × Files
flushed fs path (some e) d = (err e, d)
flushed fs path none d = renamed path fs.rename d

abbrev pub written :
    FileSystem → String → String → Option (String × String) → Files → Result String Unit × Files
written fs path contents (some (e, part)) d = (err e, set_file (tmp_of path) (some part) d)
written fs path contents none d =
    flushed fs path fs.flush (set_file (tmp_of path) (some contents) d)

abbrev pub created :
    FileSystem → String → String → Option String → Files → Result String Unit × Files
created fs path contents (some e) d = (err e, d)
created fs path contents none d =
    written fs path contents fs.write_all (set_file (tmp_of path) (some "") d)

abbrev pub made_parent :
    FileSystem → String → String → Option String → Files → Result String Unit × Files
made_parent fs path contents (some e) d = (err e, d)
made_parent fs path contents none d = created fs path contents fs.create d

unfoldable pub write_atomic : FileSystem → String → String → Files → Result String Unit × Files
write_atomic fs path contents d =
    if fs.has_parent path
    then made_parent fs path contents fs.create_dir_all d
    else created fs path contents fs.create d
