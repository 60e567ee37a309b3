-- ===== src/Compiler/Tests.antt =====
-- Two tenants with active domains, and what a cycle makes of them.
use opengroupware.Prelude.{
  ◌+◌, String, ◌≡◌, refl, true, none, List, [], ◌∷◌, map, select, float_ℕ, ok, all, ◌==◌, string_eq,
}
use opengroupware.Prelude.Texts.{byte_len}
use opengroupware.Db.World.{World, answered}
use opengroupware.Db.Connect.{Db}
use opengroupware.Admin.Tables.{Control}
use opengroupware.Admin.Validate.{validate_slug, slug_ok}
use opengroupware.Compiler.Policies.{SettingsRow, group}
use opengroupware.Compiler.Disk.{Files, FileSystem, write_atomic}
use opengroupware.Compiler.Cycle.{Surroundings, compile_once}
use opengroupware.Compiler.Grouping.{Increasing, domains_of, group-domains}
use opengroupware.Compiler.Identifiers.{settings_id-injective}
use opengroupware.Compiler.Atomic.{IsAtomic, write_atomic-IsAtomic}
use opengroupware.Db.Commits.{Commits}
use opengroupware.Admin.WellFormed.{WellFormed}
use opengroupware.Admin.Checks.{slug_check, fqdn_check, top_level_check, label_check, labels_check}
use opengroupware.Prelude.Texts.{split, split_from}
use opengroupware.Prelude.{any, Bool}
use opengroupware.Compiler.Policies.{load_policies}
use opengroupware.Compiler.SchemaTerms.{Loaded, load_policies-conforms}
use opengroupware.Compiler.Validated.{IsCompiled, compile_once-IsCompiled}

abbrev row : String → String → SettingsRow
row slug fqdn = record {
  slug = slug;
  fqdn = fqdn;
  reject = float_ℕ 15;
  add_header = float_ℕ 6;
  greylist = float_ℕ 4;
}

abbrev three_rows : List SettingsRow
three_rows = row "globex" "globex.com" ∷ row "acme" "acme.com" ∷ row "acme" "acme.org" ∷ []

group-domains_example :
    Increasing (group three_rows)
    × ((slug : String)
        → domains_of slug (group three_rows)
          ≡ map
              (λ (x : SettingsRow). x.fqdn)
              (select (λ (x : SettingsRow). x.slug == slug) three_rows))
group-domains_example = group-domains three_rows

acme_eu-is_valid : validate_slug "acme-eu" ≡ ok tt
unfolding validate_slug slug_ok byte_len all
acme_eu-is_valid = refl

settings_id-injective_example : ◌≡◌ {A = String} "acme-eu" "acme-eu"
settings_id-injective_example =
    settings_id-injective "acme-eu" "acme-eu" acme_eu-is_valid acme_eu-is_valid refl

abbrev disk : FileSystem
disk = record {
  has_parent = λ _. true;
  create_dir_all = none;
  create = none;
  write_all = none;
  flush = none;
  rename = none;
}

abbrev no_files : Files
no_files path = none

write_atomic-IsAtomic_example :
    IsAtomic "settings.conf" "new" no_files (write_atomic disk "settings.conf" "new" no_files)
write_atomic-IsAtomic_example = write_atomic-IsAtomic disk "settings.conf" "new" no_files

abbrev tables : Control
tables = record {
  tenants =
      record {
        id = 1;
        slug = "acme";
        name = "Acme";
        plan = "standard";
        status = "active";
        created_at = 1;
      }
      ∷ [];
  domains =
      record { id = 11; tenant_id = 1; fqdn = "acme.com"; status = "active"; created_at = 3 } ∷ [];
  accounts = [];
  abuse_policy = [];
  audit_log = [];
}

abbrev world : World Control
world = record {
  replies = λ _. answered;
  clock = λ n. 100 + n;
  uuids = λ n. 1000 + n;
  tick = 0;
  tables = tables;
}

abbrev surroundings : Surroundings
surroundings = record {
  order = λ rows. rows;
  jsonschema = λ schema. ok (λ doc. ok tt);
  display = λ x. "15";
  fs = disk;
}

abbrev guarded : Db
guarded = record { rls = true }

compile_once-IsCompiled_example :
    IsCompiled surroundings guarded "settings.conf" no_files
      (compile_once surroundings guarded "settings.conf" world no_files)
compile_once-IsCompiled_example =
    compile_once-IsCompiled surroundings guarded "settings.conf" world no_files

tables-WellFormed : WellFormed tables
unfolding slug_check fqdn_check labels_check label_check top_level_check split split_from all any
tables-WellFormed = record {
  tenants_ok = (refl, tt);
  slugs = (refl, tt);
  domains_ok = (refl, tt);
  fqdns = (refl, tt);
  accounts_ok = tt;
  emails = tt;
  policies_ok = tt;
  policies_one = tt;
}

-- A matching that refuses nothing.
abbrev any_text : String → String → Bool
any_text pattern text = true

load_policies-conforms_example :
    Commits (Loaded any_text tables) tables (load_policies (λ rows. rows) guarded world)
load_policies-conforms_example =
    load_policies-conforms any_text (λ rows. rows) guarded world (λ s rest e some_rest chars. refl)
      (λ P rows h. h) tables-WellFormed
