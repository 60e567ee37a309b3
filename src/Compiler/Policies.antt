-- ===== src/Compiler/Policies.antt =====
-- `load_policies` of crates/config-compiler/src/render.rs, on the tables of crates/admin-api.
use Prim.Native.Char.{code}
use opengroupware.Prelude.{
  ℕ, String, Bool, true, false, ◌&&◌, ◌||◌, Option, none, some, List, [], ◌∷◌, ◌++◌, map, Float64,
  float_ℕ, ok, ltb, ◌==◌, nat_eq, string_eq, select, find?, if◌then◌else◌,
}
use opengroupware.Prelude.Texts.{codes}
use opengroupware.Prelude.Decimal.{◌⊕◌}
use opengroupware.Db.Errors.{SqlError}
use opengroupware.Db.World.{Io, continue}
use opengroupware.Db.Session.{Session, visible}
use opengroupware.Db.Connect.{Db}
use opengroupware.Db.Transaction.{Stmt, exec, platform, transact}
use opengroupware.Admin.Models.{Tenant, Domain, AbusePolicy}
use opengroupware.Admin.Tables.{Control}

-- The constants `REJECT`, `ADD_HEADER` and `GREYLIST`.
abbrev pub reject_default : Float64
reject_default = float_ℕ 15

abbrev pub add_header_default : Float64
add_header_default = float_ℕ 6

abbrev pub greylist_default : Float64
greylist_default = float_ℕ 4

-- A row of the query.
pub record SettingsRow : Type 0 where
  pub slug : String
  pub fqdn : String
  pub reject : Float64
  pub add_header : Float64
  pub greylist : Float64

pub record TenantPolicy : Type 0 where
  pub slug : String
  pub settings_id : String
  pub domains : List String
  pub reject : Float64
  pub add_header : Float64
  pub greylist : Float64

-- COALESCE(ap.…, …) over the row of the LEFT JOIN, if there is one.
abbrev pub joined : Tenant → Option AbusePolicy → Domain → SettingsRow
joined t none d = record {
  slug = t.slug;
  fqdn = d.fqdn;
  reject = reject_default;
  add_header = add_header_default;
  greylist = greylist_default;
}
joined t (some ap) d = record {
  slug = t.slug;
  fqdn = d.fqdn;
  reject = ap.reject;
  add_header = ap.add_header;
  greylist = ap.greylist;
}

abbrev pub is_routed : Session → Tenant → Domain → Bool
is_routed se t d = visible se d.tenant_id && (d.tenant_id == t.id && d.status == "active")

abbrev pub rows_of : Session → Control → Tenant → List SettingsRow
rows_of se s t =
    map
      (joined t
        (find? (λ (p : AbusePolicy). visible se p.tenant_id && p.tenant_id == t.id) s.abuse_policy))
      (select (is_routed se t) s.domains)

unfoldable pub join_rows : Session → Control → List Tenant → List SettingsRow
join_rows se s [] = []
join_rows se s (t ∷ ts) =
    let rest = join_rows se s ts in if t.status == "active" then rows_of se s t ++ rest else rest

-- ORDER BY t.slug, d.fqdn, in the collation of the database.
abbrev pub Collation : Type 0
Collation = List SettingsRow → List SettingsRow

unfoldable pub select_settings : Collation → Stmt Control (List SettingsRow)
unfolding join_rows
select_settings order se id s = ok (order (join_rows se s s.tenants), s)

-- `str::replace` of one character.
unfoldable pub replace : ℕ → String → String → String
replace d r String.[] = String.[]
replace d r (String.◌∷◌ c s) =
    let rest = replace d r s in if code c == d then r ⊕ rest else String.◌∷◌ c rest

unfoldable pub settings_id : String → String
unfolding replace
settings_id slug = "tenant_" ⊕ replace b'-' "_" slug

-- The order of the keys of a `BTreeMap<String, _>`: by bytes, which for UTF-8 is by code points.
unfoldable pub before : List ℕ → List ℕ → Bool
before [] [] = false
before [] (d ∷ ds) = true
before (c ∷ cs) [] = false
before (c ∷ cs) (d ∷ ds) = let rest = before cs ds in ltb c d || (c == d && rest)

abbrev pub new_policy : SettingsRow → TenantPolicy
new_policy r = record {
  slug = r.slug;
  settings_id = settings_id r.slug;
  domains = r.fqdn ∷ [];
  reject = r.reject;
  add_header = r.add_header;
  greylist = r.greylist;
}

abbrev pub with_domain : String → TenantPolicy → TenantPolicy
with_domain fqdn p = record p { domains = p.domains ++ fqdn ∷ [] }

-- `grouped.entry(slug).or_insert_with(…)` and the push of the domain.
unfoldable pub add_row : SettingsRow → List TenantPolicy → List TenantPolicy
unfolding before settings_id
add_row r [] = new_policy r ∷ []
add_row r (p ∷ ps) =
    let rest = add_row r ps in
    if p.slug == r.slug
    then with_domain r.fqdn p ∷ ps
    else if before (codes r.slug) (codes p.slug)
    then new_policy r ∷ p ∷ ps
    else p ∷ rest

unfoldable pub group_from : List TenantPolicy → List SettingsRow → List TenantPolicy
unfolding add_row
group_from grouped [] = grouped
group_from grouped (r ∷ rs) = group_from (add_row r grouped) rs

unfoldable pub group : List SettingsRow → List TenantPolicy
unfolding group_from
group rows = group_from [] rows

abbrev pub grouped_rows : List SettingsRow → Io Control SqlError (List TenantPolicy)
grouped_rows rows w = (ok (group rows), w)

unfoldable pub load_policies : Collation → Db → Io Control SqlError (List TenantPolicy)
unfolding group select_settings
load_policies order d w =
    continue (transact (λ e. e) d platform (exec (λ e. e) (select_settings order)) w) grouped_rows
