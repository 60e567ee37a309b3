-- ===== src/Admin/Tests.antt =====
-- A control plane of two tenants, and requests to it.
use opengroupware.Prelude.{
  ℕ, ◌+◌, ◌≡◌, ◌≢◌, refl, true, false, none, some, List, [], ◌∷◌, ◌++◌, inl, pos, float_ℕ, ok,
  select, arith, string_eq, nat_eq, ◌==◌, length, any, all, ◌≤◌, ◌*◌,
}
use opengroupware.Prelude.Texts.{codes, byte_len, split, split_from}
use opengroupware.Db.World.{World, answered}
use opengroupware.Db.Commits.{Commits}
use opengroupware.Auth.Caller.{Caller}
use opengroupware.Admin.Models.{
  Tenant, Domain, CreateTenant, CreateDomain, CreateAccount, SetAbusePolicy,
}
use opengroupware.Admin.Checks.{
  slug_check, fqdn_check, top_level_check, label_check, labels_check, quota_check, policy_check,
}
use opengroupware.Admin.Validate.{
  validate_slug, validate_fqdn, validate_local_part, validate_policy, local_ok, slug_ok, fqdn_ok,
  policy_ok, label_ok,
}
use opengroupware.Admin.Tables.{Control, AccountRow, has_tenant}
use opengroupware.Admin.Routes.{
  AppState, email_of, list_accounts, create_account, create_tenant, create_domain, put_policy,
}
use opengroupware.Admin.Api.{
  Request, post_tenants, get_tenants, post_domains, post_accounts, put_abuse_policy, router, serve,
}
use opengroupware.Admin.WellFormed.{WellFormed}
use opengroupware.Admin.Invariant.{serve-WellFormed}
use opengroupware.Admin.Isolation.{SameFor}
use opengroupware.Admin.Isolation.Deployed.{connected-SameFor}
use opengroupware.Db.Connect.{Role, flag, connect, assert_rls_safe_role}
use opengroupware.Admin.Trail.{IsRecorded, router-IsRecorded, serve-audit_log}
use opengroupware.Admin.Accounts.{AccountEffect, create_account-AccountEffect}
use opengroupware.Admin.Effects.{
  TenantCreated, create_tenant-Commits, DomainCreated, create_domain-Commits, PolicySet,
  put_policy-Commits,
}
use opengroupware.Admin.Listing.{AccountsShown, list_accounts-mine}
use opengroupware.Admin.Live.{PolicyKept, put_policy-get_policy}
use opengroupware.Admin.Emails.{split-email_of}
use opengroupware.Admin.Backstop.{fqdn_check-last, validate_policy_iff}
use opengroupware.Admin.Conflicts.{failure_of, create_tenant-taken}
use opengroupware.Prelude.{is_finite, ◌↔◌}
use opengroupware.Db.Audit.{AuditRow}

abbrev acme : Tenant
acme = record {
  id = 1;
  slug = "acme";
  name = "Acme";
  plan = "standard";
  status = "active";
  created_at = 1;
}

abbrev globex : Tenant
globex = record {
  id = 2;
  slug = "globex";
  name = "Globex";
  plan = "standard";
  status = "active";
  created_at = 2;
}

abbrev acme_domain : Domain
acme_domain = record {
  id = 11;
  tenant_id = 1;
  fqdn = "acme.com";
  status = "active";
  created_at = 3;
}

abbrev ann : AccountRow
ann = record {
  account = record {
    id = 21;
    tenant_id = 1;
    domain_id = 11;
    email = "ann@acme.com";
    display_name = "Ann";
    quota_mb = pos 1024;
    status = "pending_provisioning";
    created_at = 4;
  };
  sesame_user_id = none;
  updated_at = 4;
}

abbrev two_tenants : Control
two_tenants = record {
  tenants = acme ∷ globex ∷ [];
  domains = acme_domain ∷ [];
  accounts = ann ∷ [];
  abuse_policy = [];
  audit_log = [];
}

abbrev world : World Control
world = record {
  replies = λ _. answered;
  clock = λ n. 100 + n;
  uuids = λ n. 1000 + n;
  tick = 0;
  tables = two_tenants;
}

abbrev state : AppState
state = record { db = record { rls = true }; sesame = some (λ n email name. ok 77) }

abbrev root : Caller
root = record { subject = "root"; tenant_id = none; roles = [] }

abbrev bob : CreateAccount
bob = record { domain_id = 11; local_part = "bob"; display_name = "Bob"; quota_mb = pos 512 }

abbrev thresholds : SetAbusePolicy
thresholds = record { reject = float_ℕ 12; add_header = float_ℕ 5; greylist = float_ℕ 3 }

abbrev requests : List (Caller × Request)
requests =
    (root, post_accounts 1 bob)
    ∷ (root, post_domains 1 (record { fqdn = "acme.org" }))
    ∷ (root, put_abuse_policy 1 thresholds)
    ∷ (root, post_tenants (record { slug = "initech"; name = "Initech"; plan = "standard" }))
    ∷ (root, get_tenants)
    ∷ []

two_tenants-WellFormed : WellFormed two_tenants
unfolding slug_check fqdn_check labels_check label_check top_level_check split split_from
    quota_check all any
two_tenants-WellFormed = record {
  tenants_ok = (refl, (refl, tt));
  slugs = (refl, (refl, tt));
  domains_ok = (refl, tt);
  fqdns = (refl, tt);
  accounts_ok = ((refl, inl refl), tt);
  emails = (refl, tt);
  policies_ok = tt;
  policies_one = tt;
}

serve-WellFormed_example : WellFormed (serve state requests world).tables
serve-WellFormed_example = serve-WellFormed state requests world two_tenants-WellFormed

two_is_foreign : ◌≢◌ {A = ℕ} 2 1
two_is_foreign e = ground arith

two_is_tenant : select (λ (r : Tenant). r.id == 2) two_tenants.tenants ≢ []
unfolding select
two_is_tenant e = cc

router-IsRecorded_example :
    IsRecorded "root" two_tenants (router state root (post_accounts 1 bob) world).tables
router-IsRecorded_example = router-IsRecorded state root (post_accounts 1 bob) world

serve-audit_log_example :
    (entries : List AuditRow) × ((serve state requests world).tables.audit_log ≡ [] ++ entries)
    × (length entries ≤ 2 * length requests)
serve-audit_log_example = serve-audit_log state requests world

create_account-AccountEffect_example :
    AccountEffect state 1 root bob two_tenants (create_account state 1 root bob world)
create_account-AccountEffect_example = create_account-AccountEffect state 1 root bob world

abbrev initech : CreateTenant
initech = record { slug = "initech"; name = "Initech"; plan = "standard" }

create_tenant-Commits_example :
    Commits
      (TenantCreated state root initech two_tenants)
      two_tenants
      (create_tenant state root initech world)
create_tenant-Commits_example = create_tenant-Commits state root initech world

abbrev acme_org : CreateDomain
acme_org = record { fqdn = "acme.org" }

create_domain-Commits_example :
    Commits
      (DomainCreated state 1 root acme_org two_tenants)
      two_tenants
      (create_domain state 1 root acme_org world)
create_domain-Commits_example = create_domain-Commits state 1 root acme_org world

put_policy-Commits_example :
    Commits
      (PolicySet state 1 root thresholds two_tenants)
      two_tenants
      (put_policy state 1 root thresholds world)
put_policy-Commits_example = put_policy-Commits state 1 root thresholds world

list_accounts-mine_example :
    Commits (AccountsShown 1 two_tenants) two_tenants (list_accounts state 1 world)
list_accounts-mine_example = list_accounts-mine state 1 world refl

bob-is_valid : validate_local_part "bob" ≡ ok tt
unfolding validate_local_part local_ok byte_len all
bob-is_valid = refl

acme_com-is_checked : fqdn_check (codes "acme.com") ≡ true
unfolding fqdn_check labels_check label_check top_level_check split split_from all
acme_com-is_checked = refl

split-email_of_example :
    split b'@' (codes (email_of "bob" "acme.com")) ≡ codes "bob" ∷ codes "acme.com" ∷ []
split-email_of_example = split-email_of "bob" "acme.com" bob-is_valid acme_com-is_checked

acme-is_valid : validate_slug "acme" ≡ ok tt
unfolding validate_slug slug_ok byte_len all
acme-is_valid = refl

-- The validation accepts a name that the table's constraint refuses.
one_letter-is_valid : validate_fqdn "acme.x" ≡ ok tt
unfolding validate_fqdn fqdn_ok label_ok split split_from byte_len any all
one_letter-is_valid = refl

fqdn_check-last_example : fqdn_check (codes "acme.x") ≡ top_level_check (codes "x")
unfolding split
fqdn_check-last_example = fqdn_check-last "acme.x" one_letter-is_valid

validate_policy_iff_example : (validate_policy thresholds ≡ ok tt) ↔ (
    (is_finite thresholds.reject ≡ true)
    × (is_finite thresholds.add_header ≡ true)
    × (is_finite thresholds.greylist ≡ true)
    × (policy_check thresholds.reject thresholds.add_header thresholds.greylist ≡ true))
validate_policy_iff_example = validate_policy_iff thresholds

acme-is_taken : any (λ (r : Tenant). r.slug == "acme") two_tenants.tenants ≡ true
unfolding any
acme-is_taken = refl

abbrev another_acme : CreateTenant
another_acme = record { slug = "acme"; name = "Acme"; plan = "standard" }

create_tenant-taken_example :
    (failure_of (create_tenant state root another_acme world).0 ≡ some (409, "already exists"))
    × ((create_tenant state root another_acme world).1.tables ≡ two_tenants)
create_tenant-taken_example =
    create_tenant-taken state root another_acme world (λ _. refl) acme-is_valid acme-is_taken

thresholds-are_valid : validate_policy thresholds ≡ ok tt
unfolding validate_policy policy_ok
thresholds-are_valid = refl

acme-is_tenant : has_tenant two_tenants 1 ≡ true
unfolding any
acme-is_tenant = refl

put_policy-get_policy_example :
    PolicyKept state 1 thresholds 100 (put_policy state 1 root thresholds world)
put_policy-get_policy_example =
    put_policy-get_policy state 1 root thresholds world (λ n. refl) acme-is_tenant
      thresholds-are_valid

abbrev plain_role : Role
plain_role = record { rolsuper = false; rolbypassrls = false }

plain_role-connects : connect none (some plain_role) ≡ ok (record { rls = true })
unfolding connect assert_rls_safe_role
plain_role-connects = refl

unset-is_off : flag none ≡ false
unfolding flag
unset-is_off = refl

connected-SameFor_example : SameFor 2 two_tenants (serve state requests world).tables
connected-SameFor_example =
    connected-SameFor none (some plain_role) (record { rls = true }) (some (λ n email name. ok 77))
      requests 2 world unset-is_off plain_role-connects
      (two_is_foreign, (two_is_foreign, (two_is_foreign, (tt, (tt, tt))))) two_is_tenant
