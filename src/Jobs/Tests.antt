-- ===== src/Jobs/Tests.antt =====
-- One pending account, and a cycle that activates it.
use opengroupware.Prelude.{
  ℕ, ◌+◌, ◌≤◌, String, ◌≡◌, refl, true, none, List, [], ◌∷◌, ◌++◌, pos, ok, any, select, update,
  length, limit, order_by, All, nat_eq,
}
use opengroupware.Db.World.{World, answered}
use opengroupware.Db.Connect.{Db}
use opengroupware.Db.Audit.{AuditRow, record_entry, insert_audit}
use opengroupware.Db.Session.{visible, visible_entry}
use opengroupware.Db.Transaction.{transact, exec, finish}
use opengroupware.Admin.Tables.{Control, AccountRow}
use opengroupware.Admin.Routes.{Provisioner}
use opengroupware.Jobs.Reconcile.{
  is_pending, select_pending, activate_pending, reconcile_row, reconcile_rows, reconcile_once,
}
use opengroupware.Prelude.{string_eq, ◌==◌, false, Option, some, if◌then◌else◌}
use opengroupware.Db.Connect.{Role}
use opengroupware.Jobs.Main.{MayReconcile, main, main-MayReconcile}
use mathlib.Core.List.Memᴰ.{head}
use opengroupware.Prelude.{all, inl, arith, Result}
use opengroupware.Types.Provider.{ProviderError}
use opengroupware.Db.World.{Uuid}
use opengroupware.Auth.Caller.{Caller}
use opengroupware.Admin.Models.{CreateAccount}
use opengroupware.Admin.Checks.{slug_check, quota_check}
use opengroupware.Admin.Routes.{AppState, provisioned, create_account}
use opengroupware.Jobs.Reconcile.{pending_row, persist}
use opengroupware.Jobs.Rows.{pending-not_active}
use opengroupware.Jobs.Steps.{System, to_now, Step, reconcile, Trace, stay, go_on}
use opengroupware.Jobs.Interleaving.{Sound, Trace-Sound}
use opengroupware.Jobs.Runs.{with_sesame, at, Leads, handlers-Leads}
use opengroupware.Jobs.Effects.{UniqueIds}
use opengroupware.Jobs.Outcome.{IsRun, reconcile_once-IsRun}
use opengroupware.Jobs.Counts.{reconcile_once-counts}

abbrev account : ℕ → String → AccountRow
account id status = record {
  account = record {
    id = id;
    tenant_id = 1;
    domain_id = 11;
    email = "ann@acme.com";
    display_name = "Ann";
    quota_mb = pos 1024;
    status = status;
    created_at = 4;
  };
  sesame_user_id = none;
  updated_at = 4;
}

abbrev pending : Control
pending = record {
  tenants =
      record {
        id = 1;
        slug = "acme";
        name = "Acme";
        plan = "standard";
        status = "active";
        created_at = 1;
      }
      ∷ [];
  domains = [];
  accounts = account 21 "pending_provisioning" ∷ account 22 "active" ∷ [];
  abuse_policy = [];
  audit_log = [];
}

abbrev world : World Control
world = record {
  replies = λ _. answered;
  clock = λ n. 100 + n;
  uuids = λ n. 1000 + n;
  tick = 0;
  tables = pending;
}

abbrev guarded : Db
guarded = record { rls = true }

abbrev provision : Provisioner
provision n email name = ok 77

pending-UniqueIds : UniqueIds pending
unfolding any
pending-UniqueIds = (refl, (refl, tt))

reconcile_once-IsRun_example :
    IsRun guarded 0 50 pending (reconcile_once guarded provision (pos 50) world)
reconcile_once-IsRun_example =
    reconcile_once-IsRun guarded provision (pos 50) world pending-UniqueIds

cycle-counts_one :
    reconcile_once guarded provision (pos 50) world
    ≡ (ok 1, (reconcile_once guarded provision (pos 50) world).1)
unfolding reconcile_once reconcile_rows reconcile_row select_pending activate_pending transact exec
    finish record_entry insert_audit visible visible_entry select update limit order_by any
cycle-counts_one = refl

reconcile_once-counts_example :
    (1 ≤ 50)
    × (length
            (select is_pending (reconcile_once guarded provision (pos 50) world).1.tables.accounts)
          + 1
        ≡ length (select is_pending pending.accounts))
    × ((entries : List AuditRow) × ((reconcile_once guarded provision
            (pos 50)
            world).1.tables.audit_log
          ≡ [] ++ entries)
        × (length entries ≡ 1)
        × All (λ (r : AuditRow). r.entry.action ≡ "account.reconciled") entries)
reconcile_once-counts_example =
    reconcile_once-counts guarded provision (pos 50) world pending-UniqueIds 1
      ((reconcile_once guarded provision (pos 50) world).1) cycle-counts_one

abbrev environment : String → Option String
environment name = if name == "RECONCILE_ONCE" then none else some "postgres"

abbrev app_role : Role
app_role = record { rolsuper = false; rolbypassrls = false }

main-MayReconcile_example :
    MayReconcile environment (some app_role) (main environment (some app_role))
main-MayReconcile_example = main-MayReconcile environment (some app_role)

abbrev new_account : CreateAccount
new_account = record {
  domain_id = 11;
  local_part = "bob";
  display_name = "Bob";
  quota_mb = pos 512;
}

same_user : (a b : Uuid) → ◌≡◌ {A = Result ProviderError Uuid} (ok a) (ok b) → b ≡ a
same_user a b e = ground arith

-- One request and one cycle are about the same pending account, and both activate it.
abbrev waiting : Control
waiting = record pending { accounts = account 21 "pending_provisioning" ∷ [] }

abbrev admin : Caller
admin = record { subject = "admin"; tenant_id = none; roles = [] }

abbrev service : AppState
service = with_sesame guarded provision

abbrev both_started : System
both_started = record {
  tables = waiting;
  started =
      record {
        tenant_id = 1;
        caller = admin;
        account = (account 21 "pending_provisioning").account;
      }
      ∷ [];
  rows = pending_row (account 21 "pending_provisioning") ∷ [];
}

abbrev after_reconcile : System
after_reconcile = record both_started {
  tables =
      (persist guarded (pending_row (account 21 "pending_provisioning")) (ok 77)
        (to_now both_started world)).1.tables;
}

abbrev after_provision : System
after_provision = record after_reconcile {
  tables =
      (provisioned service 1 admin ((account 21 "pending_provisioning").account) (ok 77)
        (to_now after_reconcile world)).1.tables;
}

twice : Trace service provision both_started after_provision
twice =
    go_on both_started after_reconcile after_provision
      (go_on both_started both_started after_reconcile (stay both_started) (
        reconcile (pending_row (account 21 "pending_provisioning")) 0 world both_started
          (head refl)))
      (Step.provision
        (record {
          tenant_id = 1;
          caller = admin;
          account = (account 21 "pending_provisioning").account;
        })
        1 world after_reconcile (head refl))

both_started-Sound : Sound (λ email. 77) both_started
unfolding slug_check quota_check all any
both_started-Sound = record {
  well_formed = record {
    tenants_ok = (refl, tt);
    slugs = (refl, tt);
    domains_ok = tt;
    fqdns = tt;
    accounts_ok = ((refl, inl refl), tt);
    emails = (refl, tt);
    policies_ok = tt;
    policies_one = tt;
  };
  owned = ((refl, tt), ((λ e. absurd (pending-not_active "pending_provisioning" refl e)), tt));
  started_known = ((refl, ((λ _. refl), tt)), tt);
  rows_known = ((refl, ((λ _. refl), tt)), tt);
}

Trace-Sound_example : Sound (λ email. 77) after_provision
Trace-Sound_example =
    Trace-Sound service provision (λ email. 77) both_started after_provision
      (λ n email name uid e. same_user 77 uid e) twice both_started-Sound

handlers-Leads_example :
    Leads service provision
      (at world [] [])
      (create_account service 1 admin new_account world).1.tables
    × Leads service provision
        (at world [] [])
        (reconcile_once guarded provision (pos 50) world).1.tables
handlers-Leads_example = handlers-Leads guarded provision 1 admin new_account (pos 50) world [] []
