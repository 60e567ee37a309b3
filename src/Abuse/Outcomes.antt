-- ===== src/Abuse/Outcomes.antt =====
-- What `release_item` and `report_item` of crates/abuse-api/src/routes.rs store, column by column.
use opengroupware.Prelude.{
  String, ◌≡◌, true, some, [], ◌∷◌, ◌++◌, inl, inr, ◌⊎◌, nat_eq, string_eq, Result, ok, err,
}
use opengroupware.Prelude.Changes.{ChangedAt}
use opengroupware.Db.Errors.{ApiError}
use opengroupware.Db.World.{Uuid, Time, World}
use opengroupware.Db.Session.{Session, visible}
use opengroupware.Db.Connect.{Db}
use opengroupware.Db.Transaction.{tenant, session}
use opengroupware.Db.Audit.{Value, obj, end, field, text, of_uuid, AuditRow}
use opengroupware.Db.Commits.{Commits}
use opengroupware.Auth.Caller.{Caller, actor}
use opengroupware.Abuse.Models.{QuarantineItem, ReportFeedback}
use opengroupware.Abuse.Tables.{Quarantine}

-- The effect of a commit, seen as another.
pub Commits-as :
    {A : Type 0} (P Q : A → Quarantine → Type 0) (s : Quarantine)
    (r : Result ApiError A × World Quarantine)
    → ((a : A) (s' : Quarantine) → P a s' → Q a s')
    → Commits P s r
    → Commits Q s r
Commits-as P Q s (ok a, w) view c = view a w.tables c
Commits-as P Q s (err e, w) view (inl same) = inl same
Commits-as P Q s (err e, w) view (inr (a, c)) = inr (a, view a w.tables c)

-- An audit entry of the caller for the tenant.
abbrev pub entry_of : Uuid → Caller → (action entity_type : String) → Uuid → Value → Time → AuditRow
entry_of t caller action entity_type id payload now = record {
  entry = record {
    tenant_id = some t;
    actor = actor caller;
    action = action;
    entity_type = entity_type;
    entity_id = of_uuid id;
    payload = payload;
  };
  created_at = now;
}

module _ (d : Db) (t : Uuid) (caller : Caller) where
  -- Exactly the rows that satisfy `Hit` have become `new`; `i` is what one of them has become.
  pub record RowChanged (Hit : QuarantineItem → Type 0) (new : QuarantineItem → QuarantineItem)
      (s : Quarantine) (i : QuarantineItem) (s' : Quarantine) : Type 0 where
    pub row : QuarantineItem
    pub hit : Hit row
    pub item_eq : i ≡ new row
    pub items : ChangedAt Hit new s.quarantine_item s'.quarantine_item
    pub decisions : s'.abuse_decision ≡ s.abuse_decision

  pub record ItemReleased (item_id : Uuid) (s : Quarantine) (i : QuarantineItem) (s' : Quarantine)
      : Type 0 where
    pub now : Time
    pub changed :
        RowChanged
          (λ r.
            (visible (session d (tenant t) now) r.tenant_id ≡ true)
            × (r.id ≡ item_id)
            × (r.status ≡ "held"))
          (λ r. record r {
            status = "released";
            resolved_at = some now;
            resolved_by = some (actor caller);
          })
          s
          i
          s'
    pub logged_eq :
        s'.audit_log
        ≡ s.audit_log
          ++ entry_of t caller "quarantine.release" "quarantine_item" i.id
              (obj (field "message_ref" (text i.message_ref) end))
              now
            ∷ []

  pub record ItemReported (item_id : Uuid) (req : ReportFeedback) (s : Quarantine)
      (i : QuarantineItem) (s' : Quarantine) : Type 0 where
    pub now : Time
    pub known : (req.verdict ≡ "spam") ⊎ (req.verdict ≡ "ham")
    pub changed :
        RowChanged
          (λ r. (visible (session d (tenant t) now) r.tenant_id ≡ true) × (r.id ≡ item_id))
          (λ r. record r { reported_as = some req.verdict })
          s
          i
          s'
    pub logged_eq :
        s'.audit_log
        ≡ s.audit_log
          ++ entry_of t caller "quarantine.report" "quarantine_item" i.id
              (obj (
                field "reported_as"
                  (text req.verdict)
                  (field "message_ref" (text i.message_ref) end)))
              now
            ∷ []
