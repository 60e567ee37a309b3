-- ===== src/Admin/Live.antt =====
-- The handlers of Admin/Routes over a connection that answers: what was stored is read again.
use opengroupware.Prelude.{
  ◌≡◌, refl, Bool, true, false, Option, some, List, [], ◌∷◌, ◌++◌, Result, ok, err, ◌==◌, nat_eq,
  arith, any, find?, update, Bool-cases, inl, inr, ap,
}
use opengroupware.Db.Errors.{ApiError, db}
use opengroupware.Db.World.{Uuid, Time, World, next, continue}
use opengroupware.Db.Session.{visible}
use opengroupware.Db.Connect.{Db}
use opengroupware.Db.Transaction.{tenant, session, pure, ◌>>◌}
use opengroupware.Db.Audit.{record_entry}
use opengroupware.Db.Live.{
  IsUp, SameWorld-IsUp, Succeeds, statement-Succeeds, transact-Succeeds, exec-Succeeds,
  record_entry-Succeeds,
}
use opengroupware.Db.Visible.{visible_entry-own}
use opengroupware.Auth.Caller.{Caller}
use opengroupware.Admin.Models.{AbusePolicy, SetAbusePolicy}
use opengroupware.Admin.Validate.{validate_policy}
use opengroupware.Admin.Checks.{policy_check}
use opengroupware.Admin.Tables.{
  Control, control_audit, has_tenant, is_policy_of, select_policy, upsert_policy,
}
use opengroupware.Admin.Backstop.{validate_policy_iff}
use opengroupware.Admin.Routes.{
  AppState, policy_entry, put_policy_tx, put_policy, get_policy, or_defaults,
}

module _ {A : Type 0} (p q : A → Bool) (row : A) where
  -- The row that an upsert writes is the first that is found: `p` passes it, and no other key.
  find?-updated :
      (xs : List A)
      → p row ≡ true
      → ((x : A) → q x ≡ false → p x ≡ false)
      → any q xs ≡ true
      → find? p (update q (λ _. row) xs) ≡ some row
  unfolding find? update any
  find?-updated [] on off h = absurd (ground arith)
  find?-updated (x ∷ xs) on off h = elim (Bool-cases (q x)) [
    | inl this ↦ ground arith
    | inr other ↦
        let rest = find?-updated xs on off (ground arith) in
        let passed = off x other in ground arith
  ]

  find?-added :
      (xs : List A)
      → p row ≡ true
      → ((x : A) → q x ≡ false → p x ≡ false)
      → any q xs ≡ false
      → find? p (xs ++ row ∷ []) ≡ some row
  unfolding find? any
  find?-added [] on off h = ground arith
  find?-added (x ∷ xs) on off h =
      let rest = find?-added xs on off (ground arith) in
      let passed = off x (ground arith) in ground arith

-- The tenant's row of `abuse_policy`, as its own sessions find it.
Stored : Db → Uuid → AbusePolicy → Control → Type 0
Stored d t p s =
    (now : Time) → find? (is_policy_of (session d (tenant t) now) t) s.abuse_policy ≡ some p

module _ (st : AppState) (t : Uuid) (caller : Caller) (req : SetAbusePolicy) where
  stored_row : Time → AbusePolicy
  stored_row now = record {
    tenant_id = t;
    reject = req.reject;
    add_header = req.add_header;
    greylist = req.greylist;
    updated_at = now;
  }

  -- The row, its place in the table, and the tenant as it was.
  upsert_policy-Stored :
      (now : Time) (id : Uuid) (s : Control)
      → policy_check req.reject req.add_header req.greylist ≡ true
      → has_tenant s t ≡ true
      → (s' : Control) × (upsert_policy t req.reject req.add_header req.greylist
            (session st.db (tenant t) now)
            id
            s
          ≡ ok (stored_row now, s'))
        × Stored st.db t (stored_row now) s'
        × (has_tenant s' t ≡ true)
  unfolding upsert_policy stored_row Stored visible
  upsert_policy-Stored now id s checked known =
      elim (Bool-cases (any (λ (r : AbusePolicy). r.tenant_id == t) s.abuse_policy)) [
        | inl old ↦ (
          record s {
            abuse_policy =
                update (λ (r : AbusePolicy). r.tenant_id == t) (λ _. stored_row now) s.abuse_policy;
          },
          ground arith,
          λ now'.
              find?-updated _ _ (stored_row now) s.abuse_policy (ground arith)
                (λ r other. ground arith) old,
          known,
        )
        | inr new ↦ (
          record s { abuse_policy = s.abuse_policy ++ stored_row now ∷ [] },
          ground arith,
          λ now'.
              find?-added _ _ (stored_row now) s.abuse_policy (ground arith)
                (λ r other. ground arith) new,
          known,
        )
      ]

  put_policy-Succeeds :
      (w : World Control)
      → IsUp w
      → has_tenant w.tables t ≡ true
      → validate_policy req ≡ ok tt
      → Succeeds
          (λ p s'. (p ≡ stored_row (w.clock w.tick)) × Stored st.db t p s')
          w
          (put_policy st t caller req w)
  unfolding put_policy Stored
  put_policy-Succeeds w up known valid =
      let Q = λ (p : AbusePolicy) (s' : Control).
        (p ≡ stored_row (w.clock w.tick)) × Stored st.db t p s' in
      let se = session st.db (tenant t) (w.clock w.tick) in
      let v = next (next w) in
      let (s', ran, kept, known') =
        upsert_policy-Stored (w.clock w.tick) (w.uuids v.tick) w.tables
          (((validate_policy_iff req).0 valid).3) known in
      rw valid (
        transact-Succeeds Q db st.db (tenant t) (put_policy_tx t caller req) w up (
          exec-Succeeds Q db (upsert_policy t req.reject req.add_header req.greylist)
            (λ p. record_entry db (policy_entry t caller req) >> pure p) se w v _ s' up
            (record { replies_eq = refl; clock_eq = refl; uuids_eq = refl }) ran
            (record_entry-Succeeds Q db (policy_entry t caller req) _ se w _ up
              (record { replies_eq = refl; clock_eq = refl; uuids_eq = refl })
              (visible_entry-own st.db t _) (rw known' refl) (refl, kept))))

-- A stored policy is what is answered.
get_policy-Stored :
    (st : AppState) (t : Uuid) (p : AbusePolicy) (w : World Control)
    → IsUp w
    → Stored st.db t p w.tables
    → (get_policy st t w).0 ≡ ok p
unfolding get_policy select_policy Stored
get_policy-Stored st t p w up kept = go _ (
    statement-Succeeds (λ found _. found ≡ some p) db st.db (tenant t) (select_policy t) w (some p)
      w.tables up (rw (kept (w.clock w.tick)) refl) refl)
  where
    go :
        (r : Result ApiError (Option AbusePolicy) × World Control)
        → Succeeds (λ found _. found ≡ some p) w r
        → (continue r (or_defaults t)).0 ≡ ok p
    go (ok found, w') (e, _) = rw e refl
    go (err e, w') h = absurd h

-- The policy was stored with these thresholds at this time, and the next reading answers with it.
abbrev pub PolicyKept :
    AppState → Uuid → SetAbusePolicy → Time → Result ApiError AbusePolicy × World Control → Type 0
PolicyKept st t req now r =
    (p : AbusePolicy) × (w' : World Control) × (r ≡ (ok p, w'))
    × ((get_policy st t w').0 ≡ ok p)
    × (p.reject ≡ req.reject)
    × (p.add_header ≡ req.add_header)
    × (p.greylist ≡ req.greylist)
    × (p.updated_at ≡ now)

-- Over a connection that answers, a policy that passes the validation, for a tenant that exists, is
-- stored, and the next reading of the tenant's policy answers with exactly the thresholds that were
-- sent and with the time of the transaction.
pub put_policy-get_policy :
    (st : AppState) (t : Uuid) (caller : Caller) (req : SetAbusePolicy) (w : World Control)
    → IsUp w
    → has_tenant w.tables t ≡ true
    → validate_policy req ≡ ok tt
    → PolicyKept st t req (w.clock w.tick) (put_policy st t caller req w)
unfolding stored_row
put_policy-get_policy st t caller req w up known valid =
    go _ (put_policy-Succeeds st t caller req w up known valid)
  where
    go :
        (r : Result ApiError AbusePolicy × World Control)
        → Succeeds
            (λ p s'. (p ≡ stored_row st t caller req (w.clock w.tick)) × Stored st.db t p s')
            w
            r
        → PolicyKept st t req (w.clock w.tick) r
    go (err e, w') h = absurd h
    go (ok p, w') ((same, kept), world) = (
      p,
      w',
      refl,
      get_policy-Stored st t p w' (SameWorld-IsUp world up) kept,
      ap (λ (r : AbusePolicy). r.reject) same,
      ap (λ (r : AbusePolicy). r.add_header) same,
      ap (λ (r : AbusePolicy). r.greylist) same,
      ap (λ (r : AbusePolicy). r.updated_at) same,
    )
