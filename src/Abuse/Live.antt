-- ===== src/Abuse/Live.antt =====
-- The handlers of Abuse/Routes over a connection that answers: a held item is released once.
use opengroupware.Prelude.{
  String, ◌≡◌, refl, ap, Bool, true, false, none, some, List, [], ◌∷◌, Result, ok, err, nat_eq,
  string_eq, arith, find?, update, Bool-cases, inl, inr,
}
use opengroupware.Db.Errors.{ApiError, not_found, db}
use opengroupware.Db.World.{Uuid, Time, World, next}
use opengroupware.Db.Session.{visible}
use opengroupware.Db.Connect.{Db}
use opengroupware.Db.Transaction.{tenant, session}
use opengroupware.Db.Live.{
  IsUp, SameWorld-IsUp, Succeeds, Fails, transact-Succeeds, transact-Fails, exec-Succeeds,
  exec-continues, record_entry-Succeeds,
}
use opengroupware.Db.Visible.{visible_entry-own}
use opengroupware.Auth.Caller.{Caller, actor}
use opengroupware.Abuse.Models.{QuarantineItem}
use opengroupware.Abuse.Tables.{Quarantine, quarantine_audit, is_held, released, release}
use opengroupware.Abuse.Routes.{item_tx, release_entry, release_tx, release_item}

module _ {A : Type 0} (p q : A → Bool) (f : A → A) where
  -- An update after which no row passes.
  find?-spent :
      (xs : List A)
      → ((x : A) → q x ≡ true → p (f x) ≡ false)
      → ((x : A) → q x ≡ false → p x ≡ false)
      → find? p (update q f xs) ≡ none
  unfolding find? update
  find?-spent [] on off = refl
  find?-spent (x ∷ xs) on off = elim (Bool-cases (q x)) [
    | inl this ↦ let rest = find?-spent xs on off in let passed = on x this in ground arith
    | inr other ↦ let rest = find?-spent xs on off in let passed = off x other in ground arith
  ]

module _ (d : Db) (t item_id : Uuid) where
  -- The item as the tenant's own sessions find it.
  abbrev pub Holds : Quarantine → QuarantineItem → Type 0
  Holds s i =
      (now : Time) → find? (is_held (session d (tenant t) now) item_id) s.quarantine_item ≡ some i

  abbrev pub Resolved : Quarantine → Type 0
  Resolved s =
      (now : Time) → find? (is_held (session d (tenant t) now) item_id) s.quarantine_item ≡ none

  is_held-released :
      (who : String) (at_time now : Time) (r : QuarantineItem)
      → is_held (session d (tenant t) now) item_id (released who at_time r) ≡ false
  is_held-released who at_time now r = ground arith

  is_held-any_time :
      (now now' : Time) (r : QuarantineItem)
      → is_held (session d (tenant t) now) item_id r ≡ false
      → is_held (session d (tenant t) now') item_id r ≡ false
  unfolding visible
  is_held-any_time now now' r h = h

  release_item-Succeeds :
      (caller : Caller) (i : QuarantineItem) (w : World Quarantine)
      → IsUp w
      → Holds w.tables i
      → Succeeds
          (λ r s'. (r ≡ released (actor caller) (w.clock w.tick) i) × Resolved s')
          w
          (release_item d t item_id caller w)
  unfolding release_item release
  release_item-Succeeds caller i w up held =
      let se = session d (tenant t) (w.clock w.tick) in
      let s' : Quarantine = record w.tables {
        quarantine_item =
            update (is_held se item_id) (released (actor caller) se.started)
              w.tables.quarantine_item;
      } in
      let Q = λ (r : QuarantineItem) (s' : Quarantine).
        (r ≡ released (actor caller) (w.clock w.tick) i) × Resolved s' in
      transact-Succeeds Q db d (tenant t) (release_tx t item_id caller) w up (
        exec-Succeeds Q db (release item_id (actor caller)) (item_tx (release_entry t caller)) se w
          (next (next w)) (some (released (actor caller) se.started i)) s' up
          (record { replies_eq = refl; clock_eq = refl; uuids_eq = refl })
          (rw (held se.started) refl)
          (record_entry-Succeeds Q db
            (release_entry t caller (released (actor caller) se.started i)) _ se w _ up
            (record { replies_eq = refl; clock_eq = refl; uuids_eq = refl })
            (visible_entry-own d t _) refl
            (
              refl,
              λ now.
                  find?-spent _ _ _ w.tables.quarantine_item
                    (λ r _. is_held-released (actor caller) (w.clock w.tick) now r)
                    (is_held-any_time _ now),
            )))

  release_item-Fails :
      (caller : Caller) (w : World Quarantine)
      → IsUp w
      → Resolved w.tables
      → Fails not_found w (release_item d t item_id caller w)
  unfolding release_item release
  release_item-Fails caller w up gone =
      transact-Fails db d (tenant t) (release_tx t item_id caller) w not_found up (
        rw
          (exec-continues db (release item_id (actor caller)) (item_tx (release_entry t caller))
            (session d (tenant t) (w.clock w.tick)) (next (next w)) none w.tables up
            (rw (gone (w.clock w.tick)) refl))
          (refl, refl, record { replies_eq = refl; clock_eq = refl; uuids_eq = refl }))

  -- Who released the item and when, and that it cannot be released again.
  abbrev pub ReleasedOnce :
      Caller → Time → QuarantineItem → Result ApiError QuarantineItem × World Quarantine → Type 0
  ReleasedOnce caller now i r =
      (w' : World Quarantine) × (r ≡ (ok (released (actor caller) now i), w'))
      × ((again : Caller) → Fails not_found w' (release_item d t item_id again w'))

  -- Over a connection that answers, an item that the tenant's sessions find as held is released, by
  -- the caller and at the time of the transaction; a second release, by anyone of the tenant, is
  -- answered with not found and changes nothing.
  pub release_item-once :
      (caller : Caller) (i : QuarantineItem) (w : World Quarantine)
      → IsUp w
      → Holds w.tables i
      → ReleasedOnce caller (w.clock w.tick) i (release_item d t item_id caller w)
  release_item-once caller i w up held = go _ (release_item-Succeeds caller i w up held)
    where
      go :
          (r : Result ApiError QuarantineItem × World Quarantine)
          → Succeeds (λ r s'. (r ≡ released (actor caller) (w.clock w.tick) i) × Resolved s') w r
          → ReleasedOnce caller (w.clock w.tick) i r
      go (err e, w') h = absurd h
      go (ok r, w') ((same, gone), world) = (
        w',
        ap (λ x. (ok x, w')) same,
        λ again. release_item-Fails again w' (SameWorld-IsUp world up) gone,
      )
