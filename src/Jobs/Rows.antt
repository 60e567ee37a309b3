-- ===== src/Jobs/Rows.antt =====
-- How the rows of `accounts` change, whoever changes them.
use opengroupware.Prelude.{
  String, ◌≡◌, refl, sym, ap, subst, ◌∙◌, Bool, true, false, some, List, [], ◌∷◌, ◌++◌, ◌==◌,
  nat_eq, string_eq, arith, any, any-append, any-update, update, All, All-concat, All-update,
  All-update_at, Distinct, Distinct-concat, Distinct-update,
}
use opengroupware.Db.World.{Uuid, Time}
use opengroupware.Admin.Tables.{AccountRow, activated}

-- An active account has the identity of its address.
abbrev pub Owned : (String → Uuid) → AccountRow → Type 0
Owned identity r = r.account.status ≡ "active" → r.sesame_user_id ≡ some (identity r.account.email)

abbrev has_id : Uuid → AccountRow → Bool
has_id id r = r.account.id == id

-- There is an account with this identifier, and its address is this one.
abbrev pub IsKnown : Uuid → String → List AccountRow → Type 0
IsKnown id email rows =
    (any (has_id id) rows ≡ true)
    × All (λ (r : AccountRow). r.account.id ≡ id → r.account.email ≡ email) rows

abbrev pub IsOwned : (String → Uuid) → List AccountRow → Type 0
IsOwned identity rows = Distinct (λ (r : AccountRow). r.account.id) rows × All (Owned identity) rows

-- The rows are the same; or a pending row with an identifier of its own is added; or rows of a known
-- account get the identity of its address.
pub data Change (identity : String → Uuid) : List AccountRow → List AccountRow → Type 0 where
  same : (rows : List AccountRow) → Change identity rows rows
  added :
      (rows : List AccountRow) (r : AccountRow)
      → r.account.status ≡ "pending_provisioning"
      → any (has_id r.account.id) rows ≡ false
      → Change identity rows (rows ++ r ∷ [])
  patched :
      (rows : List AccountRow) (p : AccountRow → Bool) (id : Uuid) (email : String) (now : Time)
      → ((r : AccountRow) → p r ≡ true → r.account.id ≡ id)
      → IsKnown id email rows
      → Change identity rows (update p (activated (identity email) now) rows)

text_is : String → String → Bool
text_is s t = s == t

pub pending-not_active : (status : String) → status ≡ "pending_provisioning" → status ≡ "active" → ⊥
unfolding text_is
pending-not_active status p a =
    let same : text_is "active" "active" ≡ text_is "pending_provisioning" "active" =
      ap (λ s. text_is s "active") (sym a ∙ p) in
    ground arith

module _ {identity : String → Uuid} where
  pub Change-IsOwned :
      {rows rows' : List AccountRow}
      → Change identity rows rows'
      → IsOwned identity rows
      → IsOwned identity rows'
  Change-IsOwned (same rows) h = h
  Change-IsOwned (added rows r pending fresh) (ids, owned) = (
    Distinct-concat (λ (x : AccountRow). x.account.id) rows r fresh ids,
    All-concat (Owned identity) rows r owned
        (λ active. absurd (pending-not_active r.account.status pending active)),
  )
  Change-IsOwned (patched rows p id email now of_id (_, known)) (ids, owned) = (
    Distinct-update (λ (x : AccountRow). x.account.id) p (activated (identity email) now) rows
        (λ r _. refl) ids,
    All-update_at (Owned identity) (λ (r : AccountRow). r.account.id ≡ id → r.account.email ≡ email)
        p (activated (identity email) now) rows
        (λ r on is_email _ _. rw (is_email (of_id r on)) refl) known owned,
  )

  -- What is known of an account stays true of it.
  pub Change-IsKnown :
      {rows rows' : List AccountRow} (id : Uuid) (email : String)
      → Change identity rows rows'
      → IsKnown id email rows
      → IsKnown id email rows'
  Change-IsKnown id email (same rows) h = h
  Change-IsKnown id email (added rows r pending fresh) (there, known) = (
    any-append (has_id id) rows (r ∷ []) ∙ (rw there refl),
    All-concat (λ (x : AccountRow). x.account.id ≡ id → x.account.email ≡ email) rows r known
        (λ e.
          let gone : any (has_id id) rows ≡ false =
            subst (λ x. any (has_id x) rows ≡ false) e fresh in
          absurd (ground (arith, there, gone))),
  )
  Change-IsKnown id email (patched rows p id' email' now of_id _) (there, known) = (
    any-update (has_id id) p (activated (identity email') now) rows (λ r _. refl) ∙ there,
    All-update (λ (x : AccountRow). x.account.id ≡ id → x.account.email ≡ email) p
        (activated (identity email') now) rows (λ r k. k) known,
  )
