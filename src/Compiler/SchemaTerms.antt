-- ===== src/Compiler/SchemaTerms.antt =====
-- That what well-formed tables give conforms to the settings schema, by Compiler/Conforms.
use opengroupware.Prelude.{
  ℕ, String, Float64, nan, infinite, fin, is_finite, leb, length, ◌≡◌, ◌≢◌, ◌∙◌, refl, ap, Bool,
  true, List, [], ◌∷◌, ◌++◌, map, Result, ok, err, nat_eq, string_eq, inl, inr, all, arith, All,
}
use opengroupware.Prelude.Texts.{codes}
use opengroupware.Db.Errors.{SqlError}
use opengroupware.Db.World.{Uuid, Time, World, continue}
use opengroupware.Db.Connect.{Db}
use opengroupware.Db.Transaction.{platform, session}
use opengroupware.Db.Commits.{Commits, statement-Commits}
use opengroupware.Admin.Checks.{fqdn_check}
use opengroupware.Admin.Tables.{Control}
use opengroupware.Admin.WellFormed.{WellFormed}
use opengroupware.Db.Audit.{text, number}
use opengroupware.Compiler.Render.{
  texts, policy_value, policy_values, tenant_schema, nonempty_string, settings_schema, render_doc,
}
use opengroupware.Compiler.Conforms.{
  conforms, all_values, count_values, member, has_type, has_required, has_min_items, has_min_length,
  has_minimum, has_pattern,
}
use opengroupware.Compiler.Identifiers.{underscored}
use opengroupware.Compiler.Policies.{
  SettingsRow, TenantPolicy, Collation, select_settings, group, load_policies, grouped_rows,
}
use opengroupware.Compiler.SchemaRows.{
  RowOk, EntryOk, join_rows-Ok, select_settings_lem, group_from-Ok, is_id_char, slug_some, map_some,
  slug_chars, fqdn_some, codes-settings_id,
}

-- `^tenant_[a-z0-9_]+$` matches what begins with `tenant_` and goes on with one such character or more.
abbrev pub MatchesIds : (String → String → Bool) → Type 0
MatchesIds matches =
    (s : String) (rest : List ℕ)
    → codes s ≡ codes "tenant_" ++ rest
    → rest ≢ []
    → all is_id_char rest ≡ true
    → matches "^tenant_[a-z0-9_]+$" s ≡ true

some-length : (cs : List ℕ) → cs ≢ [] → leb 1 (length cs) ≡ true
some-length [] h = absurd (h refl)
some-length (c ∷ cs) h = ground arith

number_typed : (x : Float64) → is_finite x ≡ true → has_type (text "number") (number x) ≡ true
unfolding has_type
number_typed nan h = ground (arith, h)
number_typed (infinite negative) h = ground (arith, h)
number_typed (fin negative k) h = refl

some-count : (ds : List String) → ds ≢ [] → leb 1 (count_values (texts ds)) ≡ true
some-count [] h = absurd (h refl)
some-count (d ∷ ds) h = ground arith

module _ (matches : String → String → Bool) where
  nonempty_string-conforms :
      (s : String) → codes s ≢ [] → conforms matches nonempty_string (text s) ≡ true
  unfolding conforms has_type has_min_length
  nonempty_string-conforms s h = rw (some-length (codes s) h) refl

  texts-conforms :
      (ds : List String)
      → All (λ d. fqdn_check (codes d) ≡ true) ds
      → all_values (conforms matches nonempty_string) (texts ds) ≡ true
  texts-conforms [] h = refl
  texts-conforms (d ∷ ds) (checked, h) =
      rw (nonempty_string-conforms d (fqdn_some (codes d) checked)) (texts-conforms ds h)

  EntryOk-conforms :
      (p : TenantPolicy)
      → MatchesIds matches
      → EntryOk p
      → conforms matches tenant_schema (policy_value p) ≡ true
  unfolding conforms has_type has_required has_min_items has_min_length has_pattern member
  EntryOk-conforms p ids h =
      rw
        (
          some-length (codes p.slug) (slug_some (codes p.slug) h.slug_ok),
          ids p.settings_id (map underscored (codes p.slug))
              (ap codes h.id_eq ∙ codes-settings_id p.slug)
              (map_some (codes p.slug) (slug_some (codes p.slug) h.slug_ok))
              (slug_chars (codes p.slug) h.slug_ok),
          some-count p.domains h.some_domain,
          texts-conforms p.domains h.domains_ok,
          number_typed p.reject (ground (arith, h.actions_ok)),
          number_typed p.add_header (ground (arith, h.actions_ok)),
          number_typed p.greylist (ground (arith, h.actions_ok)),
        )
        refl

  policy_values-conform :
      (ps : List TenantPolicy)
      → MatchesIds matches
      → All EntryOk ps
      → all_values (conforms matches tenant_schema) (policy_values ps) ≡ true
  policy_values-conform [] ids h = refl
  policy_values-conform (p ∷ ps) ids (p_ok, h) =
      rw (EntryOk-conforms p ids p_ok) (policy_values-conform ps ids h)

  render_doc-conforms :
      MatchesIds matches
      → (ps : List TenantPolicy) → All EntryOk ps
      → conforms matches settings_schema (render_doc ps) ≡ true
  unfolding conforms has_type has_required has_minimum member settings_schema render_doc
  render_doc-conforms ids ps h = rw (policy_values-conform ps ids h) refl

-- ORDER BY adds no row.
abbrev pub IsOrder : Collation → Type 1
IsOrder order =
    (P : SettingsRow → Type 0) (rows : List SettingsRow) → All P rows → All P (order rows)

-- The document of the entries is what the settings schema asks for, and the tables are as they were.
abbrev pub Loaded : (String → String → Bool) → Control → List TenantPolicy → Control → Type 0
Loaded matches s ps s' = (conforms matches settings_schema (render_doc ps) ≡ true) × (s' ≡ s)

-- From well-formed tables of the control plane, with rows that the database orders without adding any,
-- the query of a cycle and its grouping give entries whose whole document, as it is rendered for the
-- validation, conforms to the settings schema by every keyword that the schema has, and leave the
-- tables as they were. The matching of patterns is a parameter, which matches the identifiers.
pub load_policies-conforms :
    (matches : String → String → Bool) (order : Collation) (d : Db) (w : World Control)
    → MatchesIds matches
    → IsOrder order
    → WellFormed w.tables
    → Commits (Loaded matches w.tables) w.tables (load_policies order d w)
unfolding load_policies group
load_policies-conforms matches order d w ids ordered h = go _ (
    statement-Commits (λ rows s'. All RowOk rows × (s' ≡ w.tables)) (λ e. e) d platform
      (select_settings order) w selected)
  where
    selected :
        (now : Time) (id : Uuid) (rows : List SettingsRow) (s : Control)
        → select_settings order (session d platform now) id w.tables ≡ ok (rows, s)
        → All RowOk rows × (s ≡ w.tables)
    selected now id rows s ran =
        let (rows_eq, s_eq) =
          select_settings_lem order (session d platform now) id w.tables rows s ran in
        (
          rw rows_eq (
              ordered RowOk _
                (join_rows-Ok (session d platform now) w.tables w.tables.tenants h h.tenants_ok)),
          s_eq,
        )

    go :
        (r : Result SqlError (List SettingsRow) × World Control)
        → Commits (λ rows s'. All RowOk rows × (s' ≡ w.tables)) w.tables r
        → Commits (Loaded matches w.tables) w.tables (continue r grouped_rows)
    go (ok rows, w') (rows_ok, same) =
        (render_doc-conforms matches ids (group rows) (group_from-Ok [] rows rows_ok tt), same)
    go (err e, w') (inl same) = inl same
    go (err e, w') (inr (rows, (_, same))) = inl same
