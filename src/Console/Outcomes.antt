-- ===== src/Console/Outcomes.antt =====
-- How the page of a tenant, Console/Pages, comes about.
use mathlib.Core.List.Memᴰ.{head, tail}
use mathlib.Core.List.{Memᴰ}
use opengroupware.Prelude.{
  ℕ, suc, String, ◌≡◌, refl, ◌⊎◌, inl, inr, false, any, none, some, List, [], ◌∷◌, Result, ok, err,
  find?, ◌==◌, nat_eq, Bool-cases, arith,
}
use opengroupware.Db.World.{Uuid}
use opengroupware.Console.Client.{
  Web, AdminApi, TenantDto, PolicyDto, get_tenants_json, domains_of_tenant, accounts_of_tenant,
  policy_of_tenant,
}
use opengroupware.Console.Views.{Html}
use opengroupware.Console.Pages.{unwrap_or_default, with_policy, after_tenants, tenant_detail_page}
use opengroupware.Console.Words.{
  texts_of, error_words, detail_words, texts_of-error_page, texts_of-detail_page,
}

find?-cases :
    (id : Uuid) (ts : List TenantDto)
    → ((find? (λ (t : TenantDto). t.id == id) ts ≡ none)
        × (any (λ (t : TenantDto). t.id == id) ts ≡ false))
      ⊎ ((t : TenantDto) × (find? (λ (t : TenantDto). t.id == id) ts ≡ some t)
          × Memᴰ t ts
          × (t.id ≡ id))
unfolding find? any
find?-cases id [] = inl (refl, refl)
find?-cases id (t ∷ ts) = elim (Bool-cases (t.id == id)) [
  | inl same ↦ inr (t, rw same refl, head refl, ground (arith, same))
  | inr other ↦ elim (find?-cases id ts) [
    | inl (gone, unused) ↦ inl (rw other gone, rw other unused)
    | inr (u, found, there, same) ↦ inr (u, rw other found, tail there, same)
  ]
]

-- How a page about the tenant `id` comes about, from the request `n` on, and what it then shows.
pub data Outcome (web : Web) (api : AdminApi) (id : Uuid) (n : ℕ) (page : Html) : Type 0 where
  unlisted :
      (e : String)
      → get_tenants_json web api n ≡ err e
      → texts_of page ≡ error_words "Tenant" e
      → Outcome web api id n page
  unknown :
      (ts : List TenantDto)
      → get_tenants_json web api n ≡ ok ts
      → any (λ (t : TenantDto). t.id == id) ts ≡ false
      → texts_of page ≡ error_words "Tenant not found" "No tenant with that id."
      → Outcome web api id n page
  no_policy :
      (ts : List TenantDto) (t : TenantDto) (e : String)
      → get_tenants_json web api n ≡ ok ts
      → Memᴰ t ts
      → t.id ≡ id
      → policy_of_tenant web api id (suc (suc (suc n))) ≡ err e
      → texts_of page ≡ error_words t.name e
      → Outcome web api id n page
  detailed :
      (ts : List TenantDto) (t : TenantDto) (p : PolicyDto)
      → get_tenants_json web api n ≡ ok ts
      → Memᴰ t ts
      → t.id ≡ id
      → policy_of_tenant web api id (suc (suc (suc n))) ≡ ok p
      → texts_of page
        ≡ detail_words t
            (unwrap_or_default (domains_of_tenant web api id (suc n)))
            (unwrap_or_default (accounts_of_tenant web api id (suc (suc n))))
            p
      → Outcome web api id n page

-- Whatever the API of the control plane answers, the page of a tenant shows the tenant only if the API
-- lists one with its id and answers with its policy; it then shows that tenant's names, every domain
-- and every account that the API answered with, in their order, and the thresholds. It says that
-- there are no domains, or no accounts, when there are none and also when that request failed. Otherwise it shows which of the requests failed and how, or that no listed tenant
-- has the id.
pub tenant_detail_page-Outcome :
    (web : Web) (api : AdminApi) (id : Uuid) (n : ℕ)
    → Outcome web api id n (tenant_detail_page web api id n)
unfolding tenant_detail_page
tenant_detail_page-Outcome web api id n = listed (get_tenants_json web api n) refl
  where
    priced :
        (ts : List TenantDto) (t : TenantDto) (r : Result String PolicyDto)
        → get_tenants_json web api n ≡ ok ts
        → Memᴰ t ts
        → t.id ≡ id
        → policy_of_tenant web api id (suc (suc (suc n))) ≡ r
        → Outcome web api id n (
            with_policy t
              (unwrap_or_default (domains_of_tenant web api id (suc n)))
              (unwrap_or_default (accounts_of_tenant web api id (suc (suc n))))
              r)
    priced ts t (ok p) answer there same e = detailed ts t p answer there same e (
        texts_of-detail_page t (unwrap_or_default (domains_of_tenant web api id (suc n)))
          (unwrap_or_default (accounts_of_tenant web api id (suc (suc n)))) p)
    priced ts t (err e) answer there same failed =
        no_policy ts t e answer there same failed (texts_of-error_page t.name e)

    listed :
        (r : Result String (List TenantDto))
        → get_tenants_json web api n ≡ r
        → Outcome web api id n (after_tenants web api id (suc n) r)
    listed (err e) answer = unlisted e answer (texts_of-error_page "Tenant" e)
    listed (ok ts) answer = elim (find?-cases id ts) [
      | inl (gone, unused) ↦ rw gone (
          unknown ts answer unused
            (texts_of-error_page "Tenant not found" "No tenant with that id."))
      | inr (t, found, there, same) ↦
          rw found
            (priced ts t (policy_of_tenant web api id (suc (suc (suc n)))) answer there same refl)
    ]
