-- ===== src/Console/Words.antt =====
-- The texts that the pages of Console/Views show.
use mathlib.Core.List.{append_assoc, append-nil}
use opengroupware.Prelude.{
  String, ◌≡◌, refl, ap, sym, ◌∙◌, Bool, true, false, List, [], ◌∷◌, ◌++◌, nat_eq,
}
use opengroupware.Prelude.Decimal.{◌⊕◌, fmt1}
use opengroupware.Db.World.{Uuid}
use opengroupware.Console.Client.{TenantDto, DomainDto, AccountDto, PolicyDto}
use opengroupware.Console.Views.{
  Html, nothing, shown, element, doctype, ◌◁◌, tenant_rows, domain_rows, account_rows, domains_card,
  accounts_card, detail_view, error_view, render_detail_page, render_error_page, initial, show_ℤ,
  when, is_empty,
}

-- The texts of a document, in its order.
unfoldable pub texts_of : Html → List String
texts_of nothing = []
texts_of (shown t a) = t ∷ texts_of a
texts_of (element name attributes children a) = texts_of children ++ texts_of a
texts_of (doctype a) = texts_of a

texts_of-beside : (a b : Html) → texts_of (a ◁ b) ≡ texts_of a ++ texts_of b
unfolding texts_of ◌◁◌
texts_of-beside nothing b = refl
texts_of-beside (shown t a) b = ap (λ l. t ∷ l) (texts_of-beside a b)
texts_of-beside (element name attributes children a) b =
    ap (λ l. texts_of children ++ l) (texts_of-beside a b)
    ∙ sym (append_assoc (texts_of children) (texts_of a) (texts_of b))
texts_of-beside (doctype a) b = texts_of-beside a b

-- That there is nothing to list.
abbrev pub none_said : String → Bool → List String
none_said said true = said ∷ []
none_said said false = []

texts_of-when :
    (b : Bool) (said : String) (h : Html)
    → texts_of h ≡ said ∷ []
    → texts_of (when b h) ≡ none_said said b
unfolding texts_of
texts_of-when true said h e = e
texts_of-when false said h e = refl

unfoldable pub tenant_words : List TenantDto → List String
tenant_words [] = []
tenant_words (t ∷ ts) = t.slug ∷ t.name ∷ t.plan ∷ t.status ∷ tenant_words ts

unfoldable pub domain_words : List DomainDto → List String
domain_words [] = []
domain_words (d ∷ ds) = d.fqdn ∷ d.status ∷ domain_words ds

unfoldable pub account_words : List AccountDto → List String
account_words [] = []
account_words (a ∷ rows) =
    a.email ∷ a.display_name ∷ (show_ℤ a.quota_mb ⊕ " MB") ∷ a.status ∷ account_words rows

texts_of-tenant_rows :
    (show_uuid : Uuid → String) (ts : List TenantDto)
    → texts_of (tenant_rows show_uuid ts) ≡ tenant_words ts
unfolding texts_of ◌◁◌ tenant_rows tenant_words
texts_of-tenant_rows show_uuid [] = refl
texts_of-tenant_rows show_uuid (t ∷ ts) =
    ap (λ l. t.slug ∷ t.name ∷ t.plan ∷ t.status ∷ l) (texts_of-tenant_rows show_uuid ts)

texts_of-domain_rows : (ds : List DomainDto) → texts_of (domain_rows ds) ≡ domain_words ds
unfolding texts_of ◌◁◌ domain_rows domain_words
texts_of-domain_rows [] = refl
texts_of-domain_rows (d ∷ ds) = ap (λ l. d.fqdn ∷ d.status ∷ l) (texts_of-domain_rows ds)

texts_of-account_rows : (rows : List AccountDto) → texts_of (account_rows rows) ≡ account_words rows
unfolding texts_of ◌◁◌ account_rows account_words
texts_of-account_rows [] = refl
texts_of-account_rows (a ∷ rows) =
    ap (λ l. a.email ∷ a.display_name ∷ (show_ℤ a.quota_mb ⊕ " MB") ∷ a.status ∷ l)
      (texts_of-account_rows rows)

-- Rows, and after them that there are none.
texts_of-listed :
    (rows h : Html) (b : Bool) (said : String) (cells : List String)
    → texts_of rows ≡ cells
    → texts_of h ≡ said ∷ []
    → texts_of (rows ◁ when b h) ++ [] ++ [] ++ [] ≡ cells ++ none_said said b
texts_of-listed rows h b said cells e f =
    append-nil _
    ∙ append-nil _
    ∙ append-nil _
    ∙ texts_of-beside rows (when b h)
    ∙ rw (e, texts_of-when b said h f) refl

texts_of-domains_card :
    (ds : List DomainDto)
    → texts_of (domains_card ds) ≡ domain_words ds ++ none_said "No domains." (is_empty ds)
unfolding domains_card texts_of
texts_of-domains_card ds =
    texts_of-listed (domain_rows ds) _ (is_empty ds) "No domains." (domain_words ds)
      (texts_of-domain_rows ds) refl

texts_of-accounts_card :
    (rows : List AccountDto)
    → texts_of (accounts_card rows)
      ≡ "Email"
        ∷ "Name"
        ∷ "Quota"
        ∷ "Status"
        ∷ (account_words rows ++ none_said "No accounts." (is_empty rows))
unfolding accounts_card texts_of ◌◁◌
texts_of-accounts_card rows =
    ap (λ l. "Email" ∷ "Name" ∷ "Quota" ∷ "Status" ∷ l)
      (texts_of-listed (account_rows rows) _ (is_empty rows) "No accounts." (account_words rows)
        (texts_of-account_rows rows) refl)

texts_of-detail_view :
    (t : TenantDto) (ds : List DomainDto) (rows : List AccountDto) (p : PolicyDto)
    → texts_of (detail_view t ds rows p)
      ≡ "← Tenants"
        ∷ initial t.name
        ∷ t.name
        ∷ (t.slug ⊕ " · " ⊕ t.plan ⊕ " · " ⊕ t.status)
        ∷ "Domains"
        ∷ (texts_of (domains_card ds)
            ++ "Accounts"
              ∷ (texts_of (accounts_card rows)
                  ++ "Abuse policy"
                    ∷ "greylist"
                    ∷ fmt1 p.greylist
                    ∷ "add header"
                    ∷ fmt1 p.add_header
                    ∷ "reject"
                    ∷ fmt1 p.reject
                    ∷ []))
unfolding texts_of ◌◁◌ detail_view
texts_of-detail_view t ds rows p =
    rw (texts_of-beside (domains_card ds), texts_of-beside (accounts_card rows)) refl

-- The title, and the navigation of every page.
abbrev pub head_words : String → List String
head_words title = (title ⊕ " · opengroupware admin") ∷ "opengroupware admin" ∷ "Tenants" ∷ []

abbrev pub error_words : (title msg : String) → List String
error_words title msg = head_words title ++ title ∷ msg ∷ "← Back to tenants" ∷ []

-- The page of a tenant: its names, its domains, its accounts and the thresholds of its policy.
abbrev pub detail_words : TenantDto → List DomainDto → List AccountDto → PolicyDto → List String
detail_words t ds rows p =
    head_words t.name
    ++ "← Tenants"
      ∷ initial t.name
      ∷ t.name
      ∷ (t.slug ⊕ " · " ⊕ t.plan ⊕ " · " ⊕ t.status)
      ∷ "Domains"
      ∷ ((domain_words ds ++ none_said "No domains." (is_empty ds))
          ++ "Accounts"
            ∷ "Email"
            ∷ "Name"
            ∷ "Quota"
            ∷ "Status"
            ∷ ((account_words rows ++ none_said "No accounts." (is_empty rows))
                ++ "Abuse policy"
                  ∷ "greylist"
                  ∷ fmt1 p.greylist
                  ∷ "add header"
                  ∷ fmt1 p.add_header
                  ∷ "reject"
                  ∷ fmt1 p.reject
                  ∷ []))

pub texts_of-error_page :
    (title msg : String) → texts_of (render_error_page title msg) ≡ error_words title msg
unfolding texts_of ◌◁◌ render_error_page error_view
texts_of-error_page title msg = refl

pub texts_of-detail_page :
    (t : TenantDto) (ds : List DomainDto) (rows : List AccountDto) (p : PolicyDto)
    → texts_of (render_detail_page t ds rows p) ≡ detail_words t ds rows p
unfolding texts_of ◌◁◌ render_detail_page
texts_of-detail_page t ds rows p =
    ap (λ l. head_words t.name ++ l)
      (append-nil _
        ∙ append-nil _
        ∙ append-nil _
        ∙ texts_of-detail_view t ds rows p
        ∙ rw (texts_of-domains_card ds, texts_of-accounts_card rows) refl)
