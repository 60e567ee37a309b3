-- ===== src/Console/Views.antt =====
-- crates/admin-console/src/app.rs: the pages as documents, which the `leptos` crate prints by
-- `to_html`.
use Prim.Native.Char.{Char, code}
use opengroupware.Prelude.{
  ℕ, suc, String, Bool, true, false, ◌&&◌, ◌||◌, List, [], ◌∷◌, ℤ, pos, negsuc, ◌==◌, nat_eq,
  string_eq, if◌then◌else◌,
}
use opengroupware.Prelude.Texts.{codes}
use opengroupware.Prelude.Decimal.{◌⊕◌, show_ℕ, fmt1}
use opengroupware.Db.World.{Uuid}
use opengroupware.Console.Client.{TenantDto, DomainDto, AccountDto, PolicyDto}
use opengroupware.Console.Style.{style}

abbrev pub Attributes : Type 0
Attributes = List (String × String)

-- A sequence of nodes: nothing more; a text; an element with its attributes and children; the DOCTYPE.
pub data Html : Type 0 where
  nothing : Html
  shown : (text : String) (after : Html) → Html
  element : (name : String) (attributes : Attributes) (children after : Html) → Html
  doctype : (after : Html) → Html

infixr 55 ◌◁◌
unfoldable pub ◌◁◌ : Html → Html → Html
nothing ◁ b = b
shown t a ◁ b = shown t (a ◁ b)
element name attributes children a ◁ b = element name attributes children (a ◁ b)
doctype a ◁ b = doctype (a ◁ b)

abbrev pub words : String → Html
words t = shown t nothing

abbrev pub tag : String → Html → Html
tag name children = element name [] children nothing

-- `<name class=c>…</name>`
abbrev pub classed : (name c : String) → Html → Html
classed name c children = element name (("class", c) ∷ []) children nothing

-- `<a href=u>…</a>`
abbrev pub link : (u : String) → String → Html
link u t = element "a" (("href", u) ∷ []) (words t) nothing

-- `empty.then(|| …)`
abbrev pub when : Bool → Html → Html
when true h = h
when false h = nothing

abbrev pub is_empty : {A : Type 0} → List A → Bool
is_empty [] = true
is_empty (x ∷ xs) = false

abbrev has_prefix : List ℕ → List ℕ → Bool
has_prefix [] cs = true
has_prefix (p ∷ ps) [] = false
has_prefix (p ∷ ps) (c ∷ cs) = p == c && has_prefix ps cs

unfoldable pub badge_class : String → String
badge_class status =
    if status == "active"
    then "badge ok"
    else if status == "suspended" || has_prefix (codes "pending") (codes status)
    then "badge warn"
    else "badge"

abbrev pub badge : String → Html
badge status = classed "span" (badge_class status) (words status)

abbrev pub page : (title : String) → Html → Html
page title content = doctype (
    element "html" (("lang", "en") ∷ [])
      (tag "head" (
          element "meta" (("charset", "utf-8") ∷ []) nothing (
            element "meta"
              (("name", "viewport") ∷ ("content", "width=device-width, initial-scale=1") ∷ [])
              nothing
              (tag "title" (words (title ⊕ " · opengroupware admin"))
                ◁ element "style" (("inner_html", style) ∷ []) nothing nothing)))
        ◁ tag "body" (
            classed "header" "nav"
              (classed "span" "brand" (words "opengroupware admin") ◁ link "/" "Tenants")
            ◁ classed "main" "wrap" content))
      nothing)

module _ (show_uuid : Uuid → String) where
  unfoldable pub tenant_rows : List TenantDto → Html
  tenant_rows [] = nothing
  tenant_rows (t ∷ ts) =
      tag "tr" (
        classed "td" "mono" (link ("/tenants/" ⊕ show_uuid t.id) t.slug)
        ◁ tag "td" (words t.name)
        ◁ classed "td" "muted" (words t.plan)
        ◁ tag "td" (badge t.status))
      ◁ tenant_rows ts

  unfoldable pub tenants_view : List TenantDto → Html
  tenants_view ts =
      tag "h1" (words "Tenants")
      ◁ classed "div" "card" (
          tag "table" (
            tag "thead" (
              tag "tr" (
                tag "th" (words "Slug")
                ◁ tag "th" (words "Name")
                ◁ tag "th" (words "Plan")
                ◁ tag "th" (words "Status")))
            ◁ tag "tbody" (
                tenant_rows ts
                ◁ when (is_empty ts) (
                    tag "tr" (
                      element "td" (("class", "empty") ∷ ("colspan", "4") ∷ [])
                        (words "No tenants yet.") nothing)))))

abbrev upper_from : String → String → Char → Char
upper_from (String.◌∷◌ l lower) (String.◌∷◌ u upper) c =
    if code c == code l then u else upper_from lower upper c
upper_from String.[] upper c = c
upper_from (String.◌∷◌ l lower) String.[] c = c

-- `name.chars().next()` with `to_ascii_uppercase`, or `?`.
unfoldable pub initial : String → String
initial String.[] = "?"
initial (String.◌∷◌ c cs) =
    String.◌∷◌ (upper_from "abcdefghijklmnopqrstuvwxyz" "ABCDEFGHIJKLMNOPQRSTUVWXYZ" c) ""

abbrev pub show_ℤ : ℤ → String
show_ℤ (pos n) = show_ℕ n
show_ℤ (negsuc n) = "-" ⊕ show_ℕ (suc n)

unfoldable pub domain_rows : List DomainDto → Html
domain_rows [] = nothing
domain_rows (d ∷ ds) =
    tag "tr" (classed "td" "mono" (words d.fqdn) ◁ classed "td" "right" (badge d.status))
    ◁ domain_rows ds

unfoldable pub account_rows : List AccountDto → Html
account_rows [] = nothing
account_rows (a ∷ rows) =
    tag "tr" (
      classed "td" "mono" (words a.email)
      ◁ classed "td" "muted" (words a.display_name)
      ◁ classed "td" "right muted" (words (show_ℤ a.quota_mb ⊕ " MB"))
      ◁ classed "td" "right" (badge a.status))
    ◁ account_rows rows

abbrev metric : (k v : String) → Html
metric k v = classed "div" "metric" (classed "div" "k" (words k) ◁ classed "div" "v" (words v))

abbrev right_th : String → Html
right_th t = classed "th" "right" (words t)

unfoldable pub domains_card : List DomainDto → Html
domains_card ds = classed "div" "card" (
    tag "table" (
      tag "tbody" (
        domain_rows ds
        ◁ when (is_empty ds) (tag "tr" (classed "td" "empty" (words "No domains."))))))

unfoldable pub accounts_card : List AccountDto → Html
accounts_card rows = classed "div" "card" (
    tag "table" (
      tag "thead" (
        tag "tr" (
          tag "th" (words "Email")
          ◁ tag "th" (words "Name")
          ◁ right_th "Quota"
          ◁ right_th "Status"))
      ◁ tag "tbody" (
          account_rows rows
          ◁ when (is_empty rows) (
              tag "tr" (
                element "td" (("class", "empty") ∷ ("colspan", "4") ∷ []) (words "No accounts.")
                  nothing)))))

unfoldable pub detail_view : TenantDto → List DomainDto → List AccountDto → PolicyDto → Html
detail_view t ds rows p =
    tag "p" (link "/" "← Tenants")
    ◁ classed "div" "headrow" (
        classed "div" "avatar" (words (initial t.name))
        ◁ tag "div" (
            element "h1" (("style", "margin:0") ∷ []) (words t.name) nothing
            ◁ classed "div" "muted mono" (words (t.slug ⊕ " · " ⊕ t.plan ⊕ " · " ⊕ t.status))))
    ◁ tag "h2" (words "Domains")
    ◁ domains_card ds
    ◁ tag "h2" (words "Accounts")
    ◁ accounts_card rows
    ◁ tag "h2" (words "Abuse policy")
    ◁ classed "div" "cards3" (
        metric "greylist" (fmt1 p.greylist)
        ◁ metric "add header" (fmt1 p.add_header)
        ◁ metric "reject" (fmt1 p.reject))

unfoldable pub error_view : (title msg : String) → Html
error_view title msg =
    tag "h1" (words title)
    ◁ classed "div" "err" (words msg)
    ◁ tag "p" (link "/" "← Back to tenants")

unfoldable pub render_tenants_page : (Uuid → String) → List TenantDto → Html
render_tenants_page show_uuid ts = page "Tenants" (tenants_view show_uuid ts)

unfoldable pub render_detail_page : TenantDto → List DomainDto → List AccountDto → PolicyDto → Html
render_detail_page t ds rows p = page t.name (detail_view t ds rows p)

unfoldable pub render_error_page : (title msg : String) → Html
render_error_page title msg = page title (error_view title msg)
