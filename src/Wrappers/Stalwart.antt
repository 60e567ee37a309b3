-- ===== src/Wrappers/Stalwart.antt =====
-- `StalwartClient` of crates/wrappers/src/stalwart.rs.
use opengroupware.Prelude.{ℕ, String, false, Option, none, List, []}
use opengroupware.Db.World.{Uuid, Time}
use opengroupware.Types.Model.{
  Account, Mailbox, MessageFlags, Message, SearchResult, Page, ListResponse,
}
use opengroupware.Types.Provider.{ProviderContext, Call}
use opengroupware.Types.Mail.{RawMessage, Attachment, CalendarEvent, Contact, Resource, SieveScript}
use opengroupware.Wrappers.Stubs.{Fresh, answer, fresh, not_implemented}

pub record StalwartClient : Type 0 where
  pub api_url : String
  pub admin_api_key : String

abbrev pub tenant_create : StalwartClient → ProviderContext → Call Fresh Unit
tenant_create c ctx = answer tt

abbrev pub tenant_suspend : StalwartClient → ProviderContext → Call Fresh Unit
tenant_suspend c ctx = answer tt

abbrev pub tenant_terminate : StalwartClient → ProviderContext → Call Fresh Unit
tenant_terminate c ctx = answer tt

abbrev pub account_create : StalwartClient → ProviderContext → String → String → Call Fresh Uuid
account_create c ctx email display_name = fresh

abbrev pub account_delete : StalwartClient → ProviderContext → Uuid → Call Fresh Unit
account_delete c ctx account_id = answer tt

abbrev pub account_list :
    StalwartClient → ProviderContext → Option String → ℕ → Call Fresh (ListResponse Account)
account_list c ctx cursor limit = answer (record { items = [] })

abbrev pub mailbox_create :
    StalwartClient → ProviderContext → Uuid → String → Option String → Call Fresh Uuid
mailbox_create c ctx account_id name parent_path = fresh

abbrev pub mailbox_delete : StalwartClient → ProviderContext → Uuid → String → Call Fresh Unit
mailbox_delete c ctx account_id path = answer tt

abbrev pub mailbox_list : StalwartClient → ProviderContext → Uuid → Call Fresh (List Mailbox)
mailbox_list c ctx account_id = answer []

abbrev pub message_store : StalwartClient → ProviderContext → RawMessage → Call Fresh Uuid
message_store c ctx raw = fresh

abbrev pub message_get : StalwartClient → ProviderContext → Uuid → Uuid → Call Fresh Message
message_get c ctx account_id message_id = not_implemented

abbrev pub message_update_flags :
    StalwartClient → ProviderContext → Uuid → Uuid → MessageFlags → Call Fresh Unit
message_update_flags c ctx account_id message_id flags = answer tt

abbrev pub message_delete : StalwartClient → ProviderContext → Uuid → Uuid → Call Fresh Unit
message_delete c ctx account_id message_id = answer tt

abbrev pub message_search :
    StalwartClient
    → ProviderContext
    → String
    → Option String
    → Option String
    → Option String
    → Option Time
    → Option Time
    → ℕ
    → Call Fresh (Page SearchResult)
message_search c ctx query from to subject date_from date_to limit =
    answer (record { items = []; next_cursor = none; has_more = false })

abbrev pub attachment_list : StalwartClient → ProviderContext → Uuid → Call Fresh (List Attachment)
attachment_list c ctx message_id = answer []

abbrev pub attachment_get : StalwartClient → ProviderContext → String → Call Fresh (List ℕ)
attachment_get c ctx blob_key = not_implemented

abbrev pub event_create : StalwartClient → ProviderContext → CalendarEvent → Call Fresh Uuid
event_create c ctx event = fresh

abbrev pub event_get : StalwartClient → ProviderContext → Uuid → Call Fresh CalendarEvent
event_get c ctx event_id = not_implemented

abbrev pub event_list :
    StalwartClient → ProviderContext → Uuid → Time → Time → Call Fresh (List CalendarEvent)
event_list c ctx account_id start end = answer []

abbrev pub contact_create : StalwartClient → ProviderContext → Contact → Call Fresh Uuid
contact_create c ctx contact = fresh

abbrev pub contact_list : StalwartClient → ProviderContext → Uuid → Call Fresh (List Contact)
contact_list c ctx account_id = answer []

abbrev pub resource_create : StalwartClient → ProviderContext → Resource → Call Fresh Uuid
resource_create c ctx resource = fresh

abbrev pub resource_book :
    StalwartClient → ProviderContext → Uuid → Uuid → Time → Time → Call Fresh Uuid
resource_book c ctx resource_id event_id start end = fresh

abbrev pub booking_cancel : StalwartClient → ProviderContext → Uuid → Call Fresh Unit
booking_cancel c ctx booking_id = answer tt

abbrev pub sieve_install : StalwartClient → ProviderContext → SieveScript → Call Fresh Unit
sieve_install c ctx script = answer tt

abbrev pub sieve_list : StalwartClient → ProviderContext → Uuid → Call Fresh (List SieveScript)
sieve_list c ctx mailbox_id = answer []
