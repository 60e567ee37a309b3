-- ===== src/Types/Mail.antt =====
-- The interface of crates/types/src/providers/mail.rs and its data.
use opengroupware.Prelude.{ℕ, String, Bool, Option, List}
use opengroupware.Db.World.{Uuid, Time}
use opengroupware.Types.Model.{
  Account, Mailbox, MessageFlags, Message, SearchResult, Page, ListResponse,
}
use opengroupware.Types.Provider.{ProviderContext, Call}

pub record RawMessage : Type 0 where
  pub id : Uuid
  pub from : List String
  pub to : List String
  pub cc : List String
  pub bcc : List String
  pub subject : String
  pub body_html : Option String
  pub body_text : Option String
  pub headers : List (String × String)
  pub received_at : Time

pub record Attachment : Type 0 where
  pub id : Uuid
  pub message_id : Uuid
  pub filename : String
  pub content_type : String
  pub size_bytes : ℕ
  pub blob_key : String

pub record CalendarEvent : Type 0 where
  pub id : Uuid
  pub mailbox_id : Uuid
  pub summary : String
  pub description : Option String
  pub location : Option String
  pub start : Time
  pub end : Time
  pub organizer : String
  pub attendees : List String

pub record Contact : Type 0 where
  pub id : Uuid
  pub mailbox_id : Uuid
  pub first_name : String
  pub last_name : String
  pub email : String
  pub phone : Option String

pub record Resource : Type 0 where
  pub id : Uuid
  pub tenant_id : Uuid
  pub name : String
  pub description : Option String
  pub capacity : ℕ
  pub location : Option String

pub record SieveScript : Type 0 where
  pub id : Uuid
  pub mailbox_id : Uuid
  pub name : String
  pub script : String
  pub active : Bool

-- `trait MailProvider`: an operation takes and leaves the state of its backend.
pub record MailProvider (S : Type 0) : Type 0 where
  pub create_tenant : ProviderContext → Call S Unit
  pub suspend_tenant : ProviderContext → Call S Unit
  pub terminate_tenant : ProviderContext → Call S Unit
  pub create_account : ProviderContext → String → String → Call S Uuid
  pub delete_account : ProviderContext → Uuid → Call S Unit
  pub list_accounts : ProviderContext → Option String → ℕ → Call S (ListResponse Account)
  pub create_mailbox : ProviderContext → Uuid → String → Option String → Call S Uuid
  pub delete_mailbox : ProviderContext → Uuid → String → Call S Unit
  pub list_mailboxes : ProviderContext → Uuid → Call S (List Mailbox)
  pub store_message : ProviderContext → RawMessage → Call S Uuid
  pub get_message : ProviderContext → Uuid → Uuid → Call S Message
  pub update_message_flags : ProviderContext → Uuid → Uuid → MessageFlags → Call S Unit
  pub delete_message : ProviderContext → Uuid → Uuid → Call S Unit
  pub search_messages :
      ProviderContext
      → String
      → Option String
      → Option String
      → Option String
      → Option Time
      → Option Time
      → ℕ
      → Call S (Page SearchResult)
  pub list_attachments : ProviderContext → Uuid → Call S (List Attachment)
  pub get_attachment : ProviderContext → String → Call S (List ℕ)
  pub create_event : ProviderContext → CalendarEvent → Call S Uuid
  pub get_event : ProviderContext → Uuid → Call S CalendarEvent
  pub list_events : ProviderContext → Uuid → Time → Time → Call S (List CalendarEvent)
  pub create_contact : ProviderContext → Contact → Call S Uuid
  pub list_contacts : ProviderContext → Uuid → Call S (List Contact)
  pub create_resource : ProviderContext → Resource → Call S Uuid
  pub book_resource : ProviderContext → Uuid → Uuid → Time → Time → Call S Uuid
  pub cancel_booking : ProviderContext → Uuid → Call S Unit
  pub install_sieve_script : ProviderContext → SieveScript → Call S Unit
  pub list_sieve_scripts : ProviderContext → Uuid → Call S (List SieveScript)
