-- ===== src/Wrappers/StalwartMail.antt =====
-- `StalwartMailProvider` of crates/wrappers/src/stalwart_mail.rs.
use opengroupware.Prelude.{ℕ, String, Option, List}
use opengroupware.Db.World.{Uuid, Time}
use opengroupware.Types.Model.{
  Account, Mailbox, MessageFlags, Message, SearchResult, Page, ListResponse,
}
use opengroupware.Types.Provider.{ProviderContext, Call}
use opengroupware.Types.Mail.{
  RawMessage, Attachment, CalendarEvent, Contact, Resource, SieveScript, MailProvider,
}
use opengroupware.Wrappers.Stalwart.{
  StalwartClient, tenant_create, tenant_suspend, tenant_terminate, account_create, account_delete,
  account_list, mailbox_create, mailbox_delete, mailbox_list, message_store, message_get,
  message_update_flags, message_delete, message_search, attachment_list, attachment_get,
  event_create, event_get, event_list, contact_create, contact_list, resource_create, resource_book,
  booking_cancel, sieve_install, sieve_list,
}
use opengroupware.Wrappers.Stubs.{Fresh}

pub record StalwartMailProvider : Type 0 where
  pub client : StalwartClient

abbrev pub new : String → String → StalwartMailProvider
new api_url admin_api_key = record {
  client = record { api_url = api_url; admin_api_key = admin_api_key };
}

abbrev pub create_tenant : StalwartMailProvider → ProviderContext → Call Fresh Unit
create_tenant p ctx = tenant_create p.client ctx

abbrev pub suspend_tenant : StalwartMailProvider → ProviderContext → Call Fresh Unit
suspend_tenant p ctx = tenant_suspend p.client ctx

abbrev pub terminate_tenant : StalwartMailProvider → ProviderContext → Call Fresh Unit
terminate_tenant p ctx = tenant_terminate p.client ctx

abbrev pub create_account :
    StalwartMailProvider → ProviderContext → String → String → Call Fresh Uuid
create_account p ctx email display_name = account_create p.client ctx email display_name

abbrev pub delete_account : StalwartMailProvider → ProviderContext → Uuid → Call Fresh Unit
delete_account p ctx account_id = account_delete p.client ctx account_id

abbrev pub list_accounts :
    StalwartMailProvider → ProviderContext → Option String → ℕ → Call Fresh (ListResponse Account)
list_accounts p ctx cursor limit = account_list p.client ctx cursor limit

abbrev pub create_mailbox :
    StalwartMailProvider → ProviderContext → Uuid → String → Option String → Call Fresh Uuid
create_mailbox p ctx account_id name parent_path =
    mailbox_create p.client ctx account_id name parent_path

abbrev pub delete_mailbox : StalwartMailProvider → ProviderContext → Uuid → String → Call Fresh Unit
delete_mailbox p ctx account_id path = mailbox_delete p.client ctx account_id path

abbrev pub list_mailboxes :
    StalwartMailProvider → ProviderContext → Uuid → Call Fresh (List Mailbox)
list_mailboxes p ctx account_id = mailbox_list p.client ctx account_id

abbrev pub store_message : StalwartMailProvider → ProviderContext → RawMessage → Call Fresh Uuid
store_message p ctx raw = message_store p.client ctx raw

abbrev pub get_message : StalwartMailProvider → ProviderContext → Uuid → Uuid → Call Fresh Message
get_message p ctx account_id message_id = message_get p.client ctx account_id message_id

abbrev pub update_message_flags :
    StalwartMailProvider → ProviderContext → Uuid → Uuid → MessageFlags → Call Fresh Unit
update_message_flags p ctx account_id message_id flags =
    message_update_flags p.client ctx account_id message_id flags

abbrev pub delete_message : StalwartMailProvider → ProviderContext → Uuid → Uuid → Call Fresh Unit
delete_message p ctx account_id message_id = message_delete p.client ctx account_id message_id

abbrev pub search_messages :
    StalwartMailProvider
    → ProviderContext
    → String
    → Option String
    → Option String
    → Option String
    → Option Time
    → Option Time
    → ℕ
    → Call Fresh (Page SearchResult)
search_messages p ctx query from to subject date_from date_to limit =
    message_search p.client ctx query from to subject date_from date_to limit

abbrev pub list_attachments :
    StalwartMailProvider → ProviderContext → Uuid → Call Fresh (List Attachment)
list_attachments p ctx message_id = attachment_list p.client ctx message_id

abbrev pub get_attachment : StalwartMailProvider → ProviderContext → String → Call Fresh (List ℕ)
get_attachment p ctx blob_key = attachment_get p.client ctx blob_key

abbrev pub create_event : StalwartMailProvider → ProviderContext → CalendarEvent → Call Fresh Uuid
create_event p ctx event = event_create p.client ctx event

abbrev pub get_event : StalwartMailProvider → ProviderContext → Uuid → Call Fresh CalendarEvent
get_event p ctx event_id = event_get p.client ctx event_id

abbrev pub list_events :
    StalwartMailProvider → ProviderContext → Uuid → Time → Time → Call Fresh (List CalendarEvent)
list_events p ctx account_id start end = event_list p.client ctx account_id start end

abbrev pub create_contact : StalwartMailProvider → ProviderContext → Contact → Call Fresh Uuid
create_contact p ctx contact = contact_create p.client ctx contact

abbrev pub list_contacts : StalwartMailProvider → ProviderContext → Uuid → Call Fresh (List Contact)
list_contacts p ctx account_id = contact_list p.client ctx account_id

abbrev pub create_resource : StalwartMailProvider → ProviderContext → Resource → Call Fresh Uuid
create_resource p ctx resource = resource_create p.client ctx resource

abbrev pub book_resource :
    StalwartMailProvider → ProviderContext → Uuid → Uuid → Time → Time → Call Fresh Uuid
book_resource p ctx resource_id event_id start end =
    resource_book p.client ctx resource_id event_id start end

abbrev pub cancel_booking : StalwartMailProvider → ProviderContext → Uuid → Call Fresh Unit
cancel_booking p ctx booking_id = booking_cancel p.client ctx booking_id

abbrev pub install_sieve_script :
    StalwartMailProvider → ProviderContext → SieveScript → Call Fresh Unit
install_sieve_script p ctx script = sieve_install p.client ctx script

abbrev pub list_sieve_scripts :
    StalwartMailProvider → ProviderContext → Uuid → Call Fresh (List SieveScript)
list_sieve_scripts p ctx mailbox_id = sieve_list p.client ctx mailbox_id

-- The provider.
abbrev pub stalwart_mail : StalwartMailProvider → MailProvider Fresh
stalwart_mail p = record {
  create_tenant = create_tenant p;
  suspend_tenant = suspend_tenant p;
  terminate_tenant = terminate_tenant p;
  create_account = create_account p;
  delete_account = delete_account p;
  list_accounts = list_accounts p;
  create_mailbox = create_mailbox p;
  delete_mailbox = delete_mailbox p;
  list_mailboxes = list_mailboxes p;
  store_message = store_message p;
  get_message = get_message p;
  update_message_flags = update_message_flags p;
  delete_message = delete_message p;
  search_messages = search_messages p;
  list_attachments = list_attachments p;
  get_attachment = get_attachment p;
  create_event = create_event p;
  get_event = get_event p;
  list_events = list_events p;
  create_contact = create_contact p;
  list_contacts = list_contacts p;
  create_resource = create_resource p;
  book_resource = book_resource p;
  cancel_booking = cancel_booking p;
  install_sieve_script = install_sieve_script p;
  list_sieve_scripts = list_sieve_scripts p;
}
