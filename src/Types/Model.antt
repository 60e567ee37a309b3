-- ===== src/Types/Model.antt =====
-- The records of crates/types/src/lib.rs that the providers take and return.
use opengroupware.Prelude.{ℕ, String, Bool, Float64, Option, List}
use opengroupware.Db.World.{Uuid, Time}

pub data AccountStatus : Type 0 where
  active disabled locked : AccountStatus

pub record Account : Type 0 where
  pub id : Uuid
  pub tenant_id : Uuid
  pub email : String
  pub display_name : String
  pub status : AccountStatus
  pub mfa_enabled : Bool
  pub created_at : Time
  pub updated_at : Time

pub record MailboxFlags : Type 0 where
  pub has_children : Bool
  pub no_inferiors : Bool
  pub no_select : Bool
  pub marked : Bool
  pub unanswered : Bool
  pub deleted : Bool

pub record Mailbox : Type 0 where
  pub id : Uuid
  pub account_id : Uuid
  pub tenant_id : Uuid
  pub name : String
  pub path : String
  pub flags : MailboxFlags
  pub created_at : Time

pub record MessageFlags : Type 0 where
  pub seen : Bool
  pub answered : Bool
  pub flagged : Bool
  pub deleted : Bool
  pub draft : Bool

pub record Message : Type 0 where
  pub id : Uuid
  pub mailbox_id : Uuid
  pub tenant_id : Uuid
  pub uid : ℕ
  pub from : List String
  pub to : List String
  pub subject : String
  pub received_at : Time
  pub size_bytes : ℕ
  pub has_attachments : Bool
  pub flags : MessageFlags

pub data QuarantineStatus : Type 0 where
  pending released deleted : QuarantineStatus

pub data QuarantineDecision : Type 0 where
  admin_release admin_delete user_release user_delete : QuarantineDecision

pub record QuarantineItem : Type 0 where
  pub id : Uuid
  pub tenant_id : Uuid
  pub mailbox_id : Uuid
  pub message_id : Uuid
  pub spam_score : Float64
  pub virus : Bool
  pub status : QuarantineStatus
  pub created_at : Time
  pub decision : Option QuarantineDecision

pub record SearchResult : Type 0 where
  pub message_id : Uuid
  pub mailbox_id : Uuid
  pub tenant_id : Uuid
  pub subject : String
  pub from : String
  pub received_at : Time
  pub snippet : String

pub record BlobRef : Type 0 where
  pub id : Uuid
  pub tenant_id : Uuid
  pub content_type : String
  pub size_bytes : ℕ
  pub etag : String

pub record Page (A : Type 0) : Type 0 where
  pub items : List A
  pub next_cursor : Option String
  pub has_more : Bool

pub record ListResponse (A : Type 0) : Type 0 where
  pub items : List A
