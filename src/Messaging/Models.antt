-- ===== src/Messaging/Models.antt =====
-- The messages that are stored (`MessageLike`, message_like.rs) and those that are shown (`Message`,
-- message.rs), with attachment.rs, mention.rs and message_id.rs. A type that `id_string!` declares is
-- its text; `Url` (url crate) and `Mime` (mime crate) are their texts; a `DateTime<Utc>` is an
-- integer, its distance from the Unix epoch.
use prose_core_client.Base.{
  ℕ, String, ◌≡◌, ◌↔◌, Bool, true, false, Option, none, some, List, arith, Eq, ==_iff, string_eq,
  ◌==◌,
}
use prose_core_client.Base.Int.{ℤ}
use prose_core_client.Shared.Ids.{UserId, ParticipantId, BareJid}
use prose_core_client.StringIndex.{IndexRange}

abbrev pub Timestamp : Type 0
Timestamp = ℤ

abbrev pub MessageRemoteId : Type 0
MessageRemoteId = String

abbrev pub MessageServerId : Type 0
MessageServerId = String

abbrev pub MessageId : Type 0
MessageId = String

abbrev pub Emoji : Type 0
Emoji = String

abbrev pub Html : Type 0
Html = String

pub data MessageTargetId : Type 0 where
  remote_id : MessageRemoteId → MessageTargetId
  server_id : MessageServerId → MessageTargetId

abbrev pub target_beq : MessageTargetId → MessageTargetId → Bool
target_beq (MessageTargetId.remote_id a) (MessageTargetId.remote_id b) = a == b
target_beq (MessageTargetId.server_id a) (MessageTargetId.server_id b) = a == b
target_beq (MessageTargetId.remote_id a) (MessageTargetId.server_id b) = false
target_beq (MessageTargetId.server_id a) (MessageTargetId.remote_id b) = false

pub target_beq_iff : (a b : MessageTargetId) → (target_beq a b ≡ true) ↔ (a ≡ b)
target_beq_iff (MessageTargetId.remote_id a) (MessageTargetId.remote_id b) =
    ground (arith, ==_iff a b)
target_beq_iff (MessageTargetId.server_id a) (MessageTargetId.server_id b) =
    ground (arith, ==_iff a b)
target_beq_iff (MessageTargetId.remote_id a) (MessageTargetId.server_id b) = ground arith
target_beq_iff (MessageTargetId.server_id a) (MessageTargetId.remote_id b) = ground arith

instance abbrev pub target_eq : Eq MessageTargetId
target_eq = record { equal = target_beq; equal_iff = target_beq_iff }

pub record Thumbnail : Type 0 where
  pub url : String
  pub media_type : String
  pub width : Option ℕ
  pub height : Option ℕ

pub data AttachmentType : Type 0 where
  audio : Option ℕ → AttachmentType
  image : Option Thumbnail → AttachmentType
  video : Option ℕ → Option Thumbnail → AttachmentType
  file : AttachmentType

pub record Attachment : Type 0 where
  pub type : AttachmentType
  pub url : String
  pub media_type : String
  pub file_name : String
  pub file_size : Option ℕ

pub record Mention : Type 0 where
  pub user : UserId
  pub range : Option IndexRange

pub record ReplyTo : Type 0 where
  pub id : MessageTargetId
  pub to : Option ParticipantId
  pub quote : Option String

-- `EncryptionInfo`: the device of the sender
pub record EncryptionInfo : Type 0 where
  pub sender : ℕ

-- `message_like::Body`
pub record MessageLikeBody : Type 0 where
  pub raw : String
  pub html : Html
  pub mentions : List Mention

pub data Payload : Type 0 where
  error : String → Payload
  correction : MessageTargetId → MessageLikeBody → List Attachment → Option EncryptionInfo → Payload
  delivery_receipt : MessageTargetId → Payload
  read_receipt : MessageTargetId → Payload
  message :
      MessageLikeBody
      → List Attachment
      → Option EncryptionInfo
      → Bool
      → Option ReplyTo
      → Option String
      → Payload
  reaction : MessageTargetId → List Emoji → Payload
  retraction : MessageTargetId → Payload

unfoldable pub target_id : Payload → Option MessageTargetId
target_id (Payload.error e) = none
target_id (Payload.correction t b a e) = some t
target_id (Payload.delivery_receipt t) = some t
target_id (Payload.read_receipt t) = some t
target_id (Payload.message b a e i r t) = none
target_id (Payload.reaction t es) = some t
target_id (Payload.retraction t) = some t

pub record MessageLike : Type 0 where
  pub id : MessageId
  pub remote_id : Option MessageRemoteId
  pub server_id : Option MessageServerId
  pub to : Option BareJid
  pub from : ParticipantId
  pub timestamp : Timestamp
  pub payload : Payload

pub record Reaction : Type 0 where
  pub emoji : Emoji
  pub from : List ParticipantId

-- `message::Body`
pub record Body : Type 0 where
  pub raw : String
  pub html : Html

pub record MessageFlags : Type 0 where
  pub is_read : Bool
  pub is_edited : Bool
  pub is_delivered : Bool
  pub is_transient : Bool
  pub is_encrypted : Bool

-- `MessageFlags::default`
abbrev pub default_flags : MessageFlags
default_flags = record {
  is_read = false;
  is_edited = false;
  is_delivered = false;
  is_transient = false;
  is_encrypted = false;
}

pub record Message : Type 0 where
  pub id : MessageId
  pub remote_id : Option MessageRemoteId
  pub server_id : Option MessageServerId
  pub from : ParticipantId
  pub body : Body
  pub timestamp : Timestamp
  pub flags : MessageFlags
  pub reactions : List Reaction
  pub attachments : List Attachment
  pub mentions : List Mention
  pub reply_to : Option ReplyTo
