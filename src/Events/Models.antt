-- ===== src/Events/Models.antt =====
-- Client events (client_event.rs) and the rooms they are about (app/dtos/room_envelope.rs). A room
-- is the identifier that `jid` returns; the connection error is the prose-xmpp crate's and is its
-- text.
use prose_core_client.Base.{String, Option, List}
use prose_core_client.Shared.Ids.{UserId, RoomId}
use prose_core_client.Messaging.Models.{MessageId}

pub data RoomEnvelope : Type 0 where
  direct_message group private_channel public_channel generic : RoomId → RoomEnvelope

-- `to_generic_room().jid()`
abbrev pub room_jid : RoomEnvelope → RoomId
room_jid (direct_message id) = id
room_jid (group id) = id
room_jid (private_channel id) = id
room_jid (public_channel id) = id
room_jid (generic id) = id

pub data ClientRoomEventType : Type 0 where
  messages_appended messages_updated messages_deleted : List MessageId → ClientRoomEventType
  messages_need_reload attributes_changed participants_changed composing_users_changed :
      ClientRoomEventType

pub data ConnectionEvent : Type 0 where
  connect : ConnectionEvent
  disconnect : Option String → ConnectionEvent

pub data ClientEvent : Type 0 where
  connection_status_changed : ConnectionEvent → ClientEvent
  sidebar_changed : ClientEvent
  contact_changed : List UserId → ClientEvent
  contact_list_changed presence_sub_requests_changed block_list_changed : ClientEvent
  avatar_changed : List UserId → ClientEvent
  account_info_changed : ClientEvent
  room_changed : RoomEnvelope → ClientRoomEventType → ClientEvent
