-- ===== src/Rooms/RoomModels.antt =====
-- The data of a room (domain/rooms/models: room.rs, room_features.rs, room_spec.rs,
-- room_session_info.rs; domain/settings/models/synced_room_settings.rs;
-- domain/sidebar/models: bookmark.rs, bookmark_type.rs). A time span is a number of milliseconds.
use prose_core_client.Base.{String, ℕ, Option, none, some, List, [], Bool, true, false, string_eq}
use prose_core_client.Base.Int.{ℤ, pos}
use prose_core_client.Shared.Ids.{UserId, MucId, RoomId}
use prose_core_client.Events.Dispatcher.{RoomType}
use prose_core_client.Rooms.Models.{RoomAffiliation, RoomSessionParticipant}
use prose_core_client.Rooms.ParticipantList.{ParticipantList}

pub data RoomSidebarState : Type 0 where
  not_in_sidebar in_sidebar favorite : RoomSidebarState

unfoldable pub is_in_sidebar : RoomSidebarState → Bool
is_in_sidebar not_in_sidebar = false
is_in_sidebar in_sidebar = true
is_in_sidebar favorite = true

-- `disconnected` has its error and whether another attempt may succeed.
pub data RoomState : Type 0 where
  pending connecting connected : RoomState
  disconnected : Option String → Bool → RoomState

unfoldable pub is_disconnected : RoomState → Bool
is_disconnected (RoomState.disconnected error can_retry) = true
is_disconnected _ = false

abbrev pub is_connecting : RoomState → Bool
is_connecting RoomState.connecting = true
is_connecting _ = false

abbrev pub is_pending : RoomState → Bool
is_pending RoomState.pending = true
is_pending _ = false

pub data MamVersion : Type 0 where
  mam0 mam1 mam2 mam2_extended : MamVersion

pub record RoomFeatures : Type 0 where
  pub mam_version : Option MamVersion
  pub server_time_offset : ℤ
  pub self_ping_optimization : Bool

-- `RoomFeatures::default`
abbrev pub default_features : RoomFeatures
default_features = record {
  mam_version = none;
  server_time_offset = pos 0;
  self_ping_optimization = false;
}

pub record RoomInfo : Type 0 where
  pub room_id : RoomId
  pub user_nickname : String
  pub type : RoomType
  pub features : RoomFeatures

pub record RoomStatistics : Type 0 where
  pub needs_update : Bool
  pub unread_count : ℕ
  pub mentions_count : ℕ

-- `RoomStatistics::default`
abbrev pub default_statistics : RoomStatistics
default_statistics = record { needs_update = true; unread_count = 0; mentions_count = 0 }

pub record ArchivedMessageRef : Type 0 where
  pub stanza_id : String
  pub timestamp : ℤ

pub record SyncedRoomSettings : Type 0 where
  pub room_id : RoomId
  pub encryption_enabled : Bool
  pub last_read_message : Option ArchivedMessageRef

-- `SyncedRoomSettings::new`
unfoldable pub new_settings : RoomId → SyncedRoomSettings
new_settings id = record { room_id = id; encryption_enabled = false; last_read_message = none }

pub record RoomDetails : Type 0 where
  pub name : Option String
  pub description : Option String
  pub topic : Option String
  pub participants : ParticipantList
  pub sidebar_state : RoomSidebarState
  pub state : RoomState
  pub statistics : RoomStatistics
  pub settings : SyncedRoomSettings

-- `ParticipantList::default`
abbrev pub no_participants : ParticipantList
no_participants = record { anon_occupant_id_to_participant_id_map = []; participants_map = [] }

pub record RoomConfig : Type 0 where
  pub room_name : Option String
  pub room_description : Option String
  pub room_type : RoomType
  pub mam_version : Option MamVersion
  pub supports_self_ping_optimization : Bool

pub record RoomSessionMember : Type 0 where
  pub id : UserId
  pub affiliation : RoomAffiliation

pub record RoomSessionInfo : Type 0 where
  pub room_id : MucId
  pub config : RoomConfig
  pub topic : Option String
  pub user_nickname : String
  pub members : List RoomSessionMember
  pub participants : List RoomSessionParticipant
  pub room_has_been_created : Bool

pub data RoomSpec : Type 0 where
  group private_channel public_channel : RoomSpec

-- `RoomSpec::room_type`
unfoldable pub spec_room_type : RoomSpec → RoomType
spec_room_type RoomSpec.group = RoomType.group
spec_room_type RoomSpec.private_channel = RoomType.private_channel
spec_room_type RoomSpec.public_channel = RoomType.public_channel

pub data BookmarkType : Type 0 where
  direct_message group private_channel public_channel generic : BookmarkType

-- `RoomSpec::bookmark_type`
unfoldable pub spec_bookmark_type : RoomSpec → BookmarkType
spec_bookmark_type RoomSpec.group = BookmarkType.group
spec_bookmark_type RoomSpec.private_channel = BookmarkType.private_channel
spec_bookmark_type RoomSpec.public_channel = BookmarkType.public_channel

-- `RoomType::from`
unfoldable pub bookmark_room_type : BookmarkType → RoomType
bookmark_room_type BookmarkType.direct_message = RoomType.direct_message
bookmark_room_type BookmarkType.group = RoomType.group
bookmark_room_type BookmarkType.private_channel = RoomType.private_channel
bookmark_room_type BookmarkType.public_channel = RoomType.public_channel
bookmark_room_type BookmarkType.generic = RoomType.generic

-- `BookmarkType::from`; `none` is its panic on a room that is still connecting, and the error of
-- `Bookmark::try_from`.
unfoldable pub room_bookmark_type : RoomType → Option BookmarkType
room_bookmark_type RoomType.unknown = none
room_bookmark_type RoomType.direct_message = some BookmarkType.direct_message
room_bookmark_type RoomType.group = some BookmarkType.group
room_bookmark_type RoomType.private_channel = some BookmarkType.private_channel
room_bookmark_type RoomType.public_channel = some BookmarkType.public_channel
room_bookmark_type RoomType.generic = some BookmarkType.generic

pub record Bookmark : Type 0 where
  pub name : String
  pub jid : RoomId
  pub type : BookmarkType
  pub sidebar_state : RoomSidebarState
