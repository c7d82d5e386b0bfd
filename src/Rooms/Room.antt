-- ===== src/Rooms/Room.antt =====
-- `Room` (domain/rooms/models/room.rs) is a shared pointer: what is immutable about it stands in
-- the handle, what changes in a cell that every clone of the handle refers to. A session is the
-- store of the cells, the rooms that are connected, the events that were dispatched and
-- the requests that were sent to the bookmarks.
pub mod Changes
use prose_core_client.Base.{
  String, ℕ, zero, suc, ◌+◌, Option, none, some, List, [], ◌∷◌, ◌++◌, Bool, if◌then◌else◌, ◌==◌,
  nat_eq,
}
use prose_core_client.Shared.Ids.{
  BareJid, UserId, RoomId, OccupantId, FullJid, ParticipantId, room_bare_jid,
}
use prose_core_client.Shared.Names.{TextTables}
use prose_core_client.UserInfo.Models.{Presence, default_presence}
use prose_core_client.Events.Models.{ClientEvent, ClientRoomEventType}
use prose_core_client.Events.Dispatcher.{RoomType, build}
use prose_core_client.Rooms.Models.{RegisteredMember, RoomSessionParticipant}
use prose_core_client.Rooms.ParticipantList.{ParticipantList, for_direct_message}
use prose_core_client.Rooms.ParticipantList.New.{new}
use prose_core_client.Rooms.ConnectedRooms.{ConnectedRooms}
use prose_core_client.Rooms.RoomModels.{
  RoomSidebarState, RoomState, RoomFeatures, RoomInfo, RoomDetails, SyncedRoomSettings, Bookmark,
  default_features, default_statistics, new_settings, no_participants, bookmark_room_type,
}

pub record Room : Type 0 where
  pub inner : ℕ
  pub info : RoomInfo

abbrev pub room_id : Room → RoomId
room_id room = room.info.room_id

-- What the bookmarks service was asked for.
pub data BookmarkRequest : Type 0 where
  save_bookmark : Bookmark → BookmarkRequest
  delete_bookmark : BareJid → BookmarkRequest

pub record Session : Type 0 where
  pub details : ℕ → RoomDetails
  pub fresh : ℕ
  pub connected : ConnectedRooms room_id
  pub events : List ClientEvent
  pub sent : List BookmarkRequest

abbrev pub details_of : Room → Session → RoomDetails
details_of r s = s.details r.inner

abbrev pub write : ℕ → RoomDetails → (ℕ → RoomDetails) → ℕ → RoomDetails
write cell d details = λ i. if i == cell then d else details i

-- `inner.details.write()`
unfoldable pub modify : Room → (RoomDetails → RoomDetails) → Session → Session
modify r f s = record s { details = write r.inner (f (details_of r s)) s.details }

-- `Room::new`
unfoldable pub new_room : RoomInfo → RoomDetails → Session → Room × Session
new_room info d s = (
  record { inner = s.fresh; info = info },
  record s { details = write s.fresh d s.details; fresh = s.fresh + 1 },
)

unfoldable pub set_name : Room → Option String → Session → Session
unfolding modify
set_name r name = modify r (λ d. record d { name = name })

unfoldable pub set_description : Room → Option String → Session → Session
unfolding modify
set_description r description = modify r (λ d. record d { description = description })

unfoldable pub set_topic : Room → Option String → Session → Session
unfolding modify
set_topic r topic = modify r (λ d. record d { topic = topic })

unfoldable pub set_sidebar_state : Room → RoomSidebarState → Session → Session
unfolding modify
set_sidebar_state r state = modify r (λ d. record d { sidebar_state = state })

unfoldable pub set_state : Room → RoomState → Session → Session
unfolding modify
set_state r state = modify r (λ d. record d { state = state })

unfoldable pub set_needs_update_statistics : Room → Session → Session
unfolding modify
set_needs_update_statistics r =
    modify r (λ d. record d { statistics = record d.statistics { needs_update = Bool.true } })

-- `RoomInfo::occupant_id`, of a nickname that is a valid resource
unfoldable pub occupant_id : RoomInfo → Option OccupantId
occupant_id info = elim info.room_id [
  | RoomId.user id ↦ none
  | RoomId.muc id ↦ some (record { bare = id; resource = info.user_nickname })
]

-- The node of a user's JID is the parameter; the code panics where there is none.
module _ (username : UserId → String) where
  abbrev pub pending_participants : RoomId → ParticipantList
  unfolding for_direct_message
  pending_participants (RoomId.user id) = for_direct_message id (username id) default_presence
  pending_participants (RoomId.muc id) = no_participants

  -- `Room::pending`
  unfoldable pub pending_room : Bookmark → String → Session → Room × Session
  unfolding new_room new_settings bookmark_room_type
  pending_room bookmark nickname =
      new_room
        (record {
          room_id = bookmark.jid;
          user_nickname = nickname;
          type = bookmark_room_type bookmark.type;
          features = default_features;
        })
        (record {
          name = some bookmark.name;
          description = none;
          topic = none;
          participants = pending_participants bookmark.jid;
          sidebar_state = bookmark.sidebar_state;
          state = RoomState.pending;
          statistics = default_statistics;
          settings = new_settings bookmark.jid;
        })

-- `Room::connecting`
unfoldable pub connecting_room : RoomId → String → RoomSidebarState → Session → Room × Session
unfolding new_room new_settings
connecting_room id nickname sidebar_state =
    new_room
      (record {
        room_id = id;
        user_nickname = nickname;
        type = RoomType.unknown;
        features = default_features;
      })
      (record {
        name = none;
        description = none;
        topic = none;
        participants = no_participants;
        sidebar_state = sidebar_state;
        state = RoomState.connecting;
        statistics = default_statistics;
        settings = new_settings id;
      })

-- What `by_resolving_with_info` is given besides the room.
pub record Resolved : Type 0 where
  pub name : Option String
  pub description : Option String
  pub topic : Option String
  pub info : RoomInfo
  pub members : List RegisteredMember
  pub participants : List RoomSessionParticipant

abbrev pub resolve_details : Resolved → SyncedRoomSettings → RoomDetails → RoomDetails
unfolding new
resolve_details r settings d = record d {
  name = r.name;
  description = r.description;
  topic = r.topic;
  participants = new r.members r.participants;
  state = RoomState.connected;
  settings = settings;
}

-- A new room, with what the details of the given one are at the moment
unfoldable pub by_resolving_with_info :
    Room → Resolved → SyncedRoomSettings → Session → Room × Session
unfolding new_room
by_resolving_with_info room r settings s =
    new_room r.info (resolve_details r settings (details_of room s)) s

unfoldable pub by_changing_type : Room → RoomType → Session → Room × Session
unfolding new_room
by_changing_type room type s = new_room (record room.info { type = type }) (details_of room s) s

-- `Room::for_direct_message`
unfoldable pub direct_message_room :
    UserId
    → String
    → Presence
    → RoomSidebarState
    → RoomFeatures
    → SyncedRoomSettings
    → Session
    → Room × Session
unfolding new_room for_direct_message
direct_message_room id name presence sidebar_state features settings =
    new_room
      (record {
        room_id = RoomId.user id;
        user_nickname = "no_nickname";
        type = RoomType.direct_message;
        features = features;
      })
      (record {
        name = some name;
        description = none;
        topic = none;
        participants = for_direct_message id name presence;
        sidebar_state = sidebar_state;
        state = RoomState.connected;
        statistics = default_statistics;
        settings = settings;
      })

-- `dispatch_event`, for a client that listens
unfoldable pub dispatch : ClientEvent → Session → Session
dispatch event s = record s { events = s.events ++ event ∷ [] }

-- `dispatch_room_event`: a room of an unknown type has no events.
unfoldable pub dispatch_room : Room → ClientRoomEventType → Session → Session
unfolding dispatch build
dispatch_room room type s = elim (build room.info.type room.info.room_id) [
  | none ↦ s
  | some envelope ↦ dispatch (ClientEvent.room_changed envelope type) s
]
