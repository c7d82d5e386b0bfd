-- ===== src/Rooms/Service/DirectMessage.antt =====
-- `join_direct_message` and `create_or_join_room` (rooms_domain_service.rs): a direct message needs
-- no server, and every room that was entered is brought up to date with the archive.
use prose_core_client.Base.{Option, none, some, true, false}
use prose_core_client.Shared.Ids.{UserId, RoomId}
use prose_core_client.UserInfo.Models.{Presence}
use prose_core_client.Base.Int.{pos}
use prose_core_client.UserInfo.UserName.{
  UserInfo, default_user_info, display_name, unwrap_or_username,
}
use prose_core_client.Rooms.RoomModels.{RoomSidebarState, SyncedRoomSettings, new_settings}
use prose_core_client.Rooms.ConnectedRooms.{get, set_or_replace}
use prose_core_client.Rooms.Room.{Room, room_id, Session, details_of, direct_message_room}
use prose_core_client.Rooms.Service.{
  Outcome, Op, return, continue, or_else, ServerFeatures, Services,
}
use prose_core_client.Rooms.Service.Requests.{Status, RoomStatus}
use prose_core_client.Rooms.Service.Connecting.{can_connect}
use prose_core_client.Rooms.Service.Finalize.{settings_or}

-- What `get` says of the room: there is none, it has to be replaced, or it can be used.
pub data Found : Type 0 where
  absent : Found
  stale usable : Room → Found

unfoldable pub find_direct_message : UserId → Session → Found
unfolding get can_connect
find_direct_message id s = elim (get room_id id s.connected) [
  | none ↦ Found.absent
  | some room ↦ elim (can_connect (details_of room s).state) [
    | true ↦ Found.stale room
    | false ↦ Found.usable room
  ]
]

abbrev pub presence_of : UserInfo → Presence
presence_of info = record {
  availability = info.availability;
  avatar = info.avatar;
  caps = info.caps;
  client = info.client;
  nickname = none;
  priority = pos 0;
  status = none;
}

abbrev pub info_or_default : Option UserInfo → UserInfo
info_or_default none = default_user_info
info_or_default (some info) = info

-- The settings of the room that is replaced, or new ones
unfoldable pub own_settings : UserId → Found → Session → SyncedRoomSettings
unfolding new_settings
own_settings id (Found.stale room) s = (details_of room s).settings
own_settings id _ s = new_settings (RoomId.user id)

abbrev pub found_status : Found → Room → RoomStatus
found_status Found.absent room = Status.is_new room
found_status _ room = Status.exists room

unfoldable pub replace_room : Found → Room × Session → Outcome RoomStatus × Session
unfolding set_or_replace
replace_room found (room, s) = (
  Outcome.done (found_status found room),
  record s { connected = (set_or_replace room_id room s.connected).1 },
)

module _ (c : Services) where
  unfoldable pub make_direct_message :
      UserId
      → RoomSidebarState
      → UserInfo
      → ServerFeatures
      → SyncedRoomSettings
      → Session
      → Room × Session
  unfolding display_name unwrap_or_username direct_message_room
  make_direct_message id sidebar_state info features settings =
      direct_message_room id (unwrap_or_username c.tables (display_name info.name) id)
        (presence_of info) sidebar_state
        (record {
          mam_version = features.mam_version;
          server_time_offset = features.server_time_offset;
          self_ping_optimization = false;
        })
        settings

  unfoldable pub insert_direct_message : UserId → RoomSidebarState → Found → Op RoomStatus
  unfolding make_direct_message replace_room own_settings
  insert_direct_message id sidebar_state found s =
      continue (or_else none (c.get_user_info id s)) (λ user s1.
        continue (or_else none (c.load_settings (RoomId.user id) s1)) (λ settings s2.
          let own = settings_or settings (own_settings id found s2) in
          continue (c.server_features s2) (λ features s3.
            replace_room found
              (make_direct_message id sidebar_state (info_or_default user) features own s3))))

  unfoldable pub use_found : UserId → RoomSidebarState → Found → Op RoomStatus
  unfolding insert_direct_message
  use_found id sidebar_state Found.absent = insert_direct_message id sidebar_state Found.absent
  use_found id sidebar_state (Found.stale room) =
      insert_direct_message id sidebar_state (Found.stale room)
  use_found id sidebar_state (Found.usable room) = return (Status.exists room)

  unfoldable pub join_direct_message : UserId → RoomSidebarState → Op RoomStatus
  unfolding find_direct_message use_found
  join_direct_message id sidebar_state s = use_found id sidebar_state (find_direct_message id s) s
