-- ===== src/Rooms/Service/Connecting.antt =====
-- `insert_connecting_room`: a placeholder that receives the stanzas of a room while it is joined.
pub mod Cases
use prose_core_client.Base.{String, Option, none, some, Bool, true, false, ◌||◌}
use prose_core_client.Base.Result.{Result, ok, err}
use prose_core_client.Shared.Ids.{MucId, RoomId, BareJid}
use prose_core_client.Rooms.RoomModels.{RoomState, RoomSidebarState, is_pending, is_disconnected}
use prose_core_client.Rooms.RoomError.{RoomError}
use prose_core_client.Rooms.ConnectedRooms.{
  RoomAlreadyExistsError, ConnectedRooms, get, set, delete,
}
use prose_core_client.Rooms.Room.{Room, room_id, Session, details_of, set_state, connecting_room}
use prose_core_client.Rooms.Service.{Outcome, Op, return}
use prose_core_client.Rooms.Service.Requests.{Status, RoomStatus}

-- `state == Pending || state.is_disconnected()`
unfoldable pub can_connect : RoomState → Bool
unfolding is_disconnected
can_connect state = is_pending state || is_disconnected state

abbrev pub insert_result :
    RoomId → Room → Result RoomAlreadyExistsError (ConnectedRooms room_id) → Op RoomStatus
insert_result id room (ok rooms) s =
    (Outcome.done (Status.is_new room), record s { connected = rooms })
insert_result id room (err e) s = (Outcome.failed (RoomError.room_is_already_connected id), s)

unfoldable pub insert_new_room : MucId → String → RoomSidebarState → Op RoomStatus
unfolding connecting_room set
insert_new_room id nickname sidebar_state s =
    let (room, s') = connecting_room (RoomId.muc id) nickname sidebar_state s in
    insert_result (RoomId.muc id) room (set room_id room s'.connected) s'

abbrev pub connect_existing : Room → Op RoomStatus → Op RoomStatus
unfolding set_state can_connect
connect_existing room otherwise s = elim (can_connect (details_of room s).state) [
  | true ↦ (Outcome.done (Status.exists room), set_state room RoomState.connecting s)
  | false ↦ otherwise s
]

unfoldable pub insert_connecting_room : MucId → String → RoomSidebarState → Op RoomStatus
unfolding get insert_new_room
insert_connecting_room id nickname sidebar_state s = elim (get room_id id s.connected) [
  | none ↦ insert_new_room id nickname sidebar_state s
  | some room ↦ connect_existing room (insert_new_room id nickname sidebar_state) s
]

-- `connected_rooms_repo.delete`
unfoldable pub forget_room : BareJid → Session → Session
unfolding delete
forget_room id s = record s { connected = (delete room_id id s.connected).1 }
