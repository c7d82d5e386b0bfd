-- ===== src/Rooms/ConnectedRooms.antt =====
-- The rooms that an account is connected to (infra/rooms/in_memory_connected_rooms_repository.rs).
-- Only the identifier of a room matters here: `Room` and `room_id` are parameters.
pub mod Refinement
mod Tests
use prose_core_client.Base.{
  Bool, true, false, Option, none, some, List, [], ◌∷◌, map, if◌then◌else◌, string_eq,
}
use prose_core_client.Base.Result.{Result, ok, err}
use prose_core_client.Base.Assoc.{lookup, insert, remove}
use prose_core_client.Shared.Ids.{BareJid, RoomId, room_bare_jid}

pub data RoomAlreadyExistsError : Type 0 where
  room_already_exists : RoomAlreadyExistsError

module _ {Room : Type 0} (room_id : Room → RoomId) where
  abbrev pub ConnectedRooms : Type 0
  ConnectedRooms = List (BareJid × Room)

  unfoldable pub get : BareJid → ConnectedRooms → Option Room
  unfolding lookup
  get id rooms = lookup id rooms

  unfoldable pub get_all : ConnectedRooms → List Room
  get_all rooms = map (λ e. e.1) rooms

  abbrev pub room_key : Room → BareJid
  unfolding room_bare_jid
  room_key room = room_bare_jid (room_id room)

  unfoldable pub set : Room → ConnectedRooms → Result RoomAlreadyExistsError ConnectedRooms
  unfolding lookup insert
  set room rooms = elim (lookup (room_key room) rooms) [
    | some existing ↦ err room_already_exists
    | none ↦ ok (insert (room_key room) room rooms)
  ]

  -- The room that was replaced, and the rooms after it
  unfoldable pub set_or_replace : Room → ConnectedRooms → Option Room × ConnectedRooms
  unfolding lookup insert
  set_or_replace room rooms = (lookup (room_key room) rooms, insert (room_key room) room rooms)

  unfoldable pub update : BareJid → (Room → Room) → ConnectedRooms → Option Room × ConnectedRooms
  unfolding lookup insert remove
  update id block rooms = elim (lookup id rooms) [
    | none ↦ (none, rooms)
    | some room ↦ (some (block room), insert id (block room) (remove id rooms))
  ]

  unfoldable pub delete : BareJid → ConnectedRooms → Option Room × ConnectedRooms
  unfolding lookup remove
  delete id rooms = (lookup id rooms, remove id rooms)

  unfoldable pub delete_all : ConnectedRooms → List Room × ConnectedRooms
  unfolding get_all
  delete_all rooms = (get_all rooms, [])
