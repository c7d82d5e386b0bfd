-- ===== src/Rooms/Service/Connecting/Cases.antt =====
-- What `insert_connecting_room` does with a free, a waiting and an occupied place.
use prose_core_client.Base.{String, ◌≡◌, refl, none, some, true, false}
use prose_core_client.Base.Assoc.{insert, lookup-insert, lookup-insert_same, lookup-remove}
use prose_core_client.Base.{string_eq, beq_refl, nat_eq, ◌==◌, ==_iff, arith, ◌≢◌, if◌then◌else◌}
use prose_core_client.Shared.Ids.{MucId, RoomId, room_bare_jid}
use prose_core_client.Rooms.RoomModels.{RoomState, RoomSidebarState}
use prose_core_client.Rooms.RoomError.{RoomError}
use prose_core_client.Rooms.ConnectedRooms.{get, set, delete}
use prose_core_client.Rooms.Room.{
  Room, room_id, Session, details_of, set_state, connecting_room, new_room,
}
use prose_core_client.Rooms.Service.{Outcome}
use prose_core_client.Rooms.Service.Requests.{Status}
use prose_core_client.Rooms.Service.Connecting.{
  can_connect, insert_new_room, connect_existing, insert_connecting_room, forget_room,
}

module _ (id : MucId) (nickname : String) (sidebar_state : RoomSidebarState) (s : Session) where
  unfoldable pub placeholder : Room
  unfolding connecting_room new_room
  placeholder = (connecting_room (RoomId.muc id) nickname sidebar_state s).0

  unfoldable pub with_placeholder : Session
  unfolding connecting_room new_room
  with_placeholder = (connecting_room (RoomId.muc id) nickname sidebar_state s).1

  unfoldable pub with_connecting : Session
  unfolding insert with_placeholder
  with_connecting = record with_placeholder { connected = insert id placeholder s.connected }

  insert_new_room-free :
      get room_id id s.connected ≡ none
      → insert_new_room id nickname sidebar_state s
        ≡ (Outcome.done (Status.is_new placeholder), with_connecting)
  unfolding insert_new_room connecting_room new_room get set room_bare_jid placeholder
      with_connecting with_placeholder
  insert_new_room-free free = rw (set, free) refl

  insert_new_room-taken :
      (r : Room)
      → get room_id id s.connected ≡ some r
      → insert_new_room id nickname sidebar_state s
        ≡ (Outcome.failed (RoomError.room_is_already_connected (RoomId.muc id)), with_placeholder)
  unfolding insert_new_room connecting_room new_room get set room_bare_jid with_placeholder
  insert_new_room-taken r there = rw (set, there) refl

  -- The placeholder is found at its identifier, and is connecting.
  pub get-with_connecting : get room_id id with_connecting.connected ≡ some placeholder
  unfolding get with_connecting
  get-with_connecting = lookup-insert_same id placeholder s.connected

  pub get-with_connecting_other :
      (other : MucId)
      → other ≢ id
      → get room_id other with_connecting.connected ≡ get room_id other s.connected
  unfolding get with_connecting
  get-with_connecting_other other h =
      ground (arith, lookup-insert id other placeholder s.connected, ==_iff id other)

  pub with_connecting_room : (details_of placeholder with_connecting).state ≡ RoomState.connecting
  unfolding with_connecting placeholder with_placeholder
  with_connecting_room = rw (beq_refl s.fresh) refl

  -- Nothing stands at the identifier.
  pub insert_connecting_room-free :
      get room_id id s.connected ≡ none
      → insert_connecting_room id nickname sidebar_state s
        ≡ (Outcome.done (Status.is_new placeholder), with_connecting)
  unfolding insert_connecting_room
  insert_connecting_room-free free = rw (insert_connecting_room, free) (insert_new_room-free free)

  -- A room that is pending or disconnected is taken up.
  pub insert_connecting_room-stale :
      (r : Room)
      → get room_id id s.connected ≡ some r
      → can_connect (details_of r s).state ≡ true
      → insert_connecting_room id nickname sidebar_state s
        ≡ (Outcome.done (Status.exists r), set_state r RoomState.connecting s)
  unfolding insert_connecting_room connect_existing
  insert_connecting_room-stale r there stale =
      rw (insert_connecting_room, there, connect_existing, stale) refl

  -- A room that is connecting or connected is in the way.
  pub insert_connecting_room-live :
      (r : Room)
      → get room_id id s.connected ≡ some r
      → can_connect (details_of r s).state ≡ false
      → insert_connecting_room id nickname sidebar_state s
        ≡ (Outcome.failed (RoomError.room_is_already_connected (RoomId.muc id)), with_placeholder)
  unfolding insert_connecting_room connect_existing
  insert_connecting_room-live r there live =
      rw (insert_connecting_room, there, connect_existing, live) (insert_new_room-taken r there)

-- What is found after a room was taken out
pub get-forget_room :
    (id other : MucId) (s : Session)
    → get room_id other (forget_room id s).connected
      ≡ (if id == other then none else get room_id other s.connected)
unfolding get forget_room delete
get-forget_room id other s = lookup-remove id other s.connected
