-- ===== src/Sidebar/Disconnect.antt =====
-- `handle_disconnect` and `handle_ping_timer_event`.
pub mod Everyone
use prose_core_client.Base.{
  String, ℕ, Option, none, some, List, [], ◌∷◌, Bool, true, false, ◌==◌, string_eq, option_eq,
}
use prose_core_client.Shared.Ids.{MucId, RoomId, room_muc_id}
use prose_core_client.Rooms.RoomModels.{RoomState}
use prose_core_client.Rooms.ConnectedRooms.{get_all}
use prose_core_client.Rooms.Room.{Room, room_id, Session, details_of, set_state}
use prose_core_client.Rooms.Service.{Outcome, Op, return, continue, match, change}
use prose_core_client.Rooms.Service.Reconnect.{reconnect_room_if_needed}
use prose_core_client.Sidebar.{SidebarServices, sidebar_changed}

-- The loop over the rooms of `handle_disconnect`
unfoldable pub disconnect_all : List Room → Session → Session
unfolding set_state
disconnect_all [] s = s
disconnect_all (room ∷ rooms) s =
    disconnect_all rooms (set_state room (RoomState.disconnected none true) s)

abbrev pub bool_beq : Bool → Bool → Bool
bool_beq true b = b
bool_beq false true = false
bool_beq false false = true

-- `room.state() == state`
unfoldable pub room_state_beq : RoomState → RoomState → Bool
room_state_beq RoomState.pending RoomState.pending = true
room_state_beq RoomState.connecting RoomState.connecting = true
room_state_beq RoomState.connected RoomState.connected = true
room_state_beq (RoomState.disconnected error can_retry) (RoomState.disconnected other retry) =
    elim (error == other) [ true ↦ bool_beq can_retry retry | false ↦ false ]
room_state_beq _ _ = false

module _ (c : SidebarServices) (fuel : ℕ) where
  -- Without an account the client was disconnected on purpose.
  unfoldable pub handle_disconnect : Op Unit
  unfolding disconnect_all get_all
  handle_disconnect s =
      match (c.rooms.connected_account s)
        (λ account. change (λ s'. disconnect_all (get_all room_id s'.connected) s'))
        (λ error. return tt)

  unfoldable pub notify_unless_same : RoomState → Room → Op Unit
  unfolding room_state_beq sidebar_changed
  notify_unless_same state room s = elim (room_state_beq (details_of room s).state state) [
    | true ↦ return tt s
    | false ↦ change sidebar_changed s
  ]

  unfoldable pub ping : Room → Option MucId → Op Unit
  unfolding reconnect_room_if_needed notify_unless_same
  ping room none = return tt
  ping room (some id) = λ s.
      let state = (details_of room s).state in
      match (reconnect_room_if_needed c.rooms fuel id s) (λ u. notify_unless_same state room)
        (λ error. notify_unless_same state room)

  unfoldable pub ping_all : List Room → Op Unit
  unfolding ping room_muc_id
  ping_all [] = return tt
  ping_all (room ∷ rooms) =
      λ s. continue (ping room (room_muc_id (room_id room)) s) (λ u. ping_all rooms)

  unfoldable pub handle_ping_timer_event : Op Unit
  unfolding ping_all get_all
  handle_ping_timer_event s =
      continue (c.rooms.connected_account s)
        (λ account s'. ping_all (get_all room_id s'.connected) s')
