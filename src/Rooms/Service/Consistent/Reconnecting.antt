-- ===== src/Rooms/Service/Consistent/Reconnecting.antt =====
-- Consistent sessions under `reconnect_room_if_needed` (rooms_domain_service.rs).
use prose_core_client.Base.{ℕ, Option, none, some, true, false, inl, inr, Option-cases}
use prose_core_client.Shared.Ids.{MucId, OccupantId}
use prose_core_client.Rooms.RoomModels.{RoomState}
use prose_core_client.Rooms.ConnectedRooms.{get}
use prose_core_client.Rooms.Room.{Room, room_id, details_of, set_state, dispatch, occupant_id}
use prose_core_client.Events.Models.{ClientEvent}
use prose_core_client.Rooms.Service.{Services, return}
use prose_core_client.Rooms.Service.Requests.{CreateOrEnterRoomRequest, system_initiated}
use prose_core_client.Rooms.Service.Enter.{create_or_join_room}
use prose_core_client.Rooms.Service.Reconnect.{
  Verdict, ping_verdict, reconnect_room, act_on, verify_room, verify_occupant,
  reconnect_room_if_needed,
}
use prose_core_client.Rooms.Service.Consistent.{Keeps, Keeping, continue-Consistent}
use prose_core_client.Rooms.Service.Consistent.Entering.{create_or_join_room-Consistent}

module _ (c : Services) (keep : Keeping c) (fuel : ℕ) where
  reconnect_room-Consistent : (id : MucId) (room : Room) → Keeps (reconnect_room c fuel id room)
  unfolding reconnect_room set_state dispatch system_initiated
  reconnect_room-Consistent id room s h =
      let request = CreateOrEnterRoomRequest.join_room id none system_initiated false in
      let s1 = dispatch ClientEvent.sidebar_changed (set_state room RoomState.pending s) in
      let state = (details_of room s1).sidebar_state in
      continue-Consistent (create_or_join_room c fuel request state s1) (λ r. return tt)
        (create_or_join_room-Consistent c fuel request state s1 keep h) (λ r s2 h2. h2)

  act_on-Consistent :
      (id : MucId) (room : Room) (verdict : Verdict) → Keeps (act_on c fuel id room verdict)
  unfolding set_state act_on
  act_on-Consistent id room Verdict.still_connected s h = h
  act_on-Consistent id room Verdict.unreachable s h = h
  act_on-Consistent id room Verdict.not_joined s h = reconnect_room-Consistent id room s h

  verify_room-Consistent :
      (id : MucId) (room : Room) (occupant : OccupantId) (state : RoomState)
      → Keeps (verify_room c fuel id room occupant state)
  unfolding verify_room act_on
  verify_room-Consistent id room occupant RoomState.pending s h = h
  verify_room-Consistent id room occupant RoomState.connecting s h = h
  verify_room-Consistent id room occupant (RoomState.disconnected error false) s h = h
  verify_room-Consistent id room occupant (RoomState.disconnected error true) s h =
      reconnect_room-Consistent id room s h
  verify_room-Consistent id room occupant RoomState.connected s h =
      continue-Consistent (c.send_self_ping occupant s) _ (keep.send_self_ping occupant s h)
        (λ answer. act_on-Consistent id room (ping_verdict answer))

  verify_occupant-Consistent :
      (id : MucId) (room : Room) (occupant : Option OccupantId)
      → Keeps (verify_occupant c fuel id room occupant)
  unfolding verify_occupant
  verify_occupant-Consistent id room none s h = h
  verify_occupant-Consistent id room (some occupant) s h =
      verify_room-Consistent id room occupant _ s h

  pub reconnect_room_if_needed-Consistent :
      (id : MucId) → Keeps (reconnect_room_if_needed c fuel id)
  unfolding reconnect_room_if_needed verify_occupant
  reconnect_room_if_needed-Consistent id s h =
      continue-Consistent (c.connected_account s) _ (keep.connected_account s h) (λ account s1 h1.
        elim (Option-cases (get room_id id s1.connected)) [
          | inl out ↦ rw (out) h1
          | inr (room, there) ↦
              rw (there) (verify_occupant-Consistent id room (occupant_id room.info) s1 h1)
        ])
