-- ===== src/Rooms/Service/Reconnect.antt =====
-- `reconnect_room_if_needed` and `reconnect_room` (rooms_domain_service.rs): a self-ping (XEP-0410)
-- tells whether our user is still in a room.
use prose_core_client.Base.{ℕ, Option, none, some, true, false}
use prose_core_client.Shared.Ids.{MucId, OccupantId}
use prose_core_client.Events.Models.{ClientEvent}
use prose_core_client.Rooms.RoomModels.{RoomState}
use prose_core_client.Rooms.RoomError.{DefinedCondition, RequestError, RoomError}
use prose_core_client.Rooms.ConnectedRooms.{get}
use prose_core_client.Rooms.Room.{Room, room_id, details_of, set_state, occupant_id, dispatch}
use prose_core_client.Rooms.Service.{Outcome, Op, return, fail, continue, change, Services}
use prose_core_client.Rooms.Service.Requests.{
  CreateOrEnterRoomRequest, JoinRoomRedirectBehavior, JoinRoomFailureBehavior,
}
use prose_core_client.Rooms.Service.Enter.{create_or_join_room}

-- What the answer to a self-ping means.
pub data Verdict : Type 0 where
  still_connected unreachable not_joined : Verdict

abbrev pub condition_verdict : DefinedCondition → Verdict
condition_verdict DefinedCondition.remote_server_not_found = unreachable
condition_verdict DefinedCondition.remote_server_timeout = unreachable
condition_verdict DefinedCondition.service_unavailable = still_connected
condition_verdict DefinedCondition.feature_not_implemented = still_connected
condition_verdict DefinedCondition.item_not_found = still_connected
condition_verdict _ = not_joined

unfoldable pub ping_verdict : Option RequestError → Verdict
ping_verdict none = still_connected
ping_verdict (some RequestError.disconnected) = unreachable
ping_verdict (some RequestError.timed_out) = unreachable
ping_verdict (some (RequestError.xmpp condition address)) = condition_verdict condition
ping_verdict (some _) = not_joined

module _ (c : Services) (fuel : ℕ) where
  unfoldable pub reconnect_room : MucId → Room → Op Unit
  unfolding set_state dispatch create_or_join_room
  reconnect_room id room s =
      let s1 = dispatch ClientEvent.sidebar_changed (set_state room RoomState.pending s) in
      continue
        (create_or_join_room c fuel
          (CreateOrEnterRoomRequest.join_room id none
            (record {
              on_redirect = JoinRoomRedirectBehavior.follow_if_gone;
              on_failure = JoinRoomFailureBehavior.retain_on_error;
            })
            false)
          (details_of room s1).sidebar_state s1)
        (λ r. return tt)

  unfoldable pub act_on : MucId → Room → Verdict → Op Unit
  unfolding set_state reconnect_room
  act_on id room still_connected = return tt
  act_on id room unreachable = change (set_state room (RoomState.disconnected none true))
  act_on id room not_joined = reconnect_room id room

  unfoldable pub verify_room : MucId → Room → OccupantId → RoomState → Op Unit
  unfolding ping_verdict reconnect_room act_on
  verify_room id room occupant RoomState.pending = return tt
  verify_room id room occupant RoomState.connecting = return tt
  verify_room id room occupant (RoomState.disconnected error false) = return tt
  verify_room id room occupant (RoomState.disconnected error true) = reconnect_room id room
  verify_room id room occupant RoomState.connected =
      λ s. continue (c.send_self_ping occupant s) (λ answer. act_on id room (ping_verdict answer))

  unfoldable pub verify_occupant : MucId → Room → Option OccupantId → Op Unit
  unfolding verify_room
  verify_occupant id room none s = (Outcome.panicked, s)
  verify_occupant id room (some occupant) s =
      verify_room id room occupant (details_of room s).state s

  unfoldable pub reconnect_room_if_needed : MucId → Op Unit
  unfolding get occupant_id verify_occupant
  reconnect_room_if_needed id s = continue (c.connected_account s) (λ account s1.
      elim (get room_id id s1.connected) [
        | none ↦ fail RoomError.room_not_found s1
        | some room ↦ verify_occupant id room (occupant_id room.info) s1
      ])
