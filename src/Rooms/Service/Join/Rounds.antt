-- ===== src/Rooms/Service/Join/Rounds.antt =====
-- The steps of a round of the loop of `join_room` (rooms_domain_service.rs).
use prose_core_client.Base.{String, ◌≡◌, refl, ℕ, suc, none, some, true}
use prose_core_client.Shared.Ids.{MucId, OccupantId}
use prose_core_client.Rooms.RoomModels.{RoomState}
use prose_core_client.Rooms.RoomError.{RoomError}
use prose_core_client.Rooms.Room.{Room, Session, set_state}
use prose_core_client.Rooms.Service.{
  Outcome, Op, continue, match, return, Services, occupant_id_with_nickname,
}
use prose_core_client.Rooms.Service.Nickname.{try_until_nickname_unique}
use prose_core_client.Rooms.Service.Requests.{
  RoomInfoStatus, JoinRoomFailureBehavior, value_of, status_with,
}
use prose_core_client.Rooms.Service.Connecting.{insert_connecting_room, forget_room}
use prose_core_client.Rooms.Service.Join.{
  JoinRequest, redirect_of, join_handler, on_join_error, join_once, join_loop, give_up, on_failure,
  remove_or_retain_room_on_error,
}

module _ (c : Services) (q : JoinRequest) (id : MucId) where
  pub join_handler_bad :
      (n : String) (s : Session)
      → occupant_id_with_nickname c id n ≡ none
      → join_handler c q id n s ≡ (Outcome.failed (RoomError.jid_error "invalid resource"), s)
  unfolding join_handler
  join_handler_bad n s bad = rw (join_handler, bad) refl

  pub join_handler_good :
      (n : String) (full : OccupantId) (s : Session)
      → occupant_id_with_nickname c id n ≡ some full
      → join_handler c q id n s ≡ c.join_room full q.password q.display_name q.availability s
  unfolding join_handler
  join_handler_good n full s good = rw (join_handler, good) refl

  pub on_join_error_stay :
      (r : Room) (error : RoomError) (next : MucId → Op RoomInfoStatus) (s : Session)
      → redirect_of c q error ≡ none
      → on_join_error c q id r error next s
        ≡ (Outcome.failed error, remove_or_retain_room_on_error c q r error s)
  unfolding on_join_error give_up
  on_join_error_stay r error next s stay = rw (on_join_error, stay) refl

  pub on_join_error_follow :
      (location : MucId) (r : Room) (error : RoomError) (next : MucId → Op RoomInfoStatus)
      (s : Session)
      → redirect_of c q error ≡ some location
      → on_join_error c q id r error next s ≡ next location (forget_room id s)
  unfolding on_join_error
  on_join_error_follow location r error next s to = rw (on_join_error, to) refl

  pub join_loop_round :
      (fuel : ℕ) (s : Session)
      → join_loop c (suc fuel) q id s
        ≡ continue (insert_connecting_room id q.nickname q.sidebar_state s) (λ status s1.
          match
            (try_until_nickname_unique q.nickname (join_handler c q id) 10 10 s1)
            (λ info. return (status_with status info))
            (λ error. on_join_error c q id (value_of status) error (join_loop c fuel q)))
  unfolding join_loop join_once
  join_loop_round fuel s = refl

pub on_failure-keeps :
    (P : Session → Type 0) (c : Services) (b : JoinRoomFailureBehavior) (id : MucId) (r : Room)
    (error : RoomError) (s : Session)
    → P (forget_room id s)
    → ((state : RoomState) → P (set_state r state s))
    → P (on_failure c b id r error s)
unfolding on_failure
on_failure-keeps P c JoinRoomFailureBehavior.remove_on_error id r error s gone kept = gone
on_failure-keeps P c JoinRoomFailureBehavior.retain_on_error id r error s gone kept =
    kept (RoomState.disconnected (some (c.describe error)) true)
