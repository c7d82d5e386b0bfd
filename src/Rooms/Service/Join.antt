-- ===== src/Rooms/Service/Join.antt =====
-- `join_room`: the loop that follows a room that is gone to its new location.
pub mod Rounds
pub mod Termination
pub mod Failure
use prose_core_client.Base.{String, ℕ, zero, suc, Option, none, some, Bool, true}
use prose_core_client.Shared.Ids.{UserId, MucId, OccupantId}
use prose_core_client.UserInfo.Models.{Availability}
use prose_core_client.UserInfo.UserName.{user_display_name, unwrap_or_username}
use prose_core_client.Rooms.RoomModels.{RoomState, RoomSidebarState, RoomSessionInfo}
use prose_core_client.Rooms.RoomError.{RoomError, GoneError, gone_err}
use prose_core_client.Rooms.Room.{Room, Session, set_state}
use prose_core_client.Rooms.Service.{
  Outcome, Op, return, fail, continue, match, Services, occupant_id_with_nickname, build_nickname,
}
use prose_core_client.Rooms.Service.Nickname.{try_until_nickname_unique}
use prose_core_client.Rooms.Service.Requests.{
  RoomStatus, RoomInfoStatus, JoinRoomBehavior, JoinRoomRedirectBehavior, JoinRoomFailureBehavior,
  value_of, status_with,
}
use prose_core_client.Rooms.Service.Connecting.{insert_connecting_room, forget_room}
use prose_core_client.Rooms.Service.Finalize.{finalize_pending_room}

-- What the loop of `join_room` does not change.
pub record JoinRequest : Type 0 where
  pub room_id : MucId
  pub nickname : String
  pub display_name : String
  pub password : Option String
  pub sidebar_state : RoomSidebarState
  pub availability : Availability
  pub behavior : JoinRoomBehavior

module _ (c : Services) where
  abbrev pub on_failure : JoinRoomFailureBehavior → MucId → Room → RoomError → Session → Session
  unfolding set_state forget_room
  on_failure JoinRoomFailureBehavior.remove_on_error id room error s = forget_room id s
  on_failure JoinRoomFailureBehavior.retain_on_error id room error s =
      set_state room (RoomState.disconnected (some (c.describe error)) true) s

  -- The identifier is that of the request, not that of the place it was redirected to.
  unfoldable pub remove_or_retain_room_on_error : JoinRequest → Room → RoomError → Session → Session
  unfolding on_failure
  remove_or_retain_room_on_error q = on_failure q.behavior.on_failure q.room_id

  abbrev pub give_up : JoinRequest → Room → RoomError → Op RoomInfoStatus
  unfolding remove_or_retain_room_on_error
  give_up q room error s = (Outcome.failed error, remove_or_retain_room_on_error q room error s)

  -- Where a failed attempt leads on to
  unfoldable pub redirect_of : JoinRequest → RoomError → Option MucId
  unfolding gone_err
  redirect_of q error = elim (gone_err c.from_iri error) [
    | none ↦ none
    | some gone ↦ elim q.behavior.on_redirect [
      | JoinRoomRedirectBehavior.follow_if_gone ↦ gone.new_location
      | JoinRoomRedirectBehavior.fail_if_gone ↦ none
    ]
  ]

  unfoldable pub join_handler : JoinRequest → MucId → String → Op RoomSessionInfo
  unfolding occupant_id_with_nickname
  join_handler q id nickname s = elim (occupant_id_with_nickname c id nickname) [
    | none ↦ fail (RoomError.jid_error "invalid resource") s
    | some full_room_jid ↦ c.join_room full_room_jid q.password q.display_name q.availability s
  ]

  abbrev pub on_join_error :
      JoinRequest → MucId → Room → RoomError → (MucId → Op RoomInfoStatus) → Op RoomInfoStatus
  unfolding redirect_of forget_room
  on_join_error q id room error next s = elim (redirect_of q error) [
    | none ↦ give_up q room error s
    | some new_location ↦ next new_location (forget_room id s)
  ]

  -- One round of the loop
  abbrev pub join_once : JoinRequest → MucId → (MucId → Op RoomInfoStatus) → Op RoomInfoStatus
  unfolding insert_connecting_room try_until_nickname_unique value_of join_handler
  join_once q id next s =
      continue (insert_connecting_room id q.nickname q.sidebar_state s) (λ status s'.
        match (try_until_nickname_unique q.nickname (join_handler q id) 10 10 s')
          (λ info. return (status_with status info))
          (λ error. on_join_error q id (value_of status) error next))

  unfoldable pub join_loop : ℕ → JoinRequest → MucId → Op RoomInfoStatus
  join_loop zero q id = λ s. (Outcome.running, s)
  join_loop (suc fuel) q id = join_once q id (join_loop fuel q)

  unfoldable pub join_room :
      ℕ → UserId → MucId → Option String → RoomSidebarState → JoinRoomBehavior → Op RoomStatus
  unfolding join_loop finalize_pending_room build_nickname user_display_name unwrap_or_username
  join_room fuel account id password sidebar_state behavior s =
      continue (c.get_user_info account s) (λ info s1.
        let display_name = unwrap_or_username c.tables (user_display_name info) account in
        continue (c.availability s1) (λ availability s2.
          continue
            (join_loop fuel
              (record {
                room_id = id;
                nickname = build_nickname c (some display_name) account;
                display_name = display_name;
                password = password;
                sidebar_state = sidebar_state;
                availability = availability;
                behavior = behavior;
              })
              id s2)
            (finalize_pending_room c)))
