-- ===== src/Rooms/Service/Join/Failure.antt =====
-- `join_room` (rooms_domain_service.rs) when it was redirected and is then refused.
use prose_core_client.Base.{
  String, ◌≡◌, ◌≢◌, ◌∙◌, refl, none, some, false, ℕ, suc, string_eq, ==_iff, arith,
}
use prose_core_client.Shared.Ids.{MucId}
use prose_core_client.Rooms.RoomModels.{RoomState}
use prose_core_client.Rooms.RoomError.{RoomError}
use prose_core_client.Rooms.ConnectedRooms.{get}
use prose_core_client.Rooms.Room.{Room, room_id, Session, details_of}
use prose_core_client.Rooms.Service.{Outcome, Op, Services}
use prose_core_client.Rooms.Service.Nickname.{is_conflict_err, try_until_nickname_unique}
use prose_core_client.Rooms.Service.Nickname.Answers.{try_until_nickname_unique-refused}
use prose_core_client.Rooms.Service.Requests.{RoomInfoStatus, JoinRoomFailureBehavior}
use prose_core_client.Rooms.Service.Connecting.{forget_room}
use prose_core_client.Rooms.Service.Connecting.Cases.{
  get-with_connecting, get-with_connecting_other, with_connecting_room, get-forget_room,
  placeholder, with_connecting, insert_connecting_room-free,
}
use prose_core_client.Rooms.Service.Join.{
  JoinRequest, redirect_of, join_handler, on_join_error, join_once, join_loop, give_up, on_failure,
  remove_or_retain_room_on_error,
}

module _ (c : Services) (q : JoinRequest) where
  -- Every attempt to join the room is refused, other than for its nickname, and nothing else happens.
  unfoldable pub Refuses : MucId → RoomError → Type 0
  unfolding join_handler
  Refuses id error =
      (is_conflict_err error ≡ false)
      × ((nickname : String) (s : Session)
          → join_handler c q id nickname s ≡ (Outcome.failed error, s))

  refused :
      (id : MucId) (error : RoomError) (s : Session)
      → Refuses id error
      → try_until_nickname_unique q.nickname (join_handler c q id) 10 10 s
        ≡ (Outcome.failed error, s)
  unfolding Refuses
  refused id error s h =
      try_until_nickname_unique-refused q.nickname (join_handler c q id) 10 9 error s s
        (h.1 q.nickname s) h.0

  -- A refused round, when the place was free
  join_once-refused :
      (fuel : ℕ) (id : MucId) (error : RoomError) (s : Session)
      → get room_id id s.connected ≡ none
      → Refuses id error
      → join_loop c (suc fuel) q id s
        ≡ on_join_error c q id
            (placeholder id q.nickname q.sidebar_state s)
            error
            (join_loop c fuel q)
            (with_connecting id q.nickname q.sidebar_state s)
  unfolding join_loop join_once
  join_once-refused fuel id error s free h =
      rw
        (
          insert_connecting_room-free id q.nickname q.sidebar_state s free,
          refused id error (with_connecting id q.nickname q.sidebar_state s) h,
        )
        refl

  on_join_error-follow :
      (id location : MucId) (r : Room) (error : RoomError) (next : MucId → Op RoomInfoStatus)
      (s : Session)
      → redirect_of c q error ≡ some location
      → on_join_error c q id r error next s ≡ next location (forget_room id s)
  unfolding on_join_error
  on_join_error-follow id location r error next s to = rw (on_join_error, to) refl

  on_join_error-remove :
      (id : MucId) (r : Room) (error : RoomError) (next : MucId → Op RoomInfoStatus) (s : Session)
      → redirect_of c q error ≡ none
      → q.behavior.on_failure ≡ JoinRoomFailureBehavior.remove_on_error
      → on_join_error c q id r error next s ≡ (Outcome.failed error, forget_room q.room_id s)
  unfolding on_join_error give_up remove_or_retain_room_on_error on_failure
  on_join_error-remove id r error next s stay gone = rw (on_join_error, stay, on_failure, gone) refl

  -- The session when the new location is tried, and at the end
  abbrev pub redirected : Session → Session
  redirected s = forget_room q.room_id (with_connecting q.room_id q.nickname q.sidebar_state s)

  free_elsewhere :
      (location : MucId) (s : Session)
      → location ≢ q.room_id
      → get room_id location s.connected ≡ none
      → get room_id location (redirected s).connected ≡ none
  free_elsewhere location s other free = ground (
    arith,
    get-forget_room q.room_id location (with_connecting q.room_id q.nickname q.sidebar_state s),
    get-with_connecting_other q.room_id q.nickname q.sidebar_state s location other,
    free,
  )

  join_loop-redirected :
      (fuel : ℕ) (location : MucId) (gone error : RoomError) (s : Session)
      → get room_id q.room_id s.connected ≡ none
      → get room_id location (redirected s).connected ≡ none
      → Refuses q.room_id gone × (redirect_of c q gone ≡ some location)
      → Refuses location error × (redirect_of c q error ≡ none)
      → q.behavior.on_failure ≡ JoinRoomFailureBehavior.remove_on_error
      → join_loop c (suc (suc fuel)) q q.room_id s ≡ (
        Outcome.failed error,
        forget_room q.room_id (with_connecting location q.nickname q.sidebar_state (redirected s)),
      )
  join_loop-redirected fuel location gone error s free free' h h' behavior =
      join_once-refused (suc fuel) q.room_id gone s free h.0
      ∙ on_join_error-follow q.room_id location (placeholder q.room_id q.nickname q.sidebar_state s)
          gone (join_loop c (suc fuel) q) (with_connecting q.room_id q.nickname q.sidebar_state s)
          h.1
      ∙ join_once-refused fuel location error (redirected s) free' h'.0
      ∙ on_join_error-remove location
          (placeholder location q.nickname q.sidebar_state (redirected s)) error
          (join_loop c fuel q) (with_connecting location q.nickname q.sidebar_state (redirected s))
          h'.1 behavior

-- A join that is redirected to another room, and refused there, removes the room that it was asked
-- for and not the one that it was redirected to: when both places were free, and the server does
-- nothing else, a room that is still connecting is left at the new location.
pub join_loop-left_over :
    (c : Services) (q : JoinRequest) (fuel : ℕ) (location : MucId) (gone error : RoomError)
    (s : Session)
    → get room_id q.room_id s.connected ≡ none
    → get room_id location s.connected ≡ none
    → location ≢ q.room_id
    → Refuses c q q.room_id gone × (redirect_of c q gone ≡ some location)
    → Refuses c q location error × (redirect_of c q error ≡ none)
    → q.behavior.on_failure ≡ JoinRoomFailureBehavior.remove_on_error
    → ((join_loop c (suc (suc fuel)) q q.room_id s).0 ≡ Outcome.failed error)
      × ((r : Room) × (get room_id location (join_loop c (suc (suc fuel)) q q.room_id s).1.connected
            ≡ some r)
          × ((details_of r (join_loop c (suc (suc fuel)) q q.room_id s).1).state
              ≡ RoomState.connecting))
unfolding forget_room
join_loop-left_over c q fuel location gone error s free free' other h h' behavior =
    let s1 = redirected c q s in
    rw
      (join_loop-redirected c q fuel location gone error s free
        (free_elsewhere c q location s other free') h h' behavior)
      (
        refl,
        (
          placeholder location q.nickname q.sidebar_state s1,
          ground (
            arith,
            get-forget_room q.room_id location
                (with_connecting location q.nickname q.sidebar_state s1),
            get-with_connecting location q.nickname q.sidebar_state s1,
            ==_iff q.room_id location,
          ),
          with_connecting_room location q.nickname q.sidebar_state s1,
        ),
      )
