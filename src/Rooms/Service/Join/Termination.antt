-- ===== src/Rooms/Service/Join/Termination.antt =====
-- The loop of `join_room` (rooms_domain_service.rs) and the redirects of the server.
use prose_core_client.Base.{
  String, ◌≡◌, arith, ℕ, zero, suc, ◌<◌, Option, some, inl, inr, Bool-cases, Option-cases,
}
use prose_core_client.Shared.Ids.{UserId, MucId, OccupantId}
use prose_core_client.UserInfo.UserName.{user_display_name, unwrap_or_username}
use prose_core_client.Rooms.RoomModels.{RoomSidebarState}
use prose_core_client.Rooms.RoomError.{RoomError, gone_err}
use prose_core_client.Rooms.ConnectedRooms.{get}
use prose_core_client.Rooms.Room.{Room, room_id, Session, details_of}
use prose_core_client.Rooms.Service.{
  Outcome, Op, match, return, Services, occupant_id_with_nickname, build_nickname,
}
use prose_core_client.Rooms.Service.Ends.{Ends, continue-Ends}
use prose_core_client.Rooms.Service.Nickname.{try_until_nickname_unique}
use prose_core_client.Rooms.Service.Requests.{
  RoomInfoStatus, JoinRoomBehavior, value_of, status_with,
}
use prose_core_client.Rooms.Service.Nickname.Answers.{try_until_nickname_unique-keeps}
use prose_core_client.Rooms.Service.Connecting.Cases.{
  insert_connecting_room-free, insert_connecting_room-stale, insert_connecting_room-live,
}
use prose_core_client.Rooms.Service.Connecting.{can_connect, insert_connecting_room, forget_room}
use prose_core_client.Rooms.Service.Finalize.{finalize_pending_room}
use prose_core_client.Rooms.Service.Finalize.Cases.{Answering, finalize_pending_room-Ends}
use prose_core_client.Rooms.Service.Join.{
  JoinRequest, redirect_of, join_handler, on_join_error, give_up, join_once, join_loop, join_room,
}

insert_connecting_room-Ends :
    (id : MucId) (nickname : String) (sidebar_state : RoomSidebarState) (s : Session)
    → Ends (insert_connecting_room id nickname sidebar_state s).0
insert_connecting_room-Ends id nickname sidebar_state s =
    elim (Option-cases (get room_id id s.connected)) [
      | inl free ↦ rw (insert_connecting_room-free id nickname sidebar_state s free) tt
      | inr (r, there) ↦ elim (Bool-cases (can_connect (details_of r s).state)) [
        | inl stale ↦ rw (insert_connecting_room-stale id nickname sidebar_state s r there stale) tt
        | inr live ↦ rw (insert_connecting_room-live id nickname sidebar_state s r there live) tt
      ]
    ]

module _ (c : Services) (q : JoinRequest) (rank : MucId → ℕ) where
  -- An answer is not a redirect to a room of the same rank or a higher one.
  unfoldable pub Descends : {A : Type 0} → MucId → Outcome A → Type 0
  unfolding redirect_of
  Descends id (Outcome.failed e) =
      (location : MucId) → redirect_of c q e ≡ some location → rank location < rank id
  Descends id Outcome.running = ⊥
  Descends id _ = Unit

  join_handler-Descends :
      ((id : OccupantId) (s : Session)
        → Descends id.bare (c.join_room id q.password q.display_name q.availability s).0)
      → (id : MucId) (nickname : String) (s : Session)
      → Descends id (join_handler c q id nickname s).0
  unfolding occupant_id_with_nickname redirect_of gone_err join_handler Descends
  join_handler-Descends h id nickname s = elim (Option-cases (c.resource_part nickname)) [
    | inl bad ↦ rw (join_handler, bad) (λ location e. ground arith)
    | inr (resource, good) ↦
        rw (join_handler, good) (h (record { bare = id; resource = resource }) s)
  ]

  on_join_error-Ends :
      (id : MucId) (r : Room) (error : RoomError) (next : MucId → Op RoomInfoStatus) (s : Session)
      → ((location : MucId) (s : Session)
          → redirect_of c q error ≡ some location
          → Ends (next location s).0)
      → Ends (on_join_error c q id r error next s).0
  unfolding on_join_error give_up
  on_join_error-Ends id r error next s h = elim (Option-cases (redirect_of c q error)) [
    | inl stay ↦ rw (on_join_error, stay) tt
    | inr (location, e) ↦ rw (on_join_error, e) (h location (forget_room id s) e)
  ]

  match-Descends :
      (id : MucId) {A B : Type 0} (o : Outcome A × Session) (k : A → Op B)
      (handle : RoomError → Op B)
      → Descends id o.0
      → ((a : A) (s : Session) → Ends (k a s).0)
      → ((e : RoomError) (s : Session)
          → ((location : MucId) → redirect_of c q e ≡ some location → rank location < rank id)
          → Ends (handle e s).0)
      → Ends (match o k handle).0
  unfolding Descends
  match-Descends id (Outcome.done a, s) k handle h rest other = rest a s
  match-Descends id (Outcome.failed e, s) k handle h rest other = other e s h
  match-Descends id (Outcome.running, s) k handle h rest other = h
  match-Descends id (Outcome.panicked, s) k handle h rest other = tt

  below :
      (id location : MucId) (fuel : ℕ)
      → rank location < rank id
      → rank id < suc fuel
      → rank location < fuel
  below id location fuel a b = omega arith

  join_loop-Ends :
      ((id : OccupantId) (s : Session)
        → Descends id.bare (c.join_room id q.password q.display_name q.availability s).0)
      → (fuel : ℕ) (id : MucId) (s : Session) → rank id < fuel
      → Ends (join_loop c fuel q id s).0
  unfolding join_loop join_once insert_connecting_room
  join_loop-Ends h zero id s enough = ground arith
  join_loop-Ends h (suc fuel) id s enough =
      continue-Ends (insert_connecting_room id q.nickname q.sidebar_state s)
        (λ status s'.
          match (try_until_nickname_unique q.nickname (join_handler c q id) 10 10 s')
            (λ info. return (status_with status info))
            (λ error. on_join_error c q id (value_of status) error (join_loop c fuel q)))
        (insert_connecting_room-Ends id q.nickname q.sidebar_state s)
        (λ status s'.
          match-Descends id (try_until_nickname_unique q.nickname (join_handler c q id) 10 10 s')
            (λ info. return (status_with status info))
            (λ error. on_join_error c q id (value_of status) error (join_loop c fuel q))
            (try_until_nickname_unique-keeps (Descends id) q.nickname (join_handler c q id) 10 10 s'
              (join_handler-Descends h id) (omega arith) (omega arith))
            (λ info s2. tt)
            (λ e s2 down.
              on_join_error-Ends id (value_of status) e (join_loop c fuel q) s2 (λ location s3 to.
                join_loop-Ends h fuel location s3
                  (below id location fuel (down location to) enough))))

-- If every redirect leads to a room of a lower rank, and the other services answer, then `join_room`
-- yields a result (an error is one) as soon as its fuel is above the rank of the room.
pub join_room-Ends :
    (c : Services) (rank : MucId → ℕ) (fuel : ℕ) (account : UserId) (id : MucId)
    (password : Option String) (sidebar_state : RoomSidebarState) (behavior : JoinRoomBehavior)
    (s : Session)
    → ((q : JoinRequest) (id : OccupantId) (s : Session)
        → Descends c q rank id.bare (c.join_room id q.password q.display_name q.availability s).0)
    → Answering c
    → rank id < fuel
    → Ends (join_room c fuel account id password sidebar_state behavior s).0
unfolding join_room
join_room-Ends c rank fuel account id password sidebar_state behavior s h answers enough =
    continue-Ends (c.get_user_info account s) _ (answers.get_user_info account s) (λ info s1.
      continue-Ends (c.availability s1) _ (answers.availability s1) (λ availability s2.
        let q : JoinRequest = record {
          room_id = id;
          nickname =
              build_nickname c (some (unwrap_or_username c.tables (user_display_name info) account))
                account;
          display_name = unwrap_or_username c.tables (user_display_name info) account;
          password = password;
          sidebar_state = sidebar_state;
          availability = availability;
          behavior = behavior;
        } in
        continue-Ends (join_loop c fuel q id s2) (finalize_pending_room c)
          (join_loop-Ends c q rank (h q) fuel id s2 enough) (finalize_pending_room-Ends c answers)))
