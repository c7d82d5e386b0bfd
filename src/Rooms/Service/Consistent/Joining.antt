-- ===== src/Rooms/Service/Consistent/Joining.antt =====
-- Consistent sessions under `join_room` (rooms_domain_service.rs).
use prose_core_client.Base.{
  String, refl, ℕ, zero, suc, ◌+◌, Option, none, List, [], ◌∷◌, inl, inr, Bool-cases, Option-cases,
}
use prose_core_client.Base.Int.{pos}
use prose_core_client.Shared.Ids.{UserId, MucId, RoomId, room_bare_jid}
use prose_core_client.Rooms.RoomModels.{RoomSidebarState, RoomSessionMember}
use prose_core_client.Rooms.RoomError.{RoomError}
use prose_core_client.Rooms.Room.{Room, Session, set_state}
use prose_core_client.Rooms.Service.{Op, return, or_else, Services, occupant_id_with_nickname}
use prose_core_client.Rooms.Service.Nickname.{
  nickname_at, after_error, try_from, try_until_nickname_unique,
}
use prose_core_client.Rooms.Service.Nickname.Answers.{after_error-cases}
use prose_core_client.Rooms.Service.Requests.{
  RoomInfoStatus, JoinRoomBehavior, value_of, status_with,
}
use prose_core_client.Rooms.Service.Connecting.{insert_connecting_room, forget_room}
use prose_core_client.Rooms.Service.Finalize.{
  enrich_members, server_time_offset, finalize_pending_room, resolved_of,
}
use prose_core_client.Rooms.Service.Join.{
  JoinRequest, redirect_of, join_handler, on_join_error, join_loop, join_room,
  remove_or_retain_room_on_error,
}
use prose_core_client.Rooms.Service.Join.Rounds.{
  join_handler_bad, join_handler_good, on_join_error_stay, on_join_error_follow, join_loop_round,
  on_failure-keeps,
}
use prose_core_client.Rooms.Service.Consistent.{
  Consistent, Keeps, Keeping, continue-Consistent, match-Consistent, or_else-Consistent,
}
use prose_core_client.Rooms.Service.Consistent.Steps.{
  modify-Consistent, forget_room-Consistent, insert_connecting_room-Consistent,
  replace_placeholder-Consistent,
}

module _ {U : Type 0} (preferred : String) (ask : String → Op U) (max_attempts : ℕ) where
  after_error-Consistent :
      (attempt : ℕ) (error : RoomError) (retry : Op U)
      → Keeps retry
      → Keeps (after_error preferred ask max_attempts attempt error retry)
  after_error-Consistent attempt error retry h s k =
      elim (after_error-cases preferred ask max_attempts attempt error retry s) [
        | inl last ↦ rw last k
        | inr more ↦ rw more (h s k)
      ]

  try_from-Consistent :
      ((n : String) → Keeps (ask n))
      → (fuel attempt : ℕ) → Keeps (try_from preferred ask max_attempts fuel attempt)
  unfolding try_from nickname_at
  try_from-Consistent h zero attempt s k = k
  try_from-Consistent h (suc fuel) attempt s k =
      match-Consistent (ask (nickname_at preferred attempt) s) return _
        (h (nickname_at preferred attempt) s k) (λ u s1 k1. k1)
        (λ e.
          after_error-Consistent (attempt + 1) e
            (try_from preferred ask max_attempts fuel (attempt + 1))
            (try_from-Consistent h fuel (attempt + 1)))

pub try_until_nickname_unique-Consistent :
    {U : Type 0} (preferred : String) (ask : String → Op U) (max_attempts fuel : ℕ)
    → ((n : String) → Keeps (ask n))
    → Keeps (try_until_nickname_unique preferred ask max_attempts fuel)
unfolding try_until_nickname_unique
try_until_nickname_unique-Consistent preferred ask max_attempts fuel h =
    try_from-Consistent preferred ask max_attempts h fuel 0

module _ (c : Services) (keep : Keeping c) where
  enrich_members-Consistent :
      (current : UserId) (ms : List RoomSessionMember) → Keeps (enrich_members c current ms)
  unfolding enrich_members
  enrich_members-Consistent current [] s h = h
  enrich_members-Consistent current (m ∷ ms) s h =
      continue-Consistent (or_else none (c.get_user_info m.id s)) _
        (or_else-Consistent none (c.get_user_info m.id s) (keep.get_user_info m.id s h))
        (λ info s1 h1.
          continue-Consistent (enrich_members c current ms s1) _
            (enrich_members-Consistent current ms s1 h1) (λ members s2 h2. h2))

  server_time_offset-Consistent : (id : MucId) → Keeps (server_time_offset c id)
  unfolding server_time_offset
  server_time_offset-Consistent id s h = elim (Bool-cases (c.is_muc_room_on_connected_server id)) [
    | inl own ↦
        rw (server_time_offset, own)
          (match-Consistent (c.server_features s) (λ f. return f.server_time_offset)
            (λ e. return (pos 0)) (keep.server_features s h) (λ f s1 h1. h1) (λ e s1 h1. h1))
    | inr other ↦ rw (server_time_offset, other) h
  ]

  pub finalize_pending_room-Consistent :
      (status : RoomInfoStatus) → Keeps (finalize_pending_room c status)
  unfolding finalize_pending_room room_bare_jid
  finalize_pending_room-Consistent status s h =
      let info = value_of status in
      continue-Consistent (c.connected_id s) _ (keep.connected_id s h) (λ id s1 h1.
        continue-Consistent (enrich_members c id.bare info.members s1) _
          (enrich_members-Consistent id.bare info.members s1 h1)
          (λ members s2 h2.
            continue-Consistent (server_time_offset c info.room_id s2) _
              (server_time_offset-Consistent info.room_id s2 h2)
              (λ offset s3 h3.
                continue-Consistent (or_else none (c.load_settings (RoomId.muc info.room_id) s3)) _
                  (or_else-Consistent none (c.load_settings (RoomId.muc info.room_id) s3)
                    (keep.load_settings (RoomId.muc info.room_id) s3 h3))
                  (λ settings.
                    replace_placeholder-Consistent status (resolved_of c info members offset)
                      settings refl))))

  join_handler-Consistent :
      (q : JoinRequest) (id : MucId) (n : String) → Keeps (join_handler c q id n)
  join_handler-Consistent q id n s h = elim (Option-cases (occupant_id_with_nickname c id n)) [
    | inl bad ↦ rw (join_handler_bad c q id n s bad) h
    | inr (full, good) ↦
        rw (join_handler_good c q id n full s good)
          (keep.join_room full q.password q.display_name q.availability s h)
  ]

  remove_or_retain-Consistent :
      (q : JoinRequest) (r : Room) (error : RoomError) (s : Session)
      → Consistent s
      → Consistent (remove_or_retain_room_on_error c q r error s)
  unfolding remove_or_retain_room_on_error set_state
  remove_or_retain-Consistent q r error s h =
      on_failure-keeps Consistent c q.behavior.on_failure q.room_id r error s
        (forget_room-Consistent q.room_id s h)
        (λ state. modify-Consistent r (λ d. record d { state = state }) s h)

  on_join_error-Consistent :
      (q : JoinRequest) (id : MucId) (r : Room) (error : RoomError)
      (next : MucId → Op RoomInfoStatus)
      → ((location : MucId) → Keeps (next location))
      → Keeps (on_join_error c q id r error next)
  on_join_error-Consistent q id r error next rest s h =
      elim (Option-cases (redirect_of c q error)) [
        | inl stay ↦
            rw (on_join_error_stay c q id r error next s stay)
              (remove_or_retain-Consistent q r error s h)
        | inr (location, to) ↦
            rw (on_join_error_follow c q id location r error next s to)
              (rest location (forget_room id s) (forget_room-Consistent id s h))
      ]

  join_loop-Consistent : (fuel : ℕ) (q : JoinRequest) (id : MucId) → Keeps (join_loop c fuel q id)
  unfolding join_loop insert_connecting_room
  join_loop-Consistent zero q id s h = h
  join_loop-Consistent (suc fuel) q id s h = rw (join_loop_round c q id fuel s) (
      continue-Consistent (insert_connecting_room id q.nickname q.sidebar_state s) _
        (insert_connecting_room-Consistent id q.nickname q.sidebar_state s h)
        (λ status s1 h1.
          match-Consistent (try_until_nickname_unique q.nickname (join_handler c q id) 10 10 s1)
            (λ info. return (status_with status info))
            (λ error. on_join_error c q id (value_of status) error (join_loop c fuel q))
            (try_until_nickname_unique-Consistent q.nickname (join_handler c q id) 10 10
              (join_handler-Consistent q id) s1 h1)
            (λ info s2 h2. h2)
            (λ e.
              on_join_error-Consistent q id (value_of status) e (join_loop c fuel q)
                (join_loop-Consistent fuel q))))

  pub join_room-Consistent :
      (fuel : ℕ) (account : UserId) (id : MucId) (password : Option String)
      (sidebar_state : RoomSidebarState) (behavior : JoinRoomBehavior)
      → Keeps (join_room c fuel account id password sidebar_state behavior)
  unfolding join_room
  join_room-Consistent fuel account id password sidebar_state behavior s h =
      continue-Consistent (c.get_user_info account s) _ (keep.get_user_info account s h)
        (λ info s1 h1.
          continue-Consistent (c.availability s1) _ (keep.availability s1 h1) (λ availability s2 h2.
            continue-Consistent (join_loop c fuel _ id s2) (finalize_pending_room c)
              (join_loop-Consistent fuel _ id s2 h2) finalize_pending_room-Consistent))
