-- ===== src/Sidebar/Consistency/Destroyed.antt =====
-- Consistent sessions under `handle_destroyed_room` and `handle_removal_from_room`
-- (sidebar_domain_service.rs).
use prose_core_client.Base.{
  String, ℕ, Option, none, some, Bool, false, inl, inr, Option-cases, string_eq,
}
use prose_core_client.Shared.Ids.{UserId, MucId}
use prose_core_client.Rooms.RoomModels.{BookmarkType, room_bookmark_type}
use prose_core_client.Rooms.ConnectedRooms.{get, delete}
use prose_core_client.Rooms.Room.{Room, room_id, Session, details_of, set_state, dispatch}
use prose_core_client.Rooms.Service.{Outcome, build_nickname}
use prose_core_client.Rooms.Service.Requests.{CreateOrEnterRoomRequest, system_initiated}
use prose_core_client.Rooms.Service.Connecting.{forget_room}
use prose_core_client.Rooms.Service.Enter.{create_or_join_room}
use prose_core_client.Rooms.Service.Consistent.{
  Consistent, Keeps, continue-Consistent, match-Consistent,
}
use prose_core_client.Rooms.Service.Consistent.Steps.{forget_room-Consistent}
use prose_core_client.Rooms.Service.Consistent.Entering.{create_or_join_room-Consistent}
use prose_core_client.Sidebar.{SidebarServices, sidebar_changed, delete_bookmark}
use prose_core_client.Sidebar.Changes.{
  mark_destroyed, save_joined, insert_alternate, join_alternate, replace_destroyed, move_to,
  destroyed_with, handle_destroyed_room, mark_removed, handle_removal_from_room,
}
use prose_core_client.Sidebar.Consistency.{
  SidebarKeeping, save_bookmark-Consistent, delete_bookmark-Consistent,
}
use prose_core_client.Sidebar.Consistency.Pending.{
  sidebar_changed-Consistent, pending_room-Consistent,
}

module _ (c : SidebarServices) (keep : SidebarKeeping c) (username : UserId → String)
    (fuel : ℕ) where
  mark_destroyed-Consistent :
      (room : Option Room) (s : Session)
      → Consistent s
      → Consistent (mark_destroyed c username fuel room s)
  unfolding mark_destroyed sidebar_changed dispatch set_state
  mark_destroyed-Consistent none s h = h
  mark_destroyed-Consistent (some room) s h = h

  mark_removed-Consistent :
      (is_permanent : Bool) (room : Option Room) (s : Session)
      → Consistent s
      → Consistent (mark_removed c username fuel is_permanent room s)
  unfolding mark_removed sidebar_changed dispatch set_state
  mark_removed-Consistent is_permanent none s h = h
  mark_removed-Consistent is_permanent (some room) s h = h

  pub handle_removal-Consistent :
      (id : MucId) (is_permanent : Bool)
      → Keeps (handle_removal_from_room c username fuel id is_permanent)
  unfolding handle_removal_from_room
  handle_removal-Consistent id is_permanent s h =
      continue-Consistent (c.rooms.connected_account s) _ (keep.rooms.connected_account s h)
        (λ account s1. mark_removed-Consistent is_permanent (get room_id id s1.connected) s1)

  save_joined-Consistent :
      (o : Outcome Room × Session) → Consistent o.1 → Consistent (save_joined c username fuel o).1
  unfolding save_joined
  save_joined-Consistent o h =
      match-Consistent o _ _ h (save_bookmark-Consistent c keep) (λ e s1 h1. h1)

  insert_alternate-Consistent :
      (type : BookmarkType) (room : Room) (alternate : MucId) (user : UserId)
      → Keeps (insert_alternate c username fuel type room alternate user)
  unfolding insert_alternate
  insert_alternate-Consistent type room alternate user s h =
      pending_room-Consistent username _ (build_nickname c.rooms none user) s h

  join_alternate-Consistent :
      (id : MucId) (room : Room) (alternate : MucId)
      → Keeps (join_alternate c username fuel id room alternate)
  unfolding join_alternate
  join_alternate-Consistent id room alternate s h =
      let request = CreateOrEnterRoomRequest.join_room alternate none system_initiated false in
      continue-Consistent (delete_bookmark c id (sidebar_changed s)) _
        (delete_bookmark-Consistent c keep id (sidebar_changed s) (sidebar_changed-Consistent s h))
        (λ u s1 h1.
          let joined =
            create_or_join_room c.rooms fuel request (details_of room s1).sidebar_state s1 in
          continue-Consistent (save_joined c username fuel joined) _
            (save_joined-Consistent joined (
              create_or_join_room-Consistent c.rooms fuel request (details_of room s1).sidebar_state
                s1 keep.rooms h1))
            (λ v s2. sidebar_changed-Consistent s2))

  replace_destroyed-Consistent :
      (id alternate : MucId) (room : Room) (type : Option BookmarkType)
      → Keeps (replace_destroyed c username fuel id alternate room type)
  unfolding replace_destroyed
  replace_destroyed-Consistent id alternate room none s h = h
  replace_destroyed-Consistent id alternate room (some type) s h =
      continue-Consistent (c.rooms.connected_id s) _ (keep.rooms.connected_id s h) (λ user s1 h1.
        continue-Consistent (insert_alternate c username fuel type room alternate user.bare s1)
          (λ u. join_alternate c username fuel id room alternate)
          (insert_alternate-Consistent type room alternate user.bare s1 h1)
          (λ u. join_alternate-Consistent id room alternate))

  move_to-Consistent :
      (id alternate : MucId) (room : Option Room)
      → Keeps (move_to c username fuel id alternate room)
  unfolding move_to
  move_to-Consistent id alternate none s h = h
  move_to-Consistent id alternate (some room) s h =
      elim (Option-cases (get room_id alternate s.connected)) [
        | inl free ↦
            rw (move_to, free)
              (replace_destroyed-Consistent id alternate room (room_bookmark_type room.info.type) s
                h)
        | inr (existing, there) ↦
            rw (move_to, there) (delete_bookmark-Consistent c keep alternate s h)
      ]

  destroyed_with-Consistent :
      (id : MucId) (alternate : Option MucId) → Keeps (destroyed_with c username fuel id alternate)
  unfolding destroyed_with forget_room
  destroyed_with-Consistent id none s h = mark_destroyed-Consistent (get room_id id s.connected) s h
  destroyed_with-Consistent id (some alternate) s h =
      move_to-Consistent id alternate (delete room_id id s.connected).0 (forget_room id s)
        (forget_room-Consistent id s h)

  pub handle_destroyed_room-Consistent :
      (id : MucId) (alternate : Option MucId)
      → Keeps (handle_destroyed_room c username fuel id alternate)
  unfolding handle_destroyed_room
  handle_destroyed_room-Consistent id alternate s h =
      continue-Consistent (c.rooms.connected_account s) _ (keep.rooms.connected_account s h)
        (λ account. destroyed_with-Consistent id alternate)
