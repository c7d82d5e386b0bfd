-- ===== src/Sidebar/Consistency/Extending.antt =====
-- Consistent sessions under `populate_sidebar` and `extend_items_from_bookmarks`
-- (sidebar_domain_service.rs).
use prose_core_client.Base.{
  String, ℕ, Option, none, some, List, [], ◌∷◌, inl, inr, Bool-cases, Option-cases, string_eq,
}
use prose_core_client.Shared.Ids.{UserId, room_bare_jid}
use prose_core_client.Rooms.RoomModels.{Bookmark, is_in_sidebar}
use prose_core_client.Rooms.ConnectedRooms.{get_all}
use prose_core_client.Rooms.Room.{Room, room_id, Session, details_of, set_sidebar_state}
use prose_core_client.Rooms.Service.{build_nickname}
use prose_core_client.Rooms.Service.Requests.{system_initiated}
use prose_core_client.Rooms.Service.Connecting.{forget_room}
use prose_core_client.Rooms.Service.Consistent.{
  Consistent, Keeps, continue-Consistent, match-Consistent,
}
use prose_core_client.Rooms.Service.Consistent.Steps.{forget_room-Consistent}
use prose_core_client.Sidebar.{SidebarServices, save_bookmark_for_room}
use prose_core_client.Sidebar.Joins.{needs_join, join_room_identified_by_bookmark_if_needed}
use prose_core_client.Sidebar.Extend.{
  Update, sidebar_state_beq, find_live, notify_if, insert_pending, insert_all, follow_bookmark,
  collect, joined, join_bookmark, join_all, updates_of, apply_update, apply_updates, apply_or_panic,
  extend_items_from_bookmarks, populate_sidebar,
}
use prose_core_client.Sidebar.Consistency.{
  SidebarKeeping, save_bookmark-Consistent, delete_bookmark-Consistent,
}
use prose_core_client.Sidebar.Consistency.Pending.{notify_if-Consistent, pending_room-Consistent}
use prose_core_client.Sidebar.Consistency.Joins.{join_if_needed-Consistent}

module _ (c : SidebarServices) (keep : SidebarKeeping c) (username : UserId → String)
    (fuel : ℕ) where
  insert_pending-Consistent :
      (nickname : String) (b : Bookmark) (s : Session)
      → Consistent s
      → Consistent (insert_pending c username fuel nickname b s)
  unfolding insert_pending
  insert_pending-Consistent nickname b s h =
      elim (Bool-cases (needs_join c fuel b.type b.sidebar_state)) [
        | inl needed ↦ rw (insert_pending, needed) (pending_room-Consistent username b nickname s h)
        | inr idle ↦ rw (insert_pending, idle) h
      ]

  insert_all-Consistent :
      (nickname : String) (rooms : List Room) (bs : List Bookmark) (s : Session)
      → Consistent s
      → Consistent (insert_all c username fuel nickname rooms bs s).1
  unfolding insert_all
  insert_all-Consistent nickname rooms [] s h = h
  insert_all-Consistent nickname rooms (b ∷ bs) s h = elim (Option-cases (find_live rooms b s)) [
    | inl out ↦
        rw (insert_all, out)
          (insert_all-Consistent nickname rooms bs (insert_pending c username fuel nickname b s)
            (insert_pending-Consistent nickname b s h))
    | inr (room, there) ↦ rw (insert_all, there) (insert_all-Consistent nickname rooms bs s h)
  ]

  follow_bookmark-Consistent :
      (room : Room) (b : Bookmark) (s : Session)
      → Consistent s
      → Consistent (follow_bookmark c username fuel room b s).1
  unfolding follow_bookmark set_sidebar_state
  follow_bookmark-Consistent room b s h =
      elim (Bool-cases (sidebar_state_beq (details_of room s).sidebar_state b.sidebar_state)) [
        | inl same ↦ rw (follow_bookmark, same) h
        | inr other ↦ rw (follow_bookmark, other) h
      ]

  collect-Consistent :
      (rooms : List Room) (bs : List Bookmark) (s : Session)
      → Consistent s
      → Consistent (collect c username fuel rooms bs s).2
  unfolding collect
  collect-Consistent rooms [] s h = h
  collect-Consistent rooms (b ∷ bs) s h = elim (Option-cases (find_live rooms b s)) [
    | inl out ↦ rw (collect, out) (collect-Consistent rooms bs s h)
    | inr (room, there) ↦
        rw (collect, there)
          (collect-Consistent rooms bs (follow_bookmark c username fuel room b s).1
            (follow_bookmark-Consistent room b s h))
  ]

  joined-Consistent : (b : Bookmark) (room : Option Room) → Keeps (joined c username fuel b room)
  unfolding joined
  joined-Consistent b none s h = h
  joined-Consistent b (some room) s h = notify_if-Consistent (is_in_sidebar b.sidebar_state) s h

  join_bookmark-Consistent : (b : Bookmark) → Keeps (join_bookmark c username fuel b)
  unfolding join_bookmark
  join_bookmark-Consistent b s h =
      match-Consistent (join_room_identified_by_bookmark_if_needed c fuel b system_initiated s) _ _
        (join_if_needed-Consistent c keep fuel b system_initiated s h) (joined-Consistent b)
        (λ error s1. notify_if-Consistent (is_in_sidebar b.sidebar_state) s1)

  join_all-Consistent : (bs : List Bookmark) → Keeps (join_all c username fuel bs)
  unfolding join_all
  join_all-Consistent [] s h = h
  join_all-Consistent (b ∷ bs) s h =
      continue-Consistent (join_bookmark c username fuel b s) _ (join_bookmark-Consistent b s h)
        (λ update s1 h1.
          continue-Consistent (join_all c username fuel bs s1) _ (join_all-Consistent bs s1 h1)
            (λ updates s2 h2. h2))

  apply_update-Consistent : (u : Update) → Keeps (apply_update c username fuel u)
  unfolding apply_update
  apply_update-Consistent (Update.save_room room) s h = save_bookmark-Consistent c keep room s h
  apply_update-Consistent (Update.move_bookmark room id) s h =
      continue-Consistent (save_bookmark_for_room c room s) _
        (save_bookmark-Consistent c keep room s h)
        (λ u. delete_bookmark-Consistent c keep (room_bare_jid id))
  apply_update-Consistent (Update.drop_room id) s h =
      delete_bookmark-Consistent c keep (room_bare_jid id) (forget_room (room_bare_jid id) s)
        (forget_room-Consistent (room_bare_jid id) s h)

  apply_updates-Consistent : (us : List Update) → Keeps (apply_updates c username fuel us)
  unfolding apply_updates
  apply_updates-Consistent [] s h = h
  apply_updates-Consistent (u ∷ us) s h =
      continue-Consistent (apply_update c username fuel u s) _ (apply_update-Consistent u s h)
        (λ x. apply_updates-Consistent us)

  apply_or_panic-Consistent :
      (us : Option (List Update)) → Keeps (apply_or_panic c username fuel us)
  unfolding apply_or_panic
  apply_or_panic-Consistent none s h = h
  apply_or_panic-Consistent (some us) s h = apply_updates-Consistent us s h

  pub extend-Consistent :
      (bs : List Bookmark) → Keeps (extend_items_from_bookmarks c username fuel bs)
  unfolding extend_items_from_bookmarks
  extend-Consistent bs s h =
      continue-Consistent (c.rooms.connected_account s) _ (keep.rooms.connected_account s h)
        (λ account s1 h1.
          continue-Consistent (c.rooms.connected_id s1) _ (keep.rooms.connected_id s1 h1)
            (λ user s2 h2.
              let rooms = get_all room_id s2.connected in
              let nickname = build_nickname c.rooms none user.bare in
              let inserted = insert_all c username fuel nickname rooms bs s2 in
              let s3 = notify_if inserted.0 inserted.1 in
              let h3 =
                notify_if-Consistent inserted.0 inserted.1
                  (insert_all-Consistent nickname rooms bs s2 h2) in
              let followed = collect c username fuel rooms bs s3 in
              continue-Consistent
                (join_all c username fuel followed.1 (notify_if followed.0 followed.2)) _
                (join_all-Consistent followed.1 (notify_if followed.0 followed.2)
                  (notify_if-Consistent followed.0 followed.2 (collect-Consistent rooms bs s3 h3)))
                (λ updates s5.
                  apply_or_panic-Consistent (updates_of c username fuel updates s5) s5)))

  pub populate_sidebar-Consistent : Keeps (populate_sidebar c username fuel)
  unfolding populate_sidebar
  populate_sidebar-Consistent s h =
      continue-Consistent (c.load_bookmarks s) _ (keep.load_bookmarks s h) extend-Consistent
