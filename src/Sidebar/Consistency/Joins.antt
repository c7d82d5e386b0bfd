-- ===== src/Sidebar/Consistency/Joins.antt =====
-- Consistent sessions under `insert_item_by_creating_or_joining_room`, `handle_received_message` and
-- `join_room_identified_by_bookmark_if_needed` (sidebar_domain_service.rs).
use prose_core_client.Base.{ℕ, Option, none, some, true, false, inl, inr, Bool-cases, string_eq}
use prose_core_client.Shared.Ids.{BareJid, RoomId, ParticipantId, room_bare_jid}
use prose_core_client.Rooms.RoomModels.{RoomSidebarState, Bookmark, BookmarkType, is_in_sidebar}
use prose_core_client.Rooms.RoomError.{RoomError}
use prose_core_client.Rooms.ConnectedRooms.{get}
use prose_core_client.Rooms.Room.{
  Room, room_id, Session, details_of, set_sidebar_state, set_needs_update_statistics, dispatch,
}
use prose_core_client.Rooms.Service.Requests.{CreateOrEnterRoomRequest, JoinRoomBehavior}
use prose_core_client.Rooms.Service.Enter.{create_or_join_room}
use prose_core_client.Rooms.Service.Consistent.{
  Consistent, Keeps, continue-Consistent, match-Consistent,
}
use prose_core_client.Rooms.Service.Consistent.Entering.{create_or_join_room-Consistent}
use prose_core_client.Sidebar.{SidebarServices, sidebar_changed, save_bookmark_for_room}
use prose_core_client.Sidebar.Joins.{
  show, finish_item, show_existing, on_insert_error, insert_item_by_creating_or_joining_room,
  room_or_join, room_of_message, shows_up, show_and_save, receive_in, handle_received_message,
  needs_join, join_muc, join_of_type, join_room_identified_by_bookmark_if_needed,
}
use prose_core_client.Sidebar.Consistency.{
  SidebarKeeping, save_bookmark-Consistent, try_get_room-Consistent,
}

module _ (c : SidebarServices) (keep : SidebarKeeping c) (fuel : ℕ) where
  show-Consistent : (room : Room) (s : Session) → Consistent s → Consistent (show c fuel room s)
  unfolding show set_sidebar_state
  show-Consistent room s h = elim (Bool-cases (is_in_sidebar (details_of room s).sidebar_state)) [
    | inl shown ↦ rw (show, shown) h
    | inr hidden ↦ rw (show, hidden) h
  ]

  finish_item-Consistent : (room : Room) → Keeps (finish_item c fuel room)
  unfolding finish_item sidebar_changed dispatch
  finish_item-Consistent room s h =
      continue-Consistent (save_bookmark_for_room c room (show c fuel room s)) _
        (save_bookmark-Consistent c keep room (show c fuel room s) (show-Consistent room s h))
        (λ u s1 h1. h1)

  show_existing-Consistent :
      (id : RoomId) (room : Option Room) → Keeps (show_existing c fuel id room)
  unfolding show_existing set_sidebar_state
  show_existing-Consistent id none s h = h
  show_existing-Consistent id (some room) s h =
      elim (Bool-cases (is_in_sidebar (details_of room s).sidebar_state)) [
        | inl shown ↦ rw (show_existing, shown) h
        | inr hidden ↦
            rw (show_existing, hidden)
              (finish_item-Consistent room (set_sidebar_state room RoomSidebarState.in_sidebar s) h)
      ]

  on_insert_error-Consistent : (error : RoomError) → Keeps (on_insert_error c fuel error)
  unfolding on_insert_error
  on_insert_error-Consistent (RoomError.room_is_already_connected id) s h =
      continue-Consistent (c.rooms.connected_account s) _ (keep.rooms.connected_account s h)
        (λ account s1. show_existing-Consistent id (get room_id (room_bare_jid id) s1.connected) s1)
  on_insert_error-Consistent _ s h = h

  pub insert_item-Consistent :
      (request : CreateOrEnterRoomRequest)
      → Keeps (insert_item_by_creating_or_joining_room c fuel request)
  unfolding insert_item_by_creating_or_joining_room
  insert_item-Consistent request s h =
      match-Consistent (create_or_join_room c.rooms fuel request RoomSidebarState.in_sidebar s) _ _
        (create_or_join_room-Consistent c.rooms fuel request RoomSidebarState.in_sidebar s
          keep.rooms h)
        finish_item-Consistent on_insert_error-Consistent

  room_or_join-Consistent :
      (id : BareJid) (room : Option Room) → Keeps (room_or_join c fuel id room)
  unfolding room_or_join
  room_or_join-Consistent id (some room) s h = h
  room_or_join-Consistent id none s h =
      create_or_join_room-Consistent c.rooms fuel
        (CreateOrEnterRoomRequest.join_direct_message id false) RoomSidebarState.not_in_sidebar s
        keep.rooms h

  room_of_message-Consistent :
      (id : RoomId) (from : ParticipantId) → Keeps (room_of_message c fuel id from)
  unfolding room_of_message
  room_of_message-Consistent id (ParticipantId.occupant from) s h =
      try_get_room-Consistent c keep (room_bare_jid id) s h
  room_of_message-Consistent id (ParticipantId.user from) s h =
      room_or_join-Consistent (room_bare_jid id) (get room_id (room_bare_jid id) s.connected) s h

  show_and_save-Consistent : (room : Room) → Keeps (show_and_save c fuel room)
  unfolding show_and_save set_sidebar_state
  show_and_save-Consistent room s h =
      elim (Bool-cases (is_in_sidebar (details_of room s).sidebar_state)) [
        | inl shown ↦ rw (show_and_save, shown) h
        | inr hidden ↦
            rw (show_and_save, hidden)
              (save_bookmark-Consistent c keep room
                (set_sidebar_state room RoomSidebarState.in_sidebar s) h)
      ]

  receive_in-Consistent : (room : Room) → Keeps (receive_in c fuel room)
  unfolding receive_in sidebar_changed dispatch
  receive_in-Consistent room s h = elim (Bool-cases (shows_up c fuel room.info.type)) [
    | inl shows ↦
        rw (receive_in, shows)
          (continue-Consistent (show_and_save c fuel room s) _ (show_and_save-Consistent room s h)
            (λ u s1 h1. h1))
    | inr hidden ↦ rw (receive_in, hidden) h
  ]

  pub handle_received_message-Consistent :
      (id : RoomId) (from : ParticipantId) → Keeps (handle_received_message c fuel id from)
  unfolding handle_received_message set_needs_update_statistics
  handle_received_message-Consistent id from s h =
      continue-Consistent (c.rooms.connected_account s) _ (keep.rooms.connected_account s h)
        (λ account s1 h1.
          continue-Consistent (room_of_message c fuel id from s1) _
            (room_of_message-Consistent id from s1 h1)
            (λ room s2 h2. receive_in-Consistent room (set_needs_update_statistics room s2) h2))

  join_muc-Consistent :
      (id : RoomId) (state : RoomSidebarState) (behavior : JoinRoomBehavior)
      → Keeps (join_muc c fuel id state behavior)
  unfolding join_muc
  join_muc-Consistent (RoomId.user id) state behavior s h = h
  join_muc-Consistent (RoomId.muc id) state behavior s h =
      let request = CreateOrEnterRoomRequest.join_room id none behavior true in
      continue-Consistent (create_or_join_room c.rooms fuel request state s) _
        (create_or_join_room-Consistent c.rooms fuel request state s keep.rooms h)
        (λ room s1 h1. h1)

  join_of_type-Consistent :
      (type : BookmarkType) (b : Bookmark) (behavior : JoinRoomBehavior)
      → Keeps (join_of_type c fuel type b behavior)
  unfolding join_of_type
  join_of_type-Consistent BookmarkType.direct_message b behavior s h =
      let request = CreateOrEnterRoomRequest.join_direct_message (room_bare_jid b.jid) true in
      continue-Consistent (create_or_join_room c.rooms fuel request b.sidebar_state s) _
        (create_or_join_room-Consistent c.rooms fuel request b.sidebar_state s keep.rooms h)
        (λ room s1 h1. h1)
  join_of_type-Consistent BookmarkType.group b behavior s h =
      join_muc-Consistent b.jid b.sidebar_state behavior s h
  join_of_type-Consistent BookmarkType.private_channel b behavior s h =
      join_muc-Consistent b.jid b.sidebar_state behavior s h
  join_of_type-Consistent BookmarkType.public_channel b behavior s h =
      join_muc-Consistent b.jid b.sidebar_state behavior s h
  join_of_type-Consistent BookmarkType.generic b behavior s h =
      join_muc-Consistent b.jid b.sidebar_state behavior s h

  pub join_if_needed-Consistent :
      (b : Bookmark) (behavior : JoinRoomBehavior)
      → Keeps (join_room_identified_by_bookmark_if_needed c fuel b behavior)
  unfolding join_room_identified_by_bookmark_if_needed
  join_if_needed-Consistent b behavior s h =
      elim (Bool-cases (needs_join c fuel b.type b.sidebar_state)) [
        | inl needed ↦
            rw (join_room_identified_by_bookmark_if_needed, needed)
              (join_of_type-Consistent b.type b behavior s h)
        | inr idle ↦ rw (join_room_identified_by_bookmark_if_needed, idle) h
      ]
