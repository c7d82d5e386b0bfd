-- ===== src/Sidebar/Joins.antt =====
-- `insert_item_by_creating_or_joining_room`, `handle_received_message` and
-- `join_room_identified_by_bookmark_if_needed`.
use prose_core_client.Base.{ℕ, Option, none, some, Bool, true, false}
use prose_core_client.Shared.Ids.{BareJid, RoomId, ParticipantId, room_bare_jid}
use prose_core_client.Events.Dispatcher.{RoomType}
use prose_core_client.Rooms.RoomModels.{RoomSidebarState, Bookmark, BookmarkType, is_in_sidebar}
use prose_core_client.Rooms.RoomError.{RoomError}
use prose_core_client.Rooms.ConnectedRooms.{get}
use prose_core_client.Rooms.Room.{
  Room, room_id, Session, details_of, set_sidebar_state, set_needs_update_statistics,
}
use prose_core_client.Rooms.Service.{Op, return, fail, continue, match, change}
use prose_core_client.Rooms.Service.Requests.{CreateOrEnterRoomRequest, JoinRoomBehavior}
use prose_core_client.Rooms.Service.Enter.{create_or_join_room}
use prose_core_client.Sidebar.{
  SidebarServices, sidebar_changed, save_bookmark_for_room, try_get_room,
}

module _ (c : SidebarServices) (fuel : ℕ) where
  -- `if !room.sidebar_state().is_in_sidebar() { room.set_sidebar_state(InSidebar) }`
  unfoldable pub show : Room → Session → Session
  unfolding is_in_sidebar set_sidebar_state
  show room s = elim (is_in_sidebar (details_of room s).sidebar_state) [
    | true ↦ s
    | false ↦ set_sidebar_state room RoomSidebarState.in_sidebar s
  ]

  unfoldable pub finish_item : Room → Op RoomId
  unfolding save_bookmark_for_room sidebar_changed show
  finish_item room s =
      continue (save_bookmark_for_room c room (show room s))
        (λ u s'. return (room_id room) (sidebar_changed s'))

  unfoldable pub show_existing : RoomId → Option Room → Op RoomId
  unfolding finish_item is_in_sidebar set_sidebar_state
  show_existing id none = fail (RoomError.anyhow "Failed to join room. Please try again.")
  show_existing id (some room) = λ s. elim (is_in_sidebar (details_of room s).sidebar_state) [
    | true ↦ return id s
    | false ↦ finish_item room (set_sidebar_state room RoomSidebarState.in_sidebar s)
  ]

  -- A room that is connected already is shown.
  unfoldable pub on_insert_error : RoomError → Op RoomId
  unfolding get show_existing room_bare_jid
  on_insert_error (RoomError.room_is_already_connected id) = λ s.
      continue (c.rooms.connected_account s)
        (λ account s'. show_existing id (get room_id (room_bare_jid id) s'.connected) s')
  on_insert_error error = fail error

  unfoldable pub insert_item_by_creating_or_joining_room : CreateOrEnterRoomRequest → Op RoomId
  unfolding create_or_join_room finish_item on_insert_error
  insert_item_by_creating_or_joining_room request s =
      match (create_or_join_room c.rooms fuel request RoomSidebarState.in_sidebar s) finish_item
        on_insert_error

  unfoldable pub room_or_join : BareJid → Option Room → Op Room
  unfolding create_or_join_room
  room_or_join id (some room) = return room
  room_or_join id none =
      create_or_join_room c.rooms fuel (CreateOrEnterRoomRequest.join_direct_message id false)
        RoomSidebarState.not_in_sidebar

  unfoldable pub room_of_message : RoomId → ParticipantId → Op Room
  unfolding try_get_room get room_or_join room_bare_jid show
  room_of_message id (ParticipantId.occupant from) = try_get_room c (room_bare_jid id)
  room_of_message id (ParticipantId.user from) =
      λ s. room_or_join (room_bare_jid id) (get room_id (room_bare_jid id) s.connected) s

  -- Direct messages and groups show up in the sidebar.
  unfoldable pub shows_up : RoomType → Bool
  shows_up RoomType.direct_message = true
  shows_up RoomType.group = true
  shows_up _ = false

  unfoldable pub show_and_save : Room → Op Unit
  unfolding is_in_sidebar set_sidebar_state save_bookmark_for_room
  show_and_save room s = elim (is_in_sidebar (details_of room s).sidebar_state) [
    | true ↦ return tt s
    | false ↦ save_bookmark_for_room c room (set_sidebar_state room RoomSidebarState.in_sidebar s)
  ]

  unfoldable pub receive_in : Room → Op Unit
  unfolding show_and_save sidebar_changed shows_up
  receive_in room s = elim (shows_up room.info.type) [
    | true ↦ continue (show_and_save room s) (λ u. change sidebar_changed)
    | false ↦ change sidebar_changed s
  ]

  unfoldable pub handle_received_message : RoomId → ParticipantId → Op Unit
  unfolding room_of_message set_needs_update_statistics receive_in
  handle_received_message id from s = continue (c.rooms.connected_account s) (λ account s1.
      continue (room_of_message id from s1)
        (λ room s2. receive_in room (set_needs_update_statistics room s2)))

  -- Hidden rooms other than groups are not entered.
  unfoldable pub needs_join : BookmarkType → RoomSidebarState → Bool
  unfolding is_in_sidebar
  needs_join BookmarkType.group state = true
  needs_join _ state = is_in_sidebar state

  unfoldable pub join_muc : RoomId → RoomSidebarState → JoinRoomBehavior → Op (Option Room)
  unfolding create_or_join_room
  join_muc (RoomId.user id) state behavior = return none
  join_muc (RoomId.muc id) state behavior = λ s.
      continue
        (create_or_join_room c.rooms fuel (CreateOrEnterRoomRequest.join_room id none behavior true)
          state s)
        (λ room. return (some room))

  unfoldable pub join_of_type : BookmarkType → Bookmark → JoinRoomBehavior → Op (Option Room)
  unfolding create_or_join_room room_bare_jid join_muc
  join_of_type BookmarkType.direct_message bookmark behavior = λ s.
      continue
        (create_or_join_room c.rooms fuel
          (CreateOrEnterRoomRequest.join_direct_message (room_bare_jid bookmark.jid) true)
          bookmark.sidebar_state s)
        (λ room. return (some room))
  join_of_type _ bookmark behavior = join_muc bookmark.jid bookmark.sidebar_state behavior

  unfoldable pub join_room_identified_by_bookmark_if_needed :
      Bookmark → JoinRoomBehavior → Op (Option Room)
  unfolding needs_join join_of_type
  join_room_identified_by_bookmark_if_needed bookmark behavior s =
      elim (needs_join bookmark.type bookmark.sidebar_state) [
        | true ↦ join_of_type bookmark.type bookmark behavior s
        | false ↦ return none s
      ]
