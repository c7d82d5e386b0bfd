-- ===== src/Sidebar/Consistency.antt =====
-- Consistent sessions (Rooms/Service/Consistent) under the removals of sidebar_domain_service.rs.
pub mod Pending
pub mod Joins
pub mod Extending
pub mod Destroyed
pub mod Calls
use prose_core_client.Base.{
  ℕ, Option, none, some, List, [], ◌∷◌, true, false, arith, inl, inr, Bool-cases, Option-cases,
}
use prose_core_client.Shared.Ids.{BareJid, MucId, RoomId, OccupantId, room_bare_jid, room_muc_id}
use prose_core_client.Events.Dispatcher.{RoomType}
use prose_core_client.Rooms.RoomModels.{Bookmark, RoomState, RoomSidebarState}
use prose_core_client.Rooms.ConnectedRooms.{get, get_all, delete_all}
use prose_core_client.Rooms.Room.{
  Room, room_id, Session, details_of, dispatch, set_state, set_sidebar_state, occupant_id,
}
use prose_core_client.Rooms.Service.{change}
use prose_core_client.Rooms.Service.Reconnect.{reconnect_room_if_needed}
use prose_core_client.Rooms.Service.Consistent.{
  Consistent, Keeps, Keeping, continue-Consistent, match-Consistent, or_else-Consistent,
}
use prose_core_client.Rooms.Service.Consistent.Steps.{forget_room-Consistent}
use prose_core_client.Rooms.Service.Consistent.Reconnecting.{reconnect_room_if_needed-Consistent}
use prose_core_client.Sidebar.{
  SidebarServices, send, sidebar_changed, bookmark_of, save_bookmark_for_room, delete_bookmark,
  try_get_room, try_get_room,
}
use prose_core_client.Sidebar.Calls.{SidebarCall, call, run_calls}
use prose_core_client.Rooms.RoomError.{is_gone_err}
use prose_core_client.Rooms.Service.Connecting.{forget_room}
use prose_core_client.Sidebar.Removal.{
  exit_or_fail, exit_all, handle_remote_purge, clear_cache, exit_if_muc, forget_if_connected,
  leave_channel, disconnect_of_type, disconnect_and_delete_room, hide, forget_of_type, remove_item,
  remove_loop, remove_items, removed_loop, handle_removed_items,
}
use prose_core_client.Sidebar.Favorites.{
  save_and_notify, apply_toggle, toggle_item_is_favorite, forget_item, destroy_connected,
  destroy_room,
}
use prose_core_client.Sidebar.Disconnect.{
  disconnect_all, handle_disconnect, room_state_beq, notify_unless_same, ping, ping_all,
  handle_ping_timer_event,
}

-- What the services and the events that arrive in the meantime may do to the session
pub record SidebarKeeping (c : SidebarServices) : Type 0 where
  pub rooms : Keeping c.rooms
  pub exit_room : (id : OccupantId) → Keeps (c.rooms.exit_room id)
  pub save : (bookmark : Bookmark) → Keeps (c.save bookmark)
  pub load_bookmarks : Keeps c.load_bookmarks
  pub remove : (id : BareJid) → Keeps (c.remove id)

pub cleared-Consistent : (s : Session) → Consistent (record s { connected = [] })
unfolding get
cleared-Consistent s = record {
  key = λ id r e. ground (arith, e);
  allocated = λ id r e. ground (arith, e);
  apart = λ id other r r' e e' same. ground (arith, e);
}

module _ (c : SidebarServices) (keep : SidebarKeeping c) where
  pub save_bookmark-Consistent : (room : Room) → Keeps (save_bookmark_for_room c room)
  unfolding save_bookmark_for_room send
  save_bookmark-Consistent room s h = elim (Option-cases (bookmark_of c room s)) [
    | inl out ↦ rw (save_bookmark_for_room, out) h
    | inr (bookmark, there) ↦
        rw (save_bookmark_for_room, there) (or_else-Consistent tt _ (keep.save bookmark _ h))
  ]

  pub delete_bookmark-Consistent : (id : BareJid) → Keeps (delete_bookmark c id)
  unfolding delete_bookmark send
  delete_bookmark-Consistent id s h = or_else-Consistent tt _ (keep.remove id _ h)

  exit_if_muc-Consistent : (id : Option OccupantId) → Keeps (exit_if_muc c id)
  exit_if_muc-Consistent none s h = h
  exit_if_muc-Consistent (some id) s h =
      or_else-Consistent tt (c.rooms.exit_room id s) (keep.exit_room id s h)

  forget_if_connected-Consistent : (id : BareJid) → Keeps (forget_if_connected c id)
  unfolding forget_if_connected
  forget_if_connected-Consistent id s h =
      match-Consistent (c.rooms.connected_account s) _ _ (keep.rooms.connected_account s h)
        (λ account. forget_room-Consistent id) (λ e s1 h1. h1)

  leave_channel-Consistent : (room : Room) → Keeps (leave_channel c room)
  unfolding leave_channel
  leave_channel-Consistent room s h =
      continue-Consistent (forget_if_connected c (room_bare_jid (room_id room)) s) _
        (forget_if_connected-Consistent (room_bare_jid (room_id room)) s h)
        (λ u. exit_if_muc-Consistent (occupant_id room.info))

  disconnect_of_type-Consistent :
      (type : RoomType) (room : Room) → Keeps (disconnect_of_type c type room)
  unfolding disconnect_of_type set_sidebar_state
  disconnect_of_type-Consistent RoomType.unknown room s h = h
  disconnect_of_type-Consistent RoomType.direct_message room s h =
      forget_if_connected-Consistent (room_bare_jid (room_id room)) s h
  disconnect_of_type-Consistent RoomType.group room s h = h
  disconnect_of_type-Consistent RoomType.private_channel room s h =
      leave_channel-Consistent room s h
  disconnect_of_type-Consistent RoomType.public_channel room s h = leave_channel-Consistent room s h
  disconnect_of_type-Consistent RoomType.generic room s h = leave_channel-Consistent room s h

  hide-Consistent : (room : Room) → Keeps (hide c room)
  unfolding hide set_sidebar_state
  hide-Consistent room s h =
      save_bookmark-Consistent room (set_sidebar_state room RoomSidebarState.not_in_sidebar s) h

  forget_of_type-Consistent :
      (type : RoomType) (id : RoomId) (room : Room) → Keeps (forget_of_type c type id room)
  unfolding forget_of_type
  forget_of_type-Consistent RoomType.unknown id room s h = h
  forget_of_type-Consistent RoomType.group id room s h = hide-Consistent room s h
  forget_of_type-Consistent RoomType.private_channel id room s h = hide-Consistent room s h
  forget_of_type-Consistent RoomType.direct_message id room s h =
      delete_bookmark-Consistent (room_bare_jid id) s h
  forget_of_type-Consistent RoomType.public_channel id room s h =
      delete_bookmark-Consistent (room_bare_jid id) s h
  forget_of_type-Consistent RoomType.generic id room s h =
      delete_bookmark-Consistent (room_bare_jid id) s h

  pub remove_loop-Consistent : (ids : List RoomId) → Keeps (remove_loop c ids)
  unfolding remove_loop remove_item disconnect_and_delete_room sidebar_changed dispatch
  remove_loop-Consistent [] s h = h
  remove_loop-Consistent (id ∷ ids) s h =
      elim (Option-cases (get room_id (room_bare_jid id) s.connected)) [
        | inl out ↦ rw (remove_loop, out) h
        | inr (room, there) ↦
            rw (remove_loop, there)
              (continue-Consistent (remove_item c id room s) (λ u. remove_loop c ids)
                (continue-Consistent (disconnect_of_type c room.info.type room s)
                  (λ u. forget_of_type c room.info.type id room)
                  (disconnect_of_type-Consistent room.info.type room s h)
                  (λ u. forget_of_type-Consistent room.info.type id room))
                (λ u. remove_loop-Consistent ids))
      ]

  pub removed_loop-Consistent : (ids : List BareJid) → Keeps (removed_loop c ids)
  unfolding removed_loop disconnect_and_delete_room sidebar_changed dispatch
  removed_loop-Consistent [] s h = h
  removed_loop-Consistent (id ∷ ids) s h = elim (Option-cases (get room_id id s.connected)) [
    | inl out ↦ rw (removed_loop, out) (removed_loop-Consistent ids s h)
    | inr (room, there) ↦
        rw (removed_loop, there)
          (continue-Consistent (disconnect_of_type c room.info.type room s)
            (λ u. removed_loop c ids) (disconnect_of_type-Consistent room.info.type room s h)
            (λ u. removed_loop-Consistent ids))
  ]

  exit_or_fail-Consistent : (id : Option OccupantId) → Keeps (exit_or_fail c id)
  unfolding exit_or_fail
  exit_or_fail-Consistent none s h = h
  exit_or_fail-Consistent (some id) s h = keep.exit_room id s h

  pub exit_all-Consistent : (rooms : List Room) → Keeps (exit_all c rooms)
  unfolding exit_all sidebar_changed dispatch
  exit_all-Consistent [] s h = h
  exit_all-Consistent (room ∷ rooms) s h =
      continue-Consistent (exit_or_fail c (occupant_id room.info) s) _
        (exit_or_fail-Consistent (occupant_id room.info) s h) (λ u. exit_all-Consistent rooms)

  pub try_get_room-Consistent : (id : BareJid) → Keeps (try_get_room c id)
  unfolding try_get_room
  try_get_room-Consistent id s h =
      continue-Consistent (c.rooms.connected_account s) _ (keep.rooms.connected_account s h)
        (λ account s1 h1. elim (Option-cases (get room_id id s1.connected)) [
          | inl out ↦ rw (out) h1
          | inr (room, there) ↦ rw (there) h1
        ])
