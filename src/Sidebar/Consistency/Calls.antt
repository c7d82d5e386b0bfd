-- ===== src/Sidebar/Consistency/Calls.antt =====
-- Consistent sessions under sequences of calls of sidebar_domain_service.rs.
use prose_core_client.Base.{
  String, ℕ, Option, none, some, List, [], ◌∷◌, true, inl, inr, Bool-cases,
}
use prose_core_client.Shared.Ids.{UserId, MucId, room_bare_jid, room_muc_id}
use prose_core_client.Rooms.RoomModels.{RoomState, RoomSidebarState}
use prose_core_client.Rooms.ConnectedRooms.{get, get_all, delete_all}
use prose_core_client.Rooms.Room.{
  Room, room_id, Session, details_of, dispatch, set_state, set_sidebar_state,
}
use prose_core_client.Rooms.Service.{change}
use prose_core_client.Rooms.Service.Reconnect.{reconnect_room_if_needed}
use prose_core_client.Rooms.Service.Consistent.{
  Consistent, Keeps, continue-Consistent, match-Consistent,
}
use prose_core_client.Rooms.Service.Consistent.Steps.{forget_room-Consistent}
use prose_core_client.Rooms.Service.Consistent.Reconnecting.{reconnect_room_if_needed-Consistent}
use prose_core_client.Sidebar.{
  SidebarServices, sidebar_changed, save_bookmark_for_room, delete_bookmark, try_get_room,
}
use prose_core_client.Sidebar.Calls.{SidebarCall, call, run_calls}
use prose_core_client.Rooms.RoomError.{is_gone_err}
use prose_core_client.Rooms.Service.Connecting.{forget_room}
use prose_core_client.Sidebar.Removal.{
  handle_remote_purge, clear_cache, remove_items, handle_removed_items,
}
use prose_core_client.Sidebar.Favorites.{
  save_and_notify, apply_toggle, toggle_item_is_favorite, forget_item, destroy_connected,
  destroy_room,
}
use prose_core_client.Sidebar.Disconnect.{
  disconnect_all, handle_disconnect, room_state_beq, notify_unless_same, ping, ping_all,
  handle_ping_timer_event,
}
use prose_core_client.Sidebar.Joins.{insert_item_by_creating_or_joining_room}
use prose_core_client.Sidebar.Consistency.Joins.{
  insert_item-Consistent, handle_received_message-Consistent,
}
use prose_core_client.Sidebar.Consistency.Extending.{extend-Consistent, populate_sidebar-Consistent}
use prose_core_client.Sidebar.Consistency.Destroyed.{
  handle_destroyed_room-Consistent, handle_removal-Consistent,
}
use prose_core_client.Sidebar.Consistency.{
  SidebarKeeping, try_get_room-Consistent, save_bookmark-Consistent, delete_bookmark-Consistent,
  remove_loop-Consistent, removed_loop-Consistent, exit_all-Consistent, cleared-Consistent,
}

module _ (c : SidebarServices) (keep : SidebarKeeping c) where
  save_and_notify-Consistent : (fuel : ℕ) (room : Room) → Keeps (save_and_notify c fuel room)
  unfolding save_and_notify sidebar_changed dispatch
  save_and_notify-Consistent fuel room s h =
      continue-Consistent (save_bookmark_for_room c room s) (λ u. change sidebar_changed)
        (save_bookmark-Consistent c keep room s h) (λ u s1 h1. h1)

  apply_toggle-Consistent :
      (fuel : ℕ) (room : Room) (state : Option RoomSidebarState)
      → Keeps (apply_toggle c fuel room state)
  unfolding apply_toggle set_sidebar_state
  apply_toggle-Consistent fuel room none s h = h
  apply_toggle-Consistent fuel room (some state) s h =
      save_and_notify-Consistent fuel room (set_sidebar_state room state s) h

  disconnect_all-Consistent :
      (rooms : List Room) (s : Session) → Consistent s → Consistent (disconnect_all rooms s)
  unfolding disconnect_all set_state
  disconnect_all-Consistent [] s h = h
  disconnect_all-Consistent (room ∷ rooms) s h =
      disconnect_all-Consistent rooms (set_state room (RoomState.disconnected none true) s) h

  notify_unless_same-Consistent :
      (fuel : ℕ) (state : RoomState) (room : Room) → Keeps (notify_unless_same c fuel state room)
  unfolding notify_unless_same sidebar_changed dispatch
  notify_unless_same-Consistent fuel state room s h =
      elim (Bool-cases (room_state_beq (details_of room s).state state)) [
        | inl same ↦ rw (notify_unless_same, same) h
        | inr other ↦ rw (notify_unless_same, other) h
      ]

  ping-Consistent : (fuel : ℕ) (room : Room) (id : Option MucId) → Keeps (ping c fuel room id)
  unfolding ping
  ping-Consistent fuel room none s h = h
  ping-Consistent fuel room (some id) s h =
      let state = (details_of room s).state in
      match-Consistent (reconnect_room_if_needed c.rooms fuel id s)
        (λ u. notify_unless_same c fuel state room) (λ e. notify_unless_same c fuel state room)
        (reconnect_room_if_needed-Consistent c.rooms keep.rooms fuel id s h)
        (λ u. notify_unless_same-Consistent fuel state room)
        (λ e. notify_unless_same-Consistent fuel state room)

  ping_all-Consistent : (fuel : ℕ) (rooms : List Room) → Keeps (ping_all c fuel rooms)
  unfolding ping_all
  ping_all-Consistent fuel [] s h = h
  ping_all-Consistent fuel (room ∷ rooms) s h =
      continue-Consistent (ping c fuel room (room_muc_id (room_id room)) s) _
        (ping-Consistent fuel room (room_muc_id (room_id room)) s h)
        (λ u. ping_all-Consistent fuel rooms)

  forget_item-Consistent : (fuel : ℕ) (id : MucId) → Keeps (forget_item c fuel id)
  unfolding forget_item sidebar_changed dispatch
  forget_item-Consistent fuel id s h =
      continue-Consistent (delete_bookmark c id (forget_room id s)) _
        (delete_bookmark-Consistent c keep id (forget_room id s) (forget_room-Consistent id s h))
        (λ u s1 h1. h1)

  destroy_connected-Consistent :
      (fuel : ℕ) (id : MucId) (room : Option Room) → Keeps (destroy_connected c fuel id room)
  unfolding destroy_connected
  destroy_connected-Consistent fuel id none s h = h
  destroy_connected-Consistent fuel id (some room) s h =
      match-Consistent (c.rooms.destroy_room id none s) _ _ (keep.rooms.destroy_room id none s h)
        (λ u. forget_item-Consistent fuel id)
        (λ e s1 h1. elim (Bool-cases (is_gone_err c.rooms.from_iri e)) [
          | inl gone ↦ rw (gone) (forget_item-Consistent fuel id s1 h1)
          | inr other ↦ rw (other) h1
        ])

  call-Consistent :
      (username : UserId → String) (fuel : ℕ) (x : SidebarCall) → Keeps (call c username fuel x)
  unfolding call remove_items handle_removed_items toggle_item_is_favorite handle_disconnect
      handle_ping_timer_event destroy_room handle_remote_purge clear_cache delete_all
  call-Consistent username fuel (SidebarCall.remove ids) s h =
      continue-Consistent (c.rooms.connected_account s) _ (keep.rooms.connected_account s h)
        (λ account. remove_loop-Consistent c keep ids)
  call-Consistent username fuel (SidebarCall.were_removed ids) s h =
      continue-Consistent (c.rooms.connected_account s) _ (keep.rooms.connected_account s h)
        (λ account. removed_loop-Consistent c keep ids)
  call-Consistent username fuel (SidebarCall.toggle id) s h =
      continue-Consistent (try_get_room c (room_bare_jid id) s) _
        (try_get_room-Consistent c keep (room_bare_jid id) s h)
        (λ room s1. apply_toggle-Consistent fuel room _ s1)
  call-Consistent username fuel SidebarCall.lose_connection s h =
      match-Consistent (c.rooms.connected_account s) _ _ (keep.rooms.connected_account s h)
        (λ account s1. disconnect_all-Consistent (get_all room_id s1.connected) s1) (λ e s1 h1. h1)
  call-Consistent username fuel SidebarCall.ping_timer s h =
      continue-Consistent (c.rooms.connected_account s) _ (keep.rooms.connected_account s h)
        (λ account s1. ping_all-Consistent fuel (get_all room_id s1.connected) s1)
  call-Consistent username fuel (SidebarCall.destroy id) s h =
      continue-Consistent (c.rooms.connected_account s) _ (keep.rooms.connected_account s h)
        (λ account s1. destroy_connected-Consistent fuel id (get room_id id s1.connected) s1)
  call-Consistent username fuel SidebarCall.remote_purge s h =
      continue-Consistent (c.rooms.connected_account s) _ (keep.rooms.connected_account s h)
        (λ account s1 h1.
          exit_all-Consistent c keep (get_all room_id s1.connected) (record s1 { connected = [] })
            (cleared-Consistent s1))
  call-Consistent username fuel SidebarCall.clear s h =
      continue-Consistent (c.rooms.connected_account s) _ (keep.rooms.connected_account s h)
        (λ account s1 h1. cleared-Consistent s1)
  call-Consistent username fuel (SidebarCall.insert_item request) s h =
      continue-Consistent (insert_item_by_creating_or_joining_room c fuel request s) _
        (insert_item-Consistent c keep fuel request s h) (λ id s1 h1. h1)
  call-Consistent username fuel (SidebarCall.received_message id from) s h =
      handle_received_message-Consistent c keep fuel id from s h
  call-Consistent username fuel SidebarCall.populate s h =
      populate_sidebar-Consistent c keep username fuel s h
  call-Consistent username fuel (SidebarCall.extend bs) s h =
      extend-Consistent c keep username fuel bs s h
  call-Consistent username fuel (SidebarCall.was_destroyed id alternate) s h =
      handle_destroyed_room-Consistent c keep username fuel id alternate s h
  call-Consistent username fuel (SidebarCall.was_removed_from id is_permanent) s h =
      handle_removal-Consistent c keep username fuel id is_permanent s h

-- Any sequence of calls keeps a session consistent, when the services that are called and the events
-- that arrive meanwhile do: every connected room stands at its own bare JID, was made by the client,
-- and shares its details with no other connected room. The calls insert items by creating or joining
-- rooms, receive messages, populate and extend the sidebar from bookmarks (with pending rooms that are
-- then joined), replace destroyed rooms by their alternates, handle removals from rooms, remove items,
-- toggle favorites, destroy rooms, handle lost connections, pings and purged bookmarks, and clear the
-- cache; they may fail.
pub run_calls-Consistent :
    (c : SidebarServices) (username : UserId → String) (fuel : ℕ) (calls : List SidebarCall)
    (s : Session)
    → SidebarKeeping c
    → Consistent s
    → Consistent (run_calls c username fuel calls s)
unfolding run_calls
run_calls-Consistent c username fuel [] s keep h = h
run_calls-Consistent c username fuel (x ∷ xs) s keep h =
    run_calls-Consistent c username fuel xs (call c username fuel x s).1 keep
      (call-Consistent c keep username fuel x s h)
