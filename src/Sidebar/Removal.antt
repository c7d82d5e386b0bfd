-- ===== src/Sidebar/Removal.antt =====
-- `remove_items`, `handle_removed_items`, `handle_remote_purge` and `disconnect_and_delete_room`.
pub mod Policy
use prose_core_client.Base.{
  String, ℕ, Option, none, some, List, [], ◌∷◌, Bool, true, false, string_eq,
}
use prose_core_client.Shared.Ids.{BareJid, RoomId, OccupantId, room_bare_jid}
use prose_core_client.Events.Dispatcher.{RoomType}
use prose_core_client.Rooms.RoomModels.{RoomSidebarState}
use prose_core_client.Rooms.ConnectedRooms.{get, delete_all}
use prose_core_client.Rooms.Room.{Room, room_id, Session, set_sidebar_state, occupant_id}
use prose_core_client.Rooms.Service.{Outcome, Op, return, fail, continue, match, or_else, change}
use prose_core_client.Rooms.Service.Connecting.{forget_room}
use prose_core_client.Sidebar.{
  SidebarServices, sidebar_changed, save_bookmark_for_room, delete_bookmark,
}

module _ (c : SidebarServices) where
  -- Errors are only logged.
  abbrev pub exit_if_muc : Option OccupantId → Op Unit
  exit_if_muc none = return tt
  exit_if_muc (some id) = λ s. or_else tt (c.rooms.exit_room id s)

  -- `if let Some(account) = self.ctx.connected_account().ok() { … }`
  unfoldable pub forget_if_connected : BareJid → Op Unit
  unfolding forget_room
  forget_if_connected id s =
      match (c.rooms.connected_account s) (λ account. change (forget_room id)) (λ error. return tt)

  unfoldable pub leave_channel : Room → Op Unit
  unfolding forget_if_connected occupant_id room_bare_jid
  leave_channel room s =
      continue (forget_if_connected (room_bare_jid (room_id room)) s)
        (λ u. exit_if_muc (occupant_id room.info))

  unfoldable pub disconnect_of_type : RoomType → Room → Op Unit
  unfolding leave_channel set_sidebar_state forget_if_connected room_bare_jid
  disconnect_of_type RoomType.unknown room = return tt
  disconnect_of_type RoomType.direct_message room =
      forget_if_connected (room_bare_jid (room_id room))
  disconnect_of_type RoomType.group room =
      change (set_sidebar_state room RoomSidebarState.not_in_sidebar)
  disconnect_of_type RoomType.private_channel room = leave_channel room
  disconnect_of_type RoomType.public_channel room = leave_channel room
  disconnect_of_type RoomType.generic room = leave_channel room

  unfoldable pub disconnect_and_delete_room : Room → Op Unit
  unfolding disconnect_of_type
  disconnect_and_delete_room room = disconnect_of_type room.info.type room

  unfoldable pub hide : Room → Op Unit
  unfolding set_sidebar_state save_bookmark_for_room
  hide room s =
      save_bookmark_for_room c room (set_sidebar_state room RoomSidebarState.not_in_sidebar s)

  -- What becomes of the bookmark
  unfoldable pub forget_of_type : RoomType → RoomId → Room → Op Unit
  unfolding hide delete_bookmark room_bare_jid
  forget_of_type RoomType.unknown id room = return tt
  forget_of_type RoomType.group id room = hide room
  forget_of_type RoomType.private_channel id room = hide room
  forget_of_type RoomType.direct_message id room = delete_bookmark c (room_bare_jid id)
  forget_of_type RoomType.public_channel id room = delete_bookmark c (room_bare_jid id)
  forget_of_type RoomType.generic id room = delete_bookmark c (room_bare_jid id)

  unfoldable pub remove_item : RoomId → Room → Op Unit
  unfolding disconnect_and_delete_room forget_of_type
  remove_item id room s =
      continue (disconnect_and_delete_room room s) (λ u. forget_of_type room.info.type id room)

  -- The loop of `remove_items`, which returns at the first room that is not connected
  unfoldable pub remove_loop : List RoomId → Op Unit
  unfolding get room_bare_jid remove_item sidebar_changed
  remove_loop [] s = change sidebar_changed s
  remove_loop (id ∷ ids) s = elim (get room_id (room_bare_jid id) s.connected) [
    | none ↦ return tt s
    | some room ↦ continue (remove_item id room s) (λ u. remove_loop ids)
  ]

  unfoldable pub remove_items : List RoomId → Op Unit
  unfolding remove_loop
  remove_items ids s = continue (c.rooms.connected_account s) (λ account. remove_loop ids)

  -- The loop of `handle_removed_items`
  unfoldable pub removed_loop : List BareJid → Op Unit
  unfolding get disconnect_and_delete_room sidebar_changed
  removed_loop [] s = change sidebar_changed s
  removed_loop (id ∷ ids) s = elim (get room_id id s.connected) [
    | none ↦ removed_loop ids s
    | some room ↦ continue (disconnect_and_delete_room room s) (λ u. removed_loop ids)
  ]

  unfoldable pub handle_removed_items : List BareJid → Op Unit
  unfolding removed_loop
  handle_removed_items ids s = continue (c.rooms.connected_account s) (λ account. removed_loop ids)

  unfoldable pub exit_or_fail : Option OccupantId → Op Unit
  exit_or_fail none = return tt
  exit_or_fail (some id) = c.rooms.exit_room id

  -- The loop of `handle_remote_purge`, which an error ends
  unfoldable pub exit_all : List Room → Op Unit
  unfolding occupant_id sidebar_changed exit_or_fail
  exit_all [] = change sidebar_changed
  exit_all (room ∷ rooms) =
      λ s. continue (exit_or_fail (occupant_id room.info) s) (λ u. exit_all rooms)

  unfoldable pub handle_remote_purge : Op Unit
  unfolding exit_all delete_all
  handle_remote_purge s = continue (c.rooms.connected_account s) (λ account s'.
      exit_all (delete_all room_id s'.connected).0
        (record s' { connected = (delete_all room_id s'.connected).1 }))

  unfoldable pub clear_cache : Op Unit
  unfolding delete_all
  clear_cache s =
      continue (c.rooms.connected_account s)
        (λ account. change (λ s'. record s' { connected = (delete_all room_id s'.connected).1 }))
