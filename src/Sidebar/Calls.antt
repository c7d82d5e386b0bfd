-- ===== src/Sidebar/Calls.antt =====
-- The calls that the sidebar service serves, as a sequence.
use prose_core_client.Base.{String, ℕ, Option, Bool, List, [], ◌∷◌}
use prose_core_client.Shared.Ids.{UserId, ParticipantId, BareJid, MucId, RoomId}
use prose_core_client.Rooms.Room.{Session}
use prose_core_client.Rooms.Service.{Op, continue, return}
use prose_core_client.Rooms.RoomModels.{Bookmark}
use prose_core_client.Rooms.Service.Requests.{CreateOrEnterRoomRequest}
use prose_core_client.Sidebar.Joins.{
  insert_item_by_creating_or_joining_room, handle_received_message,
}
use prose_core_client.Sidebar.Extend.{extend_items_from_bookmarks, populate_sidebar}
use prose_core_client.Sidebar.Changes.{handle_destroyed_room, handle_removal_from_room}
use prose_core_client.Sidebar.{SidebarServices}
use prose_core_client.Sidebar.Removal.{
  remove_items, handle_removed_items, handle_remote_purge, clear_cache,
}
use prose_core_client.Sidebar.Favorites.{toggle_item_is_favorite, destroy_room}
use prose_core_client.Sidebar.Disconnect.{handle_disconnect, handle_ping_timer_event}

-- A call of the sidebar service
pub data SidebarCall : Type 0 where
  remove : List RoomId → SidebarCall
  were_removed : List BareJid → SidebarCall
  toggle : RoomId → SidebarCall
  destroy : MucId → SidebarCall
  insert_item : CreateOrEnterRoomRequest → SidebarCall
  received_message : RoomId → ParticipantId → SidebarCall
  populate : SidebarCall
  extend : List Bookmark → SidebarCall
  was_destroyed : MucId → Option MucId → SidebarCall
  was_removed_from : MucId → Bool → SidebarCall
  lose_connection ping_timer remote_purge clear : SidebarCall

module _ (c : SidebarServices) (username : UserId → String) (fuel : ℕ) where
  -- The identifier of an item that was inserted is for the caller.
  abbrev pub discard : {A : Type 0} → Op A → Op Unit
  discard o s = continue (o s) (λ a. return tt)

  unfoldable pub call : SidebarCall → Op Unit
  unfolding remove_items handle_removed_items toggle_item_is_favorite handle_disconnect
      handle_ping_timer_event destroy_room handle_remote_purge clear_cache
      insert_item_by_creating_or_joining_room handle_received_message populate_sidebar
      extend_items_from_bookmarks handle_destroyed_room handle_removal_from_room
  call (SidebarCall.remove ids) = remove_items c ids
  call (SidebarCall.were_removed ids) = handle_removed_items c ids
  call (SidebarCall.toggle id) = toggle_item_is_favorite c fuel id
  call SidebarCall.lose_connection = handle_disconnect c fuel
  call SidebarCall.ping_timer = handle_ping_timer_event c fuel
  call (SidebarCall.insert_item request) =
      discard (insert_item_by_creating_or_joining_room c fuel request)
  call (SidebarCall.received_message id from) = handle_received_message c fuel id from
  call SidebarCall.populate = populate_sidebar c username fuel
  call (SidebarCall.extend bookmarks) = extend_items_from_bookmarks c username fuel bookmarks
  call (SidebarCall.was_destroyed id alternate) = handle_destroyed_room c username fuel id alternate
  call (SidebarCall.was_removed_from id is_permanent) =
      handle_removal_from_room c username fuel id is_permanent
  call (SidebarCall.destroy id) = destroy_room c fuel id
  call SidebarCall.remote_purge = handle_remote_purge c
  call SidebarCall.clear = clear_cache c

  -- Calls that fail leave the session as they left it.
  unfoldable pub run_calls : List SidebarCall → Session → Session
  unfolding call
  run_calls [] s = s
  run_calls (x ∷ xs) s = run_calls xs (call x s).1
