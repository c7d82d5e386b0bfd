-- ===== src/Sidebar.antt =====
-- The sidebar (domain/sidebar/services/impls/sidebar_domain_service.rs): which rooms are shown, and
-- the bookmarks that keep them. It stands on the rooms service, whose session it shares.
pub mod Removal
pub mod Favorites
pub mod Disconnect
pub mod Changes
pub mod Joins
pub mod Extend
pub mod Calls
pub mod Consistency
mod Tests
use prose_core_client.Base.{
  String, ℕ, Option, none, some, List, [], ◌∷◌, ◌++◌, Bool, true, false, string_eq,
}
use prose_core_client.Base.Int.{ℤ}
use prose_core_client.Shared.Ids.{BareJid, RoomId}
use prose_core_client.Events.Models.{ClientEvent}
use prose_core_client.Rooms.RoomModels.{
  Bookmark, BookmarkType, RoomSidebarState, room_bookmark_type,
}
use prose_core_client.Rooms.RoomError.{RoomError}
use prose_core_client.Rooms.ConnectedRooms.{get}
use prose_core_client.Rooms.Room.{Room, room_id, Session, BookmarkRequest, details_of, dispatch}
use prose_core_client.Rooms.Service.{Outcome, Op, return, fail, continue, or_else, change, Services}

-- The services that the sidebar calls: those of the rooms and the bookmarks. The JID of a room as
-- text is the jid crate's.
pub record SidebarServices : Type 0 where
  pub rooms : Services
  pub load_bookmarks : Op (List Bookmark)
  pub save : Bookmark → Op Unit
  pub remove : BareJid → Op Unit
  pub to_text : RoomId → String

abbrev pub name_or : Option String → String → String
name_or none other = other
name_or (some name) other = name

unfoldable pub send : BookmarkRequest → Session → Session
send request s = record s { sent = s.sent ++ request ∷ [] }

unfoldable pub sidebar_changed : Session → Session
unfolding dispatch
sidebar_changed = dispatch ClientEvent.sidebar_changed

module _ (c : SidebarServices) where
  abbrev pub bookmark_with : Room → RoomSidebarState → Option String → BookmarkType → Bookmark
  bookmark_with room state name type = record {
    name = name_or name (c.to_text (room_id room));
    jid = room_id room;
    type = type;
    sidebar_state = state;
  }

  -- `Bookmark::try_from`; `none` is its error.
  unfoldable pub bookmark_of : Room → Session → Option Bookmark
  unfolding room_bookmark_type
  bookmark_of room s = elim (room_bookmark_type room.info.type) [
    | none ↦ none
    | some type ↦
        some (bookmark_with room (details_of room s).sidebar_state (details_of room s).name type)
  ]

  -- Errors are only logged.
  unfoldable pub save_bookmark_for_room : Room → Op Unit
  unfolding bookmark_of send
  save_bookmark_for_room room s = elim (bookmark_of room s) [
    | none ↦ return tt s
    | some bookmark ↦ or_else tt (c.save bookmark (send (BookmarkRequest.save_bookmark bookmark) s))
  ]

  unfoldable pub delete_bookmark : BareJid → Op Unit
  unfolding send
  delete_bookmark id s = or_else tt (c.remove id (send (BookmarkRequest.delete_bookmark id) s))

  abbrev pub found_or_fail : Option Room → Op Room
  found_or_fail none = fail (RoomError.anyhow "No room with that id")
  found_or_fail (some room) = return room

  unfoldable pub try_get_room : BareJid → Op Room
  unfolding get
  try_get_room id s =
      continue (c.rooms.connected_account s)
        (λ account s'. found_or_fail (get room_id id s'.connected) s')
