-- ===== src/Sidebar/Favorites/Toggle.antt =====
-- Marking a room as a favorite, and taking that back.
use prose_core_client.Base.{◌≡◌, ◌∙◌, refl, ap, arith, ℕ, some, [], ◌∷◌, ◌++◌}
use prose_core_client.Shared.Ids.{UserId, RoomId, room_bare_jid}
use prose_core_client.Rooms.RoomModels.{
  RoomSidebarState, RoomDetails, BookmarkType, room_bookmark_type,
}
use prose_core_client.Rooms.ConnectedRooms.{get}
use prose_core_client.Rooms.Room.{
  Room, room_id, Session, BookmarkRequest, details_of, modify, set_sidebar_state, dispatch,
}
use prose_core_client.Rooms.Room.Changes.{details_of-modify_same}
use prose_core_client.Rooms.Service.{Outcome}
use prose_core_client.Sidebar.{SidebarServices, send, sidebar_changed, bookmark_with, try_get_room}
use prose_core_client.Sidebar.Removal.Policy.{Quiet, save_bookmark-quiet}
use prose_core_client.Sidebar.Favorites.{
  toggled, apply_toggle, save_and_notify, toggle_item_is_favorite,
}

abbrev pub with_state : RoomSidebarState → RoomDetails → RoomDetails
with_state state d = record d { sidebar_state = state }

-- The session after the bookmark of a room was saved with a new state
abbrev pub saved_with : SidebarServices → Room → BookmarkType → RoomSidebarState → Session → Session
unfolding send sidebar_changed set_sidebar_state
saved_with c r type state s = sidebar_changed (
    send (BookmarkRequest.save_bookmark (bookmark_with c r state (details_of r s).name type))
      (set_sidebar_state r state s))

module _ (c : SidebarServices) (fuel : ℕ) (account : UserId) (quiet : Quiet c)
    (connected : (s : Session) → c.rooms.connected_account s ≡ (Outcome.done account, s))
    (id : RoomId) (r : Room) (type : BookmarkType)
    (known : room_bookmark_type r.info.type ≡ some type) where
  apply_toggle-some :
      (state : RoomSidebarState) (s : Session)
      → apply_toggle c fuel r (some state) s ≡ (Outcome.done tt, saved_with c r type state s)
  unfolding apply_toggle save_and_notify set_sidebar_state saved_with
  apply_toggle-some state s =
      rw (save_bookmark-quiet c quiet r type (set_sidebar_state r state s) known) (
        ap
          (λ d. (
            Outcome.done tt,
            sidebar_changed (
                send (BookmarkRequest.save_bookmark (bookmark_with c r d.sidebar_state d.name type))
                  (set_sidebar_state r state s)),
          ))
          (details_of-modify_same r (with_state state) s))

  toggle-found :
      (state : RoomSidebarState) (s : Session)
      → get room_id (room_bare_jid id) s.connected ≡ some r
      → toggled (details_of r s).sidebar_state ≡ some state
      → toggle_item_is_favorite c fuel id s ≡ (Outcome.done tt, saved_with c r type state s)
  unfolding toggle_item_is_favorite try_get_room
  toggle-found state s there next = rw (connected s, there, next) (apply_toggle-some state s)

  details_of-saved_with :
      (state : RoomSidebarState) (s : Session)
      → details_of r (saved_with c r type state s) ≡ with_state state (details_of r s)
  unfolding saved_with send sidebar_changed set_sidebar_state dispatch
  details_of-saved_with state s = details_of-modify_same r (with_state state) s

  toggled_back :
      (old state : RoomSidebarState) → toggled old ≡ some state → toggled state ≡ some old
  unfolding toggled
  toggled_back RoomSidebarState.not_in_sidebar state e = ground (arith, e)
  toggled_back RoomSidebarState.in_sidebar RoomSidebarState.favorite e = refl
  toggled_back RoomSidebarState.in_sidebar RoomSidebarState.in_sidebar e = ground (arith, e)
  toggled_back RoomSidebarState.in_sidebar RoomSidebarState.not_in_sidebar e = ground (arith, e)
  toggled_back RoomSidebarState.favorite RoomSidebarState.in_sidebar e = refl
  toggled_back RoomSidebarState.favorite RoomSidebarState.favorite e = ground (arith, e)
  toggled_back RoomSidebarState.favorite RoomSidebarState.not_in_sidebar e = ground (arith, e)

  -- The second toggle
  toggle-again :
      (state : RoomSidebarState) (s : Session)
      → get room_id (room_bare_jid id) s.connected ≡ some r
      → toggled (details_of r s).sidebar_state ≡ some state
      → toggle_item_is_favorite c fuel id (saved_with c r type state s) ≡ (
        Outcome.done tt,
        saved_with c r type (details_of r s).sidebar_state (saved_with c r type state s),
      )
  unfolding saved_with send sidebar_changed set_sidebar_state modify dispatch
  toggle-again state s there next =
      toggle-found (details_of r s).sidebar_state (saved_with c r type state s) there (
        ap (λ d. toggled d.sidebar_state) (details_of-saved_with state s)
        ∙ toggled_back (details_of r s).sidebar_state state next)

-- With an account, and while the bookmarks answer or fail without touching the session: toggling a
-- room that is shown in the sidebar saves its bookmark with the other state, and toggling it again
-- saves the bookmark with the first state and leaves the room's details as they were.
pub toggle_twice :
    (c : SidebarServices) (fuel : ℕ) (account : UserId) (id : RoomId) (r : Room)
    (type : BookmarkType) (state : RoomSidebarState) (s : Session)
    → Quiet c
    → ((s : Session) → c.rooms.connected_account s ≡ (Outcome.done account, s))
    → room_bookmark_type r.info.type ≡ some type
    → get room_id (room_bare_jid id) s.connected ≡ some r
    → toggled (details_of r s).sidebar_state ≡ some state
    → (details_of r (toggle_item_is_favorite c fuel id (toggle_item_is_favorite c fuel id s).1).1
        ≡ details_of r s)
      × ((toggle_item_is_favorite c fuel id (toggle_item_is_favorite c fuel id s).1).1.sent
          ≡ (s.sent
              ++ BookmarkRequest.save_bookmark (bookmark_with c r state (details_of r s).name type)
                ∷ [])
            ++ BookmarkRequest.save_bookmark
                (bookmark_with c r (details_of r s).sidebar_state (details_of r s).name type)
              ∷ [])
unfolding saved_with send sidebar_changed set_sidebar_state modify dispatch
toggle_twice c fuel account id r type state s quiet connected known there next =
    rw
      (
        toggle-found c fuel account quiet connected id r type known state s there next,
        toggle-again c fuel account quiet connected id r type known state s there next,
      )
      (
        details_of-saved_with c fuel account quiet connected id r type known
              (details_of r s).sidebar_state (saved_with c r type state s)
            ∙ ap (with_state (details_of r s).sidebar_state)
                (details_of-saved_with c fuel account quiet connected id r type known state s),
        ap
            (λ d.
              (s.sent
                ++ BookmarkRequest.save_bookmark
                    (bookmark_with c r state (details_of r s).name type)
                  ∷ [])
              ++ BookmarkRequest.save_bookmark
                  (bookmark_with c r (details_of r s).sidebar_state d.name type)
                ∷ [])
            (details_of-saved_with c fuel account quiet connected id r type known state s),
      )
