-- ===== src/Sidebar/Favorites.antt =====
-- `toggle_item_is_favorite`, `rename_item`, `reconfigure_item_with_spec` and `destroy_room`.
pub mod Toggle
use prose_core_client.Base.{
  String, ℕ, Option, none, some, Bool, true, false, ◌==◌, string_eq, option_eq,
}
use prose_core_client.Shared.Ids.{BareJid, MucId, RoomId, room_bare_jid, room_muc_id}
use prose_core_client.Rooms.RoomModels.{RoomSidebarState, RoomSpec}
use prose_core_client.Rooms.RoomError.{RoomError, is_gone_err}
use prose_core_client.Rooms.ConnectedRooms.{get}
use prose_core_client.Rooms.Room.{Room, room_id, Session, details_of, set_sidebar_state, set_name}
use prose_core_client.Rooms.Service.{Outcome, Op, return, fail, continue, match, change}
use prose_core_client.Rooms.Service.Connecting.{forget_room}
use prose_core_client.Rooms.Service.Configure.{rename_room, reconfigure_room_with_spec}
use prose_core_client.Sidebar.{
  SidebarServices, name_or, sidebar_changed, save_bookmark_for_room, delete_bookmark, try_get_room,
}

unfoldable pub toggled : RoomSidebarState → Option RoomSidebarState
toggled RoomSidebarState.not_in_sidebar = none
toggled RoomSidebarState.in_sidebar = some RoomSidebarState.favorite
toggled RoomSidebarState.favorite = some RoomSidebarState.in_sidebar

module _ (c : SidebarServices) (fuel : ℕ) where
  -- The bookmark is saved and the clients are told.
  unfoldable pub save_and_notify : Room → Op Unit
  unfolding save_bookmark_for_room sidebar_changed
  save_and_notify room s = continue (save_bookmark_for_room c room s) (λ u. change sidebar_changed)

  unfoldable pub apply_toggle : Room → Option RoomSidebarState → Op Unit
  unfolding save_and_notify set_sidebar_state
  apply_toggle room none = return tt
  apply_toggle room (some state) = λ s. save_and_notify room (set_sidebar_state room state s)

  unfoldable pub toggle_item_is_favorite : RoomId → Op Unit
  unfolding try_get_room apply_toggle toggled room_bare_jid
  toggle_item_is_favorite id s =
      continue (try_get_room c (room_bare_jid id) s)
        (λ room s'. apply_toggle room (toggled (details_of room s').sidebar_state) s')

  -- The name is set at once, and set back when the server refuses it.
  abbrev pub apply_name : MucId → String → Room → Op Unit
  unfolding set_name rename_room save_and_notify
  apply_name id name room s =
      let current_name = (details_of room s).name in
      elim (c.rooms.to_lowercase (name_or current_name "") == c.rooms.to_lowercase name) [
        | true ↦ return tt s
        | false ↦
            match (rename_room c.rooms fuel id name (set_name room (some name) s))
              (λ u. save_and_notify room) (λ error s'. fail error (set_name room current_name s'))
      ]

  unfoldable pub rename_item : MucId → String → Op Unit
  unfolding try_get_room apply_name
  rename_item id name s = continue (try_get_room c id s) (apply_name id name)

  abbrev pub drop_old_bookmark : MucId → Option MucId → Op Unit
  unfolding delete_bookmark
  drop_old_bookmark id new_id s = elim (some id == new_id) [
    | true ↦ return tt s
    | false ↦ delete_bookmark c id s
  ]

  unfoldable pub reconfigure_item_with_spec : MucId → RoomSpec → String → Op Unit
  unfolding reconfigure_room_with_spec sidebar_changed drop_old_bookmark room_muc_id
      save_bookmark_for_room
  reconfigure_item_with_spec id spec new_name s =
      continue (reconfigure_room_with_spec c.rooms fuel id spec new_name s) (λ room s1.
        continue (drop_old_bookmark id (room_muc_id (room_id room)) (sidebar_changed s1))
          (λ u. save_bookmark_for_room c room))

  unfoldable pub forget_item : MucId → Op Unit
  unfolding forget_room delete_bookmark sidebar_changed
  forget_item id s =
      continue (delete_bookmark c id (forget_room id s)) (λ u. change sidebar_changed)

  -- A room that is gone already is forgotten like one that was destroyed.
  unfoldable pub destroy_connected : MucId → Option Room → Op Unit
  unfolding forget_item is_gone_err
  destroy_connected id none = return tt
  destroy_connected id (some room) = λ s.
      match (c.rooms.destroy_room id none s) (λ u. forget_item id)
        (λ error s'. elim (is_gone_err c.rooms.from_iri error) [
          | true ↦ forget_item id s'
          | false ↦ fail error s'
        ])

  unfoldable pub destroy_room : MucId → Op Unit
  unfolding get destroy_connected
  destroy_room id s =
      continue (c.rooms.connected_account s)
        (λ account s'. destroy_connected id (get room_id id s'.connected) s')
