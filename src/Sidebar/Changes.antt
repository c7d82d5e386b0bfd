-- ===== src/Sidebar/Changes.antt =====
-- `handle_destroyed_room`, `handle_removal_from_room` and `handle_changed_room_config`. The two
-- futures that `handle_destroyed_room` joins are run one after the other.
use prose_core_client.Base.{
  String, ℕ, Option, none, some, Bool, true, false, not, ◌&&◌, ◌==◌, string_eq, option_eq,
}
use prose_core_client.Base.Result.{ok, err}
use prose_core_client.Shared.Ids.{MucId, RoomId, UserId}
use prose_core_client.Events.Dispatcher.{RoomType}
use prose_core_client.Rooms.RoomModels.{RoomState, BookmarkType, room_bookmark_type, is_connecting}
use prose_core_client.Rooms.ConnectedRooms.{get, set, delete}
use prose_core_client.Rooms.Room.{Room, room_id, Session, details_of, set_state, pending_room}
use prose_core_client.Rooms.Service.{Outcome, Op, return, continue, match, change, build_nickname}
use prose_core_client.Rooms.Service.Requests.{CreateOrEnterRoomRequest, system_initiated}
use prose_core_client.Rooms.Service.Enter.{create_or_join_room}
use prose_core_client.Rooms.Service.Configure.{reevaluate_room_spec, room_type_beq}
use prose_core_client.Sidebar.{
  SidebarServices, name_or, sidebar_changed, save_bookmark_for_room, delete_bookmark,
}

-- `_ = connected_rooms_repo.set(account, room)`
unfoldable pub set_if_free : Room × Session → Session
unfolding set
set_if_free (room, s) = elim (set room_id room s.connected) [
  | ok rooms ↦ record s { connected = rooms }
  | err e ↦ s
]

module _ (c : SidebarServices) (username : UserId → String) (fuel : ℕ) where
  unfoldable pub mark_destroyed : Option Room → Session → Session
  unfolding set_state sidebar_changed
  mark_destroyed none s = s
  mark_destroyed (some room) s =
      sidebar_changed
        (set_state room (RoomState.disconnected (some "This room has been destroyed.") false) s)

  unfoldable pub save_joined : Outcome Room × Session → Outcome Unit × Session
  unfolding save_bookmark_for_room
  save_joined o = match o (save_bookmark_for_room c) (λ error. return tt)

  unfoldable pub insert_alternate : BookmarkType → Room → MucId → UserId → Op Unit
  unfolding pending_room build_nickname set_if_free
  insert_alternate type room alternate user s =
      let d = details_of room s in
      return tt (
        set_if_free (
          pending_room username
            (record {
              name = name_or d.name (c.to_text (room_id room));
              jid = RoomId.muc alternate;
              type = type;
              sidebar_state = d.sidebar_state;
            })
            (build_nickname c.rooms none user) s))

  unfoldable pub join_alternate : MucId → Room → MucId → Op Unit
  unfolding sidebar_changed delete_bookmark save_joined create_or_join_room system_initiated
  join_alternate id room alternate s = continue (delete_bookmark c id (sidebar_changed s)) (λ u s1.
      continue
        (save_joined (
          create_or_join_room c.rooms fuel
            (CreateOrEnterRoomRequest.join_room alternate none system_initiated false)
            (details_of room s1).sidebar_state s1))
        (λ u. change sidebar_changed))

  -- `none` is the panic of `BookmarkType::from` on a room that is still connecting.
  unfoldable pub replace_destroyed : MucId → MucId → Room → Option BookmarkType → Op Unit
  unfolding insert_alternate join_alternate
  replace_destroyed id alternate room none = λ s. (Outcome.panicked, s)
  replace_destroyed id alternate room (some type) = λ s.
      continue (c.rooms.connected_id s) (λ user s1.
        continue (insert_alternate type room alternate user.bare s1)
          (λ u. join_alternate id room alternate))

  -- When the alternate room is connected already, its bookmark is the one that is deleted.
  unfoldable pub move_to : MucId → MucId → Option Room → Op Unit
  unfolding get delete_bookmark replace_destroyed room_bookmark_type
  move_to id alternate none = return tt
  move_to id alternate (some room) = λ s. elim (get room_id alternate s.connected) [
    | some existing ↦ delete_bookmark c alternate s
    | none ↦ replace_destroyed id alternate room (room_bookmark_type room.info.type) s
  ]

  unfoldable pub destroyed_with : MucId → Option MucId → Op Unit
  unfolding get delete mark_destroyed move_to
  destroyed_with id none s = return tt (mark_destroyed (get room_id id s.connected) s)
  destroyed_with id (some alternate) s =
      move_to id alternate (delete room_id id s.connected).0
        (record s { connected = (delete room_id id s.connected).1 })

  unfoldable pub handle_destroyed_room : MucId → Option MucId → Op Unit
  unfolding destroyed_with
  handle_destroyed_room id alternate s =
      continue (c.rooms.connected_account s) (λ account. destroyed_with id alternate)

  unfoldable pub removal_text : Bool → String
  removal_text true = "You've been permanently removed from this room."
  removal_text false = "You've been temporarily removed from this room."

  unfoldable pub mark_removed : Bool → Option Room → Session → Session
  unfolding set_state sidebar_changed removal_text
  mark_removed is_permanent none s = s
  mark_removed is_permanent (some room) s = sidebar_changed (
      set_state room (RoomState.disconnected (some (removal_text is_permanent)) (not is_permanent))
        s)

  unfoldable pub handle_removal_from_room : MucId → Bool → Op Unit
  unfolding get mark_removed
  handle_removal_from_room id is_permanent s =
      continue (c.rooms.connected_account s)
        (λ account s'. return tt (mark_removed is_permanent (get room_id id s'.connected) s'))

  unfoldable pub save_if_changed : Option String → RoomType → Room → Op Unit
  unfolding save_bookmark_for_room sidebar_changed
  save_if_changed former_name former_type room s =
      elim ((details_of room s).name == former_name && room_type_beq room.info.type former_type) [
        | true ↦ return tt s
        | false ↦ continue (save_bookmark_for_room c room s) (λ u. change sidebar_changed)
      ]

  unfoldable pub reevaluate : MucId → Option Room → Op Unit
  unfolding reevaluate_room_spec save_if_changed
  reevaluate id none = return tt
  reevaluate id (some room) = λ s. elim (is_connecting (details_of room s).state) [
    | true ↦ return tt s
    | false ↦
        continue (reevaluate_room_spec c.rooms fuel id s)
          (save_if_changed (details_of room s).name room.info.type)
  ]

  unfoldable pub handle_changed_room_config : MucId → Op Unit
  unfolding get reevaluate
  handle_changed_room_config id s =
      continue (c.rooms.connected_account s)
        (λ account s'. reevaluate id (get room_id id s'.connected) s')
