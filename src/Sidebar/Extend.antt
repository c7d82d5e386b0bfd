-- ===== src/Sidebar/Extend.antt =====
-- `populate_sidebar`, `extend_items_from_bookmarks` and `extend_items_from_bookmarks_with_context`.
-- The futures that the code joins are run one after the other.
use prose_core_client.Base.{
  String, ℕ, Option, none, some, List, [], ◌∷◌, ◌++◌, Bool, true, false, not, ◌&&◌, ◌||◌, ◌==◌,
  find, string_eq, option_eq, if◌then◌else◌,
}
use prose_core_client.Shared.Ids.{RoomId, UserId, room_bare_jid, room_id_beq}
use prose_core_client.Rooms.RoomModels.{
  RoomSidebarState, Bookmark, BookmarkType, is_in_sidebar, is_disconnected, room_bookmark_type,
}
use prose_core_client.Rooms.RoomError.{RoomError, is_gone_err, is_registration_required_err}
use prose_core_client.Rooms.ConnectedRooms.{get_all}
use prose_core_client.Rooms.Room.{
  Room, room_id, Session, details_of, set_sidebar_state, pending_room,
}
use prose_core_client.Rooms.Service.{Outcome, Op, return, continue, match, build_nickname}
use prose_core_client.Rooms.Service.Requests.{system_initiated}
use prose_core_client.Rooms.Service.Connecting.{forget_room}
use prose_core_client.Sidebar.{
  SidebarServices, sidebar_changed, save_bookmark_for_room, delete_bookmark,
}
use prose_core_client.Sidebar.Changes.{set_if_free}
use prose_core_client.Sidebar.Joins.{needs_join, join_room_identified_by_bookmark_if_needed}

-- `sidebar_state == other`
unfoldable pub sidebar_state_beq : RoomSidebarState → RoomSidebarState → Bool
sidebar_state_beq RoomSidebarState.not_in_sidebar RoomSidebarState.not_in_sidebar = true
sidebar_state_beq RoomSidebarState.in_sidebar RoomSidebarState.in_sidebar = true
sidebar_state_beq RoomSidebarState.favorite RoomSidebarState.favorite = true
sidebar_state_beq _ _ = false

-- `bookmark.type == other`
unfoldable pub same_type : BookmarkType → BookmarkType → Bool
same_type BookmarkType.direct_message BookmarkType.direct_message = true
same_type BookmarkType.group BookmarkType.group = true
same_type BookmarkType.private_channel BookmarkType.private_channel = true
same_type BookmarkType.public_channel BookmarkType.public_channel = true
same_type BookmarkType.generic BookmarkType.generic = true
same_type _ _ = false

unfoldable pub is_live : Session → Bookmark → Room → Bool
unfolding is_disconnected
is_live s bookmark room =
    room_id_beq (room_id room) bookmark.jid && not (is_disconnected (details_of room s).state)

-- The room that is connected already, among those at the start
unfoldable pub find_live : List Room → Bookmark → Session → Option Room
unfolding is_live
find_live rooms bookmark s = find (is_live s bookmark) rooms

unfoldable pub notify_if : Bool → Session → Session
unfolding sidebar_changed
notify_if true s = sidebar_changed s
notify_if false s = s

-- What is done about a bookmark in the end
pub data Update : Type 0 where
  save_room : Room → Update
  move_bookmark : Room → RoomId → Update
  drop_room : RoomId → Update

module _ (c : SidebarServices) (username : UserId → String) (fuel : ℕ) where
  unfoldable pub insert_pending : String → Bookmark → Session → Session
  unfolding needs_join pending_room set_if_free
  insert_pending nickname bookmark s =
      elim (needs_join c fuel bookmark.type bookmark.sidebar_state) [
        | true ↦ set_if_free (pending_room username bookmark nickname s)
        | false ↦ s
      ]

  -- The first loop, and whether a bookmark was not skipped
  unfoldable pub insert_all : String → List Room → List Bookmark → Session → Bool × Session
  unfolding find_live insert_pending
  insert_all nickname rooms [] s = (false, s)
  insert_all nickname rooms (b ∷ bs) s = elim (find_live rooms b s) [
    | some room ↦ insert_all nickname rooms bs s
    | none ↦ (true, (insert_all nickname rooms bs (insert_pending nickname b s)).1)
  ]

  unfoldable pub follow_bookmark : Room → Bookmark → Session → Bool × Session
  unfolding set_sidebar_state sidebar_state_beq
  follow_bookmark room b s =
      elim (sidebar_state_beq (details_of room s).sidebar_state b.sidebar_state) [
        | true ↦ (false, s)
        | false ↦ (true, set_sidebar_state room b.sidebar_state s)
      ]

  -- The second loop: whether a room changed, the bookmarks that are left to join, and the session
  unfoldable pub collect : List Room → List Bookmark → Session → Bool × List Bookmark × Session
  unfolding find_live follow_bookmark
  collect rooms [] s = (false, [], s)
  collect rooms (b ∷ bs) s = elim (find_live rooms b s) [
    | some room ↦
        let (changed, s1) = follow_bookmark room b s in
        let (others, left, s2) = collect rooms bs s1 in (changed || others, left, s2)
    | none ↦ let (others, left, s1) = collect rooms bs s in (others, b ∷ left, s1)
  ]

  abbrev pub save_if_different : Bookmark → Room → Option String → BookmarkType → List Update
  unfolding same_type
  save_if_different b room name type =
      if same_type b.type type && some b.name == name then [] else Update.save_room room ∷ []

  -- `none` is the panic of `BookmarkType::from`.
  unfoldable pub evaluate_joined : Bookmark → Room → Session → Option (List Update)
  unfolding room_bookmark_type save_if_different
  evaluate_joined b room s = elim (room_id_beq (room_id room) b.jid) [
    | false ↦ some (Update.move_bookmark room b.jid ∷ [])
    | true ↦ elim (room_bookmark_type room.info.type) [
      | none ↦ none
      | some type ↦ some (save_if_different b room (details_of room s).name type)
    ]
  ]

  unfoldable pub evaluate_error : Bookmark → RoomError → List Update
  unfolding is_gone_err is_registration_required_err is_in_sidebar
  evaluate_error b error =
      if (is_gone_err c.rooms.from_iri error || is_registration_required_err error)
        && not (is_in_sidebar b.sidebar_state)
      then Update.drop_room b.jid ∷ []
      else []

  -- A future of the code, and what is done about its result later
  unfoldable pub joined : Bookmark → Option Room → Op (Session → Option (List Update))
  unfolding evaluate_joined is_in_sidebar notify_if
  joined b none = return (λ s. some [])
  joined b (some room) =
      λ s. (Outcome.done (evaluate_joined b room), notify_if (is_in_sidebar b.sidebar_state) s)

  unfoldable pub join_bookmark : Bookmark → Op (Session → Option (List Update))
  unfolding join_room_identified_by_bookmark_if_needed joined evaluate_error is_in_sidebar notify_if
      system_initiated
  join_bookmark b s =
      match (join_room_identified_by_bookmark_if_needed c fuel b system_initiated s) (joined b)
        (λ error s'. (
          Outcome.done (λ s. some (evaluate_error b error)),
          notify_if (is_in_sidebar b.sidebar_state) s',
        ))

  unfoldable pub join_all : List Bookmark → Op (List (Session → Option (List Update)))
  unfolding join_bookmark
  join_all [] = return []
  join_all (b ∷ bs) = λ s.
      continue (join_bookmark b s)
        (λ update s'. continue (join_all bs s') (λ updates. return (update ∷ updates)))

  -- All the results are evaluated before anything is done about one.
  unfoldable pub updates_of : List (Session → Option (List Update)) → Session → Option (List Update)
  updates_of [] s = some []
  updates_of (update ∷ updates) s = elim (update s) [
    | none ↦ none
    | some us ↦ elim (updates_of updates s) [ none ↦ none | some others ↦ some (us ++ others) ]
  ]

  unfoldable pub apply_update : Update → Op Unit
  unfolding save_bookmark_for_room delete_bookmark forget_room room_bare_jid
  apply_update (Update.save_room room) = save_bookmark_for_room c room
  apply_update (Update.move_bookmark room id) =
      λ s. continue (save_bookmark_for_room c room s) (λ u. delete_bookmark c (room_bare_jid id))
  apply_update (Update.drop_room id) =
      λ s. delete_bookmark c (room_bare_jid id) (forget_room (room_bare_jid id) s)

  unfoldable pub apply_updates : List Update → Op Unit
  unfolding apply_update
  apply_updates [] = return tt
  apply_updates (update ∷ updates) =
      λ s. continue (apply_update update s) (λ u. apply_updates updates)

  unfoldable pub apply_or_panic : Option (List Update) → Op Unit
  unfolding apply_updates
  apply_or_panic none = λ s. (Outcome.panicked, s)
  apply_or_panic (some updates) = apply_updates updates

  unfoldable pub extend_items_from_bookmarks : List Bookmark → Op Unit
  unfolding build_nickname get_all insert_all collect join_all apply_or_panic notify_if updates_of
  extend_items_from_bookmarks bookmarks s = continue (c.rooms.connected_account s) (λ account s1.
      continue (c.rooms.connected_id s1) (λ user s2.
        let rooms = get_all room_id s2.connected in
        let (inserted, s3) =
          insert_all (build_nickname c.rooms none user.bare) rooms bookmarks s2 in
        let (changed, left, s4) = collect rooms bookmarks (notify_if inserted s3) in
        continue (join_all left (notify_if changed s4))
          (λ updates s5. apply_or_panic (updates_of updates s5) s5)))

  unfoldable pub populate_sidebar : Op Unit
  unfolding extend_items_from_bookmarks
  populate_sidebar s = continue (c.load_bookmarks s) extend_items_from_bookmarks
