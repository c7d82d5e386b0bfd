-- ===== src/Sidebar/Removal/Policy.antt =====
-- The removal of an item (sidebar_domain_service.rs), by the type of its room and the account.
use prose_core_client.Base.{
  ◌≡◌, ◌∙◌, refl, ap, arith, Option, none, some, [], ◌∷◌, ◌++◌, Bool, true, false, if◌then◌else◌,
  ◌==◌, string_eq, not, ◌&&◌,
}
use prose_core_client.Shared.Ids.{BareJid, UserId, RoomId, OccupantId, room_bare_jid}
use prose_core_client.Events.Dispatcher.{RoomType}
use prose_core_client.Rooms.RoomModels.{
  RoomSidebarState, Bookmark, BookmarkType, room_bookmark_type,
}
use prose_core_client.Rooms.RoomError.{RoomError}
use prose_core_client.Rooms.ConnectedRooms.{get}
use prose_core_client.Rooms.Room.{
  Room, room_id, Session, BookmarkRequest, details_of, modify, set_sidebar_state, occupant_id,
}
use prose_core_client.Rooms.Room.Changes.{details_of-modify_same}
use prose_core_client.Rooms.Service.{Outcome, continue, or_else}
use prose_core_client.Rooms.Service.Connecting.{forget_room}
use prose_core_client.Rooms.Service.Connecting.Cases.{get-forget_room}
use prose_core_client.Sidebar.{
  SidebarServices, send, bookmark_with, bookmark_of, save_bookmark_for_room, delete_bookmark,
}
use prose_core_client.Sidebar.Removal.{
  exit_if_muc, forget_if_connected, leave_channel, disconnect_of_type, disconnect_and_delete_room,
  hide, forget_of_type, remove_item,
}

-- The services answer, or fail, and leave the session.
pub record Quiet (c : SidebarServices) : Type 0 where
  pub exit_room :
      (id : OccupantId) (s : Session) → or_else tt (c.rooms.exit_room id s) ≡ (Outcome.done tt, s)
  pub save : (b : Bookmark) (s : Session) → or_else tt (c.save b s) ≡ (Outcome.done tt, s)
  pub remove : (id : BareJid) (s : Session) → or_else tt (c.remove id s) ≡ (Outcome.done tt, s)

-- A group stays connected.
abbrev pub stays_connected : RoomType → Bool
stays_connected RoomType.group = true
stays_connected _ = false

-- A group and a private channel keep their bookmarks.
abbrev pub keeps_bookmark : RoomType → Bool
keeps_bookmark RoomType.group = true
keeps_bookmark RoomType.private_channel = true
keeps_bookmark _ = false

abbrev pub hidden : Session → Room → Session
unfolding set_sidebar_state
hidden s r = set_sidebar_state r RoomSidebarState.not_in_sidebar s

-- The account that is connected, if there is one
abbrev pub account_of : Option UserId → RoomError → Outcome UserId
account_of none error = Outcome.failed error
account_of (some account) error = Outcome.done account

-- The room is forgotten: it is no group, and an account is connected.
abbrev pub is_forgotten : Option UserId → RoomType → Bool
is_forgotten none t = false
is_forgotten (some account) t = not (stays_connected t)

abbrev forgotten : Option UserId → BareJid → Session → Session
unfolding forget_room
forgotten none id s = s
forgotten (some account) id s = forget_room id s

-- What the removal leaves, by the type of the room and the connected account
abbrev pub Removed :
    SidebarServices
    → Option UserId
    → RoomType
    → BookmarkType
    → RoomId
    → Room
    → Session
    → Outcome Unit × Session
    → Type 0
Removed c account t type id r s o =
    (o.0 ≡ Outcome.done tt)
    × ((other : BareJid)
        → get room_id other o.1.connected ≡ (
            if is_forgotten account t && room_bare_jid (room_id r) == other
            then none
            else get room_id other s.connected))
    × (o.1.sent
        ≡ s.sent
          ++ (if keeps_bookmark t
              then BookmarkRequest.save_bookmark
                  (bookmark_with c r RoomSidebarState.not_in_sidebar (details_of r s).name type)
              else BookmarkRequest.delete_bookmark (room_bare_jid id))
            ∷ [])

module _ (c : SidebarServices) (quiet : Quiet c) where
  exit_if_muc-quiet :
      (id : Option OccupantId) (s : Session) → exit_if_muc c id s ≡ (Outcome.done tt, s)
  exit_if_muc-quiet none s = refl
  exit_if_muc-quiet (some id) s = quiet.exit_room id s

  delete_bookmark-quiet :
      (id : BareJid) (s : Session)
      → delete_bookmark c id s ≡ (Outcome.done tt, send (BookmarkRequest.delete_bookmark id) s)
  unfolding delete_bookmark
  delete_bookmark-quiet id s = quiet.remove id (send (BookmarkRequest.delete_bookmark id) s)

  pub save_bookmark-quiet :
      (r : Room) (type : BookmarkType) (s : Session)
      → room_bookmark_type r.info.type ≡ some type
      → save_bookmark_for_room c r s ≡ (
        Outcome.done tt,
        send
            (BookmarkRequest.save_bookmark
              (bookmark_with c r (details_of r s).sidebar_state (details_of r s).name type))
            s,
      )
  unfolding save_bookmark_for_room bookmark_of
  save_bookmark-quiet r type s e =
      rw (save_bookmark_for_room, bookmark_of, e)
        (quiet.save (bookmark_with c r (details_of r s).sidebar_state (details_of r s).name type) (
          send
            (BookmarkRequest.save_bookmark
              (bookmark_with c r (details_of r s).sidebar_state (details_of r s).name type))
            s))

  hide-quiet :
      (r : Room) (type : BookmarkType) (s : Session)
      → room_bookmark_type r.info.type ≡ some type
      → hide c r s ≡ (
        Outcome.done tt,
        send
            (BookmarkRequest.save_bookmark
              (bookmark_with c r RoomSidebarState.not_in_sidebar (details_of r s).name type))
            (hidden s r),
      )
  unfolding hide set_sidebar_state
  hide-quiet r type s e =
      save_bookmark-quiet r type (hidden s r) e
      ∙ ap
          (λ d. (
            Outcome.done tt,
            send (BookmarkRequest.save_bookmark (bookmark_with c r d.sidebar_state d.name type))
                (hidden s r),
          ))
          (details_of-modify_same r
            (λ d. record d { sidebar_state = RoomSidebarState.not_in_sidebar }) s)

  group-Removed :
      (account : Option UserId) (id : RoomId) (r : Room) (type : BookmarkType) (s : Session)
      → room_bookmark_type r.info.type ≡ some type
      → Removed c account RoomType.group type id r s (
          continue
            (disconnect_of_type c RoomType.group r s)
            (λ u. forget_of_type c RoomType.group id r))
  unfolding disconnect_of_type forget_of_type set_sidebar_state modify send
  group-Removed none id r type s e = rw (hide-quiet r type (hidden s r) e) (
    refl,
    λ other. refl,
    ap
        (λ d.
          s.sent
          ++ BookmarkRequest.save_bookmark
              (bookmark_with c r RoomSidebarState.not_in_sidebar d.name type)
            ∷ [])
        (details_of-modify_same r
          (λ d. record d { sidebar_state = RoomSidebarState.not_in_sidebar }) s),
  )
  group-Removed (some account) id r type s e = rw (hide-quiet r type (hidden s r) e) (
    refl,
    λ other. refl,
    ap
        (λ d.
          s.sent
          ++ BookmarkRequest.save_bookmark
              (bookmark_with c r RoomSidebarState.not_in_sidebar d.name type)
            ∷ [])
        (details_of-modify_same r
          (λ d. record d { sidebar_state = RoomSidebarState.not_in_sidebar }) s),
  )

  module _ (error : RoomError) where
    -- Whether an account is connected
    abbrev pub IsAccount : Option UserId → Type 0
    IsAccount account = (s : Session) → c.rooms.connected_account s ≡ (account_of account error, s)

    forget_if_connected-account :
        (account : Option UserId) (id : BareJid) (s : Session)
        → IsAccount account
        → forget_if_connected c id s ≡ (Outcome.done tt, forgotten account id s)
    unfolding forget_if_connected
    forget_if_connected-account none id s h = rw (forget_if_connected, h s) refl
    forget_if_connected-account (some account) id s h = rw (forget_if_connected, h s) refl

    leave_channel-quiet :
        (account : Option UserId) (r : Room) (s : Session)
        → IsAccount account
        → leave_channel c r s ≡ (Outcome.done tt, forgotten account (room_bare_jid (room_id r)) s)
    unfolding leave_channel
    leave_channel-quiet account r s h =
        rw (leave_channel, forget_if_connected-account account (room_bare_jid (room_id r)) s h)
          (exit_if_muc-quiet (occupant_id r.info) (forgotten account (room_bare_jid (room_id r)) s))

    private_channel-Removed :
        (account : Option UserId) (id : RoomId) (r : Room) (type : BookmarkType) (s : Session)
        → IsAccount account
        → room_bookmark_type r.info.type ≡ some type
        → Removed c account RoomType.private_channel type id r s
            (continue (leave_channel c r s) (λ u. hide c r))
    unfolding forget_room set_sidebar_state modify send
    private_channel-Removed none id r type s h e =
        rw (leave_channel-quiet none r s h, hide-quiet r type s e) (refl, λ other. refl, refl)
    private_channel-Removed (some account) id r type s h e =
        rw
          (
            leave_channel-quiet (some account) r s h,
            hide-quiet r type (forget_room (room_bare_jid (room_id r)) s) e,
          )
          (refl, λ other. get-forget_room (room_bare_jid (room_id r)) other s, refl)

    -- What is left when the room was forgotten and then its bookmark deleted
    deleted-Removed :
        (account : Option UserId) (t : RoomType) (id : RoomId) (r : Room) (type : BookmarkType)
        (s : Session)
        → (stays_connected t ≡ false) × (keeps_bookmark t ≡ false)
        → Removed c account t type id r s
            (delete_bookmark c (room_bare_jid id) (forgotten account (room_bare_jid (room_id r)) s))
    unfolding forget_room send
    deleted-Removed none t id r type s k =
        rw (delete_bookmark-quiet (room_bare_jid id) s, k.1) (refl, λ other. refl, refl)
    deleted-Removed (some account) t id r type s k =
        rw
          (
            delete_bookmark-quiet (room_bare_jid id) (forget_room (room_bare_jid (room_id r)) s),
            k.0,
            k.1,
          )
          (refl, λ other. get-forget_room (room_bare_jid (room_id r)) other s, refl)

    channel-Removed :
        (account : Option UserId) (t : RoomType) (id : RoomId) (r : Room) (type : BookmarkType)
        (s : Session)
        → IsAccount account
        → (stays_connected t ≡ false) × (keeps_bookmark t ≡ false)
        → Removed c account t type id r s
            (continue (leave_channel c r s) (λ u. delete_bookmark c (room_bare_jid id)))
    channel-Removed account t id r type s h k =
        rw (leave_channel-quiet account r s h) (deleted-Removed account t id r type s k)

    direct_message-Removed :
        (account : Option UserId) (id : RoomId) (r : Room) (type : BookmarkType) (s : Session)
        → IsAccount account
        → Removed c account RoomType.direct_message type id r s (
            continue
              (forget_if_connected c (room_bare_jid (room_id r)) s)
              (λ u. delete_bookmark c (room_bare_jid id)))
    direct_message-Removed account id r type s h =
        rw (forget_if_connected-account account (room_bare_jid (room_id r)) s h)
          (deleted-Removed account RoomType.direct_message id r type s (refl, refl))

    of_type-Removed :
        (account : Option UserId) (t : RoomType) (id : RoomId) (r : Room) (type : BookmarkType)
        (s : Session)
        → IsAccount account
        → room_bookmark_type r.info.type ≡ some type
        → room_bookmark_type t ≡ some type
        → Removed c account t type id r s
            (continue (disconnect_of_type c t r s) (λ u. forget_of_type c t id r))
    unfolding disconnect_of_type forget_of_type room_bookmark_type
    of_type-Removed a RoomType.unknown id r type s h e k = ground (arith, k)
    of_type-Removed a RoomType.direct_message id r type s h e k =
        direct_message-Removed a id r type s h
    of_type-Removed a RoomType.group id r type s h e k = group-Removed a id r type s e
    of_type-Removed a RoomType.private_channel id r type s h e k =
        private_channel-Removed a id r type s h e
    of_type-Removed a RoomType.public_channel id r type s h e k =
        channel-Removed a RoomType.public_channel id r type s h (refl, refl)
    of_type-Removed a RoomType.generic id r type s h e k =
        channel-Removed a RoomType.generic id r type s h (refl, refl)

-- An item that is removed, of a room whose type is known, while the services answer or fail without
-- touching the session. When an account is connected and the room is no group, its JID yields no room
-- any more; without an account, or for a group, it stays connected. Other rooms stay. One request
-- goes to the bookmarks: a group or a private channel is saved as hidden, the bookmark of any other
-- room is deleted.
pub remove_item_lem :
    (c : SidebarServices) (account : Option UserId) (error : RoomError) (id : RoomId) (r : Room)
    (type : BookmarkType) (s : Session)
    → Quiet c
    → ((s' : Session) → c.rooms.connected_account s' ≡ (account_of account error, s'))
    → room_bookmark_type r.info.type ≡ some type
    → Removed c account r.info.type type id r s (remove_item c id r s)
unfolding remove_item disconnect_and_delete_room
remove_item_lem c account error id r type s quiet h e =
    of_type-Removed c quiet error account r.info.type id r type s h e e
