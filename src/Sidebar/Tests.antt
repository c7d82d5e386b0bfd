-- ===== src/Sidebar/Tests.antt =====
-- A session with a group and a private channel.
use prose_core_client.Base.{
  String, ◌≡◌, refl, ℕ, none, some, [], ◌∷◌, ◌++◌, true, false, if◌then◌else◌, string_eq, ◌==◌,
  Option, List, arith,
}
use prose_core_client.Base.Int.{pos}
use prose_core_client.Shared.Ids.{ParticipantId, BareJid, UserId, MucId, RoomId, room_bare_jid}
use prose_core_client.UserInfo.Models.{Availability}
use prose_core_client.Events.Dispatcher.{RoomType}
use prose_core_client.Rooms.RoomModels.{
  Bookmark, RoomState, RoomSidebarState, BookmarkType, no_participants, default_statistics,
  default_features, room_bookmark_type,
}
use prose_core_client.Rooms.RoomError.{RoomError}
use prose_core_client.Rooms.ConnectedRooms.{get, get_all}
use prose_core_client.Rooms.Room.{Room, room_id, Session, BookmarkRequest, details_of}
use prose_core_client.Rooms.Service.{Outcome, Services}
use prose_core_client.Sidebar.{SidebarServices, bookmark_with}
use prose_core_client.Sidebar.Favorites.{toggled, toggle_item_is_favorite}
use prose_core_client.Sidebar.Favorites.Toggle.{toggle_twice}
use prose_core_client.Rooms.Service.Consistent.{
  Consistent, ConsistentAt, Keeping, look, with-Consistent,
}
use prose_core_client.Sidebar.Calls.{SidebarCall, run_calls}
use prose_core_client.Sidebar.Consistency.{SidebarKeeping}
use prose_core_client.Sidebar.Consistency.Calls.{run_calls-Consistent}
use prose_core_client.Sidebar.Removal.{remove_item, remove_items}
use prose_core_client.Sidebar.Removal.Policy.{Quiet, Removed, remove_item_lem}
use prose_core_client.Sidebar.Disconnect.{handle_disconnect}
use prose_core_client.Sidebar.Disconnect.Everyone.{
  lost, is_among, SameApartFromDetails, handle_disconnect_lem,
}

abbrev me : UserId
me = "me@prose.org"

abbrev refused : RoomError
refused = RoomError.anyhow "refused"

abbrev rooms_services : Services
rooms_services = record {
  tables = record { node = λ j. none; to_uppercase = λ c. String.◌∷◌ c String.[] };
  trim = λ s. s;
  to_lowercase = λ s. s;
  make_ascii_lowercase = λ s. s;
  le_text = λ a b. true;
  resource_part = some;
  domain = λ j. "muc.prose.org";
  from_parts = λ node domain. some node;
  from_iri = some;
  sha1 = λ s. s;
  describe = λ e. "error";
  is_muc_room_on_connected_server = λ id. true;
  connected_account = λ s. (Outcome.done me, s);
  connected_id = λ s. (Outcome.done (record { bare = me; resource = "here" }), s);
  new_id = λ s. (Outcome.done "1", s);
  availability = λ s. (Outcome.done Availability.available, s);
  server_features =
      λ s. (Outcome.done (record { mam_version = none; server_time_offset = pos 0 }), s);
  muc_service = λ s. (Outcome.done "muc.prose.org", s);
  get_user_info = λ id s. (Outcome.done none, s);
  load_settings = λ id s. (Outcome.done none, s);
  join_room = λ id password name a s. (Outcome.failed refused, s);
  create_or_join_room = λ id room_name name spec a s. (Outcome.failed refused, s);
  destroy_room = λ id other s. (Outcome.done tt, s);
  exit_room = λ id s. (Outcome.failed refused, s);
  reconfigure_room = λ id spec name s. (Outcome.done tt, s);
  load_room_config = λ id s. (Outcome.failed refused, s);
  load_public_rooms = λ service s. (Outcome.done [], s);
  set_room_owners = λ id owners s. (Outcome.done tt, s);
  set_room_name = λ id name s. (Outcome.done tt, s);
  grant_membership = λ id user s. (Outcome.done tt, s);
  invite_users_to_room = λ id users s. (Outcome.done tt, s);
  send_self_ping = λ id s. (Outcome.done none, s);
  copy_all_messages_from_room = λ from to s. (Outcome.done tt, s);
  catchup_room = λ room s. (Outcome.done true, s);
  finalize_decryption = λ s. (Outcome.done tt, s);
}

abbrev services : SidebarServices
services = record {
  rooms = rooms_services;
  load_bookmarks = λ s. (Outcome.done [], s);
  save = λ bookmark s. (Outcome.done tt, s);
  remove = λ id s. (Outcome.failed refused, s);
  to_text = λ id. "room";
}

services-Quiet : Quiet services
services-Quiet = record {
  exit_room = λ id s. refl;
  save = λ bookmark s. refl;
  remove = λ id s. refl;
}

abbrev room_of : ℕ → MucId → RoomType → Room
room_of cell id type = record {
  inner = cell;
  info = record {
    room_id = RoomId.muc id;
    user_nickname = "me";
    type = type;
    features = default_features;
  };
}

abbrev team : Room
team = room_of 1 "team@muc.prose.org" RoomType.group

abbrev secret : Room
secret = room_of 0 "secret@muc.prose.org" RoomType.private_channel

abbrev session : Session
session = record {
  details = λ cell. record {
    name = some "A room";
    description = none;
    topic = none;
    participants = no_participants;
    sidebar_state = RoomSidebarState.in_sidebar;
    state = RoomState.connected;
    statistics = default_statistics;
    settings = record {
      room_id = RoomId.muc "team@muc.prose.org";
      encryption_enabled = false;
      last_read_message = none;
    };
  };
  fresh = 2;
  connected = ("team@muc.prose.org", team) ∷ ("secret@muc.prose.org", secret) ∷ [];
  events = [];
  sent = [];
}

found : get room_id (room_bare_jid (room_id team)) session.connected ≡ some team
unfolding get room_bare_jid
found = refl

is_private : room_bookmark_type secret.info.type ≡ some BookmarkType.private_channel
unfolding room_bookmark_type
is_private = refl

is_group : room_bookmark_type team.info.type ≡ some BookmarkType.group
unfolding room_bookmark_type
is_group = refl

becomes_favorite : toggled (details_of team session).sidebar_state ≡ some RoomSidebarState.favorite
unfolding toggled
becomes_favorite = refl

-- The first item is not connected: the second stays, and no client is told.
remove_items_stops :
    (remove_items services
      (RoomId.muc "lost@muc.prose.org" ∷ RoomId.muc "secret@muc.prose.org" ∷ [])
      session)
    ≡ (Outcome.done tt, session)
unfolding remove_items get room_bare_jid
remove_items_stops = refl

toggle_example :
    (details_of team
        (toggle_item_is_favorite services 1
          (room_id team)
          (toggle_item_is_favorite services 1 (room_id team) session).1).1
      ≡ details_of team session)
    × ((toggle_item_is_favorite services 1
          (room_id team)
          (toggle_item_is_favorite services 1 (room_id team) session).1).1.sent
        ≡ (session.sent
            ++ BookmarkRequest.save_bookmark (
                bookmark_with services team RoomSidebarState.favorite
                  (some "A room")
                  BookmarkType.group)
              ∷ [])
          ++ BookmarkRequest.save_bookmark (
              bookmark_with services team RoomSidebarState.in_sidebar
                (some "A room")
                BookmarkType.group)
            ∷ [])
toggle_example =
    toggle_twice services 1 me (room_id team) team BookmarkType.group RoomSidebarState.favorite
      session services-Quiet (λ s. refl) is_group found becomes_favorite

remove_item_example :
    Removed services
      (some me)
      secret.info.type
      BookmarkType.private_channel
      (room_id secret)
      secret
      session
      (remove_item services (room_id secret) secret session)
remove_item_example =
    remove_item_lem services (some me) refused (room_id secret) secret BookmarkType.private_channel
      session services-Quiet (λ s. refl) is_private

handle_disconnect_example :
    ((handle_disconnect services 1 session).0 ≡ Outcome.done tt)
    × (details_of team (handle_disconnect services 1 session).1 ≡ (
        if is_among team (get_all room_id session.connected)
        then lost (details_of team session)
        else details_of team session))
    × SameApartFromDetails session (handle_disconnect services 1 session).1
handle_disconnect_example = handle_disconnect_lem services 1 me session team refl

rooms_services-Keeping : Keeping rooms_services
rooms_services-Keeping = record {
  connected_account = λ s h. h;
  connected_id = λ s h. h;
  new_id = λ s h. h;
  availability = λ s h. h;
  server_features = λ s h. h;
  muc_service = λ s h. h;
  get_user_info = λ id s h. h;
  load_settings = λ id s h. h;
  join_room = λ id password name a s h. h;
  create_or_join_room = λ id room_name name spec a s h. h;
  destroy_room = λ id other s h. h;
  load_public_rooms = λ service s h. h;
  set_room_owners = λ id owners s h. h;
  invite_users_to_room = λ id users s h. h;
  send_self_ping = λ id s h. h;
  catchup_room = λ room s h. h;
  finalize_decryption = λ s h. h;
}

services-Keeping : SidebarKeeping services
services-Keeping = record {
  rooms = rooms_services-Keeping;
  exit_room = λ id s h. h;
  save = λ bookmark s h. h;
  load_bookmarks = λ s h. h;
  remove = λ id s h. h;
}

nowhere : BareJid → Option Room
nowhere id = none

nowhere-Consistent : ConsistentAt nowhere 0
unfolding nowhere
nowhere-Consistent = record {
  key = λ id r e. ground (arith, e);
  allocated = λ id r e. ground (arith, e);
  apart = λ id other r r' e e' same. ground (arith, e);
}

abbrev only_secret : BareJid → Option Room
only_secret id = if "secret@muc.prose.org" == id then some secret else none

only_secret-Consistent : ConsistentAt only_secret 1
unfolding nowhere room_bare_jid
only_secret-Consistent =
    with-Consistent nowhere 0 nowhere-Consistent only_secret "secret@muc.prose.org" secret 1
      (λ other. refl) refl (omega arith) (omega arith)

session-Consistent : Consistent session
unfolding get room_bare_jid
session-Consistent =
    with-Consistent only_secret 1 only_secret-Consistent (look session) "team@muc.prose.org" team 2
      (λ other. refl) refl (omega arith) (omega arith)

-- A bookmark of a room that is not connected: it becomes a pending room, which is then refused.
abbrev lobby : Bookmark
lobby = record {
  name = "Lobby";
  jid = RoomId.muc "lobby@muc.prose.org";
  type = BookmarkType.public_channel;
  sidebar_state = RoomSidebarState.in_sidebar;
}

abbrev calls : List SidebarCall
calls =
    SidebarCall.extend (lobby ∷ [])
    ∷ SidebarCall.received_message (RoomId.user "you@prose.org")
        (ParticipantId.user "you@prose.org")
    ∷ SidebarCall.toggle (room_id team)
    ∷ SidebarCall.lose_connection
    ∷ SidebarCall.ping_timer
    ∷ SidebarCall.was_destroyed "team@muc.prose.org" (some "new@muc.prose.org")
    ∷ SidebarCall.remove (room_id secret ∷ [])
    ∷ []

run_calls_example : Consistent (run_calls services (λ id. id) 2 calls session)
run_calls_example =
    run_calls-Consistent services (λ id. id) 2 calls session services-Keeping session-Consistent
