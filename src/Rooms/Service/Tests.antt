-- ===== src/Rooms/Service/Tests.antt =====
-- A server with a room that is gone, one that needs a registration, and a nickname that is taken.
use prose_core_client.Base.{
  String, ◌≡◌, refl, arith, ℕ, none, some, [], ◌∷◌, true, false, inl, inr, ◌⊎◌, Bool-cases,
  if◌then◌else◌, ◌==◌, ==_iff, string_eq,
}
use prose_core_client.Base.Int.{pos}
use prose_core_client.Shared.Ids.{UserId, MucId, OccupantId, RoomId}
use prose_core_client.UserInfo.Models.{Availability}
use prose_core_client.Events.Dispatcher.{RoomType}
use prose_core_client.Rooms.RoomModels.{
  RoomState, RoomSidebarState, RoomDetails, RoomSessionInfo, no_participants, default_statistics,
  default_features,
}
use prose_core_client.Rooms.RoomError.{
  DefinedCondition, RequestError, RoomError, gone_err, defined_condition, condition_of,
}
use prose_core_client.Rooms.ConnectedRooms.{get}
use prose_core_client.Rooms.Room.{Room, room_id, Session, details_of, Resolved}
use prose_core_client.Rooms.Service.{Outcome, Op, Services, occupant_id_with_nickname}
use prose_core_client.Rooms.Service.Ends.{Ends}
use prose_core_client.Rooms.Service.Nickname.{is_conflict_err, try_until_nickname_unique}
use prose_core_client.Rooms.Service.Nickname.Reference.{
  nicknames, first_accepted, try_until_nickname_unique_lem,
}
use prose_core_client.Rooms.Service.Requests.{
  Status, CreateOrEnterRoomRequest, JoinRoomRedirectBehavior, JoinRoomFailureBehavior,
  user_initiated,
}
use prose_core_client.Rooms.Service.Finalize.Cases.{Answering}
use prose_core_client.Rooms.Service.Finalize.Outcomes.{
  WasRemoved, WasChanged, WasResolved, replace_placeholder_lem,
}
use prose_core_client.Rooms.Service.Join.{
  JoinRequest, redirect_of, join_handler, join_loop, join_room,
}
use prose_core_client.Rooms.Service.Join.Termination.{Descends, join_room-Ends}
use prose_core_client.Rooms.Service.Join.Failure.{Refuses, join_loop-left_over}
use prose_core_client.Rooms.Service.Enter.{create_or_join_room}
use prose_core_client.Rooms.Service.Consistent.{Consistent, Keeping}
use prose_core_client.Rooms.Service.Consistent.Entering.{create_or_join_room-Consistent}

abbrev old_room : MucId
old_room = "old@muc.prose.org"

abbrev new_location : MucId
new_location = "new@muc.prose.org"

abbrev me : UserId
me = "me@prose.org"

abbrev moved : RoomError
moved = RoomError.request_error (RequestError.xmpp DefinedCondition.gone (some new_location))

abbrev members_only : RoomError
members_only =
    RoomError.request_error (RequestError.xmpp DefinedCondition.registration_required none)

abbrev answer_for : MucId → Op RoomSessionInfo
answer_for id s =
    if id == old_room then (Outcome.failed moved, s) else (Outcome.failed members_only, s)

abbrev no_details : RoomDetails
no_details = record {
  name = none;
  description = none;
  topic = none;
  participants = no_participants;
  sidebar_state = RoomSidebarState.not_in_sidebar;
  state = RoomState.pending;
  statistics = default_statistics;
  settings = record {
    room_id = RoomId.muc old_room;
    encryption_enabled = false;
    last_read_message = none;
  };
}

abbrev pub server : Services
server = record {
  tables = record { node = λ j. none; to_uppercase = λ c. String.◌∷◌ c String.[] };
  trim = λ s. s;
  to_lowercase = λ s. s;
  make_ascii_lowercase = λ s. s;
  le_text = λ a b. true;
  resource_part = some;
  domain = λ j. "muc.prose.org";
  from_parts = λ node domain. some node;
  from_iri = some;
  sha1 = λ s. s;
  describe = λ e. "error";
  is_muc_room_on_connected_server = λ id. true;
  connected_account = λ s. (Outcome.done me, s);
  connected_id = λ s. (Outcome.done (record { bare = me; resource = "here" }), s);
  new_id = λ s. (Outcome.done "1", s);
  availability = λ s. (Outcome.done Availability.available, s);
  server_features =
      λ s. (Outcome.done (record { mam_version = none; server_time_offset = pos 0 }), s);
  muc_service = λ s. (Outcome.done "muc.prose.org", s);
  get_user_info = λ id s. (Outcome.done none, s);
  load_settings = λ id s. (Outcome.done none, s);
  join_room = λ id password name a. answer_for id.bare;
  create_or_join_room = λ id room_name name spec a. answer_for id.bare;
  destroy_room = λ id other s. (Outcome.done tt, s);
  exit_room = λ id s. (Outcome.done tt, s);
  reconfigure_room = λ id spec name s. (Outcome.done tt, s);
  load_room_config = λ id s. (Outcome.failed members_only, s);
  load_public_rooms = λ service s. (Outcome.done [], s);
  set_room_owners = λ id owners s. (Outcome.done tt, s);
  set_room_name = λ id name s. (Outcome.done tt, s);
  grant_membership = λ id user s. (Outcome.done tt, s);
  invite_users_to_room = λ id users s. (Outcome.done tt, s);
  send_self_ping = λ id s. (Outcome.done none, s);
  copy_all_messages_from_room = λ from to s. (Outcome.done tt, s);
  catchup_room = λ room s. (Outcome.done true, s);
  finalize_decryption = λ s. (Outcome.done tt, s);
}

abbrev empty : Session
empty = record { details = λ cell. no_details; fresh = 0; connected = []; events = []; sent = [] }

-- A nickname that is taken
abbrev ask : String → Op String
ask nickname s =
    if nickname == "me"
    then (
      Outcome.failed (RoomError.request_error (RequestError.xmpp DefinedCondition.conflict none)),
      s,
    )
    else (Outcome.done nickname, s)

try_until_nickname_unique_example :
    try_until_nickname_unique "me" ask 3 3 empty ≡ first_accepted ask (nicknames "me" 0 3) empty
try_until_nickname_unique_example =
    try_until_nickname_unique_lem "me" ask 3 3 empty (omega arith) (omega arith)

abbrev rank : MucId → ℕ
rank id = if id == old_room then 1 else 0

redirect-cases :
    (b : JoinRoomRedirectBehavior)
    → (b ≡ JoinRoomRedirectBehavior.follow_if_gone) ⊎ (b ≡ JoinRoomRedirectBehavior.fail_if_gone)
redirect-cases JoinRoomRedirectBehavior.follow_if_gone = inl refl
redirect-cases JoinRoomRedirectBehavior.fail_if_gone = inr refl

redirect_of-moved :
    (q : JoinRequest) (location : MucId)
    → redirect_of server q moved ≡ some location
    → location ≡ new_location
unfolding redirect_of gone_err
redirect_of-moved q location = elim (redirect-cases q.behavior.on_redirect) [
  | inl follow ↦ rw (redirect_of, follow) (λ e. ground (arith, e))
  | inr stay ↦ rw (redirect_of, stay) (λ e. ground (arith, e))
]

server-Descends :
    (q : JoinRequest) (id : OccupantId) (s : Session)
    → Descends server q rank id.bare
        (server.join_room id q.password q.display_name q.availability s).0
unfolding Descends redirect_of gone_err
server-Descends q id s = elim (Bool-cases (id.bare == old_room)) [
  | inl gone ↦
      rw (Descends, answer_for, gone)
        (λ location e. rw (redirect_of-moved q location e, gone) (omega arith))
  | inr other ↦ rw (Descends, answer_for, other) (λ location e. ground (arith, e))
]

server-Answering : Answering server
server-Answering = record {
  get_user_info = λ id s. tt;
  availability = λ s. tt;
  connected_id = λ s. tt;
  server_features = λ s. tt;
  load_settings = λ id s. tt;
}

join_room_example :
    Ends (join_room server 2 me old_room none RoomSidebarState.in_sidebar user_initiated empty).0
join_room_example =
    join_room-Ends server rank 2 me old_room none RoomSidebarState.in_sidebar user_initiated empty
      server-Descends server-Answering (omega arith)

abbrev request : JoinRequest
request = record {
  room_id = old_room;
  nickname = "me";
  display_name = "Me";
  password = none;
  sidebar_state = RoomSidebarState.in_sidebar;
  availability = Availability.available;
  behavior = record {
    on_redirect = JoinRoomRedirectBehavior.follow_if_gone;
    on_failure = JoinRoomFailureBehavior.remove_on_error;
  };
}

old_room-Refuses : Refuses server request old_room moved
unfolding Refuses join_handler occupant_id_with_nickname is_conflict_err condition_of
    defined_condition
old_room-Refuses = (refl, λ nickname s. refl)

new_location-Refuses : Refuses server request new_location members_only
unfolding Refuses join_handler occupant_id_with_nickname is_conflict_err condition_of
    defined_condition
new_location-Refuses = (refl, λ nickname s. refl)

redirected : redirect_of server request moved ≡ some new_location
unfolding redirect_of gone_err
redirected = refl

not_redirected : redirect_of server request members_only ≡ none
unfolding redirect_of gone_err
not_redirected = refl

nowhere : (id : MucId) → get room_id id empty.connected ≡ none
unfolding get
nowhere id = refl

join_loop-left_over_example :
    ((join_loop server 2 request old_room empty).0 ≡ Outcome.failed members_only)
    × ((r : Room) × (get room_id new_location
            (join_loop server 2 request old_room empty).1.connected
          ≡ some r)
        × ((details_of r (join_loop server 2 request old_room empty).1).state
            ≡ RoomState.connecting))
join_loop-left_over_example =
    join_loop-left_over server request 0 new_location moved members_only empty (nowhere old_room)
      (nowhere new_location) (λ e. ground (arith, ==_iff new_location old_room, e))
      (old_room-Refuses, redirected) (new_location-Refuses, not_redirected) refl

answer_for-keeps : (id : MucId) (s : Session) → Consistent s → Consistent (answer_for id s).1
answer_for-keeps id s h = elim (Bool-cases (id == old_room)) [
  | inl gone ↦ rw (answer_for, gone) h
  | inr other ↦ rw (answer_for, other) h
]

server-Keeping : Keeping server
server-Keeping = record {
  connected_account = λ s h. h;
  connected_id = λ s h. h;
  new_id = λ s h. h;
  availability = λ s h. h;
  server_features = λ s h. h;
  muc_service = λ s h. h;
  get_user_info = λ id s h. h;
  load_settings = λ id s h. h;
  join_room = λ id password name a. answer_for-keeps id.bare;
  create_or_join_room = λ id room_name name spec a. answer_for-keeps id.bare;
  destroy_room = λ id other s h. h;
  load_public_rooms = λ service s h. h;
  set_room_owners = λ id owners s h. h;
  invite_users_to_room = λ id users s h. h;
  send_self_ping = λ id s h. h;
  catchup_room = λ room s h. h;
  finalize_decryption = λ s h. h;
}

empty-Consistent : Consistent empty
unfolding get
empty-Consistent = record {
  key = λ id r e. ground (arith, e);
  allocated = λ id r e. ground (arith, e);
  apart = λ id other r r' e e' same. ground (arith, e);
}

create_or_join_room_example :
    Consistent
      (create_or_join_room server 2
        (CreateOrEnterRoomRequest.join_room old_room none user_initiated false)
        RoomSidebarState.in_sidebar
        empty).1
create_or_join_room_example =
    create_or_join_room-Consistent server 2
      (CreateOrEnterRoomRequest.join_room old_room none user_initiated false)
      RoomSidebarState.in_sidebar empty server-Keeping empty-Consistent

abbrev told : RoomSessionInfo
told = record {
  room_id = old_room;
  config = record {
    room_name = some "Old";
    room_description = none;
    room_type = RoomType.group;
    mam_version = none;
    supports_self_ping_optimization = false;
  };
  topic = none;
  user_nickname = "me";
  members = [];
  participants = [];
  room_has_been_created = false;
}

abbrev resolved : Resolved
resolved = record {
  name = some "Old";
  description = none;
  topic = none;
  info = record {
    room_id = RoomId.muc old_room;
    user_nickname = "me";
    type = RoomType.group;
    features = default_features;
  };
  members = [];
  participants = [];
}

abbrev waiting : Session
waiting = record empty {
  details = λ cell. record no_details { state = RoomState.connecting };
  fresh = 1;
  connected =
      (
        old_room,
        record {
          inner = 0;
          info = record {
            room_id = RoomId.muc old_room;
            user_nickname = "me";
            type = RoomType.unknown;
            features = default_features;
          };
        },
      )
      ∷ [];
}

replace_placeholder_example :
    WasRemoved (Status.is_new told) resolved none waiting
    ⊎ WasChanged (Status.is_new told) resolved none waiting
    ⊎ WasResolved (Status.is_new told) resolved none waiting
replace_placeholder_example = replace_placeholder_lem (Status.is_new told) resolved none waiting
