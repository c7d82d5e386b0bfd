-- ===== src/Rooms/Service/Create.antt =====
-- `create_room`, `create_or_join_room_with_spec`, `create_or_join_group` and
-- `is_public_channel_name_unique` (rooms_domain_service.rs), `group_name_hash` (room_utils.rs).
pub mod Rounds
use Prim.Native.String.{◌++◌ as str_append}
use prose_core_client.Base.{
  String, ℕ, zero, suc, ◌+◌, Option, none, some, List, [], ◌∷◌, ◌++◌, Bool, true, false, not, any,
  length, ltb, ◌==◌, string_eq, if◌then◌else◌,
}
use prose_core_client.Base.Decimal.{decimal}
use prose_core_client.Base.Sort.{sort_by}
use prose_core_client.Shared.Ids.{UserId, MucId, BareJid, room_bare_jid}
use prose_core_client.Shared.Names.{join}
use prose_core_client.UserInfo.Models.{Availability}
use prose_core_client.UserInfo.UserName.{user_display_name, unwrap_or_username}
use prose_core_client.Rooms.Models.{RoomAffiliation}
use prose_core_client.Rooms.RoomModels.{
  RoomSidebarState, RoomSessionInfo, RoomSessionMember, RoomSpec,
}
use prose_core_client.Rooms.RoomError.{RoomError, GoneError, gone_err}
use prose_core_client.Rooms.ConnectedRooms.{get}
use prose_core_client.Rooms.Room.{room_id, Session}
use prose_core_client.Rooms.Service.{
  Outcome, Op, return, fail, continue, match, or_else, PublicRoomInfo, Services,
  occupant_id_with_nickname, build_nickname,
}
use prose_core_client.Rooms.Service.Nickname.{try_until_nickname_unique}
use prose_core_client.Rooms.Service.Requests.{
  Status, RoomStatus, RoomInfoStatus, CreateRoomType, CreateRoomBehavior, status_with,
}
use prose_core_client.Rooms.Service.Connecting.{insert_connecting_room, forget_room}
use prose_core_client.Rooms.Service.Finalize.{finalize_pending_room}

-- What the loop does not change.
pub record CreateRequest : Type 0 where
  pub service : BareJid
  pub room_id : String
  pub room_name : String
  pub spec : RoomSpec
  pub nickname : String
  pub display_name : String
  pub sidebar_state : RoomSidebarState
  pub availability : Availability
  pub behavior : CreateRoomBehavior

abbrev pub numbered : String → ℕ → ℕ × String
unfolding decimal
numbered id attempt = (attempt + 1, str_append id (str_append "#" (decimal attempt)))

-- The next attempt and identifier after a room that is gone; `none` gives up.
unfoldable pub next_room_id : CreateRoomBehavior → String → ℕ → Option MucId → Option (ℕ × String)
next_room_id CreateRoomBehavior.create_unique_if_gone id attempt location =
    some (numbered id attempt)
next_room_id CreateRoomBehavior.follow_then_create_unique id attempt none =
    some (numbered id attempt)
next_room_id CreateRoomBehavior.follow_then_create_unique id attempt (some location) =
    some (attempt, location)
next_room_id CreateRoomBehavior.follow_if_gone id attempt (some location) = some (attempt, location)
next_room_id CreateRoomBehavior.follow_if_gone id attempt none = none
next_room_id CreateRoomBehavior.fail_if_gone id attempt location = none

-- A room whose name, in lower case, is the wanted one
abbrev pub has_name : Services → String → PublicRoomInfo → Bool
has_name c wanted room = elim room.name [
  | none ↦ false
  | some name ↦ c.make_ascii_lowercase name == wanted
]

-- An error that passes through `anyhow`
abbrev pub as_anyhow : {A : Type 0} → Services → Outcome A × Session → Outcome A × Session
as_anyhow c o = match o return (λ error. fail (RoomError.anyhow (c.describe error)))

abbrev pub add_owner : List RoomSessionMember → UserId → List RoomSessionMember
add_owner members id =
    if any (λ m. m.id == id) members
    then members
    else members ++ record { id = id; affiliation = RoomAffiliation.owner } ∷ []

unfoldable pub add_owners : List RoomSessionMember → List UserId → List RoomSessionMember
add_owners members [] = members
add_owners members (id ∷ ids) = add_owners (add_owner members id) ids

module _ (c : Services) where
  unfoldable pub is_public_channel_name_unique : String → Op Bool
  is_public_channel_name_unique channel_name s =
      continue (as_anyhow c (c.muc_service s)) (λ service s1.
        continue (as_anyhow c (c.load_public_rooms service s1)) (λ available_rooms.
          return (not (any (has_name c (c.to_lowercase channel_name)) available_rooms))))

  unfoldable pub group_name_hash : List UserId → String
  group_name_hash participants =
      str_append "org.prose.group." (c.sha1 (join "," (sort_by c.le_text participants)))

  abbrev pub create_handler : CreateRequest → MucId → String → Op RoomSessionInfo
  unfolding occupant_id_with_nickname
  create_handler q id nickname s = elim (occupant_id_with_nickname c id nickname) [
    | none ↦ fail (RoomError.jid_error "invalid resource") s
    | some full_room_jid ↦
        c.create_or_join_room full_room_jid q.room_name q.display_name q.spec q.availability s
  ]

  -- A room that this call has created is destroyed again; the answer is ignored.
  abbrev pub undo_creation : RoomSessionInfo → MucId → Op Unit
  undo_creation info id s = elim info.room_has_been_created [
    | true ↦ or_else tt (c.destroy_room id none s)
    | false ↦ return tt s
  ]

  module _ (perform_additional_config : MucId → RoomSessionInfo → Op RoomSessionInfo)
      (q : CreateRequest) where
    unfoldable pub configure : RoomInfoStatus → MucId → RoomSessionInfo → Op RoomInfoStatus
    unfolding forget_room
    configure status id info s =
        match (perform_additional_config id info s) (λ info'. return (status_with status info'))
          (λ error s1. continue (undo_creation info id (forget_room id s1)) (λ u. fail error))

    abbrev pub after_gone :
        RoomError → Option GoneError → ℕ → (ℕ → String → Op RoomInfoStatus) → Op RoomInfoStatus
    unfolding next_room_id
    after_gone error none attempt next = fail error
    after_gone error (some gone) attempt next =
        elim (next_room_id q.behavior q.room_id attempt gone.new_location) [
          | none ↦ fail error
          | some (attempt', id) ↦ next attempt' id
        ]

    abbrev pub create_once : MucId → ℕ → (ℕ → String → Op RoomInfoStatus) → Op RoomInfoStatus
    unfolding insert_connecting_room try_until_nickname_unique forget_room gone_err configure
    create_once id attempt next s =
        continue (insert_connecting_room id q.nickname q.sidebar_state s) (λ status s1.
          match (try_until_nickname_unique q.nickname (create_handler q id) 10 10 s1)
            (λ info. configure (status_with status info) id info)
            (λ error s2.
              after_gone error (gone_err c.from_iri error) attempt next (forget_room id s2)))

    -- The loop of `create_or_join_room_with_spec`
    unfoldable pub create_loop : ℕ → ℕ → String → Op RoomInfoStatus
    create_loop zero attempt unique_room_id = λ s. (Outcome.running, s)
    create_loop (suc fuel) attempt unique_room_id =
        elim (c.from_parts unique_room_id (c.domain q.service)) [
          | none ↦ fail (RoomError.jid_error "invalid node")
          | some id ↦ create_once id attempt (create_loop fuel)
        ]
