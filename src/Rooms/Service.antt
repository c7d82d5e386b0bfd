-- ===== src/Rooms/Service.antt =====
-- `RoomsDomainService` (domain/rooms/services/impls/rooms_domain_service.rs) and what it asks of
-- others. An operation takes the session and leaves another, also when it fails; a call of the
-- server or of another service may change the session too, which is how events that arrive during
-- an `await` are modelled. A loop without a bound runs on fuel and is `running` when that is gone.
pub mod Ends
pub mod Consistent
pub mod Requests
pub mod Nickname
pub mod Connecting
pub mod Finalize
pub mod Join
pub mod DirectMessage
pub mod Create
pub mod Enter
pub mod Reconnect
pub mod Configure
mod Tests
use prose_core_client.Base.{
  String, ℕ, Option, none, some, List, Bool, true, false, not, ◌==◌, string_eq,
}
use prose_core_client.Base.Int.{ℤ}
use prose_core_client.Shared.Ids.{UserId, MucId, OccupantId, RoomId, BareJid, FullJid}
use prose_core_client.Shared.Names.{TextTables, formatted_username}
use prose_core_client.UserInfo.Models.{Availability}
use prose_core_client.UserInfo.UserName.{UserInfo}
use prose_core_client.Rooms.RoomModels.{
  RoomConfig, RoomSessionInfo, RoomSpec, SyncedRoomSettings, MamVersion,
}
use prose_core_client.Rooms.RoomError.{RequestError, RoomError}
use prose_core_client.Rooms.Room.{Room, Session}

pub data Outcome (A : Type 0) : Type 0 where
  done : A → Outcome A
  failed : RoomError → Outcome A
  running panicked : Outcome A

abbrev pub Op : Type 0 → Type 0
Op A = Session → Outcome A × Session

abbrev pub return : {A : Type 0} → A → Op A
return a s = (Outcome.done a, s)

abbrev pub fail : {A : Type 0} → RoomError → Op A
fail e s = (Outcome.failed e, s)

-- The `?` operator
abbrev pub continue : {A B : Type 0} → Outcome A × Session → (A → Op B) → Outcome B × Session
continue (Outcome.done a, s) k = k a s
continue (Outcome.failed e, s) k = (Outcome.failed e, s)
continue (Outcome.running, s) k = (Outcome.running, s)
continue (Outcome.panicked, s) k = (Outcome.panicked, s)

-- A match on both arms of a result
abbrev pub match :
    {A B : Type 0} → Outcome A × Session → (A → Op B) → (RoomError → Op B) → Outcome B × Session
match (Outcome.done a, s) k handle = k a s
match (Outcome.failed e, s) k handle = handle e s
match (Outcome.running, s) k handle = (Outcome.running, s)
match (Outcome.panicked, s) k handle = (Outcome.panicked, s)

abbrev pub change : (Session → Session) → Op Unit
change f s = (Outcome.done tt, f s)

pub record ServerFeatures : Type 0 where
  pub mam_version : Option MamVersion
  pub server_time_offset : ℤ

pub record PublicRoomInfo : Type 0 where
  pub id : MucId
  pub name : Option String

-- The services that the code calls, and the functions of the jid, sha1 and standard libraries.
pub record Services : Type 0 where
  pub tables : TextTables
  pub trim : String → String
  pub to_lowercase : String → String
  pub make_ascii_lowercase : String → String
  pub le_text : String → String → Bool
  pub resource_part : String → Option String
  pub domain : BareJid → String
  pub from_parts : String → String → Option BareJid
  pub from_iri : String → Option MucId
  pub sha1 : String → String
  pub describe : RoomError → String
  pub is_muc_room_on_connected_server : MucId → Bool
  pub connected_account : Op UserId
  pub connected_id : Op FullJid
  pub new_id : Op String
  pub availability : Op Availability
  pub server_features : Op ServerFeatures
  pub muc_service : Op BareJid
  pub get_user_info : UserId → Op (Option UserInfo)
  pub load_settings : RoomId → Op (Option SyncedRoomSettings)
  pub join_room : OccupantId → Option String → String → Availability → Op RoomSessionInfo
  pub create_or_join_room :
      OccupantId → String → String → RoomSpec → Availability → Op RoomSessionInfo
  pub destroy_room : MucId → Option MucId → Op Unit
  pub exit_room : OccupantId → Op Unit
  pub reconfigure_room : MucId → RoomSpec → String → Op Unit
  pub load_room_config : MucId → Op RoomConfig
  pub load_public_rooms : BareJid → Op (List PublicRoomInfo)
  pub set_room_owners : MucId → List UserId → Op Unit
  pub set_room_name : MucId → String → Op Unit
  pub grant_membership : MucId → UserId → Op Unit
  pub invite_users_to_room : MucId → List UserId → Op Unit
  pub send_self_ping : OccupantId → Op (Option RequestError)
  pub copy_all_messages_from_room : RoomId → RoomId → Op Unit
  pub catchup_room : Room → Op Bool
  pub finalize_decryption : Op Unit

-- `unwrap_or_default`
abbrev pub or_else : {A : Type 0} → A → Outcome A × Session → Outcome A × Session
or_else a o = match o return (λ error. return a)

abbrev pub nonempty : String → Option String
nonempty s = elim (s == "") [ true ↦ none | false ↦ some s ]

abbrev pub then_option : Option String → (String → Option String) → Option String
then_option none f = none
then_option (some s) f = f s

module _ (c : Services) where
  -- `BareJid::with_resource_str`
  unfoldable pub occupant_id_with_nickname : MucId → String → Option OccupantId
  occupant_id_with_nickname id nickname = elim (c.resource_part nickname) [
    | none ↦ none
    | some resource ↦ some (record { bare = id; resource = resource })
  ]

  unfoldable pub build_nickname : Option String → UserId → String
  unfolding formatted_username
  build_nickname display_name id =
      elim (then_option (then_option display_name (λ name. nonempty (c.trim name)))
        c.resource_part) [ none ↦ formatted_username c.tables id | some resource ↦ resource ]
