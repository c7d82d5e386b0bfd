-- ===== src/Rooms/Models.antt =====
-- The data of a room's participants (domain/rooms/models: room_affiliation.rs, compose_state.rs,
-- room_session_info.rs, participant_list.rs).
use prose_core_client.Base.{String, Option, Bool, true, false}
use prose_core_client.Base.Int.{ℤ}
use prose_core_client.Shared.Ids.{UserId, OccupantId, AnonOccupantId, CapabilitiesId, ParticipantId}
use prose_core_client.UserInfo.Models.{Availability, Avatar, JabberClient, Presence}

pub data RoomAffiliation : Type 0 where
  outcast none member admin owner : RoomAffiliation

pub data ComposeState : Type 0 where
  idle composing : ComposeState

-- `compose_state == ComposeState::Composing`
abbrev pub is_composing : ComposeState → Bool
is_composing idle = false
is_composing composing = true

pub record RoomSessionParticipant : Type 0 where
  pub id : OccupantId
  pub is_self : Bool
  pub anon_id : Option AnonOccupantId
  pub real_id : Option UserId
  pub affiliation : RoomAffiliation
  pub presence : Presence

pub record RegisteredMember : Type 0 where
  pub user_id : UserId
  pub affiliation : RoomAffiliation
  pub name : Option String
  pub is_self : Bool

pub record ParticipantName : Type 0 where
  pub vcard : Option String
  pub presence : Option String

-- A point in time is the number of seconds since 1970.
pub record Participant : Type 0 where
  pub real_id : Option UserId
  pub anon_occupant_id : Option AnonOccupantId
  pub name : ParticipantName
  pub is_self : Bool
  pub affiliation : RoomAffiliation
  pub availability : Availability
  pub avatar : Option Avatar
  pub client : Option JabberClient
  pub caps : Option CapabilitiesId
  pub status : Option String
  pub compose_state : ComposeState
  pub compose_state_updated : ℤ

pub record ParticipantBasicInfo : Type 0 where
  pub id : ParticipantId
  pub name : String
  pub avatar : Option Avatar
