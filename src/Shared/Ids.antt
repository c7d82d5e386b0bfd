-- ===== src/Shared/Ids.antt =====
-- Identifiers (domain/shared/models: user_id.rs, user_resource_id.rs, user_or_resource_id.rs,
-- occupant_id.rs, muc_id.rs, participant_id.rs, room_id.rs, anon_occupant_id.rs, capabilities_id.rs,
-- avatar_id.rs). The jid crate's `BareJid` stands as its text and its `FullJid` as a bare JID with a
-- resource, which is what their equality compares.
use prose_core_client.Base.{
  String, ◌≡◌, ◌↔◌, Bool, true, false, ◌&&◌, Option, none, some, arith, Eq, ==_iff, string_eq, ◌==◌,
}

abbrev pub BareJid : Type 0
BareJid = String

pub record FullJid : Type 0 where
  pub bare : BareJid
  pub resource : String

abbrev pub full_jid_beq : FullJid → FullJid → Bool
full_jid_beq a b = a.bare == b.bare && a.resource == b.resource

pub full_jid_beq_iff : (a b : FullJid) → (full_jid_beq a b ≡ true) ↔ (a ≡ b)
full_jid_beq_iff a b = ground (arith, ==_iff a.bare b.bare, ==_iff a.resource b.resource)

instance abbrev pub full_jid_eq : Eq FullJid
full_jid_eq = record { equal = full_jid_beq; equal_iff = full_jid_beq_iff }

abbrev pub UserId : Type 0
UserId = BareJid

abbrev pub MucId : Type 0
MucId = BareJid

abbrev pub UserResourceId : Type 0
UserResourceId = FullJid

abbrev pub OccupantId : Type 0
OccupantId = FullJid

abbrev pub AnonOccupantId : Type 0
AnonOccupantId = String

abbrev pub CapabilitiesId : Type 0
CapabilitiesId = String

abbrev pub AvatarId : Type 0
AvatarId = String

pub data UserOrResourceId : Type 0 where
  user : UserId → UserOrResourceId
  user_resource : UserResourceId → UserOrResourceId

unfoldable pub to_user_id : UserOrResourceId → UserId
to_user_id (UserOrResourceId.user id) = id
to_user_id (UserOrResourceId.user_resource id) = id.bare

unfoldable pub resource_str : UserOrResourceId → Option String
resource_str (UserOrResourceId.user id) = none
resource_str (UserOrResourceId.user_resource id) = some id.resource

pub data ParticipantId : Type 0 where
  user : UserId → ParticipantId
  occupant : OccupantId → ParticipantId

abbrev pub participant_id_beq : ParticipantId → ParticipantId → Bool
participant_id_beq (ParticipantId.user a) (ParticipantId.user b) = a == b
participant_id_beq (ParticipantId.occupant a) (ParticipantId.occupant b) = a == b
participant_id_beq (ParticipantId.user a) (ParticipantId.occupant b) = false
participant_id_beq (ParticipantId.occupant a) (ParticipantId.user b) = false

pub participant_id_beq_iff : (a b : ParticipantId) → (participant_id_beq a b ≡ true) ↔ (a ≡ b)
participant_id_beq_iff (ParticipantId.user a) (ParticipantId.user b) = ground (arith, ==_iff a b)
participant_id_beq_iff (ParticipantId.occupant a) (ParticipantId.occupant b) =
    ground (arith, full_jid_beq_iff a b)
participant_id_beq_iff (ParticipantId.user a) (ParticipantId.occupant b) = ground arith
participant_id_beq_iff (ParticipantId.occupant a) (ParticipantId.user b) = ground arith

instance abbrev pub participant_id_eq : Eq ParticipantId
participant_id_eq = record { equal = participant_id_beq; equal_iff = participant_id_beq_iff }

pub data RoomId : Type 0 where
  user : UserId → RoomId
  muc : MucId → RoomId

-- `AsRef<BareJid>`, `into_bare`
unfoldable pub room_bare_jid : RoomId → BareJid
room_bare_jid (RoomId.user id) = id
room_bare_jid (RoomId.muc id) = id

unfoldable pub room_muc_id : RoomId → Option MucId
room_muc_id (RoomId.user id) = none
room_muc_id (RoomId.muc id) = some id

-- `ParticipantId::to_room_id`
unfoldable pub to_room_id : ParticipantId → RoomId
to_room_id (ParticipantId.user id) = RoomId.user id
to_room_id (ParticipantId.occupant id) = RoomId.muc id.bare

abbrev pub room_id_beq : RoomId → RoomId → Bool
room_id_beq (RoomId.user a) (RoomId.user b) = a == b
room_id_beq (RoomId.muc a) (RoomId.muc b) = a == b
room_id_beq (RoomId.user a) (RoomId.muc b) = false
room_id_beq (RoomId.muc a) (RoomId.user b) = false

pub room_id_beq_iff : (a b : RoomId) → (room_id_beq a b ≡ true) ↔ (a ≡ b)
room_id_beq_iff (RoomId.user a) (RoomId.user b) = ground (arith, ==_iff a b)
room_id_beq_iff (RoomId.muc a) (RoomId.muc b) = ground (arith, ==_iff a b)
room_id_beq_iff (RoomId.user a) (RoomId.muc b) = ground arith
room_id_beq_iff (RoomId.muc a) (RoomId.user b) = ground arith

instance abbrev pub room_id_eq : Eq RoomId
room_id_eq = record { equal = room_id_beq; equal_iff = room_id_beq_iff }
