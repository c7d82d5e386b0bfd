-- ===== src/Rooms/ParticipantList.antt =====
-- `ParticipantList` (domain/rooms/models/participant_list.rs): the participants of a room by their
-- identifiers, and the participants behind anonymous occupant ids.
pub mod Change
pub mod New
pub mod ComposingUsers
pub mod Anonymous
pub mod Linked
pub mod Members
pub mod Occupants
pub mod Expected
pub mod Joined
pub mod Composing
mod Tests
use mathlib.Core.Option
use prose_core_client.Base.{
  String, Bool, true, false, not, Option, none, some, List, [], ◌∷◌, map, if◌then◌else◌, ◌==◌, ◌&&◌,
  any, find, retain, string_eq, option_eq,
}
use prose_core_client.Base.Int.{ℤ, pos, leb_ℤ}
use prose_core_client.Base.Assoc.{lookup, insert, remove, and_modify, modify_or}
use prose_core_client.Base.Sort.{sort_by}
use prose_core_client.Shared.Ids.{
  UserId, OccupantId, AnonOccupantId, ParticipantId, participant_id_eq,
}
use prose_core_client.Shared.Names.{TextTables, or_nickname, unwrap_or_participant_id}
use prose_core_client.UserInfo.Models.{Availability, Avatar, Presence, is_unavailable}
use prose_core_client.Rooms.Models.{
  RoomAffiliation, ComposeState, RoomSessionParticipant, RegisteredMember, ParticipantName,
  Participant, ParticipantBasicInfo, is_composing,
}

pub record ParticipantList : Type 0 where
  pub anon_occupant_id_to_participant_id_map : List (AnonOccupantId × ParticipantId)
  pub participants_map : List (ParticipantId × Participant)

-- `Participant::default`
abbrev pub default_participant : Participant
default_participant = record {
  real_id = none;
  anon_occupant_id = none;
  name = record { vcard = none; presence = none };
  is_self = false;
  affiliation = RoomAffiliation.none;
  availability = Availability.unavailable;
  avatar = none;
  client = none;
  caps = none;
  status = none;
  compose_state = ComposeState.idle;
  compose_state_updated = pos 0;
}

unfoldable pub for_direct_message : UserId → String → Presence → ParticipantList
for_direct_message contact_id contact_name presence = record {
  anon_occupant_id_to_participant_id_map = [];
  participants_map =
      (
        ParticipantId.user contact_id,
        record default_participant {
          real_id = some contact_id;
          name = record { vcard = some contact_name; presence = presence.nickname };
          affiliation = RoomAffiliation.owner;
          availability = presence.availability;
          avatar = presence.avatar;
          client = presence.client;
          caps = presence.caps;
          status = presence.status;
        },
      )
      ∷ [];
}

abbrev pub insert_some {ℓ} :
    {V : Type ℓ} → Option String → V → List (String × V) → List (String × V)
insert_some none v m = m
insert_some (some k) v m = insert k v m

abbrev pub change_availability : Bool → Availability → Participant → Participant
change_availability is_self availability p =
    let changed = record p { is_self = is_self; availability = availability } in
    if is_unavailable availability
    then record changed { compose_state = ComposeState.idle }
    else changed

unfoldable pub set_availability :
    ParticipantId → Bool → Availability → ParticipantList → ParticipantList
unfolding modify_or
set_availability id is_self availability l = record l {
  participants_map =
      modify_or id default_participant (change_availability is_self availability)
        l.participants_map;
}

abbrev pub change_presence : Presence → Participant → Participant
change_presence presence p = record p {
  name = record p.name { presence = presence.nickname };
  avatar = presence.avatar;
  client = presence.client;
  caps = presence.caps;
  status = presence.status;
}

unfoldable pub set_presence : ParticipantId → Bool → Presence → ParticipantList → ParticipantList
unfolding set_availability modify_or
set_presence id is_self presence l =
    let available = set_availability id is_self presence.availability l in
    record available {
      participants_map =
          modify_or id default_participant (change_presence presence) available.participants_map;
    }

abbrev pub change_affiliation : Bool → RoomAffiliation → Participant → Participant
change_affiliation is_self affiliation p = record p { affiliation = affiliation; is_self = is_self }

unfoldable pub set_affiliation :
    ParticipantId → Bool → RoomAffiliation → ParticipantList → ParticipantList
unfolding modify_or
set_affiliation id is_self affiliation l = record l {
  participants_map =
      modify_or id default_participant (change_affiliation is_self affiliation) l.participants_map;
}

abbrev pub change_compose_state : ℤ → ComposeState → Participant → Participant
change_compose_state timestamp compose_state p = record p {
  compose_state = compose_state;
  compose_state_updated = timestamp;
}

unfoldable pub set_compose_state :
    ParticipantId → ℤ → ComposeState → ParticipantList → ParticipantList
unfolding and_modify
set_compose_state id timestamp compose_state l = record l {
  participants_map =
      and_modify id (change_compose_state timestamp compose_state) l.participants_map;
}

unfoldable pub set_avatar : ParticipantId → Option Avatar → ParticipantList → ParticipantList
unfolding and_modify
set_avatar id avatar l = record l {
  participants_map = and_modify id (λ p. record p { avatar = avatar }) l.participants_map;
}

abbrev pub has_real_id : UserId → ParticipantId × Participant → Bool
has_real_id real_id e = e.1.real_id == some real_id

abbrev pub change_user : UserId → Bool → RoomAffiliation → Option String → Participant → Participant
change_user real_id is_self affiliation name p = record p {
  real_id = some real_id;
  affiliation = affiliation;
  is_self = is_self;
  name = record p.name { vcard = name };
}

unfoldable pub add_user :
    UserId → Bool → RoomAffiliation → Option String → ParticipantList → ParticipantList
unfolding modify_or
add_user real_id is_self affiliation name l =
    if any (has_real_id real_id) l.participants_map then l else record l {
      participants_map =
          modify_or (ParticipantId.user real_id) default_participant
            (change_user real_id is_self affiliation name) l.participants_map;
    }

abbrev pub change_ids :
    Option UserId → Option AnonOccupantId → Option String → Participant → Participant
change_ids real_id anon_occupant_id name p = record p {
  real_id = real_id;
  anon_occupant_id = anon_occupant_id;
  name = record p.name { vcard = name };
}

abbrev pub remove_registered :
    Option UserId → List (ParticipantId × Participant) → List (ParticipantId × Participant)
remove_registered none m = m
remove_registered (some real_id) m = remove (ParticipantId.user real_id) m

unfoldable pub set_ids_and_name :
    ParticipantId
    → Option UserId
    → Option AnonOccupantId
    → Option String
    → ParticipantList
    → ParticipantList
unfolding lookup insert remove and_modify
set_ids_and_name id real_id anon_occupant_id name l = elim (lookup id l.participants_map) [
  | none ↦ l
  | some participant ↦ record {
    participants_map =
        remove_registered real_id
          (and_modify id (change_ids real_id anon_occupant_id name) l.participants_map);
    anon_occupant_id_to_participant_id_map =
        insert_some anon_occupant_id id
          (retain (λ e. not (e.1 == id)) l.anon_occupant_id_to_participant_id_map);
  }
]

unfoldable pub get : ParticipantId → ParticipantList → Option Participant
unfolding lookup
get id l = lookup id l.participants_map

unfoldable pub get_user_id : AnonOccupantId → ParticipantList → Option UserId
unfolding lookup
get_user_id anon_occupant_id l =
    elim (lookup anon_occupant_id l.anon_occupant_id_to_participant_id_map) [
      | none ↦ none
      | some id ↦ elim (lookup id l.participants_map) [
        | none ↦ none
        | some participant ↦ participant.real_id
      ]
    ]

-- `ParticipantList::remove`
unfoldable pub remove_participant : ParticipantId → ParticipantList → ParticipantList
unfolding remove
remove_participant id l = record l { participants_map = remove id l.participants_map }
