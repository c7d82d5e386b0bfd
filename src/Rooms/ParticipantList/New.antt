-- ===== src/Rooms/ParticipantList/New.antt =====
-- `ParticipantList::new`: the occupants of a joined room, then its registered members.
use prose_core_client.Base.{String, Option, none, some, List, [], ◌∷◌, string_eq, option_eq}
use prose_core_client.Base.Int.{pos}
use prose_core_client.Base.Assoc.{lookup, insert, modify_or}
use prose_core_client.Shared.Ids.{
  UserId, OccupantId, AnonOccupantId, ParticipantId, participant_id_eq,
}
use prose_core_client.Rooms.Models.{
  ComposeState, RoomSessionParticipant, RegisteredMember, Participant,
}
use prose_core_client.Rooms.ParticipantList.{ParticipantList, default_participant, insert_some}

abbrev pub participant_of : RoomSessionParticipant → Participant
participant_of p = record {
  real_id = p.real_id;
  anon_occupant_id = p.anon_id;
  name = record { vcard = none; presence = p.presence.nickname };
  is_self = p.is_self;
  affiliation = p.affiliation;
  availability = p.presence.availability;
  avatar = p.presence.avatar;
  client = p.presence.client;
  caps = p.presence.caps;
  status = p.presence.status;
  compose_state = ComposeState.idle;
  compose_state_updated = pos 0;
}

-- The variables of `new`.
pub record NewState : Type 0 where
  pub anon_ids : List (AnonOccupantId × ParticipantId)
  pub participants : List (ParticipantId × Participant)
  pub occupants : List (UserId × OccupantId)

-- One round of the loop over the participants of `new`.
unfoldable pub add_session_participant : NewState → RoomSessionParticipant → NewState
unfolding insert
add_session_participant s p = record {
  anon_ids = insert_some p.anon_id (ParticipantId.occupant p.id) s.anon_ids;
  participants = insert (ParticipantId.occupant p.id) (participant_of p) s.participants;
  occupants = insert_some p.real_id p.id s.occupants;
}

unfoldable pub add_session_participants : NewState → List RoomSessionParticipant → NewState
unfolding add_session_participant
add_session_participants s [] = s
add_session_participants s (p ∷ ps) = add_session_participants (add_session_participant s p) ps

abbrev pub set_vcard : Option String → Participant → Participant
set_vcard name p = record p { name = record p.name { vcard = name } }

abbrev pub participant_of_member : RegisteredMember → Participant
participant_of_member m = record default_participant {
  real_id = some m.user_id;
  is_self = m.is_self;
  affiliation = m.affiliation;
}

abbrev pub member_key : Option OccupantId → UserId → ParticipantId
member_key none user_id = ParticipantId.user user_id
member_key (some id) user_id = ParticipantId.occupant id

-- One round of the loop over the members of `new`.
unfoldable pub add_member :
    List (UserId × OccupantId)
    → RegisteredMember
    → List (ParticipantId × Participant)
    → List (ParticipantId × Participant)
unfolding lookup modify_or
add_member occupants m participants =
    modify_or (member_key (lookup m.user_id occupants) m.user_id) (participant_of_member m)
      (set_vcard m.name) participants

unfoldable pub add_members :
    List (UserId × OccupantId)
    → List RegisteredMember
    → List (ParticipantId × Participant)
    → List (ParticipantId × Participant)
unfolding add_member
add_members occupants [] participants = participants
add_members occupants (m ∷ ms) participants =
    add_members occupants ms (add_member occupants m participants)

unfoldable pub new : List RegisteredMember → List RoomSessionParticipant → ParticipantList
unfolding add_session_participants add_members
new members participants =
    let s =
      add_session_participants (record { anon_ids = []; participants = []; occupants = [] })
        participants in
    record {
      anon_occupant_id_to_participant_id_map = s.anon_ids;
      participants_map = add_members s.occupants members s.participants;
    }
