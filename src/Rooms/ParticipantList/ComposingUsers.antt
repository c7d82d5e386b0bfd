-- ===== src/Rooms/ParticipantList/ComposingUsers.antt =====
-- `ParticipantList::composing_users`.
use prose_core_client.Base.{
  String, Bool, not, Option, none, List, map, ◌&&◌, retain, string_eq, option_eq,
}
use prose_core_client.Base.Int.{ℤ, leb_ℤ}
use prose_core_client.Base.Sort.{sort_by}
use prose_core_client.Shared.Ids.{ParticipantId, participant_id_eq}
use prose_core_client.Shared.Names.{TextTables, or_nickname, unwrap_or_participant_id}
use prose_core_client.Rooms.Models.{Participant, ParticipantBasicInfo, is_composing}
use prose_core_client.Rooms.ParticipantList.{ParticipantList}

-- `Participant::name`
abbrev pub participant_name : Participant → Option String
participant_name p = or_nickname (or_nickname none p.name.presence) p.name.vcard

abbrev pub started_composing : ℤ → ParticipantId × Participant → Bool
started_composing started_after e =
    is_composing e.1.compose_state && not (leb_ℤ e.1.compose_state_updated started_after)

abbrev pub updated_before : ParticipantId × Participant → ParticipantId × Participant → Bool
updated_before a b = leb_ℤ a.1.compose_state_updated b.1.compose_state_updated

abbrev pub basic_info : TextTables → ParticipantId × Participant → ParticipantBasicInfo
basic_info t e = record {
  id = e.0;
  name = unwrap_or_participant_id t (participant_name e.1) e.0;
  avatar = e.1.avatar;
}

unfoldable pub composing_users : TextTables → ℤ → ParticipantList → List ParticipantBasicInfo
unfolding sort_by or_nickname unwrap_or_participant_id
composing_users t started_after l =
    map (basic_info t)
      (sort_by updated_before (retain (started_composing started_after) l.participants_map))
