-- ===== src/Rooms/ParticipantList/Change.antt =====
-- The operations that change a participant list, as one type of changes.
use prose_core_client.Base.{String, Bool, Option, List, [], ◌∷◌}
use prose_core_client.Base.Int.{ℤ}
use prose_core_client.Shared.Ids.{UserId, AnonOccupantId, ParticipantId}
use prose_core_client.UserInfo.Models.{Availability, Avatar, Presence}
use prose_core_client.Rooms.Models.{RoomAffiliation, ComposeState}
use prose_core_client.Rooms.ParticipantList.{
  ParticipantList, set_availability, set_presence, set_affiliation, set_compose_state, set_avatar,
  add_user, set_ids_and_name, remove_participant,
}

pub data Change : Type 0 where
  availability : ParticipantId → Bool → Availability → Change
  presence : ParticipantId → Bool → Presence → Change
  affiliation : ParticipantId → Bool → RoomAffiliation → Change
  compose_state : ParticipantId → ℤ → ComposeState → Change
  avatar : ParticipantId → Option Avatar → Change
  registered : UserId → Bool → RoomAffiliation → Option String → Change
  ids_and_name : ParticipantId → Option UserId → Option AnonOccupantId → Option String → Change
  removed : ParticipantId → Change

unfoldable pub run : Change → ParticipantList → ParticipantList
unfolding set_availability set_presence set_affiliation set_compose_state set_avatar add_user
    set_ids_and_name remove_participant
run (availability id is_self a) l = set_availability id is_self a l
run (presence id is_self p) l = set_presence id is_self p l
run (affiliation id is_self a) l = set_affiliation id is_self a l
run (compose_state id t c) l = set_compose_state id t c l
run (avatar id a) l = set_avatar id a l
run (registered id is_self a name) l = add_user id is_self a name l
run (ids_and_name id real anon name) l = set_ids_and_name id real anon name l
run (removed id) l = remove_participant id l

unfoldable pub run_all : List Change → ParticipantList → ParticipantList
unfolding run
run_all [] l = l
run_all (c ∷ cs) l = run_all cs (run c l)
