-- ===== src/Rooms/ParticipantList/Tests.antt =====
-- A room with an occupant and two registered members, and the theorems at it.
use prose_core_client.Base.{
  ◌≡◌, refl, ◌↔◌, inl, inr, String, false, none, some, List, [], ◌∷◌, string_eq, map, Occurs, Perm,
  retain,
}
use prose_core_client.Base.Int.{pos}
use prose_core_client.Base.Assoc.{IsUnique, lookup}
use prose_core_client.Base.Sort.{IsSorted}
use prose_core_client.Shared.Ids.{
  UserId, OccupantId, ParticipantId, participant_id_eq, AnonOccupantId,
}
use prose_core_client.Shared.Names.{TextTables}
use prose_core_client.UserInfo.Models.{Availability, default_presence}
use prose_core_client.Rooms.Models.{
  Participant, RoomAffiliation, ComposeState, RegisteredMember, RoomSessionParticipant,
  ParticipantBasicInfo,
}
use prose_core_client.Rooms.ParticipantList.{
  ParticipantList, get, get_user_id, set_ids_and_name, set_availability, default_participant,
}
use prose_core_client.Rooms.ParticipantList.New.{new}
use prose_core_client.Rooms.ParticipantList.Change.{Change, run_all}
use prose_core_client.Rooms.ParticipantList.Anonymous.{get_user_id-set_ids_and_name}
use prose_core_client.Rooms.ParticipantList.Linked.{IsLinked, run_all-IsLinked}
use prose_core_client.Rooms.ParticipantList.Occupants.{Shows}
use prose_core_client.Rooms.ParticipantList.Joined.{new-Shows}
use prose_core_client.Rooms.ParticipantList.Expected.{expected_id}
use prose_core_client.Rooms.ParticipantList.ComposingUsers.{
  basic_info, composing_users, started_composing, updated_before,
}
use prose_core_client.Rooms.ParticipantList.Composing.{
  ComposesAfter, composing_users_iff, composing_users-IsSorted, unavailable-composing_users,
}

abbrev anna : UserId
anna = "anna@prose.org"

abbrev bob : UserId
bob = "bob@prose.org"

abbrev anna_nick : OccupantId
anna_nick = record { bare = "room@conf.prose.org"; resource = "anna" }

abbrev anna_key : ParticipantId
anna_key = ParticipantId.occupant anna_nick

abbrev anon : AnonOccupantId
anon = "occ-1"

abbrev occupants : List RoomSessionParticipant
occupants =
    record {
      id = anna_nick;
      is_self = false;
      anon_id = some anon;
      real_id = some anna;
      affiliation = RoomAffiliation.owner;
      presence = default_presence;
    }
    ∷ []

abbrev member_named : UserId → String → RegisteredMember
member_named id name = record {
  user_id = id;
  affiliation = RoomAffiliation.member;
  name = some name;
  is_self = false;
}

abbrev members : List RegisteredMember
members = member_named anna "Anna" ∷ member_named bob "Bob" ∷ []

abbrev room : ParticipantList
room = record {
  anon_occupant_id_to_participant_id_map = (anon, anna_key) ∷ [];
  participants_map =
      (
        anna_key,
        record default_participant {
          real_id = some anna;
          anon_occupant_id = some anon;
          name = record { vcard = some "Anna"; presence = none };
          affiliation = RoomAffiliation.owner;
          compose_state = ComposeState.composing;
          compose_state_updated = pos 30;
        },
      )
      ∷ [];
}

new_run : get_user_id anon (new members occupants) ≡ some anna
unfolding get_user_id new
new_run = refl

new-Shows_example : Shows bob (get (expected_id occupants bob) (new members occupants))
new-Shows_example = new-Shows members occupants (member_named bob "Bob") (refl, tt) (inr (inl refl))

room_has_anna :
    get anna_key room
    ≡ some (record default_participant {
      real_id = some anna;
      anon_occupant_id = some anon;
      name = record { vcard = some "Anna"; presence = none };
      affiliation = RoomAffiliation.owner;
      compose_state = ComposeState.composing;
      compose_state_updated = pos 30;
    })
unfolding get lookup
room_has_anna = refl

abbrev other_anon : AnonOccupantId
other_anon = "occ-2"

get_user_id-set_ids_and_name_example :
    get_user_id other_anon (set_ids_and_name anna_key (some anna) (some other_anon) none room)
    ≡ some anna
get_user_id-set_ids_and_name_example =
    get_user_id-set_ids_and_name anna_key _ (some anna) other_anon none room room_has_anna
      (λ e. absurd (cc))

abbrev changes : List Change
changes =
    Change.ids_and_name anna_key (some anna) (some other_anon) none
    ∷ Change.removed anna_key
    ∷ Change.availability anna_key false Availability.available
    ∷ []

room-IsLinked : IsLinked room
unfolding lookup
room-IsLinked = (inl refl, tt)

run_all-IsLinked_example : IsLinked (run_all changes room)
run_all-IsLinked_example = run_all-IsLinked changes room room-IsLinked

room-IsUnique : IsUnique room.participants_map
unfolding lookup
room-IsUnique = (refl, tt)

abbrev tables : TextTables
tables = record { node = λ j. none; to_uppercase = λ c. String.◌∷◌ c String.[] }

abbrev shown_anna : ParticipantBasicInfo
shown_anna = record { id = anna_key; name = "Anna"; avatar = none }

composing_users_run : composing_users tables (pos 20) room ≡ shown_anna ∷ []
unfolding composing_users
composing_users_run = refl

composing_users_iff_example : Occurs shown_anna (composing_users tables (pos 20) room) ↔ (
    (p : Participant) × (get anna_key room ≡ some p)
    × ComposesAfter (pos 20) p
    × (shown_anna ≡ basic_info tables (anna_key, p)))
composing_users_iff_example = composing_users_iff tables (pos 20) room shown_anna room-IsUnique

composing_users-IsSorted_example :
    (shown : List (ParticipantId × Participant)) × IsSorted updated_before shown
    × Perm shown (retain (started_composing (pos 20)) room.participants_map)
    × (composing_users tables (pos 20) room ≡ map (basic_info tables) shown)
composing_users-IsSorted_example = composing_users-IsSorted tables (pos 20) room

unavailable-composing_users_example : ¬ Occurs shown_anna (
    composing_users tables (pos 20) (set_availability anna_key false Availability.unavailable room))
unavailable-composing_users_example =
    unavailable-composing_users tables (pos 20) false room shown_anna room-IsUnique
