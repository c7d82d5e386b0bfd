-- ===== src/Rooms/ParticipantList/Anonymous.antt =====
-- The participants behind anonymous occupant ids.
use prose_core_client.Base.{
  ◌≡◌, refl, ◌≢◌, not, Option, none, some, List, ◌==◌, arith, retain, ==_iff, string_eq, String,
}
use prose_core_client.Base.Assoc.{
  lookup, remove, and_modify, lookup-insert, lookup-remove, lookup-and_modify,
}
use prose_core_client.Shared.Ids.{UserId, AnonOccupantId, ParticipantId, participant_id_eq}
use prose_core_client.Rooms.Models.{Participant}
use prose_core_client.Rooms.ParticipantList.{
  ParticipantList, insert_some, set_ids_and_name, get_user_id, get, change_ids, remove_registered,
}

-- `Option<&UserId>` as the key of a registered user
abbrev pub registered_key : Option UserId → Option ParticipantId
registered_key none = none
registered_key (some r) = some (ParticipantId.user r)

pub lookup-remove_registered :
    (r : Option UserId) (id : ParticipantId) (m : List (ParticipantId × Participant))
    → registered_key r ≢ some id
    → lookup id (remove_registered r m) ≡ lookup id m
unfolding lookup remove
lookup-remove_registered none id m h = refl
lookup-remove_registered (some r) id m h =
    ground (arith, lookup-remove (ParticipantId.user r) id m, ==_iff (ParticipantId.user r) id)

abbrev pub ids_set :
    ParticipantId
    → Option UserId
    → Option AnonOccupantId
    → Option String
    → ParticipantList
    → ParticipantList
ids_set id r a name l = record {
  participants_map = remove_registered r (and_modify id (change_ids r a name) l.participants_map);
  anon_occupant_id_to_participant_id_map =
      insert_some a id (retain (λ e. not (e.1 == id)) l.anon_occupant_id_to_participant_id_map);
}

pub set_ids_and_name_found :
    (id : ParticipantId) (p : Participant) (r : Option UserId) (a : Option AnonOccupantId)
    (name : Option String) (l : ParticipantList)
    → lookup id l.participants_map ≡ some p
    → set_ids_and_name id r a name l ≡ ids_set id r a name l
unfolding set_ids_and_name
set_ids_and_name_found id p r a name l found = rw (set_ids_and_name, found) refl

pub set_ids_and_name_missing :
    (id : ParticipantId) (r : Option UserId) (a : Option AnonOccupantId) (name : Option String)
    (l : ParticipantList)
    → lookup id l.participants_map ≡ none
    → set_ids_and_name id r a name l ≡ l
unfolding set_ids_and_name
set_ids_and_name_missing id r a name l missing = rw (set_ids_and_name, missing) refl

pub lookup-ids_set :
    (id : ParticipantId) (p : Participant) (r : Option UserId) (a : Option AnonOccupantId)
    (name : Option String) (l : ParticipantList)
    → lookup id l.participants_map ≡ some p
    → registered_key r ≢ some id
    → lookup id (ids_set id r a name l).participants_map ≡ some (change_ids r a name p)
lookup-ids_set id p r a name l found other =
    rw
      (
        lookup-remove_registered r id (and_modify id (change_ids r a name) l.participants_map)
            other,
        lookup-and_modify id id (change_ids r a name) l.participants_map,
        (==_iff id id).1 refl,
        found,
      )
      refl

get_user_id_found :
    (a : AnonOccupantId) (id : ParticipantId) (p : Participant) (l : ParticipantList)
    → lookup a l.anon_occupant_id_to_participant_id_map ≡ some id
    → lookup id l.participants_map ≡ some p
    → get_user_id a l ≡ p.real_id
unfolding get_user_id
get_user_id_found a id p l h k = rw (get_user_id, h, k) refl

get_user_id-ids_set :
    (id : ParticipantId) (p : Participant) (r : Option UserId) (a : AnonOccupantId)
    (name : Option String) (l : ParticipantList)
    → lookup id l.participants_map ≡ some p
    → registered_key r ≢ some id
    → get_user_id a (ids_set id r (some a) name l) ≡ r
get_user_id-ids_set id p r a name l found other =
    get_user_id_found a id (change_ids r (some a) name p) (ids_set id r (some a) name l)
      (rw
        (
          lookup-insert a a id
              (retain (λ e. not (e.1 == id)) l.anon_occupant_id_to_participant_id_map),
          (==_iff a a).1 refl,
        )
        refl)
      (lookup-ids_set id p r (some a) name l found other)

-- After the ids of a listed participant are set, its anonymous id resolves to the real id, unless
-- the participant is listed as the registered user with that real id.
pub get_user_id-set_ids_and_name :
    (id : ParticipantId) (p : Participant) (r : Option UserId) (a : AnonOccupantId)
    (name : Option String) (l : ParticipantList)
    → get id l ≡ some p
    → registered_key r ≢ some id
    → get_user_id a (set_ids_and_name id r (some a) name l) ≡ r
unfolding get
get_user_id-set_ids_and_name id p r a name l found other =
    rw (set_ids_and_name_found id p r (some a) name l found)
      (get_user_id-ids_set id p r a name l found other)
