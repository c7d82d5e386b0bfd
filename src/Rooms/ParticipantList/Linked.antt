-- ===== src/Rooms/ParticipantList/Linked.antt =====
-- What `set_ids_and_name` and the other operations do to the map of anonymous occupant ids.
use mathlib.Core.Option
use prose_core_client.Base.{
  ◌≡◌, refl, ◌⊎◌, inl, inr, Bool, not, Option, none, some, List, [], ◌∷◌, ◌==◌, arith, retain,
  ==_iff, Option-cases, Bool-cases, string_eq, String, any,
}
use prose_core_client.Base.Assoc.{
  lookup, insert, remove, and_modify, modify_or, lookup-remove, lookup-and_modify, lookup-modify_or,
}
use prose_core_client.Shared.Ids.{UserId, AnonOccupantId, ParticipantId, participant_id_eq}
use prose_core_client.UserInfo.Models.{Availability}
use prose_core_client.Rooms.Models.{Participant, RoomAffiliation}
use prose_core_client.Rooms.ParticipantList.{
  ParticipantList, set_ids_and_name, change_ids, remove_registered, default_participant,
  set_availability, set_presence, set_affiliation, set_compose_state, set_avatar, add_user,
  remove_participant, has_real_id, change_availability, change_presence, change_affiliation,
  change_compose_state, change_user,
}
use prose_core_client.Rooms.ParticipantList.Change.{Change, run, run_all}
use prose_core_client.Rooms.ParticipantList.Anonymous.{
  ids_set, lookup-ids_set, set_ids_and_name_found, set_ids_and_name_missing,
}

-- What the anonymous id `a` may resolve to.
abbrev pub IsLink : AnonOccupantId → Option Participant → Type 0
IsLink a none = Unit
IsLink a (some p) = (p.anon_occupant_id ≡ some a) ⊎ (p.anon_occupant_id ≡ none)

module _ (m : List (ParticipantId × Participant)) where
  abbrev pub HasLinks : List (AnonOccupantId × ParticipantId) → Type 0
  HasLinks [] = Unit
  HasLinks ((a, id) ∷ rest) = IsLink a (lookup id m) × HasLinks rest

abbrev pub IsLinked : ParticipantList → Type 0
IsLinked l = HasLinks l.participants_map l.anon_occupant_id_to_participant_id_map

-- A change of the participants that leaves their anonymous ids alone or drops them.
HasLinks-change :
    (m n : List (ParticipantId × Participant))
    → ((a : AnonOccupantId) (id : ParticipantId) → IsLink a (lookup id m) → IsLink a (lookup id n))
    → (anon : List (AnonOccupantId × ParticipantId)) → HasLinks m anon
    → HasLinks n anon
HasLinks-change m n step [] h = tt
HasLinks-change m n step ((a, id) ∷ rest) h = (step a id h.0, HasLinks-change m n step rest h.1)

module _ (f : Participant → Participant)
    (keeps : (p : Participant) → (f p).anon_occupant_id ≡ p.anon_occupant_id) where
  IsLink-some :
      (a : AnonOccupantId) (o : Option Participant)
      → IsLink a o
      → IsLink a (some (f (Option.get_or o default_participant)))
  IsLink-some a none h = inr (keeps default_participant)
  IsLink-some a (some p) h = rw (keeps p) h

  IsLink-map :
      (a : AnonOccupantId) (o : Option Participant) → IsLink a o → IsLink a (Option.map f o)
  IsLink-map a none h = tt
  IsLink-map a (some p) h = rw (keeps p) h

  HasLinks-modify_or :
      (key : ParticipantId) (m : List (ParticipantId × Participant))
      (anon : List (AnonOccupantId × ParticipantId))
      → HasLinks m anon
      → HasLinks (modify_or key default_participant f m) anon
  HasLinks-modify_or key m = HasLinks-change m (modify_or key default_participant f m) (λ a id h.
      rw (lookup-modify_or key id default_participant f m) elim (Bool-cases (key == id)) [
        | inl same ↦ rw (same, (==_iff key id).0 same) (IsLink-some a (lookup id m) h)
        | inr other ↦ rw other h
      ])

  HasLinks-and_modify :
      (key : ParticipantId) (m : List (ParticipantId × Participant))
      (anon : List (AnonOccupantId × ParticipantId))
      → HasLinks m anon
      → HasLinks (and_modify key f m) anon
  HasLinks-and_modify key m = HasLinks-change m (and_modify key f m) (λ a id h.
      rw (lookup-and_modify key id f m) elim (Bool-cases (key == id)) [
        | inl same ↦ rw same (IsLink-map a (lookup id m) h)
        | inr other ↦ rw other h
      ])

HasLinks-remove :
    (key : ParticipantId) (m : List (ParticipantId × Participant))
    (anon : List (AnonOccupantId × ParticipantId))
    → HasLinks m anon
    → HasLinks (remove key m) anon
HasLinks-remove key m = HasLinks-change m (remove key m) (λ a id h.
    rw (lookup-remove key id m)
      elim (Bool-cases (key == id)) [ inl same ↦ rw same tt | inr other ↦ rw other h ])

HasLinks-remove_registered :
    (r : Option UserId) (m : List (ParticipantId × Participant))
    (anon : List (AnonOccupantId × ParticipantId))
    → HasLinks m anon
    → HasLinks (remove_registered r m) anon
HasLinks-remove_registered none m anon h = h
HasLinks-remove_registered (some r) m anon h = HasLinks-remove (ParticipantId.user r) m anon h

HasLinks-insert :
    (m : List (ParticipantId × Participant)) (a : AnonOccupantId) (id : ParticipantId)
    (anon : List (AnonOccupantId × ParticipantId))
    → IsLink a (lookup id m)
    → HasLinks m anon
    → HasLinks m (insert a id anon)
unfolding insert
HasLinks-insert m a id [] k h = (k, tt)
HasLinks-insert m a id ((b, j) ∷ rest) k h = elim (Bool-cases (b == a)) [
  | inl same ↦ rw same (k, h.1)
  | inr other ↦ rw other (h.0, HasLinks-insert m a id rest k h.1)
]

-- Without the links to `id`, a change of the participant `id` breaks none.
HasLinks-retain :
    (id : ParticipantId) (f : Participant → Participant) (m : List (ParticipantId × Participant))
    (anon : List (AnonOccupantId × ParticipantId))
    → HasLinks m anon
    → HasLinks (and_modify id f m) (retain (λ e. not (e.1 == id)) anon)
HasLinks-retain id f m [] h = tt
HasLinks-retain id f m ((a, j) ∷ rest) h = elim (Bool-cases (j == id)) [
  | inl same ↦ rw same (HasLinks-retain id f m rest h.1)
  | inr other ↦
      rw (other, lookup-and_modify id j f m)
        (ground (arith, ==_iff id j, ==_iff j id), HasLinks-retain id f m rest h.1)
]

IsLink-ids_set :
    (id : ParticipantId) (p : Participant) (r : Option UserId) (a : AnonOccupantId)
    (name : Option String) (l : ParticipantList)
    → lookup id l.participants_map ≡ some p
    → IsLink a (lookup id (ids_set id r (some a) name l).participants_map)
unfolding remove
IsLink-ids_set id p none a name l found =
    rw (lookup-ids_set id p none (some a) name l found (λ e. absurd (cc))) (inl refl)
IsLink-ids_set id p (some u) a name l found = elim (Bool-cases (ParticipantId.user u == id)) [
  | inl same ↦
      rw
        (
          lookup-remove (ParticipantId.user u) id
              (and_modify id (change_ids (some u) (some a) name) l.participants_map),
          same,
        )
        tt
  | inr other ↦
      rw
        (
          lookup-remove (ParticipantId.user u) id
              (and_modify id (change_ids (some u) (some a) name) l.participants_map),
          other,
          lookup-and_modify id id (change_ids (some u) (some a) name) l.participants_map,
          (==_iff id id).1 refl,
          found,
        )
        (inl refl)
]

set_ids-HasLinks :
    (id : ParticipantId) (p : Participant) (r : Option UserId) (a : Option AnonOccupantId)
    (name : Option String) (l : ParticipantList)
    → lookup id l.participants_map ≡ some p
    → IsLinked l
    → IsLinked (ids_set id r a name l)
set_ids-HasLinks id p r none name l found h =
    HasLinks-remove_registered r (and_modify id (change_ids r none name) l.participants_map) _
      (HasLinks-retain id (change_ids r none name) l.participants_map _ h)
set_ids-HasLinks id p r (some a) name l found h =
    HasLinks-insert
      (remove_registered r (and_modify id (change_ids r (some a) name) l.participants_map)) a id _
      (IsLink-ids_set id p r a name l found)
      (HasLinks-remove_registered r (and_modify id (change_ids r (some a) name) l.participants_map)
        _ (HasLinks-retain id (change_ids r (some a) name) l.participants_map _ h))

set_ids_and_name-IsLinked :
    (id : ParticipantId) (r : Option UserId) (a : Option AnonOccupantId) (name : Option String)
    (l : ParticipantList)
    → IsLinked l
    → IsLinked (set_ids_and_name id r a name l)
set_ids_and_name-IsLinked id r a name l h = elim (Option-cases (lookup id l.participants_map)) [
  | inl missing ↦ rw (set_ids_and_name_missing id r a name l missing) h
  | inr (p, found) ↦
      rw (set_ids_and_name_found id p r a name l found) (set_ids-HasLinks id p r a name l found h)
]

change_availability_keeps :
    (is_self : Bool) (a : Availability) (p : Participant)
    → (change_availability is_self a p).anon_occupant_id ≡ p.anon_occupant_id
change_availability_keeps is_self a p = ground arith

add_user-IsLinked :
    (u : UserId) (is_self : Bool) (a : RoomAffiliation) (name : Option String) (l : ParticipantList)
    → IsLinked l
    → IsLinked (add_user u is_self a name l)
unfolding add_user
add_user-IsLinked u is_self a name l h =
    elim (Bool-cases (any (has_real_id u) l.participants_map)) [
      | inl known ↦ rw known h
      | inr fresh ↦ rw fresh (
          HasLinks-modify_or (change_user u is_self a name) (λ p. refl) (ParticipantId.user u) _ _
            h)
    ]

-- No operation makes an anonymous id resolve to a participant that has another one.
pub run-IsLinked : (c : Change) (l : ParticipantList) → IsLinked l → IsLinked (run c l)
unfolding run set_availability set_presence set_affiliation set_compose_state set_avatar
    remove_participant
run-IsLinked (Change.availability id is_self a) l h =
    HasLinks-modify_or (change_availability is_self a) (change_availability_keeps is_self a) id _ _
      h
run-IsLinked (Change.presence id is_self p) l h =
    HasLinks-modify_or (change_presence p) (λ q. refl) id _ _
      (HasLinks-modify_or (change_availability is_self p.availability)
        (change_availability_keeps is_self p.availability) id _ _ h)
run-IsLinked (Change.affiliation id is_self a) l h =
    HasLinks-modify_or (change_affiliation is_self a) (λ q. refl) id _ _ h
run-IsLinked (Change.compose_state id t c) l h =
    HasLinks-and_modify (change_compose_state t c) (λ q. refl) id _ _ h
run-IsLinked (Change.avatar id a) l h =
    HasLinks-and_modify (λ p. record p { avatar = a }) (λ q. refl) id _ _ h
run-IsLinked (Change.registered u is_self a name) l h = add_user-IsLinked u is_self a name l h
run-IsLinked (Change.ids_and_name id r a name) l h = set_ids_and_name-IsLinked id r a name l h
run-IsLinked (Change.removed id) l h = HasLinks-remove id _ _ h

-- Where no anonymous id points to a participant with another one, none does after any changes.
pub run_all-IsLinked :
    (cs : List Change) (l : ParticipantList) → IsLinked l → IsLinked (run_all cs l)
unfolding run_all
run_all-IsLinked [] l h = h
run_all-IsLinked (c ∷ cs) l h = run_all-IsLinked cs (run c l) (run-IsLinked c l h)
