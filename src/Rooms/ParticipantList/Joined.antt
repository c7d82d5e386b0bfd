-- ===== src/Rooms/ParticipantList/Joined.antt =====
-- The second loop of `new`: under which identifier a member is listed.
use mathlib.Core.Option
use prose_core_client.Base.{
  ◌≡◌, refl, subst, ap, inl, inr, String, Option, none, some, List, [], ◌∷◌, ◌==◌, ==_iff,
  Option-cases, Bool-cases, Occurs, string_eq, option_eq,
}
use prose_core_client.Base.Assoc.{lookup, modify_or, lookup-insert, lookup-modify_or}
use prose_core_client.Shared.Ids.{UserId, OccupantId, ParticipantId, participant_id_eq, full_jid_eq}
use prose_core_client.Rooms.Models.{Participant, RegisteredMember, RoomSessionParticipant}
use prose_core_client.Rooms.ParticipantList.{get}
use prose_core_client.Rooms.ParticipantList.New.{
  new, NewState, add_session_participant, add_session_participants, add_member, add_members,
  member_key, participant_of, participant_of_member, set_vcard,
}
use prose_core_client.Rooms.ParticipantList.Expected.{expected_id, expected_id-lookup}
use prose_core_client.Rooms.ParticipantList.Occupants.{
  Shows, HasOccupants, HasDistinctIds, AreNew, add_session_participants-IsLoaded,
}

abbrev ShowsIfListed : UserId → Option Participant → Type 0
ShowsIfListed u none = Unit
ShowsIfListed u (some p) = p.real_id ≡ some u

HasOccupants-at :
    (m : List (ParticipantId × Participant)) (occupants : List (UserId × OccupantId)) (u : UserId)
    (o : OccupantId)
    → lookup u occupants ≡ some o
    → HasOccupants m occupants
    → Shows u (lookup (ParticipantId.occupant o) m)
unfolding lookup
HasOccupants-at m [] u o = λ e h. absurd (cc)
HasOccupants-at m ((v, q) ∷ rest) u o = elim (Bool-cases (v == u)) [
  | inl same ↦
      rw (same, (==_iff v u).0 same)
        (λ e h.
          subst (λ x. Shows u (lookup (ParticipantId.occupant x) m)) (ap (λ x. Option.get_or x o) e)
            h.0)
  | inr other ↦ rw other (λ e h. HasOccupants-at m rest u o e h.1)
]

-- The name of a member changes no real id.
Shows-set_vcard :
    (u : UserId) (name : Option String) (d : Participant) (o : Option Participant)
    → Shows u o
    → Shows u (some (set_vcard name (Option.get_or o d)))
Shows-set_vcard u name d none h = absurd h
Shows-set_vcard u name d (some p) h = h

Shows-modify_or :
    (u : UserId) (k j : ParticipantId) (name : Option String) (d : Participant)
    (m : List (ParticipantId × Participant))
    → Shows u (lookup j m)
    → Shows u (lookup j (modify_or k d (set_vcard name) m))
Shows-modify_or u k j name d m h =
    rw (lookup-modify_or k j d (set_vcard name) m) elim (Bool-cases (k == j)) [
      | inl same ↦ rw (same, (==_iff k j).0 same) (Shows-set_vcard u name d (lookup j m) h)
      | inr other ↦ rw other h
    ]

Shows-set_member :
    (r : RegisteredMember) (o : Option Participant)
    → ShowsIfListed r.user_id o
    → Shows r.user_id (some (set_vcard r.name (Option.get_or o (participant_of_member r))))
Shows-set_member r none h = refl
Shows-set_member r (some p) h = h

-- A registered member without an occupant is listed as itself.
Shows-registered :
    (r : RegisteredMember) (m : List (ParticipantId × Participant))
    → ShowsIfListed r.user_id (lookup (ParticipantId.user r.user_id) m)
    → Shows r.user_id (
        lookup
          (ParticipantId.user r.user_id)
          (modify_or (ParticipantId.user r.user_id) (participant_of_member r) (set_vcard r.name) m))
Shows-registered r m h =
    rw
      (
        lookup-modify_or (ParticipantId.user r.user_id) (ParticipantId.user r.user_id)
            (participant_of_member r) (set_vcard r.name) m,
        (==_iff r.user_id r.user_id).1 refl,
      )
      (Shows-set_member r (lookup (ParticipantId.user r.user_id) m) h)

Shows-ShowsIfListed : (u : UserId) (o : Option Participant) → Shows u o → ShowsIfListed u o
Shows-ShowsIfListed u none h = tt
Shows-ShowsIfListed u (some p) h = h

add_member-Shows :
    (occupants : List (UserId × OccupantId)) (r : RegisteredMember)
    (m : List (ParticipantId × Participant))
    → HasOccupants m occupants
    → ShowsIfListed r.user_id (lookup (ParticipantId.user r.user_id) m)
    → Shows r.user_id
        (lookup (member_key (lookup r.user_id occupants) r.user_id) (add_member occupants r m))
unfolding add_member
add_member-Shows occupants r m h k = elim (Option-cases (lookup r.user_id occupants)) [
  | inl out ↦ rw out (Shows-registered r m k)
  | inr (o, there) ↦ rw there (
      Shows-modify_or r.user_id (ParticipantId.occupant o) (ParticipantId.occupant o) r.name
        (participant_of_member r) m (HasOccupants-at m occupants r.user_id o there h))
]

HasOccupants-modify_or :
    (k : ParticipantId) (name : Option String) (d : Participant)
    (m : List (ParticipantId × Participant)) (occupants : List (UserId × OccupantId))
    → HasOccupants m occupants
    → HasOccupants (modify_or k d (set_vcard name) m) occupants
HasOccupants-modify_or k name d m [] h = tt
HasOccupants-modify_or k name d m ((u, o) ∷ rest) h = (
  Shows-modify_or u k (ParticipantId.occupant o) name d m h.0,
  HasOccupants-modify_or k name d m rest h.1,
)

-- The registered users among the participants are listed as themselves.
HasUsers : List (ParticipantId × Participant) → Type 0
HasUsers m = (u : UserId) → ShowsIfListed u (lookup (ParticipantId.user u) m)

-- The key of a registered user is touched only by that user.
ShowsIfListed-member :
    (c : Option OccupantId) (r : RegisteredMember) (u : UserId)
    (m : List (ParticipantId × Participant))
    → ShowsIfListed r.user_id (lookup (ParticipantId.user r.user_id) m)
    → ShowsIfListed u (lookup (ParticipantId.user u) m)
    → ShowsIfListed u (
        lookup
          (ParticipantId.user u)
          (modify_or (member_key c r.user_id) (participant_of_member r) (set_vcard r.name) m))
ShowsIfListed-member (some o) r u m h k =
    rw
      (lookup-modify_or (ParticipantId.occupant o) (ParticipantId.user u) (participant_of_member r)
        (set_vcard r.name) m)
      k
ShowsIfListed-member none r u m h k = elim (Bool-cases (r.user_id == u)) [
  | inl same ↦
      subst
        (λ x. ShowsIfListed x (
          lookup (ParticipantId.user x) (
            modify_or (ParticipantId.user r.user_id) (participant_of_member r) (set_vcard r.name)
              m)))
        ((==_iff r.user_id u).0 same) (Shows-ShowsIfListed r.user_id _ (Shows-registered r m h))
  | inr other ↦
      rw
        (
          lookup-modify_or (ParticipantId.user r.user_id) (ParticipantId.user u)
              (participant_of_member r) (set_vcard r.name) m,
          other,
        )
        k
]

add_member-HasUsers :
    (occupants : List (UserId × OccupantId)) (r : RegisteredMember)
    (m : List (ParticipantId × Participant))
    → HasUsers m
    → HasUsers (add_member occupants r m)
unfolding add_member HasUsers
add_member-HasUsers occupants r m h =
    λ u. ShowsIfListed-member (lookup r.user_id occupants) r u m (h r.user_id) (h u)

add_members_keep :
    (occupants : List (UserId × OccupantId)) (rs : List RegisteredMember)
    (m : List (ParticipantId × Participant)) (u : UserId) (j : ParticipantId)
    → Shows u (lookup j m)
    → Shows u (lookup j (add_members occupants rs m))
unfolding add_members add_member
add_members_keep occupants [] m u j h = h
add_members_keep occupants (r ∷ rs) m u j h =
    add_members_keep occupants rs (add_member occupants r m) u j (
      Shows-modify_or u (member_key (lookup r.user_id occupants) r.user_id) j r.name
        (participant_of_member r) m h)

add_members-Shows :
    (occupants : List (UserId × OccupantId)) (rs : List RegisteredMember)
    (m : List (ParticipantId × Participant)) (r : RegisteredMember)
    → HasOccupants m occupants
    → HasUsers m
    → Occurs r rs
    → Shows r.user_id
        (lookup (member_key (lookup r.user_id occupants) r.user_id) (add_members occupants rs m))
unfolding add_members HasUsers add_member
add_members-Shows occupants [] m r h k o = absurd o
add_members-Shows occupants (q ∷ rs) m r h k (inl e) = rw e (
    add_members_keep occupants rs (add_member occupants q m) q.user_id
      (member_key (lookup q.user_id occupants) q.user_id)
      (add_member-Shows occupants q m h (k q.user_id)))
add_members-Shows occupants (q ∷ rs) m r h k (inr o) =
    add_members-Shows occupants rs (add_member occupants q m) r
      (HasOccupants-modify_or (member_key (lookup q.user_id occupants) q.user_id) q.name
        (participant_of_member q) m occupants h)
      (add_member-HasUsers occupants q m k) o

AreNew-nil : (ps : List RoomSessionParticipant) → AreNew [] ps
unfolding lookup
AreNew-nil [] = tt
AreNew-nil (p ∷ ps) = (refl, AreNew-nil ps)

session-HasUsers :
    (s : NewState) (ps : List RoomSessionParticipant)
    → HasUsers s.participants
    → HasUsers (add_session_participants s ps).participants
unfolding add_session_participants add_session_participant HasUsers
session-HasUsers s [] h = h
session-HasUsers s (p ∷ ps) h = session-HasUsers (add_session_participant s p) ps (λ u.
    rw
      (lookup-insert (ParticipantId.occupant p.id) (ParticipantId.user u) (participant_of p)
        s.participants)
      (h u))

-- Where no two occupants have the same id, every registered member of a new room is listed: under
-- the last occupant that shows its user id, and under its user id when no occupant shows it.
pub new-Shows :
    (members : List RegisteredMember) (ps : List RoomSessionParticipant) (r : RegisteredMember)
    → HasDistinctIds ps
    → Occurs r members
    → Shows r.user_id (get (expected_id ps r.user_id) (new members ps))
unfolding get new HasUsers lookup
new-Shows members ps r d o =
    let start : NewState = record { anon_ids = []; participants = []; occupants = [] } in
    let s = add_session_participants start ps in
    rw (expected_id-lookup ps r.user_id) (
      add_members-Shows s.occupants members s.participants r
        (add_session_participants-IsLoaded start ps d (AreNew-nil ps) tt)
        (session-HasUsers start ps (λ u. tt)) o)
