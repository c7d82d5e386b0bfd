-- ===== src/Rooms/ParticipantList/Occupants.antt =====
-- The first loop of `new`: which occupants are listed.
use prose_core_client.Base.{
  ◌≡◌, refl, subst, ◌||◌, inl, inr, Bool, false, Option, none, some, List, [], ◌∷◌, ◌==◌, arith,
  any, ==_iff, Bool-cases, string_eq, option_eq,
}
use prose_core_client.Base.Assoc.{lookup, insert, lookup-insert}
use prose_core_client.Shared.Ids.{UserId, OccupantId, ParticipantId, participant_id_eq, full_jid_eq}
use prose_core_client.Rooms.Models.{Participant, RoomSessionParticipant}
use prose_core_client.Rooms.ParticipantList.{insert_some}
use prose_core_client.Rooms.ParticipantList.New.{
  NewState, add_session_participant, add_session_participants, participant_of,
}

-- The entry is one of the user `u`.
abbrev pub Shows : UserId → Option Participant → Type 0
Shows u none = ⊥
Shows u (some p) = p.real_id ≡ some u

module _ (m : List (ParticipantId × Participant)) where
  abbrev pub HasOccupants : List (UserId × OccupantId) → Type 0
  HasOccupants [] = Unit
  HasOccupants ((u, o) ∷ rest) = Shows u (lookup (ParticipantId.occupant o) m) × HasOccupants rest

-- No two participants have the same id.
abbrev pub HasDistinctIds : List RoomSessionParticipant → Type 0
HasDistinctIds [] = Unit
HasDistinctIds (p ∷ ps) = (any (λ q. q.id == p.id) ps ≡ false) × HasDistinctIds ps

-- None of the participants is listed yet.
module _ (m : List (ParticipantId × Participant)) where
  abbrev pub AreNew : List RoomSessionParticipant → Type 0
  AreNew [] = Unit
  AreNew (p ∷ ps) = (lookup (ParticipantId.occupant p.id) m ≡ none) × AreNew ps

or_false : (a b : Bool) → (a || b) ≡ false → (a ≡ false) × (b ≡ false)
or_false a b h = ground arith

occupant_beq_false : (a b : OccupantId) → (a == b) ≡ false → (b == a) ≡ false
occupant_beq_false a b h = ground (arith, ==_iff a b, ==_iff b a)

lookup-insert_ne :
    (o q : OccupantId) (v : Participant) (m : List (ParticipantId × Participant))
    → (o == q) ≡ false
    → lookup (ParticipantId.occupant q) (insert (ParticipantId.occupant o) v m)
      ≡ lookup (ParticipantId.occupant q) m
lookup-insert_ne o q v m h =
    rw (lookup-insert (ParticipantId.occupant o) (ParticipantId.occupant q) v m, h) refl

AreNew-insert :
    (p : RoomSessionParticipant) (v : Participant) (m : List (ParticipantId × Participant))
    (ps : List RoomSessionParticipant)
    → any (λ q. q.id == p.id) ps ≡ false
    → AreNew m ps
    → AreNew (insert (ParticipantId.occupant p.id) v m) ps
AreNew-insert p v m [] d h = tt
AreNew-insert p v m (q ∷ qs) d h = (
  rw (lookup-insert_ne p.id q.id v m (occupant_beq_false q.id p.id (or_false _ _ d).0)) h.0,
  AreNew-insert p v m qs (or_false (q.id == p.id) _ d).1 h.1,
)

HasOccupants-insert :
    (o : OccupantId) (v : Participant) (m : List (ParticipantId × Participant))
    (occupants : List (UserId × OccupantId))
    → lookup (ParticipantId.occupant o) m ≡ none
    → HasOccupants m occupants
    → HasOccupants (insert (ParticipantId.occupant o) v m) occupants
HasOccupants-insert o v m [] f h = tt
HasOccupants-insert o v m ((u, q) ∷ rest) f h = elim (Bool-cases (o == q)) [
  | inl same ↦ absurd (subst (Shows u) f (rw ((==_iff o q).0 same) h.0))
  | inr other ↦ (rw (lookup-insert_ne o q v m other) h.0, HasOccupants-insert o v m rest f h.1)
]

-- An association of a user with an occupant is added.
HasOccupants-insert_some :
    (u : Option UserId) (o : OccupantId) (m : List (ParticipantId × Participant))
    (occupants : List (UserId × OccupantId))
    → ((v : UserId) → u ≡ some v → Shows v (lookup (ParticipantId.occupant o) m))
    → HasOccupants m occupants
    → HasOccupants m (insert_some u o occupants)
unfolding insert
HasOccupants-insert_some none o m occupants s h = h
HasOccupants-insert_some (some u) o m [] s h = (s u refl, tt)
HasOccupants-insert_some (some u) o m ((v, q) ∷ rest) s h = elim (Bool-cases (v == u)) [
  | inl same ↦ rw same (s u refl, h.1)
  | inr other ↦ rw other (h.0, HasOccupants-insert_some (some u) o m rest s h.1)
]

-- The map of occupants tells the truth, and no registered user is listed yet.
abbrev pub IsLoaded : NewState → Type 0
IsLoaded s = HasOccupants s.participants s.occupants

add_session_participant-IsLoaded :
    (s : NewState) (p : RoomSessionParticipant)
    → lookup (ParticipantId.occupant p.id) s.participants ≡ none
    → IsLoaded s
    → IsLoaded (add_session_participant s p)
unfolding add_session_participant
add_session_participant-IsLoaded s p f h =
    HasOccupants-insert_some p.real_id p.id
      (insert (ParticipantId.occupant p.id) (participant_of p) s.participants) s.occupants
      (λ v e.
        rw
          (
            lookup-insert (ParticipantId.occupant p.id) (ParticipantId.occupant p.id)
                (participant_of p) s.participants,
            (==_iff p.id p.id).1 refl,
          )
          e)
      (HasOccupants-insert p.id (participant_of p) s.participants s.occupants f h)

pub add_session_participants-IsLoaded :
    (s : NewState) (ps : List RoomSessionParticipant)
    → HasDistinctIds ps
    → AreNew s.participants ps
    → IsLoaded s
    → IsLoaded (add_session_participants s ps)
unfolding add_session_participants add_session_participant
add_session_participants-IsLoaded s [] d n h = h
add_session_participants-IsLoaded s (p ∷ ps) d n h =
    add_session_participants-IsLoaded (add_session_participant s p) ps d.1
      (AreNew-insert p (participant_of p) s.participants ps d.0 n.1)
      (add_session_participant-IsLoaded s p n.0 h)
