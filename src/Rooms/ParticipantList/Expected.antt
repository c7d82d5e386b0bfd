-- ===== src/Rooms/ParticipantList/Expected.antt =====
-- Under which identifier a registered member of a new room is expected.
use prose_core_client.Base.{
  ◌≡◌, ◌∙◌, refl, sym, ap, Option, none, some, List, [], ◌∷◌, ◌==◌, Bool, true, false,
  if◌then◌else◌, string_eq, option_eq,
}
use prose_core_client.Base.Assoc.{lookup, lookup-insert}
use prose_core_client.Shared.Ids.{UserId, OccupantId, ParticipantId, full_jid_eq}
use prose_core_client.Rooms.Models.{RoomSessionParticipant}
use prose_core_client.Rooms.ParticipantList.{insert_some}
use prose_core_client.Rooms.ParticipantList.New.{
  NewState, add_session_participant, add_session_participants, member_key,
}

abbrev or_else : Option OccupantId → Option OccupantId → Option OccupantId
or_else none other = other
or_else (some id) other = some id

-- The last occupant that shows the user's id
unfoldable pub occupant_of : List RoomSessionParticipant → UserId → Option OccupantId
occupant_of [] u = none
occupant_of (p ∷ ps) u =
    or_else (occupant_of ps u) (if p.real_id == some u then some p.id else none)

abbrev id_of : Option OccupantId → UserId → ParticipantId
id_of none u = ParticipantId.user u
id_of (some id) u = ParticipantId.occupant id

unfoldable pub expected_id : List RoomSessionParticipant → UserId → ParticipantId
unfolding occupant_of
expected_id ps u = id_of (occupant_of ps u) u

lookup-insert_some :
    (real_id : Option UserId) (u : UserId) (id : OccupantId) (m : List (UserId × OccupantId))
    → lookup u (insert_some real_id id m) ≡ (if real_id == some u then some id else lookup u m)
lookup-insert_some none u id m = refl
lookup-insert_some (some v) u id m = lookup-insert v u id m

or_else_assoc :
    (o : Option OccupantId) (b : Bool) (id : OccupantId) (x : Option OccupantId)
    → or_else o (if b then some id else x) ≡ or_else (or_else o (if b then some id else none)) x
or_else_assoc none true id x = refl
or_else_assoc none false id x = refl
or_else_assoc (some a) b id x = refl

-- The map that the first loop builds yields the same occupants.
lookup-occupants :
    (s : NewState) (ps : List RoomSessionParticipant) (u : UserId)
    → lookup u (add_session_participants s ps).occupants
      ≡ or_else (occupant_of ps u) (lookup u s.occupants)
unfolding add_session_participants add_session_participant occupant_of
lookup-occupants s [] u = refl
lookup-occupants s (p ∷ ps) u =
    lookup-occupants (add_session_participant s p) ps u
    ∙ ap (or_else (occupant_of ps u)) (lookup-insert_some p.real_id u p.id s.occupants)
    ∙ or_else_assoc (occupant_of ps u) (p.real_id == some u) p.id (lookup u s.occupants)

or_none : (o : Option OccupantId) → or_else o none ≡ o
or_none none = refl
or_none (some id) = refl

id_of-member_key : (o : Option OccupantId) (u : UserId) → id_of o u ≡ member_key o u
id_of-member_key none u = refl
id_of-member_key (some id) u = refl

pub expected_id-lookup :
    (ps : List RoomSessionParticipant) (u : UserId)
    → expected_id ps u
      ≡ member_key
          (lookup u
            (add_session_participants
              (record { anon_ids = []; participants = []; occupants = [] })
              ps).occupants)
          u
unfolding expected_id lookup
expected_id-lookup ps u =
    id_of-member_key (occupant_of ps u) u
    ∙ ap (λ o. member_key o u)
        (sym (
          lookup-occupants (record { anon_ids = []; participants = []; occupants = [] }) ps u
          ∙ or_none (occupant_of ps u)))
