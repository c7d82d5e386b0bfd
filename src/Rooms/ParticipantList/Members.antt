-- ===== src/Rooms/ParticipantList/Members.antt =====
-- Registered users that are added to a room.
use mathlib.Core.Option
use prose_core_client.Base.{
  ◌≡◌, refl, inl, inr, String, Bool, true, Option, some, List, [], ◌∷◌, arith, any, ==_iff,
  Bool-cases, string_eq, option_eq,
}
use prose_core_client.Base.Assoc.{lookup, insert, modify_or}
use prose_core_client.Shared.Ids.{UserId, ParticipantId, participant_id_eq, full_jid_eq}
use prose_core_client.Rooms.Models.{Participant, RoomAffiliation}
use prose_core_client.Rooms.ParticipantList.{
  ParticipantList, add_user, has_real_id, change_user, default_participant,
}

any-insert :
    (p : ParticipantId × Participant → Bool) (k : ParticipantId) (v : Participant)
    (m : List (ParticipantId × Participant))
    → p (k, v) ≡ true
    → any p (insert k v m) ≡ true
unfolding insert
any-insert p k v [] h = ground (arith)
any-insert p k v ((j, w) ∷ m) h = ground (arith, any-insert p k v m h)

-- Adding a registered user twice is adding it once: the first entry stays.
pub add_user_again :
    (u : UserId) (s t : Bool) (a b : RoomAffiliation) (n o : Option String) (l : ParticipantList)
    → add_user u s a n (add_user u t b o l) ≡ add_user u t b o l
unfolding add_user modify_or
add_user_again u s t a b n o l = elim (Bool-cases (any (has_real_id u) l.participants_map)) [
  | inl known ↦ rw (known, known) refl
  | inr fresh ↦
      rw
        (
          fresh,
          any-insert (has_real_id u) (ParticipantId.user u)
              (change_user u t b o (
                Option.get_or (lookup (ParticipantId.user u) l.participants_map)
                  default_participant))
              l.participants_map ((==_iff (some u) (some u)).1 refl),
        )
        refl
]
