-- ===== src/Rooms/ParticipantList/Composing.antt =====
-- Who is shown as composing.
use mathlib.Core.Option
use prose_core_client.Base.{
  [], ◌∷◌, Perm, All, ◌≡◌, refl, sym, ap, subst, ◌∙◌, ◌↔◌, Bool, true, false, some, List, arith,
  retain, ==_iff, map, Occurs,
}
use prose_core_client.Base.Int.{ℤ, leb_ℤ}
use prose_core_client.Base.Assoc.{lookup, IsUnique, lookup-modify_or, modify_or, modify_or-IsUnique}
use prose_core_client.Base.Members.{Occurs-retain, Occurs-map, map_Occurs, Occurs-lookup}
use prose_core_client.Base.Sort.{
  sort_by, Occurs-sort_by, IsSorted, sort_by-IsSorted, sort_by-Perm, TotalPreorder,
}
use prose_core_client.Shared.Ids.{ParticipantId, participant_id_eq}
use prose_core_client.Shared.Names.{TextTables}
use prose_core_client.UserInfo.Models.{Availability}
use prose_core_client.Rooms.Models.{Participant, ParticipantBasicInfo, is_composing}
use prose_core_client.Rooms.ParticipantList.{
  ParticipantList, get, set_availability, change_availability, default_participant,
}
use prose_core_client.Rooms.ParticipantList.ComposingUsers.{
  basic_info, composing_users, started_composing, updated_before,
}

All-Unit : {A : Type 0} (xs : List A) → All {0, 0} (λ x. Unit) xs
All-Unit [] = tt
All-Unit (x ∷ xs) = (tt, All-Unit xs)

updated_before_order : TotalPreorder (λ e. Unit) updated_before
updated_before_order = record {
  total = λ a b p q h. ground arith;
  trans = λ a b c p q r h k. ground arith;
}

-- The participant composes since a time after `started_after`.
abbrev pub ComposesAfter : ℤ → Participant → Type 0
ComposesAfter started_after p =
    (is_composing p.compose_state ≡ true) × (leb_ℤ p.compose_state_updated started_after ≡ false)

started_composing_iff :
    (s : ℤ) (e : ParticipantId × Participant) → (started_composing s e ≡ true) ↔ ComposesAfter s e.1
started_composing_iff s e = ground arith

-- Who occurs in the entries that `composing_users` shows.
shown_iff :
    (s : ℤ) (id : ParticipantId) (p : Participant) (l : ParticipantList)
    → IsUnique l.participants_map
    → Occurs (id, p) (sort_by updated_before (retain (started_composing s) l.participants_map))
      ↔ ((get id l ≡ some p) × ComposesAfter s p)
unfolding get
shown_iff s id p l u = (
  λ o.
      let k =
        (Occurs-retain (id, p) (started_composing s) l.participants_map).0
          ((Occurs-sort_by updated_before (id, p) _).0 o) in
      ((Occurs-lookup id p l.participants_map u).0 k.0, (started_composing_iff s (id, p)).0 k.1),
  λ h. (Occurs-sort_by updated_before (id, p) _).1 (
      (Occurs-retain (id, p) (started_composing s) l.participants_map).1
        ((Occurs-lookup id p l.participants_map u).1 h.0, (started_composing_iff s (id, p)).1 h.1)),
)

-- In a list whose identifiers are distinct, a user is shown as composing exactly when it is a participant that composes since a time after
-- `started_after`, and it is shown with that participant's name and avatar.
pub composing_users_iff :
    (t : TextTables) (s : ℤ) (l : ParticipantList) (u : ParticipantBasicInfo)
    → IsUnique l.participants_map
    → Occurs u (composing_users t s l) ↔ (
        (p : Participant) × (get u.id l ≡ some p)
        × ComposesAfter s p
        × (u ≡ basic_info t (u.id, p)))
unfolding composing_users
composing_users_iff t s l u unique = (
  λ o.
      let (e, k, same) = Occurs-map (basic_info t) u _ o in
      let h = (shown_iff s e.0 e.1 l unique).0 k in rw same (e.1, h.0, h.1, refl),
  λ h.
      rw h.3
        (map_Occurs (basic_info t) (u.id, h.0) _ ((shown_iff s u.id h.0 l unique).1 (h.1, h.2))),
)

-- The shown users are exactly the participants that started composing after the given time, each as
-- often as it is listed, in the order of the times at which they started.
pub composing_users-IsSorted :
    (t : TextTables) (s : ℤ) (l : ParticipantList)
    → (shown : List (ParticipantId × Participant)) × IsSorted updated_before shown
      × Perm shown (retain (started_composing s) l.participants_map)
      × (composing_users t s l ≡ map (basic_info t) shown)
unfolding composing_users
composing_users-IsSorted t s l =
    let started = retain (started_composing s) l.participants_map in
    (
      sort_by updated_before started,
      sort_by-IsSorted updated_before (λ e. Unit) updated_before_order started (All-Unit started),
      sort_by-Perm updated_before started,
      refl,
    )

idle_of :
    (is_self : Bool) (q p : Participant)
    → some (change_availability is_self Availability.unavailable q) ≡ some p
    → is_composing p.compose_state ≡ false
idle_of is_self q p e =
    subst (λ x. is_composing x.compose_state ≡ false) (ap (λ o. Option.get_or o p) e) refl

lookup_modified :
    (id : ParticipantId) (f : Participant → Participant) (m : List (ParticipantId × Participant))
    → lookup id (modify_or id default_participant f m)
      ≡ some (f (Option.get_or (lookup id m) default_participant))
lookup_modified id f m =
    rw (lookup-modify_or id id default_participant f m, (==_iff id id).1 refl) refl

get-set_unavailable :
    (id : ParticipantId) (is_self : Bool) (l : ParticipantList) (p : Participant)
    → get id (set_availability id is_self Availability.unavailable l) ≡ some p
    → is_composing p.compose_state ≡ false
unfolding get set_availability
get-set_unavailable id is_self l p found =
    let f = change_availability is_self Availability.unavailable in
    idle_of is_self (Option.get_or (lookup id l.participants_map) default_participant) p
      (sym (lookup_modified id f l.participants_map) ∙ found)

set_availability-IsUnique :
    (id : ParticipantId) (is_self : Bool) (a : Availability) (l : ParticipantList)
    → IsUnique l.participants_map
    → IsUnique (set_availability id is_self a l).participants_map
unfolding set_availability
set_availability-IsUnique id is_self a l u =
    modify_or-IsUnique id default_participant (change_availability is_self a) l.participants_map u

-- In a list whose identifiers are distinct, a participant that becomes unavailable is no longer
-- shown as composing.
pub unavailable-composing_users :
    (t : TextTables) (s : ℤ) (is_self : Bool) (l : ParticipantList) (u : ParticipantBasicInfo)
    → IsUnique l.participants_map
    → ¬ Occurs u (composing_users t s (set_availability u.id is_self Availability.unavailable l))
unavailable-composing_users t s is_self l u unique o =
    let changed = set_availability u.id is_self Availability.unavailable l in
    let unique' = set_availability-IsUnique u.id is_self Availability.unavailable l unique in
    let h = (composing_users_iff t s changed u unique').0 o in
    absurd (cc (get-set_unavailable u.id is_self l h.0 h.1, h.2.0))
