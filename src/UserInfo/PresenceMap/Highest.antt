-- ===== src/UserInfo/PresenceMap/Highest.antt =====
-- The highest presence of a user, before and after an update (presence_map.rs).
use mathlib.Core.Option
use prose_core_client.Base.{
  String, ◌≡◌, ◌≢◌, refl, sym, ap, ◌∙◌, true, false, Option, none, some, List, [], ◌∷◌, All, first,
  arith, ==_iff, string_eq, Option-cases, ◌⊎◌, inl, inr, beq_refl, option_eq,
}
use prose_core_client.Base.Int.{◌≤ℤ◌}
use prose_core_client.Base.Assoc.{lookup, lookup-remove, lookup-and_modify, lookup-modify_or}
use prose_core_client.Shared.Ids.{UserId, UserOrResourceId, to_user_id, resource_str}
use prose_core_client.UserInfo.Models.{Presence, is_unavailable}
use prose_core_client.UserInfo.PresenceMap.{
  PresenceEntry, PresenceMap, without_resource, insert_in_entries, remove_presence, insert_presence,
  update_presence, get_highest_presence,
}
use prose_core_client.UserInfo.PresenceMap.Entries.{
  rank, without_resource_absent, first_is_max, insert_in_entries-first_new,
  insert_in_entries-first_old,
}
use prose_core_client.UserInfo.PresenceMap.Valid.{IsValid, get_or_valid}

-- The entries that the map holds for a user.
unfoldable pub entries_of : UserId → PresenceMap → List PresenceEntry
entries_of id m = Option.get_or (lookup id m.map) []

highest-first :
    (id : UserId) (m : PresenceMap) → get_highest_presence id m ≡ first (entries_of id m)
unfolding get_highest_presence entries_of
highest-first id m = elim (Option-cases (lookup id m.map)) [
  | inl miss ↦ rw miss
  | inr (es, hit) ↦ rw hit
]

-- In a valid map no entry of a user has a higher priority than the highest presence of that user.
pub highest_is_max :
    (id : UserId) (m : PresenceMap) (h : PresenceEntry)
    → IsValid m
    → get_highest_presence id m ≡ some h
    → All (λ e. rank e ≤ℤ rank h) (entries_of id m)
unfolding entries_of
highest_is_max id m h v e =
    first_is_max (entries_of id m) h (get_or_valid (lookup id m.map) (v.entries id)).0
      (sym (highest-first id m) ∙ e)

insert_presence-entries :
    (id : UserOrResourceId) (p : Presence) (m : PresenceMap)
    → entries_of (to_user_id id) (insert_presence id p m)
      ≡ insert_in_entries (resource_str id) p (entries_of (to_user_id id) m)
unfolding entries_of insert_presence
insert_presence-entries id p m = ground (
  arith,
  lookup-modify_or (to_user_id id) (to_user_id id) [] (insert_in_entries (resource_str id) p) m.map,
  beq_refl (to_user_id id),
)

lookup-remove_other :
    (from : UserOrResourceId) (m : PresenceMap) (id : UserId)
    → to_user_id from ≢ id
    → lookup id (remove_presence from m).map ≡ lookup id m.map
unfolding remove_presence to_user_id
lookup-remove_other (UserOrResourceId.user u) m id ne =
    ground (arith, lookup-remove u id m.map, ==_iff u id)
lookup-remove_other (UserOrResourceId.user_resource u) m id ne = ground (
  arith,
  lookup-and_modify u.bare id (without_resource (some u.resource)) m.map,
  ==_iff u.bare id,
)

lookup-update_other :
    (from : UserOrResourceId) (p : Presence) (m : PresenceMap) (id : UserId)
    → to_user_id from ≢ id
    → lookup id (update_presence from p m).map ≡ lookup id m.map
unfolding update_presence insert_presence
lookup-update_other from p m id ne = ground (
  arith,
  lookup-remove_other from m id,
  lookup-modify_or (to_user_id from) id [] (insert_in_entries (resource_str from) p) m.map,
  ==_iff (to_user_id from) id,
)

-- An update leaves the highest presence of every other user as it was.
pub update-highest_other :
    (from : UserOrResourceId) (p : Presence) (m : PresenceMap) (id : UserId)
    → to_user_id from ≢ id
    → get_highest_presence id (update_presence from p m) ≡ get_highest_presence id m
unfolding get_highest_presence
update-highest_other from p m id ne = rw (lookup-update_other from p m id ne)

-- A presence that is not unavailable, with a priority at least that of each entry of its user, is
-- the highest one after the update: it wins ties.
pub update-highest_new :
    (from : UserOrResourceId) (p : Presence) (m : PresenceMap)
    → is_unavailable p.availability ≡ false
    → All (λ e. rank e ≤ℤ p.priority) (entries_of (to_user_id from) m)
    → get_highest_presence (to_user_id from) (update_presence from p m)
      ≡ some (record { resource = resource_str from; presence = p })
unfolding update_presence
update-highest_new from p m here top = rw here (
    highest-first (to_user_id from) (insert_presence from p m)
    ∙ ap first (insert_presence-entries from p m)
    ∙ insert_in_entries-first_new (resource_str from) p (entries_of (to_user_id from) m) top)

first-cons :
    (es : List PresenceEntry) (h : PresenceEntry)
    → first es ≡ some h
    → (rest : List PresenceEntry) × (es ≡ h ∷ rest)
first-cons [] h e = absurd (cc)
first-cons (x ∷ xs) h e = (xs, cc)

-- A presence that is not unavailable, for another resource than that of the highest presence, with a
-- lower priority than it, leaves the highest presence in place, if that one names a resource.
pub update-highest_old :
    (from : UserOrResourceId) (p : Presence) (m : PresenceMap) (h : PresenceEntry)
    → is_unavailable p.availability ≡ false
    → get_highest_presence (to_user_id from) m ≡ some h
    → h.resource ≢ resource_str from
    → h.resource ≢ none
    → ¬ (rank h ≤ℤ p.priority)
    → get_highest_presence (to_user_id from) (update_presence from p m) ≡ some h
unfolding update_presence
update-highest_old from p m h here high other named above =
    let (rest, e) =
      first-cons (entries_of (to_user_id from) m) h
        (sym (highest-first (to_user_id from) m) ∙ high) in
    rw here (
      highest-first (to_user_id from) (insert_presence from p m)
      ∙ ap first (insert_presence-entries from p m ∙ ap (insert_in_entries (resource_str from) p) e)
      ∙ insert_in_entries-first_old (resource_str from) p h rest other named above)

map_absent :
    (resource : Option String) (o : Option (List PresenceEntry))
    → All (λ e. e.resource ≢ resource) (Option.get_or (Option.map (without_resource resource) o) [])
map_absent resource none = tt
map_absent resource (some es) = without_resource_absent resource es

-- After an unavailable presence no entry of its resource is left, and after one of a bare user id no
-- entry of that user at all.
pub update_unavailable :
    (from : UserOrResourceId) (p : Presence) (m : PresenceMap)
    → is_unavailable p.availability ≡ true
    → All
        (λ e. e.resource ≢ resource_str from)
        (entries_of (to_user_id from) (update_presence from p m))
      × ((resource_str from ≢ none)
          ⊎ (entries_of (to_user_id from) (update_presence from p m) ≡ []))
unfolding update_presence remove_presence entries_of to_user_id resource_str
update_unavailable (UserOrResourceId.user u) p m gone =
    rw (gone, lookup-remove u u m.map, beq_refl u) (tt, inr refl)
update_unavailable (UserOrResourceId.user_resource u) p m gone =
    rw
      (
        gone,
        lookup-and_modify u.bare u.bare (without_resource (some u.resource)) m.map,
        beq_refl u.bare,
      )
      (map_absent (some u.resource) (lookup u.bare m.map), inl (ground arith))
