-- ===== src/UserInfo/PresenceMap/Valid.antt =====
-- The invariant of the presence map.
use mathlib.Core.Option
use prose_core_client.Base.{
  ◌≡◌, refl, subst, Option, none, some, List, [], arith, ◌==◌, string_eq, Bool-cases, inl, inr,
  option_eq,
}
use prose_core_client.Base.Assoc.{
  lookup, IsUnique, lookup-remove, lookup-and_modify, lookup-modify_or, remove-IsUnique,
  and_modify-IsUnique, modify_or-IsUnique,
}
use prose_core_client.Shared.Ids.{UserId, UserOrResourceId, to_user_id, resource_str}
use prose_core_client.UserInfo.Models.{Presence, is_unavailable}
use prose_core_client.UserInfo.PresenceMap.{
  PresenceEntry, PresenceMap, without_resource, insert_in_entries, remove_presence, insert_presence,
  update_presence,
}
use prose_core_client.UserInfo.PresenceMap.Entries.{
  IsOrdered, HasDistinctResources, without_resource-IsOrdered,
  without_resource-HasDistinctResources, insert_in_entries-IsOrdered,
  insert_in_entries-HasDistinctResources,
}

abbrev pub IsValidEntries : List PresenceEntry → Type 0
IsValidEntries es = IsOrdered es × HasDistinctResources es

-- Every user stands once, with entries by falling priority and no resource twice.
pub record IsValid (m : PresenceMap) : Type 0 where
  pub unique : IsUnique m.map
  pub entries :
      (id : UserId) (es : List PresenceEntry) → lookup id m.map ≡ some es → IsValidEntries es

map_valid :
    (f : List PresenceEntry → List PresenceEntry) (o : Option (List PresenceEntry))
    → ((es : List PresenceEntry) → IsValidEntries es → IsValidEntries (f es))
    → ((es : List PresenceEntry) → o ≡ some es → IsValidEntries es)
    → (es : List PresenceEntry) → Option.map f o ≡ some es
    → IsValidEntries es
map_valid f none keep valid es h = absurd (cc)
map_valid f (some a) keep valid es h =
    let e : f a ≡ es = cc in subst IsValidEntries e (keep a (valid a refl))

pub get_or_valid :
    (o : Option (List PresenceEntry))
    → ((es : List PresenceEntry) → o ≡ some es → IsValidEntries es)
    → IsValidEntries (Option.get_or o [])
get_or_valid none valid = (tt, tt)
get_or_valid (some a) valid = valid a refl

remove_presence-IsValid :
    (id : UserOrResourceId) (m : PresenceMap) → IsValid m → IsValid (remove_presence id m)
unfolding remove_presence
remove_presence-IsValid (UserOrResourceId.user id) m v = record {
  unique = remove-IsUnique id m.map v.unique;
  entries = λ j es h. v.entries j es (ground (arith, lookup-remove id j m.map));
}
remove_presence-IsValid (UserOrResourceId.user_resource id) m v = record {
  unique = and_modify-IsUnique id.bare _ m.map v.unique;
  entries = λ j es h. elim (Bool-cases (id.bare == j)) [
    | inl same ↦
        map_valid (without_resource (some id.resource)) (lookup j m.map)
          (λ xs k.
            (without_resource-IsOrdered _ xs k.0, without_resource-HasDistinctResources _ xs k.1))
          (v.entries j) es
          (ground (arith, lookup-and_modify id.bare j (without_resource (some id.resource)) m.map))
    | inr other ↦
        v.entries j es
          (ground (arith, lookup-and_modify id.bare j (without_resource (some id.resource)) m.map))
  ];
}

insert_presence-IsValid :
    (id : UserOrResourceId) (p : Presence) (m : PresenceMap)
    → IsValid m
    → IsValid (insert_presence id p m)
unfolding insert_presence
insert_presence-IsValid id p m v = record {
  unique = modify_or-IsUnique (to_user_id id) [] _ m.map v.unique;
  entries = λ j es h.
      let f = insert_in_entries (resource_str id) p in
      let stored = lookup-modify_or (to_user_id id) j [] f m.map in
      elim (Bool-cases (to_user_id id == j)) [
        | inl same ↦
            let old = get_or_valid (lookup (to_user_id id) m.map) (v.entries (to_user_id id)) in
            let e : f (Option.get_or (lookup (to_user_id id) m.map) []) ≡ es =
              ground (arith, stored) in
            subst IsValidEntries e (
              insert_in_entries-IsOrdered (resource_str id) p _ old.0,
              insert_in_entries-HasDistinctResources (resource_str id) p _ old.1,
            )
        | inr other ↦ v.entries j es (ground (arith, stored))
      ];
}

-- An update keeps a map valid, whether it stores a presence or removes one: each user keeps one list
-- of entries, by falling priority and with no resource twice.
pub update_presence-IsValid :
    (from : UserOrResourceId) (p : Presence) (m : PresenceMap)
    → IsValid m
    → IsValid (update_presence from p m)
unfolding update_presence
update_presence-IsValid from p m v = elim (Bool-cases (is_unavailable p.availability)) [
  | inl gone ↦ rw gone (remove_presence-IsValid from m v)
  | inr here ↦ rw here (insert_presence-IsValid from p m v)
]
