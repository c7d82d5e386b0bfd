-- ===== src/UserInfo/PresenceMap/Tests.antt =====
-- The scenarios of the tests in presence_map.rs, and the theorems at one of them.
use prose_core_client.Base.{
  ◌≡◌, ◌≢◌, refl, none, some, [], ◌∷◌, All, ◌⊎◌, ℕ, String, arith, option_eq, string_eq,
}
use prose_core_client.Base.Int.{pos, ◌≤ℤ◌}
use prose_core_client.Base.Assoc.{lookup, modify_or, and_modify}
use prose_core_client.Shared.Ids.{UserOrResourceId, to_user_id, resource_str}
use prose_core_client.UserInfo.Models.{Presence, available, default_presence}
use prose_core_client.UserInfo.PresenceMap.{PresenceMap, update_presence, get_highest_presence}
use prose_core_client.UserInfo.PresenceMap.Entries.{rank}
use prose_core_client.UserInfo.PresenceMap.Valid.{IsValid, update_presence-IsValid}
use prose_core_client.UserInfo.PresenceMap.Highest.{
  entries_of, highest_is_max, update-highest_new, update_unavailable,
}

abbrev resource : String → UserOrResourceId
resource r = UserOrResourceId.user_resource (record { bare = "a@prose.org"; resource = r })

abbrev p : ℕ → Presence
p n = record default_presence { availability = available; priority = pos n }

abbrev one : PresenceMap
one = record { map = ("a@prose.org", record { resource = some "r1"; presence = p 2 } ∷ []) ∷ [] }

empty-IsValid : IsValid (record { map = [] })
unfolding lookup
empty-IsValid = record { unique = tt; entries = λ id es h. absurd (cc) }

one-IsValid : IsValid one
unfolding update_presence modify_or to_user_id resource_str
one-IsValid = update_presence-IsValid (resource "r1") (p 2) (record { map = [] }) empty-IsValid

-- test_update_with_eq_priority and test_update_with_lower_priority
priority_runs :
    (get_highest_presence "a@prose.org" (update_presence (resource "r2") (p 2) one)
      ≡ some (record { resource = some "r2"; presence = p 2 }))
    × (get_highest_presence "a@prose.org" (update_presence (resource "r2") (p 1) one)
        ≡ some (record { resource = some "r1"; presence = p 2 }))
    × (get_highest_presence "a@prose.org" (update_presence (resource "r1") default_presence one)
        ≡ none)
unfolding update_presence get_highest_presence lookup modify_or and_modify to_user_id resource_str
priority_runs = (refl, refl, refl)

update_presence-IsValid_example : IsValid (update_presence (resource "r2") (p 2) one)
update_presence-IsValid_example = update_presence-IsValid (resource "r2") (p 2) one one-IsValid

highest_is_max_example : All (λ e. rank e ≤ℤ pos 2) (entries_of "a@prose.org" one)
unfolding get_highest_presence lookup
highest_is_max_example =
    highest_is_max "a@prose.org" one (record { resource = some "r1"; presence = p 2 }) one-IsValid
      refl

update-highest_new_example :
    get_highest_presence (to_user_id (resource "r2")) (update_presence (resource "r2") (p 2) one)
    ≡ some (record { resource = resource_str (resource "r2"); presence = p 2 })
unfolding entries_of lookup to_user_id
update-highest_new_example = update-highest_new (resource "r2") (p 2) one refl (omega arith)

update_unavailable_example :
    All
      (λ e. e.resource ≢ resource_str (resource "r1"))
      (entries_of
        (to_user_id (resource "r1"))
        (update_presence (resource "r1") default_presence one))
    × ((resource_str (resource "r1") ≢ none)
        ⊎ (entries_of
              (to_user_id (resource "r1"))
              (update_presence (resource "r1") default_presence one)
            ≡ []))
update_unavailable_example = update_unavailable (resource "r1") default_presence one refl
