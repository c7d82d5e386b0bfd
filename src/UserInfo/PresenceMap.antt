-- ===== src/UserInfo/PresenceMap.antt =====
-- The presences of each user's resources, by priority (infra/user_info/presence_map.rs).
mod Entries
pub mod Valid
pub mod Highest
mod Tests
use prose_core_client.Base.{
  String, Bool, ◌&&◌, not, Option, none, some, List, [], ◌∷◌, retain, first, if◌then◌else◌, ◌==◌,
  Eq, string_eq, option_eq,
}
use prose_core_client.Base.Int.{leb_ℤ}
use prose_core_client.Base.Assoc.{lookup, and_modify, modify_or, remove}
use prose_core_client.Shared.Ids.{UserId, UserOrResourceId, FullJid, to_user_id, resource_str}
use prose_core_client.UserInfo.Models.{Presence, is_unavailable}

pub record PresenceEntry : Type 0 where
  pub resource : Option String
  pub presence : Presence

pub record PresenceMap : Type 0 where
  pub map : List (UserId × List PresenceEntry)

-- The removal of one resource.
unfoldable pub without_resource : Option String → List PresenceEntry → List PresenceEntry
without_resource resource = retain (λ p. not (p.resource == resource))

-- The first position whose priority is at most the new one's, or the end.
unfoldable pub insert_entry : PresenceEntry → List PresenceEntry → List PresenceEntry
insert_entry new [] = new ∷ []
insert_entry new (entry ∷ entries) =
    if leb_ℤ entry.presence.priority new.presence.priority
    then new ∷ entry ∷ entries
    else entry ∷ insert_entry new entries

-- What `insert_presence` does to the entries of its user.
unfoldable pub insert_in_entries :
    Option String → Presence → List PresenceEntry → List PresenceEntry
unfolding insert_entry
insert_in_entries resource presence entries =
    insert_entry (record { resource = resource; presence = presence })
      (retain (λ entry. not (entry.resource == resource) && not (entry.resource == none)) entries)

unfoldable pub remove_presence : UserOrResourceId → PresenceMap → PresenceMap
unfolding without_resource
remove_presence (UserOrResourceId.user id) m = record { map = remove id m.map }
remove_presence (UserOrResourceId.user_resource id) m = record {
  map = and_modify id.bare (without_resource (some id.resource)) m.map;
}

unfoldable pub insert_presence : UserOrResourceId → Presence → PresenceMap → PresenceMap
unfolding insert_in_entries
insert_presence id presence m = record {
  map = modify_or (to_user_id id) [] (insert_in_entries (resource_str id) presence) m.map;
}

unfoldable pub update_presence : UserOrResourceId → Presence → PresenceMap → PresenceMap
unfolding remove_presence insert_presence
update_presence from presence m =
    if is_unavailable presence.availability
    then remove_presence from m
    else insert_presence from presence m

abbrev first_of_entries : Option (List PresenceEntry) → Option PresenceEntry
first_of_entries none = none
first_of_entries (some entries) = first entries

unfoldable pub get_highest_presence : UserId → PresenceMap → Option PresenceEntry
get_highest_presence jid m = first_of_entries (lookup jid m.map)

unfoldable pub clear : PresenceMap → PresenceMap
clear m = record { map = [] }
