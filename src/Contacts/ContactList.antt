-- ===== src/Contacts/ContactList.antt =====
-- The contact list: its cache (infra/contacts/caching_contacts_repository.rs), the requests of
-- others to see the presence (infra/contacts/presence_sub_requests_repository.rs).
pub mod Service
pub mod Store
pub mod Approval
mod Tests
use prose_core_client.Base.{
  String, Bool, true, false, not, Option, none, some, List, [], ◌∷◌, ◌++◌, any, if◌then◌else◌, ◌==◌,
  string_eq,
}
use prose_core_client.Base.Result.{Result, ok, err}
use prose_core_client.Shared.Ids.{UserId}
use prose_core_client.Shared.Names.{TextTables, formatted_username}
use prose_core_client.Events.Models.{ClientEvent}
use prose_core_client.Contacts.Models.{
  PresenceSubscription, subscription_beq, Contact, PresenceSubRequest,
}

-- The two repositories, and the events that the service dispatched.
pub record ContactList : Type 0 where
  pub contacts : Option (List Contact)
  pub requests : List PresenceSubRequest
  pub events : List ClientEvent

abbrev pub contacts_of : Option (List Contact) → List Contact
contacts_of none = []
contacts_of (some cs) = cs

-- The first contact with the id gets the subscription.
unfoldable pub set_subscription : UserId → PresenceSubscription → List Contact → List Contact
set_subscription id subscription [] = []
set_subscription id subscription (c ∷ cs) =
    if c.id == id
    then record c { presence_subscription = subscription } ∷ cs
    else c ∷ set_subscription id subscription cs

-- `iter().find(|c| &c.id == contact_id)`, and its subscription
unfoldable pub subscription_of : UserId → List Contact → Option PresenceSubscription
subscription_of id [] = none
subscription_of id (c ∷ cs) =
    let rest = subscription_of id cs in if c.id == id then some c.presence_subscription else rest

abbrev same_subscription : Option PresenceSubscription → PresenceSubscription → Bool
same_subscription none b = false
same_subscription (some a) b = subscription_beq a b

abbrev is_some_subscription : Option PresenceSubscription → Bool
is_some_subscription none = false
is_some_subscription (some a) = true

-- `CachingContactsRepository::set` on a loaded list, and whether it changed
unfoldable pub set_contact :
    TextTables → UserId → PresenceSubscription → List Contact → Bool × List Contact
unfolding set_subscription subscription_of formatted_username
set_contact t id subscription cs =
    if is_some_subscription (subscription_of id cs)
    then (if same_subscription (subscription_of id cs) subscription
        then (false, cs)
        else (true, set_subscription id subscription cs))
    else (
      true,
      cs
          ++ record {
            id = id;
            name = some (formatted_username t id);
            presence_subscription = subscription;
          }
            ∷ [],
    )

-- `Vec::swap_remove` of the first contact with the id: the last one takes its place.
abbrev pub last_first : List Contact → List Contact
last_first [] = []
last_first (c ∷ cs) = elim (last_first cs) [ [] ↦ c ∷ [] | l ∷ rest ↦ l ∷ c ∷ rest ]

unfoldable pub swap_remove_contact : UserId → List Contact → List Contact
swap_remove_contact id [] = []
swap_remove_contact id (c ∷ cs) =
    if c.id == id then last_first cs else c ∷ swap_remove_contact id cs

-- `CachingContactsRepository::delete` on a loaded list, and whether it changed
unfoldable pub delete_contact : UserId → List Contact → Bool × List Contact
unfolding swap_remove_contact
delete_contact id cs =
    if any (λ c. c.id == id) cs then (true, swap_remove_contact id cs) else (false, cs)

-- `PresenceSubRequestsRepository::set`
unfoldable pub set_request :
    PresenceSubRequest → List PresenceSubRequest → Bool × List PresenceSubRequest
set_request r rs =
    if any (λ q. q.user_id == r.user_id) rs then (false, rs) else (true, rs ++ r ∷ [])

abbrev remove_request : UserId → List PresenceSubRequest → List PresenceSubRequest
remove_request id [] = []
remove_request id (r ∷ rs) = if r.user_id == id then rs else r ∷ remove_request id rs

-- `PresenceSubRequestsRepository::delete`
unfoldable pub delete_request : UserId → List PresenceSubRequest → Bool × List PresenceSubRequest
delete_request id rs =
    if any (λ q. q.user_id == id) rs then (true, remove_request id rs) else (false, rs)
