-- ===== src/Contacts/ContactList/Tests.antt =====
-- A user asks to see the presence, and is approved.
use prose_core_client.Base.{
  inr, String, ◌≡◌, refl, false, none, some, List, [], ◌∷◌, any, ◌==◌, string_eq,
}
use prose_core_client.Base.Result.{ok, err}
use prose_core_client.Shared.Ids.{UserId}
use prose_core_client.Shared.Names.{TextTables}
use prose_core_client.Events.Models.{ClientEvent}
use prose_core_client.Contacts.Models.{PresenceSubscription, Contact}
use prose_core_client.Contacts.ContactList.{ContactList, contacts_of, subscription_of}
use prose_core_client.Contacts.ContactList.Service.{Answers, approve_presence_sub_request}
use prose_core_client.Contacts.ContactList.Approval.{approve_lem}

abbrev tables : TextTables
tables = record { node = λ j. none; to_uppercase = λ c. String.◌∷◌ c String.[] }

abbrev carol : UserId
carol = "carol@prose.org"

abbrev dave : UserId
dave = "dave@prose.org"

abbrev known : List Contact
known =
    record {
      id = dave;
      name = some "Dave";
      presence_subscription = PresenceSubscription.mutual_follow;
    }
    ∷ []

abbrev asked : ContactList
asked = record {
  contacts = some known;
  requests = record { user_id = carol; name = none } ∷ [];
  events = [];
}

abbrev granted : Answers String
granted = record {
  account = ok tt;
  load_contacts = ok known;
  add_contact = λ u. ok tt;
  preapprove_subscription_request = λ u. ok tt;
  subscribe_to_presence = λ u. ok tt;
  remove_contact = λ u. ok tt;
  revoke_presence_subscription = λ u. ok tt;
  approve_presence_sub_request = λ u. ok tt;
  deny_presence_sub_request = λ u. ok tt;
}

-- Where the roster refuses the contact, the request is gone all the same.
refused_run :
    approve_presence_sub_request tables
      (record granted { add_contact = λ u. err "conflict" })
      carol
      asked
    ≡ (
      err "conflict",
      record asked { requests = []; events = ClientEvent.presence_sub_requests_changed ∷ [] },
    )
unfolding approve_presence_sub_request
refused_run = refl

-- The contacts were not asked for yet.
abbrev unloaded : ContactList
unloaded = record asked { contacts = none }

approve_lem_example :
    ((approve_presence_sub_request tables granted carol unloaded).0 ≡ ok tt)
    × (any
          (λ q. q.user_id == carol)
          (approve_presence_sub_request tables granted carol unloaded).1.requests
        ≡ false)
    × (subscription_of carol
          (contacts_of (approve_presence_sub_request tables granted carol unloaded).1.contacts)
        ≡ some PresenceSubscription.requested)
approve_lem_example =
    approve_lem tables granted carol known unloaded refl refl refl refl refl (inr (refl, refl))
      (refl, tt)
