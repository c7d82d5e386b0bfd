-- ===== src/Contacts/ContactList/Approval.antt =====
-- `approve_presence_sub_request` of contact_list_domain_service.rs, and the operations that it calls.
use prose_core_client.Base.{
  ◌≡◌, refl, ap, ◌∙◌, Bool, true, false, none, some, inl, inr, ◌⊎◌, List, any, ◌==◌, ==_iff,
  string_eq,
}
use prose_core_client.Base.Result.{ok}
use prose_core_client.Shared.Ids.{UserId}
use prose_core_client.Shared.Names.{TextTables}
use prose_core_client.Contacts.Models.{PresenceSubscription, Contact}
use prose_core_client.Contacts.ContactList.{
  ContactList, contacts_of, subscription_of, set_contact, delete_request,
}
use prose_core_client.Contacts.ContactList.Service.{
  Answers, report, approve_presence_sub_request, add_contact, withdraw_request,
  handle_updated_contact, load_contacts, load_contacts_if_needed,
}
use prose_core_client.Contacts.ContactList.Store.{
  HasDistinctUsers, any-delete_request, subscription_of-set_contact,
}
use prose_core_client.Events.Models.{ClientEvent}

abbrev withdrawn : UserId → ContactList → ContactList
withdrawn from s =
    report ClientEvent.presence_sub_requests_changed (delete_request from s.requests).0
      (record s { requests = (delete_request from s.requests).1 })

abbrev updated :
    TextTables → UserId → PresenceSubscription → List Contact → ContactList → ContactList
updated t id p cs s =
    report ClientEvent.contact_list_changed (set_contact t id p cs).0
      (record s { contacts = some (set_contact t id p cs).1 })

report-requests :
    (e : ClientEvent) (b : Bool) (s : ContactList) → (report e b s).requests ≡ s.requests
report-requests e true s = refl
report-requests e false s = refl

report-contacts :
    (e : ClientEvent) (b : Bool) (s : ContactList) → (report e b s).contacts ≡ s.contacts
report-contacts e true s = refl
report-contacts e false s = refl

requests-withdrawn :
    (from : UserId) (s : ContactList)
    → (withdrawn from s).requests ≡ (delete_request from s.requests).1
requests-withdrawn from s =
    report-requests ClientEvent.presence_sub_requests_changed (delete_request from s.requests).0 _

contacts-withdrawn : (from : UserId) (s : ContactList) → (withdrawn from s).contacts ≡ s.contacts
contacts-withdrawn from s =
    report-contacts ClientEvent.presence_sub_requests_changed (delete_request from s.requests).0 _

requests-updated :
    (t : TextTables) (id : UserId) (p : PresenceSubscription) (cs : List Contact) (s : ContactList)
    → (updated t id p cs s).requests ≡ s.requests
requests-updated t id p cs s =
    report-requests ClientEvent.contact_list_changed (set_contact t id p cs).0 _

contacts-updated :
    (t : TextTables) (id : UserId) (p : PresenceSubscription) (cs : List Contact) (s : ContactList)
    → (updated t id p cs s).contacts ≡ some (set_contact t id p cs).1
contacts-updated t id p cs s =
    report-contacts ClientEvent.contact_list_changed (set_contact t id p cs).0 _

module _ {E : Type 0} (t : TextTables) (a : Answers E) where
  -- The contacts are loaded already, or the server yields them.
  abbrev pub HasContacts : List Contact → ContactList → Type 0
  HasContacts cs s = (s.contacts ≡ some cs) ⊎ ((s.contacts ≡ none) × (a.load_contacts ≡ ok cs))

  withdraw_ok :
      (from : UserId) (s : ContactList)
      → a.account ≡ ok tt
      → withdraw_request t a from s ≡ (ok tt, withdrawn from s)
  unfolding withdraw_request
  withdraw_ok from s acc = rw (withdraw_request, acc) refl

  updated_ok :
      (id : UserId) (p : PresenceSubscription) (cs : List Contact) (s : ContactList)
      → a.account ≡ ok tt
      → HasContacts cs s
      → handle_updated_contact t a id p s ≡ (ok tt, updated t id p cs s)
  unfolding handle_updated_contact load_contacts load_contacts_if_needed
  updated_ok id p cs s acc (inl loaded) =
      rw (handle_updated_contact, load_contacts, acc, load_contacts_if_needed, loaded) refl
  updated_ok id p cs s acc (inr (empty, loads)) =
      rw (handle_updated_contact, load_contacts, acc, load_contacts_if_needed, empty, loads) refl

  withdrawn-HasContacts :
      (from : UserId) (cs : List Contact) (s : ContactList)
      → HasContacts cs s
      → HasContacts cs (withdrawn from s)
  withdrawn-HasContacts from cs s (inl loaded) = inl (contacts-withdrawn from s ∙ loaded)
  withdrawn-HasContacts from cs s (inr (empty, loads)) =
      inr (contacts-withdrawn from s ∙ empty, loads)

  add_ok :
      (id : UserId) (cs : List Contact) (s : ContactList)
      → a.account ≡ ok tt
      → a.add_contact id ≡ ok tt
      → a.preapprove_subscription_request id ≡ ok tt
      → a.subscribe_to_presence id ≡ ok tt
      → HasContacts cs s
      → add_contact t a id s ≡ (ok tt, updated t id PresenceSubscription.requested cs s)
  unfolding add_contact
  add_ok id cs s acc add pre sub loaded =
      rw (add_contact, add, pre, sub) (updated_ok id PresenceSubscription.requested cs s acc loaded)

  approve_ok :
      (from : UserId) (cs : List Contact) (s : ContactList)
      → a.account ≡ ok tt
      → a.approve_presence_sub_request from ≡ ok tt
      → a.add_contact from ≡ ok tt
      → a.preapprove_subscription_request from ≡ ok tt
      → a.subscribe_to_presence from ≡ ok tt
      → HasContacts cs s
      → approve_presence_sub_request t a from s
        ≡ (ok tt, updated t from PresenceSubscription.requested cs (withdrawn from s))
  unfolding approve_presence_sub_request
  approve_ok from cs s acc appr add pre sub loaded =
      rw (approve_presence_sub_request, appr, withdraw_ok from s acc)
        (add_ok from cs (withdrawn from s) acc add pre sub (withdrawn-HasContacts from cs s loaded))

  -- An account is connected, the server grants every request, the contacts are loaded or can be, and
  -- no two pending requests are of the same user: then approving succeeds, no request of the user is
  -- left, and the user is a contact whose subscription is requested.
  pub approve_lem :
      (from : UserId) (cs : List Contact) (s : ContactList)
      → a.account ≡ ok tt
      → a.approve_presence_sub_request from ≡ ok tt
      → a.add_contact from ≡ ok tt
      → a.preapprove_subscription_request from ≡ ok tt
      → a.subscribe_to_presence from ≡ ok tt
      → HasContacts cs s
      → HasDistinctUsers s.requests
      → let r = approve_presence_sub_request t a from s in
        (r.0 ≡ ok tt)
        × (any (λ q. q.user_id == from) r.1.requests ≡ false)
        × (subscription_of from (contacts_of r.1.contacts) ≡ some PresenceSubscription.requested)
  approve_lem from cs s acc appr add pre sub loaded d =
      rw (approve_ok from cs s acc appr add pre sub loaded) (
        refl,
        ap (any (λ q. q.user_id == from)) (
              requests-updated t from PresenceSubscription.requested cs (withdrawn from s)
              ∙ requests-withdrawn from s)
            ∙ any-delete_request from s.requests d,
        ap (λ c. subscription_of from (contacts_of c))
              (contacts-updated t from PresenceSubscription.requested cs (withdrawn from s))
            ∙ subscription_of-set_contact t from from PresenceSubscription.requested cs
            ∙ rw ((==_iff from from).1 refl) refl,
      )
