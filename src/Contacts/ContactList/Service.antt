-- ===== src/Contacts/ContactList/Service.antt =====
-- `ContactListDomainService` (domain/contacts/services/impls/contact_list_domain_service.rs). The
-- server's answers are a parameter; an operation that fails keeps what it changed before.
use prose_core_client.Base.{String, Bool, Option, none, some, List, [], ◌∷◌, ◌++◌, if◌then◌else◌}
use prose_core_client.Base.Result.{Result, ok, err}
use prose_core_client.Shared.Ids.{UserId}
use prose_core_client.Shared.Names.{TextTables}
use prose_core_client.Events.Models.{ClientEvent}
use prose_core_client.Contacts.Models.{PresenceSubscription, Contact, PresenceSubRequest}
use prose_core_client.Contacts.ContactList.{
  ContactList, set_contact, delete_contact, set_request, delete_request,
}

-- An operation yields a result and the state it leaves, also when it fails.
abbrev pub Op : Type 0 → Type 0 → Type 0
Op E A = ContactList → Result E A × ContactList

-- The server's answers to the requests of the service, and whether an account is connected.
pub record Answers (E : Type 0) : Type 0 where
  pub account : Result E Unit
  pub load_contacts : Result E (List Contact)
  pub add_contact : UserId → Result E Unit
  pub preapprove_subscription_request : UserId → Result E Unit
  pub subscribe_to_presence : UserId → Result E Unit
  pub remove_contact : UserId → Result E Unit
  pub revoke_presence_subscription : UserId → Result E Unit
  pub approve_presence_sub_request : UserId → Result E Unit
  pub deny_presence_sub_request : UserId → Result E Unit

abbrev pub continue :
    {E A B : Type 0} → Result E A × ContactList → (A → Op E B) → Result E B × ContactList
continue (ok a, s) k = k a s
continue (err e, s) k = (err e, s)

abbrev pub report : ClientEvent → Bool → ContactList → ContactList
report event changed s = if changed then record s { events = s.events ++ event ∷ [] } else s

module _ {E : Type 0} (t : TextTables) (a : Answers E) where
  abbrev ask : Result E Unit → Op E Unit
  ask answer s = (answer, s)

  abbrev load_into : Option (List Contact) → Op E (List Contact)
  load_into (some cs) s = (ok cs, s)
  load_into none s = elim a.load_contacts [
    | ok cs ↦ (ok cs, record s { contacts = some cs })
    | err e ↦ (err e, s)
  ]

  unfoldable pub load_contacts_if_needed : Op E (List Contact)
  load_contacts_if_needed s = load_into s.contacts s

  unfoldable pub load_contacts : Op E (List Contact)
  unfolding load_contacts_if_needed
  load_contacts s = continue (ask a.account s) (λ u. load_contacts_if_needed)

  unfoldable pub handle_updated_contact : UserId → PresenceSubscription → Op E Unit
  unfolding load_contacts set_contact
  handle_updated_contact id subscription s = continue (load_contacts s) (λ cs s'.
      let (changed, cs') = set_contact t id subscription cs in
      (ok tt, report ClientEvent.contact_list_changed changed (record s' { contacts = some cs' })))

  unfoldable pub handle_removed_contact : UserId → Op E Unit
  unfolding load_contacts delete_contact
  handle_removed_contact id s = continue (load_contacts s) (λ cs s'.
      let (changed, cs') = delete_contact id cs in
      (ok tt, report ClientEvent.contact_list_changed changed (record s' { contacts = some cs' })))

  unfoldable pub add_contact : UserId → Op E Unit
  unfolding handle_updated_contact
  add_contact id s = continue (ask (a.add_contact id) s) (λ u s1.
      continue (ask (a.preapprove_subscription_request id) s1) (λ u s2.
        continue (ask (a.subscribe_to_presence id) s2)
          (λ u. handle_updated_contact id PresenceSubscription.requested)))

  unfoldable pub remove_contact : UserId → Op E Unit
  unfolding handle_removed_contact
  remove_contact id s = continue (ask (a.remove_contact id) s) (λ u s1.
      continue (ask (a.revoke_presence_subscription id) s1) (λ u. handle_removed_contact id))

  unfoldable pub request_presence_sub : UserId → Op E Unit
  request_presence_sub from s = ask (a.subscribe_to_presence from) s

  unfoldable pub load_presence_sub_requests : Op E (List PresenceSubRequest)
  load_presence_sub_requests s = continue (ask a.account s) (λ u s'. (ok s'.requests, s'))

  unfoldable pub withdraw_request : UserId → Op E Unit
  unfolding delete_request
  withdraw_request from s = continue (ask a.account s) (λ u s'.
      let (changed, rs) = delete_request from s'.requests in
      (
        ok tt,
        report ClientEvent.presence_sub_requests_changed changed (record s' { requests = rs }),
      ))

  unfoldable pub approve_presence_sub_request : UserId → Op E Unit
  unfolding withdraw_request add_contact
  approve_presence_sub_request from s =
      continue (ask (a.approve_presence_sub_request from) s)
        (λ u s1. continue (withdraw_request from s1) (λ u. add_contact from))

  unfoldable pub deny_presence_sub_request : UserId → Op E Unit
  unfolding withdraw_request
  deny_presence_sub_request from s =
      continue (ask (a.deny_presence_sub_request from) s) (λ u. withdraw_request from)

  unfoldable pub handle_presence_sub_request : UserId → Option String → Op E Unit
  unfolding set_request
  handle_presence_sub_request from nickname s = continue (ask a.account s) (λ u s'.
      let (changed, rs) = set_request (record { user_id = from; name = nickname }) s'.requests in
      (
        ok tt,
        report ClientEvent.presence_sub_requests_changed changed (record s' { requests = rs }),
      ))

  unfoldable pub reset_before_reconnect : Op E Unit
  reset_before_reconnect s =
      continue (ask a.account s) (λ u s'. (ok tt, record s' { contacts = none }))

  unfoldable pub clear_contact_cache : Op E Unit
  clear_contact_cache s =
      continue (ask a.account s) (λ u s'. (ok tt, record s' { contacts = none; requests = [] }))
