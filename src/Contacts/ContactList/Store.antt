-- ===== src/Contacts/ContactList/Store.antt =====
-- The lists of contacts and requests before and after a change.
use prose_core_client.Base.{
  String, ◌≡◌, refl, true, false, Option, none, some, List, [], ◌∷◌, ◌++◌, arith, any,
  if◌then◌else◌, ◌==◌, ==_iff, string_eq, Bool-cases, inl, inr,
}
use prose_core_client.Shared.Ids.{UserId}
use prose_core_client.Shared.Names.{TextTables, formatted_username}
use prose_core_client.Contacts.Models.{
  PresenceSubscription, subscription_beq, Contact, PresenceSubRequest,
}
use prose_core_client.Contacts.ContactList.{
  set_subscription, subscription_of, set_contact, same_subscription, is_some_subscription,
  delete_request, remove_request,
}

subscription_beq-true : (a b : PresenceSubscription) → subscription_beq a b ≡ true → a ≡ b
subscription_beq-true PresenceSubscription.requested b h = ground arith
subscription_beq-true PresenceSubscription.mutual_follow b h = ground arith
subscription_beq-true PresenceSubscription.they_follow b h = ground arith
subscription_beq-true PresenceSubscription.we_follow b h = ground arith
subscription_beq-true PresenceSubscription.none b h = ground arith

same_subscription-true :
    (o : Option PresenceSubscription) (b : PresenceSubscription)
    → same_subscription o b ≡ true
    → o ≡ some b
same_subscription-true none b h = absurd (cc)
same_subscription-true (some a) b h = rw (subscription_beq-true a b h) refl

is_some_subscription-false :
    (o : Option PresenceSubscription) → is_some_subscription o ≡ false → o ≡ none
is_some_subscription-false none h = refl
is_some_subscription-false (some a) h = absurd (cc)

subscription_of-set_subscription :
    (id j : UserId) (p : PresenceSubscription) (cs : List Contact)
    → is_some_subscription (subscription_of id cs) ≡ true
    → subscription_of j (set_subscription id p cs)
      ≡ (if id == j then some p else subscription_of j cs)
unfolding subscription_of set_subscription
subscription_of-set_subscription id j p [] h = absurd (cc)
subscription_of-set_subscription id j p (c ∷ cs) h =
    ground (
      arith,
      ==_iff c.id id,
      ==_iff c.id j,
      ==_iff id j,
      subscription_of-set_subscription id j p cs,
    )

subscription_of-append :
    (id j : UserId) (n : Option String) (p : PresenceSubscription) (cs : List Contact)
    → subscription_of id cs ≡ none
    → subscription_of j (cs ++ record { id = id; name = n; presence_subscription = p } ∷ [])
      ≡ (if id == j then some p else subscription_of j cs)
unfolding subscription_of
subscription_of-append id j n p [] h = ground arith
subscription_of-append id j n p (c ∷ cs) h =
    ground (arith, ==_iff c.id id, ==_iff c.id j, ==_iff id j, subscription_of-append id j n p cs)

-- After a contact is set it has the subscription, and the others keep theirs.
pub subscription_of-set_contact :
    (t : TextTables) (id j : UserId) (p : PresenceSubscription) (cs : List Contact)
    → subscription_of j (set_contact t id p cs).1
      ≡ (if id == j then some p else subscription_of j cs)
unfolding set_contact
subscription_of-set_contact t id j p cs =
    elim (Bool-cases (is_some_subscription (subscription_of id cs))) [
      | inl there ↦ elim (Bool-cases (same_subscription (subscription_of id cs) p)) [
        | inl same ↦
            rw (set_contact, there, same)
              (ground (arith, ==_iff id j, same_subscription-true (subscription_of id cs) p same))
        | inr other ↦
            rw (set_contact, there, other) (subscription_of-set_subscription id j p cs there)
      ]
      | inr out ↦
          rw (set_contact, out)
            (subscription_of-append id j (some (formatted_username t id)) p cs
              (is_some_subscription-false (subscription_of id cs) out))
    ]

-- No two requests are from the same user.
abbrev pub HasDistinctUsers : List PresenceSubRequest → Type 0
HasDistinctUsers [] = Unit
HasDistinctUsers (r ∷ rs) = (any (λ q. q.user_id == r.user_id) rs ≡ false) × HasDistinctUsers rs

any-remove_request :
    (id : UserId) (rs : List PresenceSubRequest)
    → HasDistinctUsers rs
    → any (λ q. q.user_id == id) (remove_request id rs) ≡ false
any-remove_request id [] h = refl
any-remove_request id (r ∷ rs) h =
    ground (arith, ==_iff r.user_id id, any-remove_request id rs h.1, h.0)

pub any-delete_request :
    (id : UserId) (rs : List PresenceSubRequest)
    → HasDistinctUsers rs
    → any (λ q. q.user_id == id) (delete_request id rs).1 ≡ false
unfolding delete_request
any-delete_request id rs h = elim (Bool-cases (any (λ q. q.user_id == id) rs)) [
  | inl there ↦ rw (delete_request, there) (any-remove_request id rs h)
  | inr out ↦ rw (delete_request, out) out
]
