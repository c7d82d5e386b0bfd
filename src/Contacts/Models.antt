-- ===== src/Contacts/Models.antt =====
-- Contacts and presence requests (domain/contacts/models).
use prose_core_client.Base.{String, Bool, true, false, Option}
use prose_core_client.Shared.Ids.{UserId}

pub data PresenceSubscription : Type 0 where
  requested mutual_follow they_follow we_follow none : PresenceSubscription

abbrev pub subscription_beq : PresenceSubscription → PresenceSubscription → Bool
subscription_beq PresenceSubscription.requested b = elim b [
  | PresenceSubscription.requested ↦ true
  | _ ↦ false
]
subscription_beq PresenceSubscription.mutual_follow b = elim b [
  | PresenceSubscription.mutual_follow ↦ true
  | _ ↦ false
]
subscription_beq PresenceSubscription.they_follow b = elim b [
  | PresenceSubscription.they_follow ↦ true
  | _ ↦ false
]
subscription_beq PresenceSubscription.we_follow b = elim b [
  | PresenceSubscription.we_follow ↦ true
  | _ ↦ false
]
subscription_beq PresenceSubscription.none b = elim b [
  | PresenceSubscription.none ↦ true
  | _ ↦ false
]

pub record Contact : Type 0 where
  pub id : UserId
  pub name : Option String
  pub presence_subscription : PresenceSubscription

pub record PresenceSubRequest : Type 0 where
  pub user_id : UserId
  pub name : Option String
