-- ===== src/Events/Coalescing/Kinds.antt =====
-- Which events are about the same thing, and what the merging of two such events keeps.
use Prim.Native.Nat.{ℕ}
use mathlib.Core.Option
use prose_core_client.Base.{
  subst, ap, ◌≡◌, refl, ◌≢◌, ◌↔◌, Bool, true, false, Option, none, some, List, [], ◌++◌, arith,
  ==_iff, ◌==◌, ◌&&◌, Eq, nat_eq, String, Option-cases, Bool-cases, inl, inr,
}
use prose_core_client.Shared.Ids.{RoomId, room_id_eq}
use prose_core_client.Events.Models.{RoomEnvelope, room_jid, ClientRoomEventType, ClientEvent}
use prose_core_client.Events.Coalescing.{
  order_key_for_room_event, order_key_for_client_event, merge_room_events, merge_client_events,
}

-- What an event is about: a part of the client, or one aspect of one room.
pub data Kind : Type 0 where
  client : ℕ → Kind
  room : RoomId → ℕ → Kind

abbrev pub kind_beq : Kind → Kind → Bool
kind_beq (Kind.client m) (Kind.client n) = m == n
kind_beq (Kind.room r m) (Kind.room s n) = r == s && m == n
kind_beq (Kind.client m) (Kind.room s n) = false
kind_beq (Kind.room r m) (Kind.client n) = false

pub kind_beq_iff : (a b : Kind) → (kind_beq a b ≡ true) ↔ (a ≡ b)
kind_beq_iff (Kind.client m) (Kind.client n) = ground (arith, ==_iff m n)
kind_beq_iff (Kind.room r m) (Kind.room s n) = ground (arith, ==_iff r s, ==_iff m n)
kind_beq_iff (Kind.client m) (Kind.room s n) = ground arith
kind_beq_iff (Kind.room r m) (Kind.client n) = ground arith

instance abbrev pub kind_eq : Eq Kind
kind_eq = record { equal = kind_beq; equal_iff = kind_beq_iff }

unfoldable pub kind : ClientEvent → Kind
unfolding order_key_for_room_event order_key_for_client_event
kind (ClientEvent.room_changed r type) = Kind.room (room_jid r) (order_key_for_room_event type)
kind event = Kind.client (order_key_for_client_event event)

abbrev pub room_ids : ClientRoomEventType → List String
room_ids (ClientRoomEventType.messages_appended ids) = ids
room_ids (ClientRoomEventType.messages_updated ids) = ids
room_ids (ClientRoomEventType.messages_deleted ids) = ids
room_ids _ = []

-- The users or messages that an event names.
abbrev pub event_ids : ClientEvent → List String
event_ids (ClientEvent.contact_changed ids) = ids
event_ids (ClientEvent.avatar_changed ids) = ids
event_ids (ClientEvent.room_changed r type) = room_ids type
event_ids _ = []

merge_room_kind :
    (a b : ClientRoomEventType) (m : ClientRoomEventType)
    → merge_room_events a b ≡ some m
    → (order_key_for_room_event a ≡ order_key_for_room_event b)
      × (order_key_for_room_event m ≡ order_key_for_room_event a)
      × (room_ids m ≡ room_ids a ++ room_ids b)
unfolding merge_room_events order_key_for_room_event
merge_room_kind (ClientRoomEventType.messages_appended ids) b m h = ground arith
merge_room_kind (ClientRoomEventType.messages_updated ids) b m h = ground arith
merge_room_kind (ClientRoomEventType.messages_deleted ids) b m h = ground arith
merge_room_kind ClientRoomEventType.messages_need_reload b m h = ground arith
merge_room_kind ClientRoomEventType.attributes_changed b m h = ground arith
merge_room_kind ClientRoomEventType.participants_changed b m h = ground arith
merge_room_kind ClientRoomEventType.composing_users_changed b m h = ground arith

merge_room_other :
    (a b : ClientRoomEventType)
    → merge_room_events a b ≡ none
    → order_key_for_room_event a ≢ order_key_for_room_event b
unfolding merge_room_events order_key_for_room_event
merge_room_other (ClientRoomEventType.messages_appended ids) b h e = ground arith
merge_room_other (ClientRoomEventType.messages_updated ids) b h e = ground arith
merge_room_other (ClientRoomEventType.messages_deleted ids) b h e = ground arith
merge_room_other ClientRoomEventType.messages_need_reload b h e = ground arith
merge_room_other ClientRoomEventType.attributes_changed b h e = ground arith
merge_room_other ClientRoomEventType.participants_changed b h e = ground arith
merge_room_other ClientRoomEventType.composing_users_changed b h e = ground arith

-- What merging keeps.
abbrev pub IsMerged : ClientEvent → ClientEvent → ClientEvent → Type 0
IsMerged a b m = (kind a ≡ kind b) × (kind m ≡ kind a) × (event_ids m ≡ event_ids a ++ event_ids b)

merge_in_room :
    (r : RoomEnvelope) (s : RoomEnvelope) (a b : ClientRoomEventType) (m : ClientEvent)
    → merge_client_events (ClientEvent.room_changed r a) (ClientEvent.room_changed s b) ≡ some m
    → IsMerged (ClientEvent.room_changed r a) (ClientEvent.room_changed s b) m
unfolding merge_client_events kind
merge_in_room r s a b m = elim (Bool-cases (room_jid s == room_jid r)) [
  | inl same ↦ rw same (elim (Option-cases (merge_room_events a b)) [
    | inl e ↦ rw e (λ h. absurd (cc))
    | inr (c, e) ↦ rw e (λ h.
        let f = merge_room_kind a b c e in
        subst (IsMerged (ClientEvent.room_changed r a) (ClientEvent.room_changed s b))
          (ap (λ o. Option.get_or o m) h)
          (
            rw ((==_iff (room_jid s) (room_jid r)).0 same, f.0) refl,
            ap (Kind.room (room_jid r)) f.1,
            f.2,
          ))
  ])
  | inr other ↦ rw other (λ h. absurd (cc))
]

pub merge_kind : (a b m : ClientEvent) → merge_client_events a b ≡ some m → IsMerged a b m
unfolding merge_client_events kind order_key_for_client_event
merge_kind (ClientEvent.connection_status_changed x) b m h = ground arith
merge_kind ClientEvent.sidebar_changed b m h = ground arith
merge_kind (ClientEvent.contact_changed ids) b m h = ground arith
merge_kind ClientEvent.contact_list_changed b m h = ground arith
merge_kind ClientEvent.presence_sub_requests_changed b m h = ground arith
merge_kind ClientEvent.block_list_changed b m h = ground arith
merge_kind (ClientEvent.avatar_changed ids) b m h = ground arith
merge_kind ClientEvent.account_info_changed b m h = ground arith
merge_kind (ClientEvent.room_changed r a) (ClientEvent.room_changed s b) m h =
    merge_in_room r s a b m h
merge_kind (ClientEvent.room_changed r a) b m h = ground arith

abbrev pub order_of : Kind → ℕ
order_of (Kind.client n) = n
order_of (Kind.room r n) = n

abbrev pub room_of : Kind → Option RoomId
room_of (Kind.client n) = none
room_of (Kind.room r n) = some r

other_in_room :
    (r : RoomEnvelope) (s : RoomEnvelope) (a b : ClientRoomEventType)
    → merge_client_events (ClientEvent.room_changed r a) (ClientEvent.room_changed s b) ≡ none
    → kind (ClientEvent.room_changed r a) ≢ kind (ClientEvent.room_changed s b)
unfolding merge_client_events kind
other_in_room r s a b = elim (Bool-cases (room_jid s == room_jid r)) [
  | inl same ↦ rw same (elim (Option-cases (merge_room_events a b)) [
    | inl e ↦ rw e (λ h k. merge_room_other a b e (ap (λ x. order_of x) k))
    | inr (c, e) ↦ rw e (λ h. absurd (cc))
  ])
  | inr other ↦ rw other (λ h k. ground (arith, ==_iff (room_jid s) (room_jid r), ap room_of k))
]

pub merge_other : (a b : ClientEvent) → merge_client_events a b ≡ none → kind a ≢ kind b
unfolding merge_client_events kind order_key_for_client_event
merge_other (ClientEvent.connection_status_changed x) b h e = ground arith
merge_other ClientEvent.sidebar_changed b h e = ground arith
merge_other (ClientEvent.contact_changed ids) b h e = ground arith
merge_other ClientEvent.contact_list_changed b h e = ground arith
merge_other ClientEvent.presence_sub_requests_changed b h e = ground arith
merge_other ClientEvent.block_list_changed b h e = ground arith
merge_other (ClientEvent.avatar_changed ids) b h e = ground arith
merge_other ClientEvent.account_info_changed b h e = ground arith
merge_other (ClientEvent.room_changed r a) (ClientEvent.room_changed s b) h e =
    other_in_room r s a b h e
merge_other (ClientEvent.room_changed r a) b h e = ground arith
