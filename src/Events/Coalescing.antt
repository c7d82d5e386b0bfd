-- ===== src/Events/Coalescing.antt =====
-- Coalescing of client events (util/coalesce_client_events.rs): a stable sort, then `dedup_by`,
-- whose closure moves the ids of a later event into the earlier one that is kept. The order of bare
-- JIDs is the jid crate's and the parameter `le_jid` (`le_jid a b`: `a.cmp(b)` is not `Greater`).
pub mod Kinds
pub mod Kept
pub mod Order
pub mod Distinct
mod Tests
use Prim.Native.Nat.{ℕ}
use prose_core_client.Base.{
  Bool, Option, none, some, List, [], ◌∷◌, ◌++◌, if◌then◌else◌, ◌==◌, leb, not,
}
use prose_core_client.Base.Sort.{sort_by}
use prose_core_client.Shared.Ids.{BareJid, RoomId, room_id_eq, room_bare_jid}
use prose_core_client.Events.Models
use prose_core_client.Events.Models.{
  RoomEnvelope, room_jid, ClientRoomEventType, ConnectionEvent, ClientEvent,
}

unfoldable pub order_key_for_room_event : ClientRoomEventType → ℕ
order_key_for_room_event (ClientRoomEventType.messages_appended ids) = 0
order_key_for_room_event (ClientRoomEventType.messages_updated ids) = 1
order_key_for_room_event (ClientRoomEventType.messages_deleted ids) = 2
order_key_for_room_event ClientRoomEventType.messages_need_reload = 3
order_key_for_room_event ClientRoomEventType.attributes_changed = 4
order_key_for_room_event ClientRoomEventType.participants_changed = 5
order_key_for_room_event ClientRoomEventType.composing_users_changed = 6

unfoldable pub order_key_for_client_event : ClientEvent → ℕ
order_key_for_client_event (ClientEvent.connection_status_changed event) = 0
order_key_for_client_event ClientEvent.sidebar_changed = 1
order_key_for_client_event (ClientEvent.contact_changed ids) = 2
order_key_for_client_event ClientEvent.contact_list_changed = 3
order_key_for_client_event ClientEvent.presence_sub_requests_changed = 4
order_key_for_client_event ClientEvent.block_list_changed = 5
order_key_for_client_event (ClientEvent.avatar_changed ids) = 6
order_key_for_client_event ClientEvent.account_info_changed = 7
order_key_for_client_event (ClientEvent.room_changed room type) = 8

-- What is kept of two room events, the second of which comes later; `none` keeps both.
unfoldable pub merge_room_events :
    ClientRoomEventType → ClientRoomEventType → Option ClientRoomEventType
merge_room_events (ClientRoomEventType.messages_appended kept) next = elim next [
  | ClientRoomEventType.messages_appended ids ↦
      some (ClientRoomEventType.messages_appended (kept ++ ids))
  | _ ↦ none
]
merge_room_events (ClientRoomEventType.messages_updated kept) next = elim next [
  | ClientRoomEventType.messages_updated ids ↦
      some (ClientRoomEventType.messages_updated (kept ++ ids))
  | _ ↦ none
]
merge_room_events (ClientRoomEventType.messages_deleted kept) next = elim next [
  | ClientRoomEventType.messages_deleted ids ↦
      some (ClientRoomEventType.messages_deleted (kept ++ ids))
  | _ ↦ none
]
merge_room_events ClientRoomEventType.messages_need_reload next = elim next [
  | ClientRoomEventType.messages_need_reload ↦ some ClientRoomEventType.messages_need_reload
  | _ ↦ none
]
merge_room_events ClientRoomEventType.attributes_changed next = elim next [
  | ClientRoomEventType.attributes_changed ↦ some ClientRoomEventType.attributes_changed
  | _ ↦ none
]
merge_room_events ClientRoomEventType.participants_changed next = elim next [
  | ClientRoomEventType.participants_changed ↦ some ClientRoomEventType.participants_changed
  | _ ↦ none
]
merge_room_events ClientRoomEventType.composing_users_changed next = elim next [
  | ClientRoomEventType.composing_users_changed ↦ some ClientRoomEventType.composing_users_changed
  | _ ↦ none
]

abbrev room_changed_to : RoomEnvelope → Option ClientRoomEventType → Option ClientEvent
room_changed_to room none = none
room_changed_to room (some type) = some (ClientEvent.room_changed room type)

-- The closure of `dedup_by`: what is kept of two client events, the second of which comes later.
unfoldable pub merge_client_events : ClientEvent → ClientEvent → Option ClientEvent
unfolding merge_room_events
merge_client_events (ClientEvent.connection_status_changed kept) next = elim next [
  | ClientEvent.connection_status_changed event ↦ some (ClientEvent.connection_status_changed kept)
  | _ ↦ none
]
merge_client_events ClientEvent.sidebar_changed next = elim next [
  | ClientEvent.sidebar_changed ↦ some ClientEvent.sidebar_changed
  | _ ↦ none
]
merge_client_events (ClientEvent.contact_changed kept) next = elim next [
  | ClientEvent.contact_changed ids ↦ some (ClientEvent.contact_changed (kept ++ ids))
  | _ ↦ none
]
merge_client_events ClientEvent.contact_list_changed next = elim next [
  | ClientEvent.contact_list_changed ↦ some ClientEvent.contact_list_changed
  | _ ↦ none
]
merge_client_events ClientEvent.presence_sub_requests_changed next = elim next [
  | ClientEvent.presence_sub_requests_changed ↦ some ClientEvent.presence_sub_requests_changed
  | _ ↦ none
]
merge_client_events ClientEvent.block_list_changed next = elim next [
  | ClientEvent.block_list_changed ↦ some ClientEvent.block_list_changed
  | _ ↦ none
]
merge_client_events (ClientEvent.avatar_changed kept) next = elim next [
  | ClientEvent.avatar_changed ids ↦ some (ClientEvent.avatar_changed (kept ++ ids))
  | _ ↦ none
]
merge_client_events ClientEvent.account_info_changed next = elim next [
  | ClientEvent.account_info_changed ↦ some ClientEvent.account_info_changed
  | _ ↦ none
]
merge_client_events (ClientEvent.room_changed room_b type_b) next = elim next [
  | ClientEvent.room_changed room_a type_a ↦
      if not (room_jid room_a == room_jid room_b)
      then none
      else room_changed_to room_b (merge_room_events type_b type_a)
  | _ ↦ none
]

-- `Vec::dedup_by` behind the element that was kept last
unfoldable pub dedup_from : ClientEvent → List ClientEvent → List ClientEvent
unfolding merge_client_events
dedup_from kept [] = kept ∷ []
dedup_from kept (next ∷ events) = elim (merge_client_events kept next) [
  | some merged ↦ dedup_from merged events
  | none ↦ kept ∷ dedup_from next events
]

unfoldable pub dedup : List ClientEvent → List ClientEvent
unfolding dedup_from
dedup [] = []
dedup (event ∷ events) = dedup_from event events

module _ (le_jid : BareJid → BareJid → Bool) where
  abbrev le_key : ClientEvent → ClientEvent → Bool
  unfolding order_key_for_client_event
  le_key a b = leb (order_key_for_client_event a) (order_key_for_client_event b)

  -- `compare_client_events` does not yield `Greater`.
  unfoldable pub compare_client_events : ClientEvent → ClientEvent → Bool
  unfolding order_key_for_room_event order_key_for_client_event room_bare_jid
  compare_client_events (ClientEvent.room_changed room_a type_a) b = elim b [
    | ClientEvent.room_changed room_b type_b ↦
        if room_jid room_a == room_jid room_b
        then leb (order_key_for_room_event type_a) (order_key_for_room_event type_b)
        else le_jid (room_bare_jid (room_jid room_a)) (room_bare_jid (room_jid room_b))
    | other ↦ le_key (ClientEvent.room_changed room_a type_a) other
  ]
  compare_client_events a b = le_key a b

  unfoldable pub coalesce_client_events : List ClientEvent → List ClientEvent
  unfolding compare_client_events sort_by dedup
  coalesce_client_events events = dedup (sort_by compare_client_events events)
