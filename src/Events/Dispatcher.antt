-- ===== src/Events/Dispatcher.antt =====
-- `CoalescingClientEventDispatcher` (infra/events/coalescing_client_event_dispatcher.rs) and the
-- stream behind it (`throttled` in crates/prose-wasm-utils/src/stream_ext.rs): events wait in a
-- channel of 50, move to a buffer, and are coalesced and handled at each tick of the interval. The
-- channel of one batch between `throttled` and the loop keeps the order and is left out.
pub mod Holding
pub mod Delivery
pub mod RoomEvents
mod Tests
use prose_core_client.Base.{
  Option, none, some, Bool, true, false, ◌&&◌, List, [], ◌∷◌, ◌++◌, length, ltb, if◌then◌else◌,
}
use prose_core_client.Shared.Ids.{BareJid, RoomId}
use prose_core_client.Events.Models
use prose_core_client.Events.Models.{
  ClientEvent, ClientRoomEventType, ConnectionEvent, RoomEnvelope,
}
use prose_core_client.Events.Coalescing.{coalesce_client_events}

-- The client that events are handled for: not set yet (`set_client_inner`), gone, or alive.
pub data ClientInner : Type 0 where
  unset gone alive : ClientInner

-- What has happened to the events, whether a delegate is set, and the client.
pub record Dispatcher : Type 0 where
  pub queue : List ClientEvent
  pub buf : List ClientEvent
  pub handled : List ClientEvent
  pub has_delegate : Bool
  pub client_inner : ClientInner

-- `sender.try_send(event)`, whose error is ignored
unfoldable pub try_send : ClientEvent → Dispatcher → Dispatcher
try_send event d =
    if d.has_delegate && ltb (length d.queue) 50
    then record d { queue = d.queue ++ event ∷ [] }
    else d

abbrev is_disconnect : ClientEvent → Bool
is_disconnect (ClientEvent.connection_status_changed (ConnectionEvent.disconnect error)) = true
is_disconnect _ = false

-- Without a client the code panics, which is `none`.
abbrev handle_now : ClientInner → ClientEvent → Dispatcher → Option Dispatcher
handle_now ClientInner.unset event d = none
handle_now ClientInner.gone event d = some d
handle_now ClientInner.alive event d = some (record d { handled = d.handled ++ event ∷ [] })

unfoldable pub dispatch_event : ClientEvent → Dispatcher → Option Dispatcher
unfolding try_send
dispatch_event event d =
    if is_disconnect event
    then (if d.has_delegate then handle_now d.client_inner event d else some d)
    else some (try_send event d)

-- A room is its type and its identifier.
pub data RoomType : Type 0 where
  unknown direct_message group private_channel public_channel generic : RoomType

abbrev is_unknown : RoomType → Bool
is_unknown RoomType.unknown = true
is_unknown _ = false

-- `RoomFactory::build`; `none` is its panic.
unfoldable pub build : RoomType → RoomId → Option RoomEnvelope
build RoomType.unknown id = none
build RoomType.direct_message id = some (RoomEnvelope.direct_message id)
build RoomType.group id = some (RoomEnvelope.group id)
build RoomType.private_channel id = some (RoomEnvelope.private_channel id)
build RoomType.public_channel id = some (RoomEnvelope.public_channel id)
build RoomType.generic id = some (RoomEnvelope.generic id)

abbrev send_room_event : Option RoomEnvelope → ClientRoomEventType → Dispatcher → Option Dispatcher
send_room_event none type d = none
send_room_event (some room) type d = some (try_send (ClientEvent.room_changed room type) d)

-- A room that is still pending has no events. The Boolean tells whether `set_room_factory` was
-- called; without it the code panics, which is `none`.
unfoldable pub dispatch_room_event :
    Bool → RoomType → RoomId → ClientRoomEventType → Dispatcher → Option Dispatcher
unfolding try_send build
dispatch_room_event has_room_factory room_type id type d =
    if is_unknown room_type
    then some d
    else (if has_room_factory then send_room_event (build room_type id) type d else none)

abbrev receive_from : List ClientEvent → Dispatcher → Dispatcher
receive_from [] d = d
receive_from (event ∷ queue) d = record d { queue = queue; buf = d.buf ++ event ∷ [] }

-- `event = stream.next()`
unfoldable pub receive : Dispatcher → Dispatcher
receive d = receive_from d.queue d

module _ (le_jid : BareJid → BareJid → Bool) where
  abbrev hand_over : ClientInner → List ClientEvent → Dispatcher → Option Dispatcher
  hand_over ClientInner.unset events d = none
  hand_over ClientInner.gone events d = some (record d { buf = [] })
  hand_over ClientInner.alive events d =
      some (record d { buf = []; handled = d.handled ++ coalesce_client_events le_jid events })

  abbrev handle_batch : List ClientEvent → Dispatcher → Option Dispatcher
  handle_batch [] d = some d
  handle_batch (event ∷ events) d = hand_over d.client_inner (event ∷ events) d

  -- `interval.next()`, and what the loop does with the batch
  unfoldable pub tick : Dispatcher → Option Dispatcher
  unfolding coalesce_client_events
  tick d = handle_batch d.buf d
