-- ===== src/Events/Dispatcher/Tests.antt =====
-- Events that are dispatched, received and handled.
use mathlib.Core.Option
use prose_core_client.Base.{◌≡◌, ◌≢◌, refl, false, Bool, true, List, [], ◌∷◌, none, some, ◌⊎◌}
use prose_core_client.Shared.Ids.{BareJid, UserId, RoomId}
use prose_core_client.Events.Models.{ClientEvent, ConnectionEvent, ClientRoomEventType}
use prose_core_client.Events.Coalescing.Kinds.{Kind}
use prose_core_client.Events.Coalescing.Kept.{ids_about}
use prose_core_client.Events.Dispatcher.{Dispatcher, RoomType, dispatch_room_event}
use prose_core_client.Events.Dispatcher.Holding.{all_ids}
use prose_core_client.Events.Dispatcher.Delivery.{
  Action, run, HasRoom, offered, listening, run_delivers,
}
use prose_core_client.Events.Dispatcher.RoomEvents.{IsSent, dispatch_room_event_lem}

-- One JID is as good as another here: no room occurs.
abbrev le_any : BareJid → BareJid → Bool
le_any a b = true

abbrev avatar_of : UserId → Action
avatar_of id = Action.dispatched (ClientEvent.avatar_changed (id ∷ []))

abbrev actions : List Action
actions =
    avatar_of "a@prose.org"
    ∷ avatar_of "b@prose.org"
    ∷ Action.received
    ∷ Action.received
    ∷ Action.dispatched (ClientEvent.connection_status_changed (ConnectionEvent.disconnect none))
    ∷ Action.ticked
    ∷ avatar_of "c@prose.org"
    ∷ []

run_example :
    Option.map (λ d. d.handled) (run le_any actions listening)
    ≡ some (
        ClientEvent.connection_status_changed (ConnectionEvent.disconnect none)
        ∷ ClientEvent.avatar_changed ("a@prose.org" ∷ "b@prose.org" ∷ [])
        ∷ [])
unfolding run
run_example = refl

actions-HasRoom : HasRoom le_any actions listening
unfolding HasRoom run
actions-HasRoom = (refl, (refl, (refl, (refl, (refl, (refl, (refl, tt)))))))

run_delivers_example :
    (d : Dispatcher) × (run le_any actions listening ≡ some d)
    × (all_ids (Kind.client 6) d ≡ ids_about (Kind.client 6) (offered actions))
run_delivers_example = run_delivers le_any (Kind.client 6) actions actions-HasRoom

abbrev renamed : ClientRoomEventType
renamed = ClientRoomEventType.attributes_changed

abbrev room_id : RoomId
room_id = RoomId.muc "room@conf.prose.org"

dispatch_room_event_example :
    ((RoomType.group ≡ RoomType.unknown)
      × (dispatch_room_event true RoomType.group room_id renamed listening ≡ some listening))
    ⊎ ((RoomType.group ≢ RoomType.unknown)
        × (true ≡ false)
        × (dispatch_room_event true RoomType.group room_id renamed listening ≡ none))
    ⊎ ((RoomType.group ≢ RoomType.unknown)
        × (true ≡ true)
        × IsSent room_id renamed listening true RoomType.group)
dispatch_room_event_example = dispatch_room_event_lem room_id renamed listening true RoomType.group
