-- ===== src/Events/Dispatcher/RoomEvents.antt =====
-- Events of rooms, as the dispatcher takes them.
use prose_core_client.Base.{◌≡◌, ◌≢◌, refl, ◌⊎◌, inl, inr, Bool, true, false, none, some, arith}
use prose_core_client.Shared.Ids.{RoomId}
use prose_core_client.Events.Models.{ClientEvent, ClientRoomEventType, RoomEnvelope, room_jid}
use prose_core_client.Events.Dispatcher.{
  Dispatcher, RoomType, build, dispatch_room_event, dispatch_event,
}

-- The type of the room in an envelope
abbrev pub envelope_type : RoomEnvelope → RoomType
envelope_type (RoomEnvelope.direct_message id) = RoomType.direct_message
envelope_type (RoomEnvelope.group id) = RoomType.group
envelope_type (RoomEnvelope.private_channel id) = RoomType.private_channel
envelope_type (RoomEnvelope.public_channel id) = RoomType.public_channel
envelope_type (RoomEnvelope.generic id) = RoomType.generic

module _ (id : RoomId) (type : ClientRoomEventType) (d : Dispatcher) where
  -- The room of the given type and identifier is told about.
  abbrev pub IsSent : Bool → RoomType → Type 0
  IsSent has_room_factory room_type =
      (room : RoomEnvelope) × (room_jid room ≡ id)
      × (envelope_type room ≡ room_type)
      × (dispatch_room_event has_room_factory room_type id type d
          ≡ dispatch_event (ClientEvent.room_changed room type) d)

  -- An event of a room that is pending changes nothing, with or without a room factory. An event of
  -- any other room panics when no room factory was set, and otherwise is dispatched as a change of
  -- the room with that type and identifier.
  pub dispatch_room_event_lem :
      (has_room_factory : Bool) (room_type : RoomType)
      → ((room_type ≡ RoomType.unknown)
          × (dispatch_room_event has_room_factory room_type id type d ≡ some d))
        ⊎ ((room_type ≢ RoomType.unknown)
            × (has_room_factory ≡ false)
            × (dispatch_room_event has_room_factory room_type id type d ≡ none))
        ⊎ ((room_type ≢ RoomType.unknown)
            × (has_room_factory ≡ true)
            × IsSent has_room_factory room_type)
  unfolding dispatch_room_event dispatch_event build
  dispatch_room_event_lem b RoomType.unknown = inl (refl, refl)
  dispatch_room_event_lem false RoomType.direct_message =
      inr (inl (λ e. ground (arith, e), refl, refl))
  dispatch_room_event_lem false RoomType.group = inr (inl (λ e. ground (arith, e), refl, refl))
  dispatch_room_event_lem false RoomType.private_channel =
      inr (inl (λ e. ground (arith, e), refl, refl))
  dispatch_room_event_lem false RoomType.public_channel =
      inr (inl (λ e. ground (arith, e), refl, refl))
  dispatch_room_event_lem false RoomType.generic = inr (inl (λ e. ground (arith, e), refl, refl))
  dispatch_room_event_lem true RoomType.direct_message =
      inr (inr (λ e. ground (arith, e), refl, (RoomEnvelope.direct_message id, refl, refl, refl)))
  dispatch_room_event_lem true RoomType.group =
      inr (inr (λ e. ground (arith, e), refl, (RoomEnvelope.group id, refl, refl, refl)))
  dispatch_room_event_lem true RoomType.private_channel =
      inr (inr (λ e. ground (arith, e), refl, (RoomEnvelope.private_channel id, refl, refl, refl)))
  dispatch_room_event_lem true RoomType.public_channel =
      inr (inr (λ e. ground (arith, e), refl, (RoomEnvelope.public_channel id, refl, refl, refl)))
  dispatch_room_event_lem true RoomType.generic =
      inr (inr (λ e. ground (arith, e), refl, (RoomEnvelope.generic id, refl, refl, refl)))
