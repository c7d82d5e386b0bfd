-- ===== src/Events/HandlerQueue.antt =====
-- `ServerEventHandlerQueue` (app/event_handlers/event_handler_queue.rs): an event goes from handler
-- to handler until one consumes it or fails. A handler may change the state of the client; what an
-- XMPP event parses to is a parameter.
pub mod Passing
mod Tests
use prose_core_client.Base.{Option, none, some, List, [], ◌∷◌}
use prose_core_client.Base.Result.{Result, ok, err}

-- A handler takes an event and yields what is left of it.
abbrev pub Handler : Type 0 → Type 0 → Type 0 → Type 0
Handler S F E = E → S → Result F (Option E) × S

module _ {S F E : Type 0} where
  abbrev pub pass_on : (E → S → S) → Result F (Option E) × S → S
  pass_on next (ok none, s) = s
  pass_on next (ok (some event), s) = next event s
  pass_on next (err error, s) = s

  unfoldable pub handle_server_event : List (Handler S F E) → E → S → S
  handle_server_event [] event s = s
  handle_server_event (handler ∷ handlers) event s =
      pass_on (handle_server_event handlers) (handler event s)

  -- The events of one stanza, in order
  unfoldable pub handle_server_events : List (Handler S F E) → List E → S → S
  unfolding handle_server_event
  handle_server_events handlers [] s = s
  handle_server_events handlers (event ∷ events) s =
      handle_server_events handlers events (handle_server_event handlers event s)

  module _ {X : Type 0} (parse_xmpp_event : X → Result F (List E)) where
    -- An event that cannot be parsed is only logged.
    unfoldable pub handle_event : List (Handler S F E) → X → S → S
    unfolding handle_server_events
    handle_event handlers event s = elim (parse_xmpp_event event) [
      | ok events ↦ handle_server_events handlers events s
      | err error ↦ s
    ]
