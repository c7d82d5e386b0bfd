-- ===== src/Events/HandlerQueue/Passing.antt =====
-- Which handlers see an event.
use prose_core_client.Base.{◌≡◌, refl, Option, none, some, List, [], ◌∷◌, ◌++◌}
use prose_core_client.Base.Result.{Result, ok, err}
use prose_core_client.Events.HandlerQueue.{Handler, pass_on, handle_server_event}

module _ {S F E : Type 0} where
  abbrev pub offer_on : (E → S → Option E × S) → Result F (Option E) × S → Option E × S
  offer_on next (ok none, s) = (none, s)
  offer_on next (ok (some event), s) = next event s
  offer_on next (err error, s) = (none, s)

  -- The last state of some handlers, and what they leave of the event
  abbrev pub offered : List (Handler S F E) → E → S → Option E × S
  offered [] event s = (some event, s)
  offered (handler ∷ handlers) event s = offer_on (offered handlers) (handler event s)

  abbrev pub go_on : List (Handler S F E) → Option E × S → S
  unfolding handle_server_event
  go_on handlers (none, s) = s
  go_on handlers (some event, s) = handle_server_event handlers event s

  after :
      (others handlers : List (Handler S F E)) (o : Result F (Option E) × S)
      → ((event : E) (s : S)
          → handle_server_event (handlers ++ others) event s
            ≡ go_on others (offered handlers event s))
      → pass_on (handle_server_event (handlers ++ others)) o
        ≡ go_on others (offer_on (offered handlers) o)
  unfolding handle_server_event go_on
  after others handlers (ok none, s) h = refl
  after others handlers (ok (some event), s) h = h event s
  after others handlers (err error, s) h = refl

  -- A queue in two parts: when the first handlers leave nothing of the event, because one of them
  -- consumed it or failed, the others are not called and the state is what that one made; when they
  -- leave an event, the others are given that one.
  pub handle_server_event-append :
      (handlers others : List (Handler S F E)) (event : E) (s : S)
      → handle_server_event (handlers ++ others) event s ≡ go_on others (offered handlers event s)
  unfolding handle_server_event go_on
  handle_server_event-append [] others event s = refl
  handle_server_event-append (handler ∷ handlers) others event s =
      after others handlers (handler event s)
        (λ event' s'. handle_server_event-append handlers others event' s')
