-- ===== src/Events/HandlerQueue/Tests.antt =====
-- A queue whose second handler consumes the event.
use prose_core_client.Base.{String, ◌≡◌, refl, ℕ, ◌+◌, none, some, [], ◌∷◌, ◌++◌}
use prose_core_client.Base.Result.{ok, err}
use prose_core_client.Events.HandlerQueue.{Handler, handle_server_event}
use prose_core_client.Events.HandlerQueue.Passing.{go_on, offered, handle_server_event-append}

abbrev counting : Handler ℕ String String
counting event count = (ok (some event), count + 1)

abbrev consuming : Handler ℕ String String
consuming event count = (ok none, count + 10)

abbrev failing : Handler ℕ String String
failing event count = (err "failed", count + 100)

stops : handle_server_event (counting ∷ consuming ∷ failing ∷ []) "event" 0 ≡ 11
unfolding handle_server_event
stops = refl

handle_server_event_example :
    handle_server_event ((counting ∷ consuming ∷ []) ++ failing ∷ []) "event" 0
    ≡ go_on (failing ∷ []) (offered (counting ∷ consuming ∷ []) "event" 0)
handle_server_event_example =
    handle_server_event-append (counting ∷ consuming ∷ []) (failing ∷ []) "event" 0
