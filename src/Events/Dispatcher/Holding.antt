-- ===== src/Events/Dispatcher/Holding.antt =====
-- The events that a dispatcher (coalescing_client_event_dispatcher.rs) holds or has handed over.
use prose_core_client.Base.{
  ◌≡◌, refl, sym, ap, ◌∙◌, Option, some, Bool, true, false, if◌then◌else◌, ◌&&◌, List, [], ◌∷◌,
  ◌++◌, arith, String, length, ltb, append_assoc, append-nil, Bool-cases, inl, inr, ◌==◌,
}
use prose_core_client.Events.Models.{ClientEvent, ConnectionEvent}
use prose_core_client.Events.Coalescing.Kinds.{Kind, kind, kind_eq, event_ids}
use prose_core_client.Events.Coalescing.Kept.{ids_about}
use prose_core_client.Events.Dispatcher.{
  Dispatcher, ClientInner, handle_now, dispatch_event, receive, try_send, is_disconnect,
  receive_from,
}

pub ids_about-append :
    (k : Kind) (es fs : List ClientEvent)
    → ids_about k (es ++ fs) ≡ ids_about k es ++ ids_about k fs
unfolding ids_about
ids_about-append k [] fs = refl
ids_about-append k (e ∷ es) fs = elim (Bool-cases (kind e == k)) [
  | inl about ↦
      rw (about, ids_about-append k es fs)
        (sym (append_assoc (event_ids e) (ids_about k es) (ids_about k fs)))
  | inr other ↦ rw (other, ids_about-append k es fs) refl
]

-- All that the dispatcher holds or has handed over, the oldest first.
abbrev pub all_ids : Kind → Dispatcher → List String
all_ids k d = ids_about k d.handled ++ (ids_about k d.buf ++ ids_about k d.queue)

-- The delegate is there, and so is the client.
abbrev pub IsListening : Dispatcher → Type 0
IsListening d = (d.has_delegate ≡ true) × (d.client_inner ≡ ClientInner.alive)

ids_about-move :
    (k : Kind) (buf : List ClientEvent) (e : ClientEvent) (queue : List ClientEvent)
    → ids_about k (buf ++ e ∷ []) ++ ids_about k queue ≡ ids_about k buf ++ ids_about k (e ∷ queue)
ids_about-move k buf e queue =
    sym (ids_about-append k (buf ++ e ∷ []) queue)
    ∙ ap (ids_about k) (append_assoc buf (e ∷ []) queue)
    ∙ ids_about-append k buf (e ∷ queue)

receive_from-all_ids :
    (k : Kind) (queue buf handled : List ClientEvent) (x : Bool) (y : ClientInner)
    → let d : Dispatcher = record {
      queue = queue;
      buf = buf;
      handled = handled;
      has_delegate = x;
      client_inner = y;
    } in
      all_ids k (receive_from queue d) ≡ all_ids k d
receive_from-all_ids k [] buf handled x y = refl
receive_from-all_ids k (e ∷ queue) buf handled x y =
    ap (λ l. ids_about k handled ++ l) (ids_about-move k buf e queue)

pub receive-all_ids : (k : Kind) (d : Dispatcher) → all_ids k (receive d) ≡ all_ids k d
unfolding receive
receive-all_ids k d = receive_from-all_ids k d.queue d.buf d.handled d.has_delegate d.client_inner

try_send-all_ids :
    (k : Kind) (e : ClientEvent) (d : Dispatcher)
    → d.has_delegate ≡ true
    → ltb (length d.queue) 50 ≡ true
    → all_ids k (try_send e d) ≡ all_ids k d ++ ids_about k (e ∷ [])
unfolding try_send
try_send-all_ids k e d a r =
    rw (a, r, ids_about-append k d.queue (e ∷ []))
      (sym (
        append_assoc (ids_about k d.handled) (ids_about k d.buf ++ ids_about k d.queue)
          (ids_about k (e ∷ []))
        ∙ ap (λ l. ids_about k d.handled ++ l)
            (append_assoc (ids_about k d.buf) (ids_about k d.queue) (ids_about k (e ∷ [])))))

is_disconnect-ids :
    (k : Kind) (e : ClientEvent) → is_disconnect e ≡ true → ids_about k (e ∷ []) ≡ []
unfolding ids_about kind
is_disconnect-ids k (ClientEvent.connection_status_changed (ConnectionEvent.disconnect x)) h =
    ground arith
is_disconnect-ids k e h = absurd (cc)

-- A step of a listening dispatcher does not panic, leaves it listening, and adds the given ids.
abbrev pub Adds : (k : Kind) → List String → Dispatcher → Option Dispatcher → Type 0
Adds k ids d o =
    (d' : Dispatcher) × (o ≡ some d') × IsListening d' × (all_ids k d' ≡ all_ids k d ++ ids)

try_send-IsListening :
    (e : ClientEvent) (d : Dispatcher) → IsListening d → IsListening (try_send e d)
unfolding try_send
try_send-IsListening e d h = elim (Bool-cases (d.has_delegate && ltb (length d.queue) 50)) [
  | inl sent ↦ rw sent h
  | inr dropped ↦ rw dropped h
]

handle_now-Adds :
    (k : Kind) (e : ClientEvent) (d : Dispatcher) (inner : ClientInner)
    → inner ≡ ClientInner.alive
    → IsListening d
    → is_disconnect e ≡ true
    → Adds k (ids_about k (e ∷ [])) d (handle_now inner e d)
handle_now-Adds k e d ClientInner.unset i a off = ground (arith, i)
handle_now-Adds k e d ClientInner.gone i a off = ground (arith, i)
handle_now-Adds k e d ClientInner.alive i a off = (
  record d { handled = d.handled ++ e ∷ [] },
  refl,
  a,
  rw (ids_about-append k d.handled (e ∷ []), is_disconnect-ids k e off)
      (rw (append-nil (ids_about k d.handled), append-nil (all_ids k d)) refl),
)

handle_if-Adds :
    (k : Kind) (e : ClientEvent) (d : Dispatcher) (has_delegate : Bool)
    → has_delegate ≡ true
    → IsListening d
    → is_disconnect e ≡ true
    → Adds k
        (ids_about k (e ∷ []))
        d
        (if has_delegate then handle_now d.client_inner e d else some d)
handle_if-Adds k e d true i a off = handle_now-Adds k e d d.client_inner a.1 a off
handle_if-Adds k e d false i a off = ground (arith, i)

pub dispatch_event-Adds :
    (k : Kind) (e : ClientEvent) (d : Dispatcher)
    → IsListening d
    → ltb (length d.queue) 50 ≡ true
    → Adds k (ids_about k (e ∷ [])) d (dispatch_event e d)
unfolding dispatch_event
dispatch_event-Adds k e d a r = elim (Bool-cases (is_disconnect e)) [
  | inl off ↦ rw off (handle_if-Adds k e d d.has_delegate a.0 a off)
  | inr on ↦ rw on (try_send e d, refl, try_send-IsListening e d a, try_send-all_ids k e d a.0 r)
]

pub receive_from-IsListening :
    (queue : List ClientEvent) (d : Dispatcher) → IsListening d → IsListening (receive_from queue d)
receive_from-IsListening [] d h = h
receive_from-IsListening (e ∷ es) d h = h
