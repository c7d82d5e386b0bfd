-- ===== src/Events/Dispatcher/Delivery.antt =====
-- Runs of the dispatcher (coalescing_client_event_dispatcher.rs).
use prose_core_client.Base.{
  ◌≡◌, refl, sym, ap, subst, ◌∙◌, Option, none, some, Bool, true, List, [], ◌∷◌, ◌++◌, arith,
  length, ltb, append_assoc, append-nil,
}
use prose_core_client.Shared.Ids.{BareJid}
use prose_core_client.Events.Models.{ClientEvent}
use prose_core_client.Events.Coalescing.{coalesce_client_events}
use prose_core_client.Events.Coalescing.Kinds.{Kind, kind_eq}
use prose_core_client.Events.Coalescing.Kept.{ids_about, coalesce_client_events_keep}
use prose_core_client.Events.Dispatcher.{
  Dispatcher, ClientInner, hand_over, dispatch_event, receive, tick, handle_batch,
}
use prose_core_client.Events.Dispatcher.Holding.{
  ids_about-append, receive-all_ids, dispatch_event-Adds, receive_from-IsListening, all_ids,
  IsListening, Adds,
}

-- What happens to a dispatcher.
pub data Action : Type 0 where
  dispatched : ClientEvent → Action
  received ticked : Action

-- A dispatcher that has just been set up.
abbrev pub listening : Dispatcher
listening = record {
  queue = [];
  buf = [];
  handled = [];
  has_delegate = true;
  client_inner = ClientInner.alive;
}

-- The events that were dispatched.
abbrev pub offered : List Action → List ClientEvent
offered [] = []
offered (dispatched e ∷ rest) = e ∷ offered rest
offered (received ∷ rest) = offered rest
offered (ticked ∷ rest) = offered rest

module _ (le_jid : BareJid → BareJid → Bool) where
  hand_over-Adds :
      (k : Kind) (queue handled : List ClientEvent) (x : Bool) (y : ClientInner) (e : ClientEvent)
      (es : List ClientEvent)
      → x ≡ true
      → y ≡ ClientInner.alive
      → let d : Dispatcher = record {
        queue = queue;
        buf = e ∷ es;
        handled = handled;
        has_delegate = x;
        client_inner = y;
      } in
        Adds k [] d (hand_over le_jid y (e ∷ es) d)
  unfolding ids_about
  hand_over-Adds k queue handled x ClientInner.unset e es there i = ground (arith, i)
  hand_over-Adds k queue handled x ClientInner.gone e es there i = ground (arith, i)
  hand_over-Adds k queue handled x ClientInner.alive e es there i = (
    record {
      queue = queue;
      buf = [];
      handled = handled ++ coalesce_client_events le_jid (e ∷ es);
      has_delegate = x;
      client_inner = ClientInner.alive;
    },
    refl,
    (there, refl),
    rw
        (
          append-nil (ids_about k handled ++ (ids_about k (e ∷ es) ++ ids_about k queue)),
          ids_about-append k handled (coalesce_client_events le_jid (e ∷ es)),
          (coalesce_client_events_keep le_jid k (e ∷ es)).0,
        )
        (append_assoc (ids_about k handled) (ids_about k (e ∷ es)) (ids_about k queue)),
  )

  handle_batch-Adds :
      (k : Kind) (buf queue handled : List ClientEvent) (x : Bool) (y : ClientInner)
      → x ≡ true
      → y ≡ ClientInner.alive
      → let d : Dispatcher = record {
        queue = queue;
        buf = buf;
        handled = handled;
        has_delegate = x;
        client_inner = y;
      } in
        Adds k [] d (handle_batch le_jid buf d)
  handle_batch-Adds k [] queue handled x y there i =
      let d : Dispatcher = record {
        queue = queue;
        buf = [];
        handled = handled;
        has_delegate = x;
        client_inner = y;
      } in
      (d, refl, (there, i), sym (append-nil (all_ids k d)))
  handle_batch-Adds k (e ∷ es) queue handled x y there i =
      hand_over-Adds k queue handled x y e es there i

  unfoldable pub act : Action → Dispatcher → Option Dispatcher
  unfolding dispatch_event receive tick
  act (dispatched e) d = dispatch_event e d
  act received d = some (receive d)
  act ticked d = tick le_jid d

  -- A panic ends the run.
  unfoldable pub run : List Action → Dispatcher → Option Dispatcher
  unfolding act
  run [] d = some d
  run (a ∷ rest) d = elim (act a d) [ none ↦ none | some d' ↦ run rest d' ]

  abbrev pub has_room : Action → Dispatcher → Bool
  has_room (dispatched e) d = ltb (length d.queue) 50
  has_room _ d = true

  -- Whenever an event is dispatched, the channel has room for it.
  unfoldable pub HasRoom : List Action → Dispatcher → Type 0
  unfolding act
  HasRoom [] d = Unit
  HasRoom (a ∷ rest) d =
      (has_room a d ≡ true) × (elim (act a d) [ none ↦ Unit | some d' ↦ HasRoom rest d' ])

  act-Adds :
      (k : Kind) (a : Action) (d : Dispatcher)
      → IsListening d
      → has_room a d ≡ true
      → Adds k (ids_about k (offered (a ∷ []))) d (act a d)
  unfolding act receive tick ids_about
  act-Adds k (dispatched e) d h r = dispatch_event-Adds k e d h r
  act-Adds k received d h r = (
    receive d,
    refl,
    receive_from-IsListening d.queue d h,
    receive-all_ids k d ∙ sym (append-nil (all_ids k d)),
  )
  act-Adds k ticked d h r =
      handle_batch-Adds k d.buf d.queue d.handled d.has_delegate d.client_inner h.0 h.1

  offered-cons :
      (k : Kind) (a : Action) (rest : List Action)
      → ids_about k (offered (a ∷ [])) ++ ids_about k (offered rest)
        ≡ ids_about k (offered (a ∷ rest))
  unfolding ids_about
  offered-cons k (dispatched e) rest = sym (ids_about-append k (e ∷ []) (offered rest))
  offered-cons k received rest = refl
  offered-cons k ticked rest = refl

  run-Adds :
      (k : Kind) (actions : List Action) (d : Dispatcher)
      → IsListening d
      → HasRoom actions d
      → Adds k (ids_about k (offered actions)) d (run actions d)
  unfolding run HasRoom ids_about
  run-Adds k [] d h r = (d, refl, h, sym (append-nil (all_ids k d)))
  run-Adds k (a ∷ rest) d h r =
      let (d1, e, h1, ids) = act-Adds k a d h r.0 in
      let after : HasRoom rest d1 =
        subst (λ o. elim o [ none ↦ Unit | some d' ↦ HasRoom rest d' ]) e r.1 in
      let (d2, e2, h2, ids2) = run-Adds k rest d1 h1 after in
      (
        d2,
        rw (run, e) e2,
        h2,
        ids2
            ∙ ap (λ l. l ++ ids_about k (offered rest)) ids
            ∙ append_assoc (all_ids k d) (ids_about k (offered (a ∷ [])))
                (ids_about k (offered rest))
            ∙ ap (λ l. all_ids k d ++ l) (offered-cons k a rest),
      )

  -- From a listening dispatcher that holds nothing, and as long as the channel has room, a run does
  -- not panic, and the ids that the handled, buffered and queued events of a kind name are those of
  -- the dispatched events, in order: none is lost, doubled or overtaken by another of its kind.
  pub run_delivers :
      (k : Kind) (actions : List Action)
      → HasRoom actions listening
      → (d : Dispatcher) × (run actions listening ≡ some d)
        × (all_ids k d ≡ ids_about k (offered actions))
  unfolding ids_about
  run_delivers k actions r =
      let (d, e, h, ids) = run-Adds k actions listening (refl, refl) r in (d, e, ids)
