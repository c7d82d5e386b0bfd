-- ===== src/Messaging/Reduce/Identity.antt =====
-- What modifiers leave alone: which messages there are, and where each came from.
use prose_core_client.Base.{
  ◌≡◌, refl, sym, subst, ◌∙◌, Option, none, some, List, [], ◌∷◌, arith, Option-cases, Bool-cases,
  inl, inr, string_eq, ◌==◌, ==_iff,
}
use prose_core_client.Base.Assoc.{lookup, insert, lookup-insert}
use prose_core_client.Shared.Ids.{ParticipantId}
use prose_core_client.Messaging.Models.{
  MessageId, MessageLike, Payload, Message, target_id, target_eq,
}
use prose_core_client.Messaging.Reduce.{
  MessagesMap, TargetMap, modify, modify_at, apply_modifier, apply_modifiers,
}

-- The same message, maybe with another body, other attachments, mentions, reactions or flags.
abbrev pub SameOrigin : Message → Message → Type 0
SameOrigin m n =
    (n.id ≡ m.id)
    × (n.remote_id ≡ m.remote_id)
    × (n.server_id ≡ m.server_id)
    × (n.from ≡ m.from)
    × (n.timestamp ≡ m.timestamp)
    × (n.reply_to ≡ m.reply_to)
    × (n.flags.is_transient ≡ m.flags.is_transient)

-- What may become of an entry of the map: none appears, a message keeps its origin or is retracted,
-- and a retracted message stays retracted.
abbrev pub Later : Option (Option Message) → Option (Option Message) → Type 0
Later none none = Unit
Later none (some o) = ⊥
Later (some none) (some none) = Unit
Later (some none) (some (some n)) = ⊥
Later (some none) none = ⊥
Later (some (some m)) none = ⊥
Later (some (some m)) (some none) = Unit
Later (some (some m)) (some (some n)) = SameOrigin m n

Later-refl : (o : Option (Option Message)) → Later o o
Later-refl none = tt
Later-refl (some none) = tt
Later-refl (some (some m)) = (refl, refl, refl, refl, refl, refl, refl)

Later-trans : (a b c : Option (Option Message)) → Later a b → Later b c → Later a c
Later-trans none none c h k = k
Later-trans none (some b) c h k = absurd h
Later-trans (some none) none c h k = absurd h
Later-trans (some none) (some none) c h k = k
Later-trans (some none) (some (some n)) c h k = absurd h
Later-trans (some (some m)) none c h k = absurd h
Later-trans (some (some m)) (some none) none h k = absurd k
Later-trans (some (some m)) (some none) (some none) h k = tt
Later-trans (some (some m)) (some none) (some (some p)) h k = absurd k
Later-trans (some (some m)) (some (some n)) none h k = absurd k
Later-trans (some (some m)) (some (some n)) (some none) h k = tt
Later-trans (some (some m)) (some (some n)) (some (some p)) h k =
    (k.0 ∙ h.0, k.1 ∙ h.1, k.2 ∙ h.2, k.3 ∙ h.3, k.4 ∙ h.4, k.5 ∙ h.5, k.6 ∙ h.6)

modify-Later :
    (from : ParticipantId) (p : Payload) (m : Message) (o : Option Message)
    → modify from p m ≡ some o
    → Later (some (some m)) (some o)
unfolding modify
modify-Later from (Payload.message b a e i r t) m o h = absurd (cc)
modify-Later from (Payload.error e) m o h = absurd (cc)
modify-Later from (Payload.correction t b a e) m none h = tt
modify-Later from (Payload.delivery_receipt t) m none h = tt
modify-Later from (Payload.read_receipt t) m none h = tt
modify-Later from (Payload.reaction t es) m none h = tt
modify-Later from (Payload.retraction t) m none h = tt
modify-Later from (Payload.correction t b a e) m (some n) h = ground arith
modify-Later from (Payload.delivery_receipt t) m (some n) h = ground arith
modify-Later from (Payload.read_receipt t) m (some n) h = ground arith
modify-Later from (Payload.reaction t es) m (some n) h = ground arith
modify-Later from (Payload.retraction t) m (some n) h = absurd (cc)

modify_at_hit :
    (msg : MessageLike) (id : MessageId) (m : Message) (o : Option Message) (messages : MessagesMap)
    → lookup id messages ≡ some (some m)
    → modify msg.from msg.payload m ≡ some o
    → modify_at msg (some id) messages ≡ some (insert id o messages)
unfolding modify_at
modify_at_hit msg id m o messages hit e = rw (hit, modify_at) (rw e)

-- A modifier either leaves the map as it is, or replaces one message.
pub data Change (messages : MessagesMap) (after : MessagesMap) : Type 0 where
  unchanged : after ≡ messages → Change messages after
  replaced :
      (id : MessageId) (m : Message) (o : Option Message)
      → lookup id messages ≡ some (some m)
      → Later (some (some m)) (some o)
      → after ≡ insert id o messages
      → Change messages after

modify_at-Change :
    (msg : MessageLike) (o : Option MessageId) (messages after : MessagesMap)
    → modify_at msg o messages ≡ some after
    → Change messages after
unfolding modify_at
modify_at-Change msg none messages after h = Change.unchanged (cc)
modify_at-Change msg (some id) messages after h = elim (Option-cases (lookup id messages)) [
  | inl miss ↦ Change.unchanged (ground arith)
  | inr (none, hit) ↦ Change.unchanged (ground arith)
  | inr (some m, hit) ↦ elim (Option-cases (modify msg.from msg.payload m)) [
    | inl panics ↦ absurd (ground arith)
    | inr (o, e) ↦
        Change.replaced id m o hit (modify-Later msg.from msg.payload m o e)
          (ground (arith, modify_at_hit msg id m o messages))
  ]
]

pub apply_modifier-Change :
    (targets : TargetMap) (messages : MessagesMap) (msg : MessageLike) (after : MessagesMap)
    → apply_modifier targets messages msg ≡ some after
    → Change messages after
unfolding apply_modifier
apply_modifier-Change targets messages msg after h = elim (Option-cases (target_id msg.payload)) [
  | inl panics ↦ absurd (ground arith)
  | inr (t, e) ↦ modify_at-Change msg (lookup t targets) messages after (rw e at h)
]

Change-Later :
    {messages after : MessagesMap} (id : MessageId)
    → Change messages after
    → Later (lookup id messages) (lookup id after)
Change-Later {messages} {after} id (Change.unchanged e) =
    subst (λ m. Later (lookup id messages) (lookup id m)) (sym e) (Later-refl (lookup id messages))
Change-Later {messages} {after} id (Change.replaced j m o hit later e) =
    subst (λ x. Later (lookup id messages) (lookup id x)) (sym e)
      (elim (Bool-cases (j == id)) [
        | inl same ↦
            let q : j ≡ id = (==_iff j id).0 same in
            rw (lookup-insert j id o messages, same)
              (subst (λ k. Later (lookup k messages) (some o)) q (rw hit later))
        | inr other ↦ rw (lookup-insert j id o messages, other) (Later-refl (lookup id messages))
      ])

pub apply_modifiers-cons :
    (targets : TargetMap) (messages after : MessagesMap) (msg : MessageLike)
    (msgs : List MessageLike)
    → apply_modifiers targets messages (msg ∷ msgs) ≡ some after
    → (next : MessagesMap) × (apply_modifier targets messages msg ≡ some next)
      × (apply_modifiers targets next msgs ≡ some after)
unfolding apply_modifiers
apply_modifiers-cons targets messages after msg msgs h =
    elim (Option-cases (apply_modifier targets messages msg)) [
      | inl panics ↦ absurd (ground arith)
      | inr (next, e) ↦ (next, e, (rw e at h))
    ]

-- Whatever modifiers are applied, at every id: no message appears, one that is left keeps its ids,
-- sender, timestamp and the message it replies to, and one that has been retracted stays so.
pub apply_modifiers-Later :
    (targets : TargetMap) (messages after : MessagesMap) (msgs : List MessageLike) (id : MessageId)
    → apply_modifiers targets messages msgs ≡ some after
    → Later (lookup id messages) (lookup id after)
unfolding apply_modifiers
apply_modifiers-Later targets messages after [] id h =
    subst (λ m. Later (lookup id messages) (lookup id m)) (cc) (Later-refl (lookup id messages))
apply_modifiers-Later targets messages after (msg ∷ msgs) id h =
    let (next, e, rest) = apply_modifiers-cons targets messages after msg msgs h in
    Later-trans (lookup id messages) (lookup id next) (lookup id after)
      (Change-Later id (apply_modifier-Change targets messages msg next e))
      (apply_modifiers-Later targets next after msgs id rest)
