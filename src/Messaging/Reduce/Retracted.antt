-- ===== src/Messaging/Reduce/Retracted.antt =====
-- What `apply_modifiers` does to a message after a retraction.
use prose_core_client.Base.{
  ◌≡◌, subst, Option, none, some, List, [], ◌∷◌, arith, Option-cases, inl, inr, string_eq, Occurs,
  beq_refl,
}
use prose_core_client.Base.Assoc.{lookup, insert, lookup-insert}
use prose_core_client.Messaging.Models.{
  MessageId, MessageTargetId, MessageLike, Payload, Message, target_id, target_eq,
}
use prose_core_client.Messaging.Reduce.{
  MessagesMap, TargetMap, modify, modify_at, apply_modifier, apply_modifiers,
}
use prose_core_client.Messaging.Reduce.Identity.{Later, apply_modifiers-Later, apply_modifiers-cons}

-- No message is shown for the entry.
abbrev pub IsGone : Option (Option Message) → Type 0
IsGone none = Unit
IsGone (some none) = Unit
IsGone (some (some m)) = ⊥

Later-IsGone : (a b : Option (Option Message)) → Later a b → IsGone a → IsGone b
Later-IsGone none none h g = tt
Later-IsGone none (some b) h g = absurd h
Later-IsGone (some none) none h g = tt
Later-IsGone (some none) (some none) h g = tt
Later-IsGone (some none) (some (some n)) h g = absurd h
Later-IsGone (some (some m)) b h g = absurd g

retract :
    (targets : TargetMap) (messages next : MessagesMap) (msg : MessageLike) (t : MessageTargetId)
    (id : MessageId)
    → msg.payload ≡ Payload.retraction t
    → lookup t targets ≡ some id
    → apply_modifier targets messages msg ≡ some next
    → IsGone (lookup id next)
unfolding apply_modifier modify_at modify target_id
retract targets messages next msg t id p e h = elim (Option-cases (lookup id messages)) [
  | inl miss ↦
      let q : messages ≡ next = ground (arith, p) in
      subst (λ m. IsGone (lookup id m)) q (rw miss tt)
  | inr (none, hit) ↦
      let q : messages ≡ next = ground (arith, p) in subst (λ m. IsGone (lookup id m)) q (rw hit tt)
  | inr (some m, hit) ↦
      let q : insert id none messages ≡ next = ground (arith, p) in
      subst (λ m. IsGone (lookup id m)) q (rw (lookup-insert id id none messages, beq_refl id) tt)
]

-- If a retraction is among the modifiers and its target resolves to an id, then no message with that
-- id is left, wherever the retraction stands and whatever follows it.
pub apply_modifiers_retracted :
    (targets : TargetMap) (messages after : MessagesMap) (msgs : List MessageLike)
    (msg : MessageLike) (t : MessageTargetId) (id : MessageId)
    → Occurs msg msgs
    → msg.payload ≡ Payload.retraction t
    → lookup t targets ≡ some id
    → apply_modifiers targets messages msgs ≡ some after
    → IsGone (lookup id after)
apply_modifiers_retracted targets messages after [] msg t id o p e h = absurd o
apply_modifiers_retracted targets messages after (x ∷ xs) msg t id (inl q) p e h =
    let (next, step, rest) = apply_modifiers-cons targets messages after x xs h in
    Later-IsGone (lookup id next) (lookup id after)
      (apply_modifiers-Later targets next after xs id rest)
      (retract targets messages next x t id (subst (λ y. y.payload ≡ Payload.retraction t) q p) e
        step)
apply_modifiers_retracted targets messages after (x ∷ xs) msg t id (inr o) p e h =
    let (next, step, rest) = apply_modifiers-cons targets messages after x xs h in
    apply_modifiers_retracted targets next after xs msg t id o p e rest
