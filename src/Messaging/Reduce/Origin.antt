-- ===== src/Messaging/Reduce/Origin.antt =====
-- Where the messages that are shown come from.
use prose_core_client.Base.{
  ◌≡◌, ◌≢◌, refl, sym, subst, Option, none, some, List, [], ◌∷◌, All, arith, Option-cases,
  Bool-cases, inl, inr, string_eq, ◌==◌, ==_iff, Occurs, beq_refl, ◌∙◌,
}
use prose_core_client.Base.Assoc.{lookup, lookup-insert, IsUnique, insert-IsUnique}
use prose_core_client.Messaging.Models.{MessageId, MessageLike, Message}
use prose_core_client.Messaging.Reduce.{
  MessagesMap, TargetMap, Collected, collect_one, collect, nothing_collected, message_of,
  apply_modifiers, kept_messages, reducing_messages,
}
use prose_core_client.Messaging.Reduce.Total.{collect_one_modifier, collect_one_message}
use prose_core_client.Messaging.Reduce.Identity.{
  SameOrigin, Later, Change, apply_modifier-Change, apply_modifiers-Later, apply_modifiers-cons,
}

-- Every message of the map is what a stored message with the property `Q` starts as.
abbrev pub IsFrom : (MessageLike → Type 0) → MessagesMap → Type 0
IsFrom Q messages =
    (id : MessageId) (m : Message)
    → lookup id messages ≡ some (some m)
    → (msg : MessageLike) × Q msg × (message_of msg msg.payload ≡ some m) × (m.id ≡ id)

module _ (Q : MessageLike → Type 0) where
  collect_one-IsFrom :
      (c : Collected) (msg : MessageLike)
      → Q msg
      → IsFrom Q c.messages
      → IsFrom Q (collect_one c msg).messages
  collect_one-IsFrom c msg q h = elim (Option-cases (message_of msg msg.payload)) [
    | inl is_modifier ↦ rw (collect_one_modifier c msg is_modifier) h
    | inr (m, is_message) ↦ rw (collect_one_message c msg m is_message) (λ id n e.
        elim (Bool-cases (m.id == id)) [
          | inl same ↦
              let p : m ≡ n = ground (arith, lookup-insert m.id id (some m) c.messages) in
              (msg, q, cc (is_message, p), cc (p, (==_iff m.id id).0 same))
          | inr other ↦ h id n (ground (arith, lookup-insert m.id id (some m) c.messages))
        ])
  ]

  collect-IsFrom :
      (c : Collected) (msgs : List MessageLike)
      → All Q msgs
      → IsFrom Q c.messages
      → IsFrom Q (collect c msgs).messages
  unfolding collect
  collect-IsFrom c [] q h = h
  collect-IsFrom c (msg ∷ msgs) q h =
      collect-IsFrom (collect_one c msg) msgs q.1 (collect_one-IsFrom c msg q.0 h)

collect-IsUnique :
    (c : Collected) (msgs : List MessageLike)
    → IsUnique c.messages
    → IsUnique (collect c msgs).messages
unfolding collect
collect-IsUnique c [] h = h
collect-IsUnique c (msg ∷ msgs) h =
    collect-IsUnique (collect_one c msg) msgs (elim (Option-cases (message_of msg msg.payload)) [
      | inl is_modifier ↦ rw (collect_one_modifier c msg is_modifier) h
      | inr (m, is_message) ↦
          rw (collect_one_message c msg m is_message) (insert-IsUnique m.id (some m) c.messages h)
    ])

Change-IsUnique :
    {messages after : MessagesMap} → Change messages after → IsUnique messages → IsUnique after
Change-IsUnique (Change.unchanged e) h = subst (λ m. IsUnique m) (sym e) h
Change-IsUnique {messages} (Change.replaced id m o hit later e) h =
    subst (λ x. IsUnique x) (sym e) (insert-IsUnique id o messages h)

apply_modifiers-IsUnique :
    (targets : TargetMap) (messages after : MessagesMap) (msgs : List MessageLike)
    → apply_modifiers targets messages msgs ≡ some after
    → IsUnique messages
    → IsUnique after
unfolding apply_modifiers
apply_modifiers-IsUnique targets messages after [] e h =
    let q : messages ≡ after = cc in subst (λ m. IsUnique m) q h
apply_modifiers-IsUnique targets messages after (msg ∷ msgs) e h =
    let (next, step, rest) = apply_modifiers-cons targets messages after msg msgs e in
    apply_modifiers-IsUnique targets next after msgs rest
      (Change-IsUnique (apply_modifier-Change targets messages msg next step) h)

-- A property of the entries of a map holds of the messages that are kept.
kept-All {κ} :
    (P : Message → Type κ) (messages : MessagesMap)
    → IsUnique messages
    → ((id : MessageId) (m : Message) → lookup id messages ≡ some (some m) → P m)
    → All P (kept_messages messages)
unfolding lookup
kept-All P [] u h = tt
kept-All P ((k, none) ∷ rest) u h =
    kept-All P rest u.1 (λ id m e. h id m (ground (arith, ==_iff k id, u.0)))
kept-All P ((k, some n) ∷ rest) u h = (
  h k n (rw (beq_refl k)),
  kept-All P rest u.1 (λ id m e. h id m (ground (arith, ==_iff k id, u.0))),
)

-- No two messages have the same id.
abbrev pub HasDistinctIds : List Message → Type 0
HasDistinctIds [] = Unit
HasDistinctIds (m ∷ ms) = All (λ n. n.id ≢ m.id) ms × HasDistinctIds ms

kept-HasDistinctIds :
    (messages : MessagesMap)
    → IsUnique messages
    → ((id : MessageId) (m : Message) → lookup id messages ≡ some (some m) → m.id ≡ id)
    → HasDistinctIds (kept_messages messages)
unfolding lookup
kept-HasDistinctIds [] u h = tt
kept-HasDistinctIds ((k, none) ∷ rest) u h =
    kept-HasDistinctIds rest u.1 (λ id m e. h id m (ground (arith, ==_iff k id, u.0)))
kept-HasDistinctIds ((k, some n) ∷ rest) u h =
    let here : n.id ≡ k = h k n (rw (beq_refl k)) in
    (
      kept-All (λ m. m.id ≢ n.id) rest u.1
          (λ id m e same.
            let there = h id m (ground (arith, ==_iff k id, u.0)) in
            let q : id ≡ k = sym there ∙ same ∙ here in cc (e, q, u.0)),
      kept-HasDistinctIds rest u.1 (λ id m e. h id m (ground (arith, ==_iff k id, u.0))),
    )

Later-origin :
    (a b : Option (Option Message)) (m : Message)
    → Later a b
    → b ≡ some (some m)
    → (o : Message) × (a ≡ some (some o)) × SameOrigin o m
Later-origin none none m l e = absurd (cc)
Later-origin none (some b) m l e = absurd l
Later-origin (some none) none m l e = absurd l
Later-origin (some none) (some none) m l e = absurd (cc)
Later-origin (some none) (some (some n)) m l e = absurd l
Later-origin (some (some o)) none m l e = absurd l
Later-origin (some (some o)) (some none) m l e = absurd (cc)
Later-origin (some (some o)) (some (some n)) m l e =
    let q : n ≡ m = cc in (o, refl, subst (λ x. SameOrigin o x) q l)

All-Occurs :
    (xs ys : List MessageLike)
    → ((m : MessageLike) → Occurs m xs → Occurs m ys)
    → All (λ m. Occurs m ys) xs
All-Occurs [] ys h = tt
All-Occurs (x ∷ xs) ys h = (h x (inl refl), All-Occurs xs ys (λ m o. h m (inr o)))

-- A message that is shown has the ids, sender, timestamp and reply of a stored `Message` or `Error`.
abbrev pub ComesFrom : List MessageLike → Message → Type 0
ComesFrom msgs m =
    (msg : MessageLike) × (o : Message) × Occurs msg msgs
    × (message_of msg msg.payload ≡ some o)
    × SameOrigin o m

reducing_messages-inv :
    (msgs : List MessageLike) (r : List Message)
    → reducing_messages msgs ≡ some r
    → (after : MessagesMap) × (apply_modifiers
          (collect nothing_collected msgs).targets
          (collect nothing_collected msgs).messages
          (collect nothing_collected msgs).modifiers
        ≡ some after)
      × (r ≡ kept_messages after)
unfolding reducing_messages
reducing_messages-inv msgs r h =
    let c = collect nothing_collected msgs in
    elim (Option-cases (apply_modifiers c.targets c.messages c.modifiers)) [
      | inl panics ↦ absurd (ground arith)
      | inr (after, e) ↦ (after, e, ground arith)
    ]

-- Every message that reducing shows stems from a stored message or error among the input, with its
-- ids, sender, timestamp and reply unchanged, and no two of them have the same id.
pub reducing_messages-origin :
    (msgs : List MessageLike) (r : List Message)
    → reducing_messages msgs ≡ some r
    → All (ComesFrom msgs) r × HasDistinctIds r
reducing_messages-origin msgs r h =
    let (after, e, q) = reducing_messages-inv msgs r h in
    let c = collect nothing_collected msgs in
    let from =
      collect-IsFrom (λ m. Occurs m msgs) nothing_collected msgs (All-Occurs msgs msgs (λ m o. o))
        (λ id m x. unfold lookup in absurd (cc)) in
    let unique =
      apply_modifiers-IsUnique c.targets c.messages after c.modifiers e
        (collect-IsUnique nothing_collected msgs tt) in
    let back = λ (id : MessageId) (m : Message) (x : lookup id after ≡ some (some m)).
      Later-origin (lookup id c.messages) (lookup id after) m
        (apply_modifiers-Later c.targets c.messages after c.modifiers id e) x in
    subst (λ x. All (ComesFrom msgs) x × HasDistinctIds x) (sym q)
      (
        kept-All (ComesFrom msgs) after unique (λ id m x.
            let (o, hit, same) = back id m x in
            let (msg, occurs, starts, key) = from id o hit in (msg, o, occurs, starts, same)),
        kept-HasDistinctIds after unique (λ id m x.
            let (o, hit, same) = back id m x in
            let (msg, occurs, starts, key) = from id o hit in same.0 ∙ key),
      )
