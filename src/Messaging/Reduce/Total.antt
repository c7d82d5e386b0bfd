-- ===== src/Messaging/Reduce/Total.antt =====
-- `reducing_messages` (message.rs) and its `unreachable!`s.
use prose_core_client.Base.{
  ◌≡◌, refl, Option, none, some, List, [], ◌∷◌, ◌++◌, All, All-append, Option-cases, inl, inr,
  string_eq,
}
use prose_core_client.Base.Assoc.{lookup, insert}
use prose_core_client.Shared.Ids.{ParticipantId}
use prose_core_client.Messaging.Models.{
  MessageId, MessageLike, Payload, Message, target_id, target_eq,
}
use prose_core_client.Messaging.Reduce.{
  MessagesMap, TargetMap, message_of, Collected, collect_one, collect, nothing_collected, modify,
  modify_at, apply_modifier, apply_modifiers, kept_messages, reducing_messages, add_message,
}

abbrev pub IsModifier : MessageLike → Type 0
IsModifier msg = message_of msg msg.payload ≡ none

modify_total :
    (msg : MessageLike) (p : Payload) (from : ParticipantId) (m : Message)
    → message_of msg p ≡ none
    → (o : Option Message) × (modify from p m ≡ some o)
unfolding message_of modify
modify_total msg (Payload.message b a e i r t) from m h = absurd (cc)
modify_total msg (Payload.error e) from m h = absurd (cc)
modify_total msg (Payload.correction t b a e) from m h = (_, refl)
modify_total msg (Payload.delivery_receipt t) from m h = (_, refl)
modify_total msg (Payload.read_receipt t) from m h = (_, refl)
modify_total msg (Payload.reaction t es) from m h = (_, refl)
modify_total msg (Payload.retraction t) from m h = (_, refl)

target_total :
    (msg : MessageLike) (p : Payload) → message_of msg p ≡ none → (t : _) × (target_id p ≡ some t)
unfolding message_of target_id
target_total msg (Payload.message b a e i r t) h = absurd (cc)
target_total msg (Payload.error e) h = absurd (cc)
target_total msg (Payload.correction t b a e) h = (t, refl)
target_total msg (Payload.delivery_receipt t) h = (t, refl)
target_total msg (Payload.read_receipt t) h = (t, refl)
target_total msg (Payload.reaction t es) h = (t, refl)
target_total msg (Payload.retraction t) h = (t, refl)

modify_at_total :
    (msg : MessageLike) (o : Option MessageId) (messages : MessagesMap)
    → IsModifier msg
    → (r : MessagesMap) × (modify_at msg o messages ≡ some r)
unfolding modify_at
modify_at_total msg none messages h = (messages, refl)
modify_at_total msg (some id) messages h = elim (Option-cases (lookup id messages)) [
  | inl miss ↦ (messages, rw (miss, modify_at))
  | inr (none, hit) ↦ (messages, rw (hit, modify_at))
  | inr (some m, hit) ↦
      let (o, e) = modify_total msg msg.payload msg.from m h in
      (insert id o messages, rw (hit, modify_at) (rw e))
]

apply_modifier_total :
    (targets : TargetMap) (messages : MessagesMap) (msg : MessageLike)
    → IsModifier msg
    → (r : MessagesMap) × (apply_modifier targets messages msg ≡ some r)
unfolding apply_modifier
apply_modifier_total targets messages msg h =
    let (t, e) = target_total msg msg.payload h in
    let (r, q) = modify_at_total msg (lookup t targets) messages h in (r, rw e q)

pub apply_modifiers_total :
    (targets : TargetMap) (messages : MessagesMap) (msgs : List MessageLike)
    → All IsModifier msgs
    → (r : MessagesMap) × (apply_modifiers targets messages msgs ≡ some r)
unfolding apply_modifiers
apply_modifiers_total targets messages [] h = (messages, refl)
apply_modifiers_total targets messages (msg ∷ msgs) h =
    let (r, e) = apply_modifier_total targets messages msg h.0 in
    let (s, q) = apply_modifiers_total targets r msgs h.1 in (s, rw e q)

pub collect_one_modifier :
    (c : Collected) (msg : MessageLike)
    → message_of msg msg.payload ≡ none
    → collect_one c msg ≡ record c { modifiers = c.modifiers ++ msg ∷ [] }
unfolding collect_one
collect_one_modifier c msg h = rw (h, collect_one)

pub collect_one_message :
    (c : Collected) (msg : MessageLike) (m : Message)
    → message_of msg msg.payload ≡ some m
    → collect_one c msg ≡ add_message m c
unfolding collect_one
collect_one_message c msg m h = rw (h, collect_one)

collect_one-modifiers :
    (c : Collected) (msg : MessageLike)
    → All IsModifier c.modifiers
    → All IsModifier (collect_one c msg).modifiers
collect_one-modifiers c msg h = elim (Option-cases (message_of msg msg.payload)) [
  | inl is_modifier ↦
      rw (collect_one_modifier c msg is_modifier)
        (All-append IsModifier c.modifiers (msg ∷ []) h (is_modifier, tt))
  | inr (m, is_message) ↦ rw (collect_one_message c msg m is_message) h
]

pub collect-modifiers :
    (c : Collected) (msgs : List MessageLike)
    → All IsModifier c.modifiers
    → All IsModifier (collect c msgs).modifiers
unfolding collect
collect-modifiers c [] h = h
collect-modifiers c (msg ∷ msgs) h =
    collect-modifiers (collect_one c msg) msgs (collect_one-modifiers c msg h)

-- Whatever the stored messages, reducing them returns: neither `unreachable!` is reached.
pub reducing_messages_total :
    (msgs : List MessageLike) → (r : List Message) × (reducing_messages msgs ≡ some r)
unfolding reducing_messages
reducing_messages_total msgs =
    let c = collect nothing_collected msgs in
    let (r, e) =
      apply_modifiers_total c.targets c.messages c.modifiers
        (collect-modifiers nothing_collected msgs tt) in
    (kept_messages r, rw e)
