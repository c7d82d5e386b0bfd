-- ===== src/Messaging/Reduce.antt =====
-- `Message::reducing_messages` (message.rs): the stored messages of a conversation become the
-- messages to show. A first pass inserts the messages into a map and keeps the modifiers, a second
-- applies the modifiers in order. `none` stands for a panic (`unreachable!`).
pub mod Total
pub mod Identity
pub mod Retracted
pub mod Origin
mod Tests
use mathlib.Core.Option
use prose_core_client.Base.{
  Bool, true, false, Option, none, some, List, [], ◌∷◌, ◌++◌, map, string_eq,
}
use prose_core_client.Base.Assoc.{lookup, insert}
use prose_core_client.Shared.Ids.{ParticipantId}
use prose_core_client.Messaging.Models.{
  MessageId, MessageTargetId, MessageLike, MessageLikeBody, Payload, Message, Body, default_flags,
  target_id, target_eq,
}
use prose_core_client.Messaging.Reactions.{apply_reaction}

abbrev pub MessagesMap : Type 0
MessagesMap = List (MessageId × Option Message)

abbrev pub TargetMap : Type 0
TargetMap = List (MessageTargetId × MessageId)

infixl 5 ◌>>=◌
abbrev ◌>>=◌ {ℓ κ} : {A : Type ℓ} {B : Type κ} → Option A → (A → Option B) → Option B
none >>= f = none
some a >>= f = f a

-- `Option::is_some`
abbrev pub is_some {ℓ} : {A : Type ℓ} → Option A → Bool
is_some none = false
is_some (some a) = true

abbrev pub body_of : MessageLikeBody → Body
body_of b = record { raw = b.raw; html = b.html }

-- The message that a `Message` or an `Error` starts with; the other payloads are modifiers.
unfoldable pub message_of : MessageLike → Payload → Option Message
message_of msg (Payload.message body attachments encryption_info is_transient reply_to thread_id) =
    some (record {
      id = msg.id;
      remote_id = msg.remote_id;
      server_id = msg.server_id;
      from = msg.from;
      body = body_of body;
      timestamp = msg.timestamp;
      flags = record default_flags {
        is_transient = is_transient;
        is_encrypted = is_some encryption_info;
      };
      reactions = [];
      attachments = attachments;
      mentions = body.mentions;
      reply_to = reply_to;
    })
message_of msg (Payload.error error) = some (record {
  id = msg.id;
  remote_id = msg.remote_id;
  server_id = msg.server_id;
  from = msg.from;
  body = record { raw = error; html = error };
  timestamp = msg.timestamp;
  flags = default_flags;
  reactions = [];
  attachments = [];
  mentions = [];
  reply_to = none;
})
message_of msg (Payload.correction t b a e) = none
message_of msg (Payload.delivery_receipt t) = none
message_of msg (Payload.read_receipt t) = none
message_of msg (Payload.reaction t es) = none
message_of msg (Payload.retraction t) = none

-- The variables of the first loop.
pub record Collected : Type 0 where
  pub messages : MessagesMap
  pub targets : TargetMap
  pub modifiers : List MessageLike

abbrev pub insert_target : Option MessageTargetId → MessageId → TargetMap → TargetMap
insert_target none id targets = targets
insert_target (some target) id targets = insert target id targets

abbrev pub add_message : Message → Collected → Collected
add_message m c = record {
  messages = insert m.id (some m) c.messages;
  targets =
      insert_target (Option.map MessageTargetId.server_id m.server_id) m.id
        (insert_target (Option.map MessageTargetId.remote_id m.remote_id) m.id c.targets);
  modifiers = c.modifiers;
}

-- One round of the first loop.
unfoldable pub collect_one : Collected → MessageLike → Collected
unfolding insert message_of
collect_one c msg = elim (message_of msg msg.payload) [
  | some m ↦ add_message m c
  | none ↦ record c { modifiers = c.modifiers ++ msg ∷ [] }
]

unfoldable pub collect : Collected → List MessageLike → Collected
unfolding collect_one
collect c [] = c
collect c (msg ∷ msgs) = collect (collect_one c msg) msgs

abbrev pub nothing_collected : Collected
nothing_collected = record { messages = []; targets = []; modifiers = [] }

-- What a modifier from `from` makes of its message; a retracted message is `some none`.
unfoldable pub modify : ParticipantId → Payload → Message → Option (Option Message)
unfolding apply_reaction
modify from (Payload.correction t body attachments encryption_info) m = some (
    some (record m {
      body = body_of body;
      mentions = body.mentions;
      flags = record m.flags { is_edited = true; is_encrypted = is_some encryption_info };
      attachments = attachments;
    }))
modify from (Payload.delivery_receipt t) m =
    some (some (record m { flags = record m.flags { is_delivered = true } }))
modify from (Payload.read_receipt t) m =
    some (some (record m { flags = record m.flags { is_read = true } }))
modify from (Payload.reaction t emojis) m =
    some (some (record m { reactions = apply_reaction from emojis m.reactions }))
modify from (Payload.retraction t) m = some none
modify from (Payload.message b a e i r t) m = none
modify from (Payload.error e) m = none

-- A modifier at the message that its target resolves to; without one it is ignored.
unfoldable pub modify_at : MessageLike → Option MessageId → MessagesMap → Option MessagesMap
unfolding lookup insert modify
modify_at modifier none messages = some messages
modify_at modifier (some id) messages = elim (lookup id messages) [
  | some (some m) ↦ do m' ← modify modifier.from modifier.payload m; some (insert id m' messages)
  | _ ↦ some messages
]

-- One round of the second loop.
unfoldable pub apply_modifier : TargetMap → MessagesMap → MessageLike → Option MessagesMap
unfolding modify_at target_id
apply_modifier targets messages modifier = do
  target ← target_id modifier.payload
  modify_at modifier (lookup target targets) messages

unfoldable pub apply_modifiers : TargetMap → MessagesMap → List MessageLike → Option MessagesMap
unfolding apply_modifier
apply_modifiers targets messages [] = some messages
apply_modifiers targets messages (modifier ∷ modifiers) = do
  messages' ← apply_modifier targets messages modifier
  apply_modifiers targets messages' modifiers

-- `into_values().filter_map(|msg| msg)`
abbrev pub kept_messages : MessagesMap → List Message
kept_messages [] = []
kept_messages ((id, none) ∷ rest) = kept_messages rest
kept_messages ((id, some m) ∷ rest) = m ∷ kept_messages rest

unfoldable pub reducing_messages : List MessageLike → Option (List Message)
unfolding collect apply_modifiers
reducing_messages messages =
    let c = collect nothing_collected messages in
    do reduced ← apply_modifiers c.targets c.messages c.modifiers; some (kept_messages reduced)
