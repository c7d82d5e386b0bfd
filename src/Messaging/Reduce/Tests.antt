-- ===== src/Messaging/Reduce/Tests.antt =====
-- A short conversation, reduced, and the theorems on reducing at it.
use prose_core_client.Base.{
  ◌≡◌, refl, false, [], ◌∷◌, List, Option, some, none, All, inl, string_eq,
}
use prose_core_client.Base.Int.{pos}
use prose_core_client.Base.Assoc.{lookup}
use prose_core_client.Shared.Ids.{ParticipantId}
use prose_core_client.Messaging.Models.{
  MessageLike, Message, Payload, MessageTargetId, default_flags, MessageId, target_eq,
}
use prose_core_client.Messaging.Reduce.{reducing_messages, MessagesMap, TargetMap, apply_modifiers}
use prose_core_client.Messaging.Reduce.Total.{reducing_messages_total}
use prose_core_client.Messaging.Reduce.Identity.{Later, apply_modifiers-Later}
use prose_core_client.Messaging.Reduce.Retracted.{IsGone, apply_modifiers_retracted}
use prose_core_client.Messaging.Reduce.Origin.{ComesFrom, HasDistinctIds, reducing_messages-origin}

abbrev a : ParticipantId
a = ParticipantId.user "a@prose.org"

abbrev stored : MessageId → Option MessageId → Payload → MessageLike
stored id remote_id payload = record {
  id = id;
  remote_id = remote_id;
  server_id = none;
  to = none;
  from = a;
  timestamp = pos 1680883200;
  payload = payload;
}

abbrev text : MessageId → MessageId → MessageLike
text id remote_id = stored id (some remote_id) (
    Payload.message (record { raw = "Hello"; html = "Hello"; mentions = [] }) [] none false none
      none)

abbrev retracted : MessageLike
retracted = stored "id4" none (Payload.retraction (MessageTargetId.remote_id "2"))

abbrev reacted : MessageLike
reacted = stored "id3" none (Payload.reaction (MessageTargetId.remote_id "1") ("👍" ∷ []))

abbrev conversation : List MessageLike
conversation = text "id1" "1" ∷ text "id2" "2" ∷ reacted ∷ retracted ∷ []

abbrev shown : Message
shown = record {
  id = "id1";
  remote_id = some "1";
  server_id = none;
  from = a;
  body = record { raw = "Hello"; html = "Hello" };
  timestamp = pos 1680883200;
  flags = default_flags;
  reactions = record { emoji = "👍"; from = a ∷ [] } ∷ [];
  attachments = [];
  mentions = [];
  reply_to = none;
}

conversation_run : reducing_messages conversation ≡ some (shown ∷ [])
unfolding reducing_messages
conversation_run = refl

reducing_messages_total_example : (r : List Message) × (reducing_messages conversation ≡ some r)
reducing_messages_total_example = reducing_messages_total conversation

abbrev hello : Message
hello = record shown { reactions = [] }

abbrev loaded : MessagesMap
loaded = ("id1", some hello) ∷ []

abbrev key : MessageId
key = "id1"

abbrev emptied : MessagesMap
emptied = (key, none) ∷ []

abbrev targets : TargetMap
targets = (MessageTargetId.remote_id "2", "id1") ∷ []

apply_modifiers-Later_example : Later (lookup key loaded) (lookup key emptied)
unfolding apply_modifiers
apply_modifiers-Later_example =
    apply_modifiers-Later targets loaded emptied (retracted ∷ []) key refl

apply_modifiers_retracted_example : IsGone (lookup key emptied)
unfolding apply_modifiers
apply_modifiers_retracted_example =
    apply_modifiers_retracted targets loaded emptied (retracted ∷ reacted ∷ []) retracted
      (MessageTargetId.remote_id "2") key (inl refl) refl refl refl

reducing_messages-origin_example :
    All (ComesFrom conversation) (shown ∷ []) × HasDistinctIds (shown ∷ [])
reducing_messages-origin_example =
    reducing_messages-origin conversation (shown ∷ []) conversation_run
