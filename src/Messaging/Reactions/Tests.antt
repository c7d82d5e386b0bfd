-- ===== src/Messaging/Reactions/Tests.antt =====
-- The scenarios of `test_toggle_reaction`, and the theorems on reactions at one of them.
use prose_core_client.Base.{
  ◌≡◌, refl, not, ◌&&◌, [], ◌∷◌, List, ◌==◌, string_eq, if◌then◌else◌, contains, some, none,
}
use prose_core_client.Base.Int.{pos}
use prose_core_client.Shared.Ids.{ParticipantId, participant_id_eq}
use prose_core_client.Messaging.Models.{Emoji, Reaction, Message, default_flags}
use prose_core_client.Messaging.Reactions.{apply_reaction, toggle, toggle_reaction, reactions_from}
use prose_core_client.Messaging.Reactions.Sets.{has_reacted, apply_reaction_sets}
use prose_core_client.Messaging.Reactions.Toggle.{IsTidy, toggle_sets, toggle_echo}

abbrev a : ParticipantId
a = ParticipantId.user "a@prose.org"

abbrev b : ParticipantId
b = ParticipantId.user "b@prose.org"

abbrev tada : Emoji
tada = "🎉"

abbrev check : List Emoji
check = "✅" ∷ []

abbrev party : List Reaction
party = record { emoji = "🎉"; from = a ∷ b ∷ [] } ∷ []

abbrev done : List Reaction
done = record { emoji = "🎉"; from = b ∷ [] } ∷ record { emoji = "✅"; from = a ∷ [] } ∷ []

reaction_runs :
    (toggle a "🎉" party ≡ record { emoji = "🎉"; from = b ∷ [] } ∷ [])
    × (apply_reaction a ("✅" ∷ []) party ≡ done)
    × (apply_reaction b [] done ≡ record { emoji = "✅"; from = a ∷ [] } ∷ [])
unfolding toggle apply_reaction
reaction_runs = (refl, refl, refl)

apply_reaction_sets_example :
    has_reacted b tada (apply_reaction a check party)
    ≡ (if a == b then contains tada check else has_reacted b tada party)
apply_reaction_sets_example = apply_reaction_sets a b tada check party

party-IsTidy : IsTidy party
party-IsTidy = (refl, (refl, (refl, tt)), tt)

toggle_sets_example :
    has_reacted a tada (toggle a tada party)
    ≡ (if a == a && tada == tada then not (has_reacted a tada party) else has_reacted a tada party)
toggle_sets_example = toggle_sets a a tada tada party party-IsTidy

abbrev greeting : Message
greeting = record {
  id = "id1";
  remote_id = some "1";
  server_id = none;
  from = b;
  body = record { raw = "Hello World"; html = "<p>Hello World</p>" };
  timestamp = pos 1680883200;
  flags = default_flags;
  reactions = party;
  attachments = [];
  mentions = [];
  reply_to = none;
}

toggle_echo_example :
    has_reacted a tada (
      apply_reaction a
        (reactions_from a (toggle_reaction a tada greeting).reactions)
        greeting.reactions)
    ≡ has_reacted a tada (toggle_reaction a tada greeting).reactions
toggle_echo_example = toggle_echo a a tada tada greeting
