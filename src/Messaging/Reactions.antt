-- ===== src/Messaging/Reactions.antt =====
-- The reactions of a message (`toggle_reaction`, `reactions_from` and the `Reaction` branch of
-- `reducing_messages` in message.rs).
pub mod Sets
pub mod Toggle
mod Tests
use prose_core_client.Base.{
  Bool, true, false, not, Option, none, some, List, [], ◌∷◌, ◌++◌, map, retain, contains, any,
  if◌then◌else◌, ◌==◌, ◌&&◌, string_eq,
}
use prose_core_client.Shared.Ids.{ParticipantId, participant_id_eq}
use prose_core_client.Messaging.Models.{Emoji, Reaction, Message}

-- The inner loop: from the back, the first emoji that is `e` is taken out.
unfoldable pub take_last : Emoji → List Emoji → Option (List Emoji)
take_last e [] = none
take_last e (x ∷ xs) = elim (take_last e xs) [
  | some rest ↦ some (x ∷ rest)
  | none ↦ if x == e then some xs else none
]

abbrev pub add_author : ParticipantId → Reaction → Reaction
add_author author r =
    if contains author r.from then r else record r { from = r.from ++ author ∷ [] }

abbrev pub drop_author : ParticipantId → Reaction → Reaction
drop_author author r = record r { from = retain (λ from. not (from == author)) r.from }

-- The loop over the existing reactions; it leaves the emojis that none of them took.
unfoldable pub merge : ParticipantId → List Emoji → List Reaction → List Emoji × List Reaction
unfolding take_last
merge author emojis [] = (emojis, [])
merge author emojis (r ∷ rs) = elim (take_last r.emoji emojis) [
  | some rest ↦ let (left, merged) = merge author rest rs in (left, add_author author r ∷ merged)
  | none ↦ let (left, merged) = merge author emojis rs in (left, drop_author author r ∷ merged)
]

abbrev pub has_author : Reaction → Bool
has_author r = elim r.from [ [] ↦ false | _ ∷ _ ↦ true ]

abbrev pub new_reaction : ParticipantId → Emoji → Reaction
new_reaction author emoji = record { emoji = emoji; from = author ∷ [] }

-- What a `Reaction` of `author` makes of the reactions of its message.
unfoldable pub apply_reaction : ParticipantId → List Emoji → List Reaction → List Reaction
unfolding merge
apply_reaction author emojis rs =
    let (left, merged) = merge author emojis rs in
    retain has_author merged ++ map (new_reaction author) left

-- `Vec::remove` at the first position of `a`
unfoldable pub remove_first : ParticipantId → List ParticipantId → List ParticipantId
remove_first a [] = []
remove_first a (x ∷ xs) = if x == a then xs else x ∷ remove_first a xs

abbrev pub toggle_author : ParticipantId → Reaction → Reaction
toggle_author author r =
    if contains author r.from
    then record r { from = remove_first author r.from }
    else record r { from = r.from ++ author ∷ [] }

unfoldable pub toggle : ParticipantId → Emoji → List Reaction → List Reaction
unfolding remove_first
toggle author emoji [] = new_reaction author emoji ∷ []
toggle author emoji (r ∷ rs) =
    if r.emoji == emoji then toggle_author author r ∷ rs else r ∷ toggle author emoji rs

-- `Message::toggle_reaction`
unfoldable pub toggle_reaction : ParticipantId → Emoji → Message → Message
unfolding toggle
toggle_reaction author emoji m = record m { reactions = toggle author emoji m.reactions }

-- `Message::reactions_from`
unfoldable pub reactions_from : ParticipantId → List Reaction → List Emoji
reactions_from author rs = map (λ r. r.emoji) (retain (λ r. contains author r.from) rs)
