-- ===== src/Shared/Names.antt =====
-- Display names (util/string_ext.rs, domain/shared/utils/contact_name_builder.rs and the
-- `formatted_…` methods of user_id.rs and occupant_id.rs). The node of a JID and the upper case of a
-- character come from the jid crate and from Rust's Unicode tables: they are the parameters.
use Prim.Native.Char.{Char}
use Prim.Native.String.{◌++◌ as str_append}
use prose_core_client.Base.{
  String, Bool, ◌||◌, Option, none, some, List, [], ◌∷◌, map, if◌then◌else◌, ◌==◌, string_eq,
}
use prose_core_client.Shared.Ids.{UserId, OccupantId, ParticipantId, BareJid}

pub record TextTables : Type 0 where
  pub node : BareJid → Option String
  pub to_uppercase : Char → String

abbrev pub is_separator : Char → Bool
is_separator c = let s = String.◌∷◌ c String.[] in s == "." || s == "_" || s == "-"

-- `c` in front of the first segment
abbrev pub extend_first : Char → List String → List String
extend_first c [] = String.◌∷◌ c String.[] ∷ []
extend_first c (s ∷ rest) = String.◌∷◌ c s ∷ rest

-- `str::split`: the segments between separators, at least one
unfoldable pub split : (Char → Bool) → String → List String
split p String.[] = String.[] ∷ []
split p (String.◌∷◌ c s) =
    let rest = split p s in if p c then String.[] ∷ rest else extend_first c rest

-- `str::split_terminator`: an empty last segment is left out
abbrev pub drop_empty_last : List String → List String
drop_empty_last [] = []
drop_empty_last (s ∷ []) = if s == "" then [] else s ∷ []
drop_empty_last (s ∷ t ∷ rest) = s ∷ drop_empty_last (t ∷ rest)

abbrev pub join : String → List String → String
join sep [] = ""
join sep (s ∷ []) = s
join sep (s ∷ t ∷ rest) = str_append s (str_append sep (join sep (t ∷ rest)))

-- `ContactNameBuilder` holds the first name that was offered.
unfoldable pub or_nickname : Option String → Option String → Option String
or_nickname (some value) nickname = some value
or_nickname none nickname = nickname

module _ (t : TextTables) where
  unfoldable pub to_uppercase_first_letter : String → String
  to_uppercase_first_letter String.[] = ""
  to_uppercase_first_letter (String.◌∷◌ c s) = str_append (t.to_uppercase c) s

  unfoldable pub capitalized_display_name : String → String
  unfolding split to_uppercase_first_letter
  capitalized_display_name s =
      join " " (map to_uppercase_first_letter (drop_empty_last (split is_separator s)))

  unfoldable pub formatted_username : UserId → String
  unfolding capitalized_display_name
  formatted_username id = elim (t.node id) [
    | none ↦ to_uppercase_first_letter id
    | some node ↦ capitalized_display_name node
  ]

  unfoldable pub formatted_nickname : OccupantId → String
  unfolding capitalized_display_name
  formatted_nickname id = capitalized_display_name id.resource

  unfoldable pub unwrap_or_participant_id : Option String → ParticipantId → String
  unfolding formatted_username formatted_nickname
  unwrap_or_participant_id (some value) id = value
  unwrap_or_participant_id none (ParticipantId.user id) = formatted_username id
  unwrap_or_participant_id none (ParticipantId.occupant id) = formatted_nickname id
