-- ===== src/UserInfo/UserName.antt =====
-- The names of a user (domain/user_info/models/user_info.rs) and how one is chosen among them
-- (domain/shared/utils/contact_name_builder.rs).
use prose_core_client.Base.{
  String, Bool, Option, none, some, List, [], ◌∷◌, ◌++◌, ◌&&◌, if◌then◌else◌,
}
use prose_core_client.Shared.Ids.{UserId, CapabilitiesId}
use prose_core_client.Shared.Names.{TextTables, or_nickname, join, formatted_username}
use prose_core_client.UserInfo.Models.{Availability, Avatar, JabberClient}

pub record ProfileName : Type 0 where
  pub first_name : Option String
  pub last_name : Option String
  pub nickname : Option String

pub record UserName : Type 0 where
  pub roster : Option String
  pub nickname : Option String
  pub presence : Option String
  pub vcard : Option ProfileName

-- A status is an emoji and a text.
pub record UserInfo : Type 0 where
  pub status : Option (String × Option String)
  pub availability : Availability
  pub avatar : Option Avatar
  pub caps : Option CapabilitiesId
  pub client : Option JabberClient
  pub name : UserName

-- `UserInfo::default`
abbrev pub default_user_info : UserInfo
default_user_info = record {
  status = none;
  availability = Availability.unavailable;
  avatar = none;
  caps = none;
  client = none;
  name = record { roster = none; nickname = none; presence = none; vcard = none };
}

abbrev pub parts_of : Option String → List String
parts_of none = []
parts_of (some part) = part ∷ []

abbrev pub join_parts : List String → Option String
join_parts [] = none
join_parts (part ∷ parts) = some (join " " (part ∷ parts))

unfoldable pub concatenate_names : Option String → Option String → Option String
concatenate_names first_name last_name = join_parts (parts_of first_name ++ parts_of last_name)

unfoldable pub or_firstname_lastname : Option String → Option String → Option String → Option String
unfolding concatenate_names
or_firstname_lastname (some value) first_name last_name = some value
or_firstname_lastname none first_name last_name = concatenate_names first_name last_name

abbrev pub vcard_part : (ProfileName → Option String) → UserName → Option String
vcard_part f name = elim name.vcard [ none ↦ none | some vcard ↦ f vcard ]

-- `UserName::display_name`
unfoldable pub display_name : UserName → Option String
unfolding or_nickname or_firstname_lastname
display_name name =
    or_nickname
      (or_firstname_lastname
        (or_nickname (or_nickname (or_nickname none name.nickname) name.presence)
          (vcard_part (λ vcard. vcard.nickname) name))
        (vcard_part (λ vcard. vcard.first_name) name) (vcard_part (λ vcard. vcard.last_name) name))
      name.roster

abbrev pub is_some : Option String → Bool
is_some none = Bool.false
is_some (some s) = Bool.true

abbrev pub has_full_name : Option ProfileName → Bool
has_full_name none = Bool.false
has_full_name (some vcard) = is_some vcard.first_name && is_some vcard.last_name

unfoldable pub full_name : UserName → Option String
unfolding or_firstname_lastname
full_name name =
    if has_full_name name.vcard
    then or_firstname_lastname none (vcard_part (λ vcard. vcard.first_name) name)
        (vcard_part (λ vcard. vcard.last_name) name)
    else none

-- `UserInfoOptExt::display_name`
unfoldable pub user_display_name : Option UserInfo → Option String
unfolding display_name
user_display_name none = none
user_display_name (some info) = display_name info.name

unfoldable pub unwrap_or_username : TextTables → Option String → UserId → String
unfolding formatted_username
unwrap_or_username t (some value) id = value
unwrap_or_username t none id = formatted_username t id
