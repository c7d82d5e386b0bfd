-- ===== src/UserInfo/Models.antt =====
-- Presence and avatars (domain/user_info/models: presence.rs, avatar.rs, jabber_client.rs;
-- domain/shared/models/availability.rs). An `i8` priority is an integer; the url crate's `Url` is
-- its text.
use prose_core_client.Base.{String, Option, none, Bool, true, false}
use prose_core_client.Base.Int.{ℤ, pos}
use prose_core_client.Shared.Ids.{UserId, ParticipantId, CapabilitiesId, AvatarId}

pub data Availability : Type 0 where
  available unavailable do_not_disturb away invisible : Availability

-- `availability == Availability::Unavailable`
abbrev pub is_unavailable : Availability → Bool
is_unavailable unavailable = true
is_unavailable _ = false

pub data AvatarSource : Type 0 where
  pep : UserId → String → AvatarSource
  vcard : ParticipantId → Option UserId → AvatarSource

pub record Avatar : Type 0 where
  pub id : AvatarId
  pub source : AvatarSource

abbrev pub JabberClient : Type 0
JabberClient = String

pub record Presence : Type 0 where
  pub availability : Availability
  pub avatar : Option Avatar
  pub caps : Option CapabilitiesId
  pub client : Option JabberClient
  pub nickname : Option String
  pub priority : ℤ
  pub status : Option String

-- `Presence::default`
abbrev pub default_presence : Presence
default_presence = record {
  availability = unavailable;
  avatar = none;
  caps = none;
  client = none;
  nickname = none;
  priority = pos 0;
  status = none;
}
