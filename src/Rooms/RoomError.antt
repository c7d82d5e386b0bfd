-- ===== src/Rooms/RoomError.antt =====
-- The errors of rooms and requests (domain/rooms/models/room_error.rs,
-- crates/prose-xmpp/src/util/request_error.rs). A stanza error (xmpp_parsers) stands as its
-- condition and its alternate address; the errors of anyhow, jid and the parsers as their texts.
use prose_core_client.Base.{String, Option, none, some, Bool, true, false}
use prose_core_client.Shared.Ids.{MucId, RoomId}

-- The conditions of RFC 6120 that the code asks for; `other` stands for the rest.
pub data DefinedCondition : Type 0 where
  conflict feature_not_implemented forbidden gone item_not_found registration_required
        remote_server_not_found remote_server_timeout service_unavailable other :
      DefinedCondition

pub data RequestError : Type 0 where
  timed_out disconnected unexpected_response : RequestError
  xmpp : DefinedCondition → Option String → RequestError
  generic parse_error from_element_error : String → RequestError

unfoldable pub defined_condition : RequestError → Option DefinedCondition
defined_condition (RequestError.xmpp condition alternate_address) = some condition
defined_condition _ = none

pub data RoomError : Type 0 where
  room_is_already_connected : RoomId → RoomError
  room_not_found room_was_modified public_channel_name_conflict invalid_number_of_participants :
      RoomError
  request_error : RequestError → RoomError
  room_validation_error anyhow jid_error parse_error : String → RoomError

pub record GoneError : Type 0 where
  pub new_location : Option MucId

unfoldable pub condition_of : RoomError → Option DefinedCondition
unfolding defined_condition
condition_of (RoomError.request_error error) = defined_condition error
condition_of _ = none

abbrev pub is_conflict : Option DefinedCondition → Bool
is_conflict (some DefinedCondition.conflict) = true
is_conflict _ = false

-- The jid crate's `Jid::from_iri`, as its bare JID, is the parameter.
module _ (from_iri : String → Option MucId) where
  abbrev pub location_of : Option String → Option MucId
  location_of none = none
  location_of (some iri) = from_iri iri

  unfoldable pub gone_err : RoomError → Option GoneError
  gone_err (RoomError.request_error (RequestError.xmpp DefinedCondition.gone address)) =
      some (record { new_location = location_of address })
  gone_err _ = none

  abbrev pub is_some_err : Option GoneError → Bool
  is_some_err none = false
  is_some_err (some error) = true

  unfoldable pub is_gone_err : RoomError → Bool
  unfolding gone_err
  is_gone_err error = is_some_err (gone_err error)

unfoldable pub is_registration_required_err : RoomError → Bool
is_registration_required_err
      (RoomError.request_error (RequestError.xmpp DefinedCondition.registration_required address)) =
    true
is_registration_required_err _ = false
