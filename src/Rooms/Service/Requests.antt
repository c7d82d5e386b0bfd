-- ===== src/Rooms/Service/Requests.antt =====
-- The requests to the service (domain/rooms/services/rooms_domain_service.rs) and whether a room was
-- there before (`RoomStatus`, `RoomInfoStatus`).
use prose_core_client.Base.{String, Option, List, Bool, true, false}
use prose_core_client.Shared.Ids.{UserId, MucId, BareJid}
use prose_core_client.Rooms.RoomModels.{RoomSessionInfo}
use prose_core_client.Rooms.Room.{Room}

pub data Status (A : Type 0) : Type 0 where
  is_new : A → Status A
  exists : A → Status A

abbrev pub RoomStatus : Type 0
RoomStatus = Status Room

abbrev pub RoomInfoStatus : Type 0
RoomInfoStatus = Status RoomSessionInfo

unfoldable pub is_new_status : {A : Type 0} → Status A → Bool
is_new_status (Status.is_new a) = true
is_new_status (Status.exists a) = false

-- `deref`
unfoldable pub value_of : {A : Type 0} → Status A → A
value_of (Status.is_new a) = a
value_of (Status.exists a) = a

-- The same status of another value
abbrev pub status_with : {A B : Type 0} → Status A → B → Status B
status_with (Status.is_new a) b = Status.is_new b
status_with (Status.exists a) b = Status.exists b

pub data CreateRoomType : Type 0 where
  group : List UserId → CreateRoomType
  private_channel public_channel : String → CreateRoomType

pub data CreateRoomBehavior : Type 0 where
  follow_if_gone fail_if_gone create_unique_if_gone follow_then_create_unique : CreateRoomBehavior

pub data JoinRoomRedirectBehavior : Type 0 where
  follow_if_gone fail_if_gone : JoinRoomRedirectBehavior

pub data JoinRoomFailureBehavior : Type 0 where
  remove_on_error retain_on_error : JoinRoomFailureBehavior

pub record JoinRoomBehavior : Type 0 where
  pub on_redirect : JoinRoomRedirectBehavior
  pub on_failure : JoinRoomFailureBehavior

unfoldable pub user_initiated : JoinRoomBehavior
user_initiated = record {
  on_redirect = JoinRoomRedirectBehavior.follow_if_gone;
  on_failure = JoinRoomFailureBehavior.remove_on_error;
}

unfoldable pub system_initiated : JoinRoomBehavior
system_initiated = record {
  on_redirect = JoinRoomRedirectBehavior.follow_if_gone;
  on_failure = JoinRoomFailureBehavior.retain_on_error;
}

-- Whether the caller keeps the decryption of messages open is all that counts of its context.
pub data CreateOrEnterRoomRequest : Type 0 where
  create : BareJid → CreateRoomType → CreateRoomBehavior → Bool → CreateOrEnterRoomRequest
  join_room : MucId → Option String → JoinRoomBehavior → Bool → CreateOrEnterRoomRequest
  join_direct_message : UserId → Bool → CreateOrEnterRoomRequest

unfoldable pub has_context : CreateOrEnterRoomRequest → Bool
has_context (CreateOrEnterRoomRequest.create service type behavior context) = context
has_context (CreateOrEnterRoomRequest.join_room id password behavior context) = context
has_context (CreateOrEnterRoomRequest.join_direct_message id context) = context
