-- ===== src/Rooms/Service/Enter.antt =====
-- `create_or_join_room_with_spec`, `create_or_join_group`, `create_room` and `create_or_join_room`
-- (rooms_domain_service.rs).
use Prim.Native.String.{◌++◌ as str_append}
use prose_core_client.Base.{
  String, ℕ, none, some, List, [], ◌∷◌, ◌++◌, Bool, true, false, not, length, ltb, ◌&&◌,
}
use prose_core_client.Base.Sort.{sort_by}
use prose_core_client.Shared.Ids.{UserId, MucId, BareJid, room_bare_jid}
use prose_core_client.Shared.Names.{join}
use prose_core_client.UserInfo.UserName.{user_display_name, unwrap_or_username}
use prose_core_client.UserInfo.Models.{Availability}
use prose_core_client.Events.Models.{ClientRoomEventType}
use prose_core_client.Rooms.RoomModels.{RoomSidebarState, RoomSessionInfo, RoomSpec}
use prose_core_client.Rooms.RoomError.{RoomError}
use prose_core_client.Rooms.ConnectedRooms.{get}
use prose_core_client.Rooms.Room.{Room, room_id, dispatch_room}
use prose_core_client.Rooms.Service.{
  Op, return, fail, continue, match, or_else, change, Services, build_nickname,
}
use prose_core_client.Rooms.Service.Requests.{
  Status, RoomStatus, RoomInfoStatus, CreateRoomType, CreateRoomBehavior, CreateOrEnterRoomRequest,
  value_of, is_new_status, has_context,
}
use prose_core_client.Rooms.Service.Finalize.{finalize_pending_room}
use prose_core_client.Rooms.Service.Join.{join_room}
use prose_core_client.Rooms.Service.DirectMessage.{join_direct_message}
use prose_core_client.Rooms.Service.Create.{
  create_loop, add_owners, group_name_hash, is_public_channel_name_unique,
}

module _ (c : Services) (fuel : ℕ) where
  unfoldable pub create_or_join_room_with_spec :
      UserId
      → BareJid
      → String
      → String
      → RoomSpec
      → RoomSidebarState
      → CreateRoomBehavior
      → Availability
      → (MucId → RoomSessionInfo → Op RoomSessionInfo)
      → Op RoomInfoStatus
  unfolding create_loop build_nickname user_display_name unwrap_or_username
  create_or_join_room_with_spec account service id room_name spec sidebar_state behavior
        availability perform_additional_config s =
      continue (c.get_user_info account s) (λ info.
        let display_name = unwrap_or_username c.tables (user_display_name info) account in
        create_loop c perform_additional_config
          (record {
            service = service;
            room_id = id;
            room_name = room_name;
            spec = spec;
            nickname = build_nickname c (some display_name) account;
            display_name = display_name;
            sidebar_state = sidebar_state;
            availability = availability;
            behavior = behavior;
          })
          fuel 0 id)

  -- The loop over the participants
  unfoldable pub participant_names : List UserId → Op (List String)
  unfolding user_display_name unwrap_or_username
  participant_names [] = return []
  participant_names (id ∷ ids) = λ s. continue (or_else none (c.get_user_info id s)) (λ info s'.
      continue (participant_names ids s')
        (λ names. return (unwrap_or_username c.tables (user_display_name info) id ∷ names)))

  unfoldable pub promote_to_owners :
      List UserId → List UserId → MucId → RoomSessionInfo → Op RoomSessionInfo
  unfolding add_owners
  promote_to_owners participants including_self id info s =
      let info' = record info { members = add_owners info.members participants } in
      elim info.room_has_been_created [
        | true ↦
            match (c.set_room_owners id including_self s) (λ u. return info')
              (λ error. fail (
                RoomError.anyhow
                  "Failed to update user affiliations of created group to type 'owner'"))
        | false ↦ return info' s
      ]

  unfoldable pub send_invites : List UserId → RoomInfoStatus → Op RoomInfoStatus
  unfolding value_of
  send_invites participants status s = elim (value_of status).room_has_been_created [
    | true ↦
        continue (c.invite_users_to_room (value_of status).room_id participants s)
          (λ u. return status)
    | false ↦ return status s
  ]

  unfoldable pub create_or_join_group :
      UserId
      → BareJid
      → List UserId
      → RoomSidebarState
      → CreateRoomBehavior
      → Availability
      → Op RoomInfoStatus
  unfolding participant_names create_or_join_room_with_spec group_name_hash promote_to_owners
      send_invites
  create_or_join_group account service participants sidebar_state behavior availability s =
      elim (ltb (length participants) 2) [
        | true ↦ fail RoomError.invalid_number_of_participants s
        | false ↦
            let including_self = participants ++ account ∷ [] in
            continue (participant_names including_self s) (λ names s1.
              continue
                (create_or_join_room_with_spec account service (group_name_hash c including_self)
                  (join ", " (sort_by c.le_text names)) RoomSpec.group sidebar_state behavior
                  availability (promote_to_owners participants including_self) s1)
                (send_invites participants))
      ]

  unfoldable pub create_channel :
      UserId
      → BareJid
      → String
      → RoomSpec
      → RoomSidebarState
      → CreateRoomBehavior
      → Availability
      → Op RoomInfoStatus
  unfolding create_or_join_room_with_spec
  create_channel account service name spec sidebar_state behavior availability s =
      continue (c.new_id s) (λ id.
        create_or_join_room_with_spec account service (str_append "org.prose.channel." id) name spec
          sidebar_state behavior availability (λ jid. return))

  abbrev pub if_unique : Op RoomInfoStatus → Bool → Op RoomInfoStatus
  if_unique create true = create
  if_unique create false = fail RoomError.public_channel_name_conflict

  unfoldable pub create_of_type :
      UserId
      → BareJid
      → CreateRoomType
      → RoomSidebarState
      → CreateRoomBehavior
      → Availability
      → Op RoomInfoStatus
  unfolding create_or_join_group is_public_channel_name_unique create_channel
  create_of_type account service (CreateRoomType.group participants) sidebar_state behavior a =
      create_or_join_group account service participants sidebar_state behavior a
  create_of_type account service (CreateRoomType.private_channel name) sidebar_state behavior a =
      create_channel account service name RoomSpec.private_channel sidebar_state behavior a
  create_of_type account service (CreateRoomType.public_channel name) sidebar_state behavior a =
      λ s. continue (is_public_channel_name_unique c name s) (
        if_unique
          (create_channel account service name RoomSpec.public_channel sidebar_state behavior a))

  -- A room that is connected already is returned.
  unfoldable pub existing_on_error : RoomError → Op RoomStatus
  unfolding get room_bare_jid
  existing_on_error (RoomError.room_is_already_connected id) s =
      elim (get room_id (room_bare_jid id) s.connected) [
        | none ↦ fail (RoomError.room_is_already_connected id) s
        | some room ↦ return (Status.exists room) s
      ]
  existing_on_error error s = fail error s

  unfoldable pub create_room :
      UserId → BareJid → CreateRoomType → RoomSidebarState → CreateRoomBehavior → Op RoomStatus
  unfolding finalize_pending_room existing_on_error create_of_type
  create_room account service type sidebar_state behavior s =
      continue (c.availability s) (λ availability s1.
        match (create_of_type account service type sidebar_state behavior availability s1)
          (finalize_pending_room c) existing_on_error)

  unfoldable pub enter : UserId → CreateOrEnterRoomRequest → RoomSidebarState → Op RoomStatus
  unfolding create_room join_room join_direct_message
  enter account (CreateOrEnterRoomRequest.create service type behavior context) sidebar_state =
      create_room account service type sidebar_state behavior
  enter account (CreateOrEnterRoomRequest.join_room id password behavior context) sidebar_state =
      join_room c fuel account id password sidebar_state behavior
  enter account (CreateOrEnterRoomRequest.join_direct_message id context) sidebar_state =
      join_direct_message c id sidebar_state

  unfoldable pub reload_messages : RoomStatus → Bool → Op Unit
  unfolding value_of is_new_status dispatch_room
  reload_messages status new_messages_found =
      elim (not (is_new_status status) && new_messages_found) [
        | true ↦ change (dispatch_room (value_of status) ClientRoomEventType.messages_need_reload)
        | false ↦ return tt
      ]

  -- The archive's answer may be an error, which is only logged.
  unfoldable pub catch_up : RoomStatus → Op Unit
  unfolding value_of reload_messages
  catch_up status s =
      match (c.catchup_room (value_of status) s) (reload_messages status) (λ error. return tt)

  abbrev pub finalize_context : Bool → Op Unit
  finalize_context true = return tt
  finalize_context false = λ s. or_else tt (c.finalize_decryption s)

  unfoldable pub create_or_join_room : CreateOrEnterRoomRequest → RoomSidebarState → Op Room
  unfolding catch_up has_context value_of enter
  create_or_join_room request sidebar_state s = continue (c.connected_account s) (λ account s1.
      continue (enter account request sidebar_state s1) (λ status s2.
        continue (catch_up status s2) (λ u s3.
          continue (finalize_context (has_context request) s3) (λ u. return (value_of status)))))
