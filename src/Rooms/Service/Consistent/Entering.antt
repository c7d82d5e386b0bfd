-- ===== src/Rooms/Service/Consistent/Entering.antt =====
-- Consistent sessions under the requests to enter a room (rooms_domain_service.rs).
use prose_core_client.Base.{
  String, refl, ℕ, ◌+◌, none, Bool, true, false, List, [], ◌∷◌, ◌++◌, inl, inr, arith, Bool-cases,
  Option-cases, not, ◌&&◌, length, ltb, string_eq,
}
use prose_core_client.Base.Assoc.{lookup-insert}
use prose_core_client.Shared.Ids.{UserId, MucId, BareJid, RoomId, room_bare_jid}
use prose_core_client.UserInfo.Models.{Availability, Presence}
use prose_core_client.UserInfo.UserName.{display_name, unwrap_or_username}
use prose_core_client.Events.Models.{ClientRoomEventType}
use prose_core_client.Events.Dispatcher.{build}
use prose_core_client.Rooms.RoomModels.{
  RoomSessionInfo, RoomSpec, RoomSidebarState, RoomFeatures, SyncedRoomSettings,
}
use prose_core_client.Rooms.RoomError.{RoomError}
use prose_core_client.Rooms.ConnectedRooms.{get, set_or_replace}
use prose_core_client.Rooms.Room.{
  Room, room_id, Session, direct_message_room, new_room, dispatch, dispatch_room,
}
use prose_core_client.Rooms.Service.{Op, return, or_else, Services}
use prose_core_client.Rooms.Service.Requests.{
  RoomStatus, RoomInfoStatus, CreateRoomType, CreateRoomBehavior, CreateOrEnterRoomRequest,
  value_of, is_new_status, has_context,
}
use prose_core_client.Rooms.Service.Finalize.{settings_or}
use prose_core_client.Rooms.Service.DirectMessage.{
  Found, find_direct_message, replace_room, insert_direct_message, make_direct_message, use_found,
  presence_of, info_or_default, own_settings, join_direct_message,
}
use prose_core_client.Rooms.Service.Create.{is_public_channel_name_unique}
use prose_core_client.Rooms.Service.Enter.{
  create_or_join_room_with_spec, participant_names, promote_to_owners, send_invites,
  create_or_join_group, create_channel, if_unique, create_of_type, existing_on_error, create_room,
  enter, reload_messages, catch_up, finalize_context, create_or_join_room,
}
use prose_core_client.Rooms.Service.Consistent.{
  Consistent, Keeps, Keeping, look, with-Consistent, continue-Consistent, match-Consistent,
  or_else-Consistent,
}
use prose_core_client.Rooms.Service.Consistent.Joining.{
  finalize_pending_room-Consistent, join_room-Consistent,
}
use prose_core_client.Rooms.Service.Consistent.Creating.{
  create_loop-Consistent, is_public_channel_name_unique-Consistent,
}

dispatch_room-Consistent :
    (r : Room) (type : ClientRoomEventType) (s : Session)
    → Consistent s
    → Consistent (dispatch_room r type s)
unfolding dispatch_room dispatch
dispatch_room-Consistent r type s h = elim (Option-cases (build r.info.type r.info.room_id)) [
  | inl out ↦ rw (dispatch_room, out) h
  | inr (envelope, there) ↦ rw (dispatch_room, there) h
]

direct_message-Consistent :
    (found : Found) (id : UserId) (name : String) (presence : Presence)
    (sidebar_state : RoomSidebarState) (features : RoomFeatures) (settings : SyncedRoomSettings)
    (s : Session)
    → Consistent s
    → Consistent
        (replace_room found
          (direct_message_room id name presence sidebar_state features settings s)).1
unfolding replace_room direct_message_room new_room set_or_replace room_bare_jid get
direct_message-Consistent found id name presence sidebar_state features settings s h =
    let made = direct_message_room id name presence sidebar_state features settings s in
    with-Consistent (look s) s.fresh h (look (replace_room found made).1) id made.0 (s.fresh + 1)
      (λ other. lookup-insert id other made.0 s.connected) refl (omega arith) (omega arith)

module _ (c : Services) (keep : Keeping c) (fuel : ℕ) where
  with_spec-Consistent :
      (account : UserId) (service : BareJid) (id name : String) (spec : RoomSpec)
      (sidebar_state : RoomSidebarState) (behavior : CreateRoomBehavior) (a : Availability)
      (config : MucId → RoomSessionInfo → Op RoomSessionInfo)
      → ((jid : MucId) (info : RoomSessionInfo) → Keeps (config jid info))
      → Keeps (
          create_or_join_room_with_spec c fuel account service id name spec sidebar_state behavior a
            config)
  unfolding create_or_join_room_with_spec
  with_spec-Consistent account service id name spec sidebar_state behavior a config h s k =
      continue-Consistent (c.get_user_info account s) _ (keep.get_user_info account s k)
        (λ info. create_loop-Consistent c keep _ config h fuel 0 id)

  participant_names-Consistent : (ids : List UserId) → Keeps (participant_names c fuel ids)
  unfolding participant_names
  participant_names-Consistent [] s h = h
  participant_names-Consistent (id ∷ ids) s h =
      continue-Consistent (or_else none (c.get_user_info id s)) _
        (or_else-Consistent none (c.get_user_info id s) (keep.get_user_info id s h))
        (λ info s1 h1.
          continue-Consistent (participant_names c fuel ids s1) _
            (participant_names-Consistent ids s1 h1) (λ names s2 h2. h2))

  promote_to_owners-Consistent :
      (participants including_self : List UserId) (id : MucId) (info : RoomSessionInfo)
      → Keeps (promote_to_owners c fuel participants including_self id info)
  unfolding promote_to_owners
  promote_to_owners-Consistent participants including_self id info s h =
      elim (Bool-cases info.room_has_been_created) [
        | inl created ↦
            rw (promote_to_owners, created)
              (match-Consistent (c.set_room_owners id including_self s) _ _
                (keep.set_room_owners id including_self s h) (λ u s1 h1. h1) (λ e s1 h1. h1))
        | inr entered ↦ rw (promote_to_owners, entered) h
      ]

  send_invites-Consistent :
      (participants : List UserId) (status : RoomInfoStatus)
      → Keeps (send_invites c fuel participants status)
  unfolding send_invites
  send_invites-Consistent participants status s h =
      elim (Bool-cases (value_of status).room_has_been_created) [
        | inl created ↦
            rw (send_invites, created)
              (continue-Consistent (c.invite_users_to_room (value_of status).room_id participants s)
                _ (keep.invite_users_to_room (value_of status).room_id participants s h)
                (λ u s1 h1. h1))
        | inr entered ↦ rw (send_invites, entered) h
      ]

  group-Consistent :
      (account : UserId) (service : BareJid) (participants : List UserId)
      (sidebar_state : RoomSidebarState) (behavior : CreateRoomBehavior) (a : Availability)
      → Keeps (create_or_join_group c fuel account service participants sidebar_state behavior a)
  unfolding create_or_join_group
  group-Consistent account service participants sidebar_state behavior a s h =
      elim (Bool-cases (ltb (length participants) 2)) [
        | inl few ↦ rw (create_or_join_group, few) h
        | inr enough ↦
            rw (create_or_join_group, enough)
              (continue-Consistent (participant_names c fuel (participants ++ account ∷ []) s) _
                (participant_names-Consistent (participants ++ account ∷ []) s h)
                (λ names s1 h1.
                  continue-Consistent _ (send_invites c fuel participants)
                    (with_spec-Consistent account service _ _ RoomSpec.group sidebar_state behavior
                      a (promote_to_owners c fuel participants (participants ++ account ∷ []))
                      (promote_to_owners-Consistent participants (participants ++ account ∷ [])) s1
                      h1)
                    (send_invites-Consistent participants)))
      ]

  channel-Consistent :
      (account : UserId) (service : BareJid) (name : String) (spec : RoomSpec)
      (sidebar_state : RoomSidebarState) (behavior : CreateRoomBehavior) (a : Availability)
      → Keeps (create_channel c fuel account service name spec sidebar_state behavior a)
  unfolding create_channel
  channel-Consistent account service name spec sidebar_state behavior a s h =
      continue-Consistent (c.new_id s) _ (keep.new_id s h) (λ id.
        with_spec-Consistent account service _ name spec sidebar_state behavior a (λ jid. return)
          (λ jid info s1 h1. h1))

  if_unique-Consistent :
      (create : Op RoomInfoStatus)
      → Keeps create
      → (unique : Bool) → Keeps (if_unique c fuel create unique)
  if_unique-Consistent create h true = h
  if_unique-Consistent create h false = λ s k. k

  of_type-Consistent :
      (account : UserId) (service : BareJid) (type : CreateRoomType)
      (sidebar_state : RoomSidebarState) (behavior : CreateRoomBehavior) (a : Availability)
      → Keeps (create_of_type c fuel account service type sidebar_state behavior a)
  unfolding create_of_type
  of_type-Consistent account service (CreateRoomType.group ids) sidebar_state behavior a =
      group-Consistent account service ids sidebar_state behavior a
  of_type-Consistent account service (CreateRoomType.private_channel name) sidebar_state behavior
        a =
      channel-Consistent account service name RoomSpec.private_channel sidebar_state behavior a
  of_type-Consistent account service (CreateRoomType.public_channel name) sidebar_state behavior a =
      λ s h.
        continue-Consistent (is_public_channel_name_unique c name s) _
          (is_public_channel_name_unique-Consistent c keep name s h)
          (if_unique-Consistent
            (create_channel c fuel account service name RoomSpec.public_channel sidebar_state
              behavior a)
            (channel-Consistent account service name RoomSpec.public_channel sidebar_state behavior
              a))

  existing_on_error-Consistent : (error : RoomError) → Keeps (existing_on_error c fuel error)
  unfolding existing_on_error
  existing_on_error-Consistent (RoomError.room_is_already_connected id) s h =
      elim (Option-cases (get room_id (room_bare_jid id) s.connected)) [
        | inl out ↦ rw (existing_on_error, out) h
        | inr (r, there) ↦ rw (existing_on_error, there) h
      ]
  existing_on_error-Consistent _ s h = h

  create_room-Consistent :
      (account : UserId) (service : BareJid) (type : CreateRoomType)
      (sidebar_state : RoomSidebarState) (behavior : CreateRoomBehavior)
      → Keeps (create_room c fuel account service type sidebar_state behavior)
  unfolding create_room
  create_room-Consistent account service type sidebar_state behavior s h =
      continue-Consistent (c.availability s) _ (keep.availability s h) (λ a s1 h1.
        match-Consistent (create_of_type c fuel account service type sidebar_state behavior a s1) _
          _ (of_type-Consistent account service type sidebar_state behavior a s1 h1)
          (finalize_pending_room-Consistent c keep) existing_on_error-Consistent)

  insert_direct_message-Consistent :
      (id : UserId) (sidebar_state : RoomSidebarState) (found : Found)
      → Keeps (insert_direct_message c id sidebar_state found)
  unfolding insert_direct_message make_direct_message
  insert_direct_message-Consistent id sidebar_state found s h =
      continue-Consistent (or_else none (c.get_user_info id s)) _
        (or_else-Consistent none (c.get_user_info id s) (keep.get_user_info id s h))
        (λ user s1 h1.
          continue-Consistent (or_else none (c.load_settings (RoomId.user id) s1)) _
            (or_else-Consistent none (c.load_settings (RoomId.user id) s1)
              (keep.load_settings (RoomId.user id) s1 h1))
            (λ settings s2 h2.
              continue-Consistent (c.server_features s2) _ (keep.server_features s2 h2)
                (λ features s3.
                  direct_message-Consistent found id
                    (unwrap_or_username c.tables (display_name (info_or_default user).name) id)
                    (presence_of (info_or_default user)) sidebar_state
                    (record {
                      mam_version = features.mam_version;
                      server_time_offset = features.server_time_offset;
                      self_ping_optimization = false;
                    })
                    (settings_or settings (own_settings id found s2)) s3)))

  use_found-Consistent :
      (id : UserId) (sidebar_state : RoomSidebarState) (found : Found)
      → Keeps (use_found c id sidebar_state found)
  unfolding use_found
  use_found-Consistent id sidebar_state Found.absent =
      insert_direct_message-Consistent id sidebar_state Found.absent
  use_found-Consistent id sidebar_state (Found.stale r) =
      insert_direct_message-Consistent id sidebar_state (Found.stale r)
  use_found-Consistent id sidebar_state (Found.usable r) = λ s h. h

  join_direct_message-Consistent :
      (id : UserId) (sidebar_state : RoomSidebarState)
      → Keeps (join_direct_message c id sidebar_state)
  unfolding join_direct_message
  join_direct_message-Consistent id sidebar_state s =
      use_found-Consistent id sidebar_state (find_direct_message id s) s

  enter-Consistent :
      (account : UserId) (request : CreateOrEnterRoomRequest) (sidebar_state : RoomSidebarState)
      → Keeps (enter c fuel account request sidebar_state)
  unfolding enter
  enter-Consistent account (CreateOrEnterRoomRequest.create service type behavior context)
        sidebar_state =
      create_room-Consistent account service type sidebar_state behavior
  enter-Consistent account (CreateOrEnterRoomRequest.join_room id password behavior context)
        sidebar_state =
      join_room-Consistent c keep fuel account id password sidebar_state behavior
  enter-Consistent account (CreateOrEnterRoomRequest.join_direct_message id context) sidebar_state =
      join_direct_message-Consistent id sidebar_state

  reload_messages-Consistent :
      (status : RoomStatus) (found : Bool) → Keeps (reload_messages c fuel status found)
  unfolding reload_messages
  reload_messages-Consistent status found s h =
      elim (Bool-cases (not (is_new_status status) && found)) [
        | inl reload ↦
            rw (reload_messages, reload)
              (dispatch_room-Consistent (value_of status) ClientRoomEventType.messages_need_reload s
                h)
        | inr quiet ↦ rw (reload_messages, quiet) h
      ]

  catch_up-Consistent : (status : RoomStatus) → Keeps (catch_up c fuel status)
  unfolding catch_up
  catch_up-Consistent status s h =
      match-Consistent (c.catchup_room (value_of status) s) _ _
        (keep.catchup_room (value_of status) s h) (reload_messages-Consistent status)
        (λ e s1 h1. h1)

  finalize_context-Consistent : (context : Bool) → Keeps (finalize_context c fuel context)
  finalize_context-Consistent true s h = h
  finalize_context-Consistent false s h =
      or_else-Consistent tt (c.finalize_decryption s) (keep.finalize_decryption s h)

-- Creating or joining a room by any request, successfully or not, keeps a session consistent, when
-- the services that are called and the events that arrive meanwhile do: every connected room stands
-- at its own bare JID, was made by the client, and shares its details with no other connected room.
pub create_or_join_room-Consistent :
    (c : Services) (fuel : ℕ) (request : CreateOrEnterRoomRequest)
    (sidebar_state : RoomSidebarState) (s : Session)
    → Keeping c
    → Consistent s
    → Consistent (create_or_join_room c fuel request sidebar_state s).1
unfolding create_or_join_room
create_or_join_room-Consistent c fuel request sidebar_state s keep h =
    continue-Consistent (c.connected_account s) _ (keep.connected_account s h) (λ account s1 h1.
      continue-Consistent (enter c fuel account request sidebar_state s1) _
        (enter-Consistent c keep fuel account request sidebar_state s1 h1)
        (λ status s2 h2.
          continue-Consistent (catch_up c fuel status s2) _
            (catch_up-Consistent c keep fuel status s2 h2)
            (λ u s3 h3.
              continue-Consistent (finalize_context c fuel (has_context request) s3) _
                (finalize_context-Consistent c keep fuel (has_context request) s3 h3)
                (λ v s4 h4. h4))))
