-- ===== src/Rooms/Service/Configure.antt =====
-- `rename_room`, `reevaluate_room_spec` and `reconfigure_room_with_spec` (rooms_domain_service.rs).
use prose_core_client.Base.{
  String, ℕ, Option, none, some, List, [], ◌∷◌, Bool, true, false, ◌==◌, string_eq,
}
use prose_core_client.Shared.Ids.{UserId, MucId, ParticipantId, room_muc_id}
use prose_core_client.Events.Models.{ClientRoomEventType}
use prose_core_client.Events.Dispatcher.{RoomType}
use prose_core_client.Rooms.Models.{RoomAffiliation, Participant}
use prose_core_client.Rooms.RoomModels.{RoomConfig, RoomSpec, spec_room_type}
use prose_core_client.Rooms.RoomError.{RequestError, RoomError}
use prose_core_client.Rooms.ConnectedRooms.{get, set}
use prose_core_client.Rooms.Room.{
  Room, room_id, Session, details_of, set_name, set_description, by_changing_type, dispatch_room,
}
use prose_core_client.Base.Result.{ok, err}
use prose_core_client.Rooms.Service.{Outcome, Op, return, fail, continue, match, or_else, Services}
use prose_core_client.Rooms.Service.Requests.{CreateRoomType, CreateRoomBehavior, value_of}
use prose_core_client.Rooms.Service.Connecting.{forget_room}
use prose_core_client.Rooms.Service.Finalize.{update_room}
use prose_core_client.Rooms.Service.Create.{is_public_channel_name_unique}
use prose_core_client.Rooms.Service.Enter.{create_room}

-- `r#type == other`
abbrev pub room_type_beq : RoomType → RoomType → Bool
room_type_beq RoomType.unknown RoomType.unknown = true
room_type_beq RoomType.direct_message RoomType.direct_message = true
room_type_beq RoomType.group RoomType.group = true
room_type_beq RoomType.private_channel RoomType.private_channel = true
room_type_beq RoomType.public_channel RoomType.public_channel = true
room_type_beq RoomType.generic RoomType.generic = true
room_type_beq _ _ = false

-- `affiliation >= RoomAffiliation::Member`
abbrev pub is_member : RoomAffiliation → Bool
is_member RoomAffiliation.outcast = false
is_member RoomAffiliation.none = false
is_member _ = true

abbrev pub member_id : Participant → List UserId → List UserId
member_id p ids = elim (is_member p.affiliation) [
  | true ↦ elim p.real_id [ none ↦ ids | some id ↦ id ∷ ids ]
  | false ↦ ids
]

unfoldable pub member_ids : List (ParticipantId × Participant) → List UserId
member_ids [] = []
member_ids ((id, p) ∷ ps) = member_id p (member_ids ps)

-- `_ = connected_rooms_repo.set(…)`
unfoldable pub put_back : Room → Session → Session
unfolding set
put_back room s = elim (set room_id room s.connected) [
  | ok rooms ↦ record s { connected = rooms }
  | err e ↦ s
]

abbrev pub updated_or : {A : Type 0} → RoomError → Option A × Session → Outcome A × Session
updated_or error (none, s) = (Outcome.failed error, s)
updated_or error (some a, s) = (Outcome.done a, s)

module _ (c : Services) (fuel : ℕ) where
  abbrev pub apply_name : MucId → Room → String → Op Unit
  unfolding set_name dispatch_room
  apply_name id room name s = continue (c.set_room_name id name s) (λ u s'. (
    Outcome.done tt,
    dispatch_room room ClientRoomEventType.attributes_changed (set_name room (some name) s'),
  ))

  abbrev pub if_unique : {A : Type 0} → String → Op A → Op A
  unfolding is_public_channel_name_unique
  if_unique name action s = continue (is_public_channel_name_unique c name s) (λ unique.
      elim unique [ true ↦ action | false ↦ fail RoomError.public_channel_name_conflict ])

  abbrev pub rename_of_type : RoomType → String → Op Unit → Op Unit
  rename_of_type RoomType.public_channel name action = if_unique name action
  rename_of_type RoomType.private_channel name action = action
  rename_of_type RoomType.generic name action = action
  rename_of_type _ name action = λ s. (Outcome.panicked, s)

  unfoldable pub rename_room : MucId → String → Op Unit
  unfolding get
  rename_room id name s = continue (c.connected_account s) (λ account s1.
      elim (get room_id id s1.connected) [
        | none ↦ fail RoomError.room_not_found s1
        | some room ↦ rename_of_type room.info.type name (apply_name id room name) s1
      ])

  abbrev pub change_type : RoomError → MucId → RoomType → Op Room
  unfolding update_room by_changing_type
  change_type error id type s =
      updated_or error (update_room id (λ room. by_changing_type room type) s)

  abbrev pub apply_config : MucId → Room → RoomConfig → Op Room
  unfolding set_name set_description
  apply_config id room config s =
      let s' = set_description room config.room_description (set_name room config.room_name s) in
      elim (room_type_beq room.info.type config.room_type) [
        | true ↦ (Outcome.done room, s')
        | false ↦ change_type RoomError.room_was_modified id config.room_type s'
      ]

  unfoldable pub reevaluate_room_spec : MucId → Op Room
  unfolding get
  reevaluate_room_spec id s = continue (c.connected_account s) (λ account s1.
      elim (get room_id id s1.connected) [
        | none ↦ fail RoomError.room_not_found s1
        | some room ↦ continue (c.load_room_config id s1) (apply_config id room)
      ])

  -- The loop over the members: our own user is left out, and errors are only logged.
  unfoldable pub grant_memberships : MucId → UserId → List UserId → Op Unit
  grant_memberships id current_user [] = return tt
  grant_memberships id current_user (member ∷ members) = λ s. elim (member == current_user) [
    | true ↦ grant_memberships id current_user members s
    | false ↦
        continue (or_else tt (c.grant_membership id member s))
          (λ u. grant_memberships id current_user members)
  ]

  -- From the copied messages on
  abbrev pub move_members : MucId → Room → MucId → Room → Op Room
  unfolding member_ids grant_memberships
  move_members id room new_id new_room s = continue (c.connected_id s) (λ current s1.
      continue
        (grant_memberships new_id current.bare
          (member_ids (details_of room s1).participants.participants_map) s1)
        (λ u s2. continue (or_else tt (c.destroy_room id (some new_id) s2)) (λ u. return new_room)))

  abbrev pub migrate : MucId → Room → MucId → Room → Op Room
  unfolding put_back
  migrate id room new_id new_room s =
      match (c.copy_all_messages_from_room (room_id room) (room_id new_room) s)
        (λ u. move_members id room new_id new_room)
        (λ error s1.
          continue (or_else tt (c.destroy_room new_id none (put_back room s1)))
            (λ u. fail (RoomError.anyhow (c.describe error))))

  abbrev pub migrate_to : MucId → Room → Room → Op Room
  unfolding room_muc_id
  migrate_to id room new_room = elim (room_muc_id (room_id new_room)) [
    | none ↦ fail (RoomError.anyhow "Expected new room to be a MUC room.")
    | some new_id ↦ migrate id room new_id new_room
  ]

  abbrev pub group_to_private_channel : UserId → MucId → Room → String → Op Room
  unfolding create_room forget_room put_back value_of
  group_to_private_channel account id room new_name s =
      let s1 = forget_room id s in
      match
        (create_room c fuel account (c.domain id) (CreateRoomType.private_channel new_name)
          (details_of room s1).sidebar_state CreateRoomBehavior.fail_if_gone s1)
        (λ status. migrate_to id room (value_of status)) (λ error s2. fail error (put_back room s2))

  abbrev pub reconfigure_in_place : MucId → RoomSpec → String → RoomType → Op Room
  reconfigure_in_place id spec new_name type s =
      continue (c.reconfigure_room id spec new_name s) (λ u.
        change_type
          (RoomError.request_error
            (RequestError.generic "Room was modified during reconfiguration"))
          id type)

  abbrev pub reconfigure_of_types :
      RoomType → RoomType → UserId → MucId → Room → RoomSpec → String → Op Room
  reconfigure_of_types RoomType.group RoomType.private_channel account id room spec name =
      group_to_private_channel account id room name
  reconfigure_of_types RoomType.private_channel RoomType.public_channel account id room spec name =
      if_unique name (reconfigure_in_place id spec name RoomType.public_channel)
  reconfigure_of_types RoomType.public_channel RoomType.private_channel account id room spec name =
      reconfigure_in_place id spec name RoomType.private_channel
  reconfigure_of_types _ _ account id room spec name = λ s. (Outcome.panicked, s)

  unfoldable pub reconfigure_room_with_spec : MucId → RoomSpec → String → Op Room
  unfolding get spec_room_type
  reconfigure_room_with_spec id spec new_name s = continue (c.connected_account s) (λ account s1.
      elim (get room_id id s1.connected) [
        | none ↦ fail RoomError.room_not_found s1
        | some room ↦
            reconfigure_of_types room.info.type (spec_room_type spec) account id room spec new_name
              s1
      ])
