-- ===== src/Rooms/Service/Finalize.antt =====
-- `finalize_pending_room`: what the server told about a room that was joined replaces the
-- placeholder, unless that has been changed or removed in the meantime.
pub mod Cases
pub mod Outcomes
use prose_core_client.Base.{
  String, Option, none, some, List, [], ◌∷◌, Bool, true, false, ◌==◌, string_eq,
}
use prose_core_client.Base.Int.{ℤ, pos}
use prose_core_client.Shared.Ids.{UserId, BareJid, RoomId, MucId}
use prose_core_client.UserInfo.UserName.{user_display_name}
use prose_core_client.Rooms.Models.{RegisteredMember}
use prose_core_client.Rooms.RoomModels.{
  SyncedRoomSettings, RoomSessionMember, RoomSessionInfo, RoomInfo, is_connecting,
}
use prose_core_client.Rooms.RoomError.{RoomError}
use prose_core_client.Rooms.ConnectedRooms.{get, update}
use prose_core_client.Rooms.Room.{
  Room, room_id, Session, details_of, Resolved, by_resolving_with_info,
}
use prose_core_client.Rooms.Service.{
  Outcome, Op, return, fail, continue, match, or_else, ServerFeatures, Services,
}
use prose_core_client.Rooms.Service.Requests.{RoomStatus, RoomInfoStatus, value_of, status_with}

-- `connected_rooms_repo.update`, with a closure that may make a new room
unfoldable pub update_room :
    BareJid → (Room → Session → Room × Session) → Session → Option Room × Session
unfolding get update
update_room id block s = elim (get room_id id s.connected) [
  | none ↦ (none, s)
  | some room ↦
      let (changed, s') = block room s in
      (some changed, record s' { connected = (update room_id id (λ r. changed) s'.connected).1 })
]

abbrev pub settings_or : Option SyncedRoomSettings → SyncedRoomSettings → SyncedRoomSettings
settings_or none own = own
settings_or (some settings) own = settings

-- The closure that `update` is given
unfoldable pub resolve_if_connecting :
    Resolved → Option SyncedRoomSettings → Room → Session → Room × Session
unfolding by_resolving_with_info
resolve_if_connecting resolved settings room s = elim (is_connecting (details_of room s).state) [
  | true ↦
      by_resolving_with_info room resolved (settings_or settings (details_of room s).settings) s
  | false ↦ (room, s)
]

abbrev pub updated_status : RoomInfoStatus → Option Room × Session → Outcome RoomStatus × Session
updated_status status (none, s) = (Outcome.failed RoomError.room_was_modified, s)
updated_status status (some room, s) = (Outcome.done (status_with status room), s)

unfoldable pub replace_placeholder :
    RoomInfoStatus → Resolved → Option SyncedRoomSettings → Op RoomStatus
unfolding update_room resolve_if_connecting value_of
replace_placeholder status resolved settings s =
    updated_status status
      (update_room (value_of status).room_id (resolve_if_connecting resolved settings) s)

module _ (c : Services) where
  -- The loop over the members
  unfoldable pub enrich_members : UserId → List RoomSessionMember → Op (List RegisteredMember)
  unfolding user_display_name
  enrich_members current_user [] = return []
  enrich_members current_user (m ∷ ms) = λ s.
      continue (or_else none (c.get_user_info m.id s)) (λ info s'.
        continue (enrich_members current_user ms s') (λ members. return (
          record {
            user_id = m.id;
            affiliation = m.affiliation;
            name = user_display_name info;
            is_self = m.id == current_user;
          }
          ∷ members)))

  unfoldable pub server_time_offset : MucId → Op ℤ
  server_time_offset id s = elim (c.is_muc_room_on_connected_server id) [
    | true ↦ match (c.server_features s) (λ f. return f.server_time_offset) (λ e. return (pos 0))
    | false ↦ return (pos 0) s
  ]

  abbrev pub resolved_of : RoomSessionInfo → List RegisteredMember → ℤ → Resolved
  resolved_of info members offset = record {
    name = info.config.room_name;
    description = info.config.room_description;
    topic = info.topic;
    info = record {
      room_id = RoomId.muc info.room_id;
      user_nickname = info.user_nickname;
      type = info.config.room_type;
      features = record {
        mam_version = info.config.mam_version;
        server_time_offset = offset;
        self_ping_optimization = info.config.supports_self_ping_optimization;
      };
    };
    members = members;
    participants = info.participants;
  }

  unfoldable pub finalize_pending_room : RoomInfoStatus → Op RoomStatus
  unfolding enrich_members server_time_offset replace_placeholder value_of
  finalize_pending_room status s =
      let info = value_of status in
      continue (c.connected_id s) (λ id s1.
        continue (enrich_members id.bare info.members s1) (λ members s2.
          continue (server_time_offset info.room_id s2) (λ offset s3.
            continue (or_else none (c.load_settings (RoomId.muc info.room_id) s3))
              (λ settings. replace_placeholder status (resolved_of info members offset) settings))))
