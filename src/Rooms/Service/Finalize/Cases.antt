-- ===== src/Rooms/Service/Finalize/Cases.antt =====
-- The steps of `finalize_pending_room` (rooms_domain_service.rs).
use prose_core_client.Base.{Option, none, some, List, [], ◌∷◌, inl, inr, Bool-cases}
use prose_core_client.Shared.Ids.{UserId, RoomId, MucId}
use prose_core_client.Rooms.RoomModels.{RoomSessionMember, SyncedRoomSettings}
use prose_core_client.Rooms.Room.{Room, Session, Resolved}
use prose_core_client.Rooms.Service.{return, or_else, Services}
use prose_core_client.Rooms.Service.Ends.{Ends, continue-Ends, match-Ends, or_else-Ends}
use prose_core_client.Rooms.Service.Requests.{RoomInfoStatus, value_of}
use prose_core_client.Base.Int.{pos}
use prose_core_client.Rooms.Service.Finalize.{
  enrich_members, server_time_offset, replace_placeholder, finalize_pending_room, resolved_of,
  updated_status, update_room, resolve_if_connecting,
}

-- The services that a join needs besides the server's rooms yield a result.
pub record Answering (c : Services) : Type 0 where
  pub get_user_info : (id : UserId) (s : Session) → Ends (c.get_user_info id s).0
  pub availability : (s : Session) → Ends (c.availability s).0
  pub connected_id : (s : Session) → Ends (c.connected_id s).0
  pub server_features : (s : Session) → Ends (c.server_features s).0
  pub load_settings : (id : RoomId) (s : Session) → Ends (c.load_settings id s).0

updated_status-Ends :
    (status : RoomInfoStatus) (o : Option Room × Session) → Ends (updated_status status o).0
updated_status-Ends status (none, s) = tt
updated_status-Ends status (some r, s) = tt

replace_placeholder-Ends :
    (status : RoomInfoStatus) (resolved : Resolved) (settings : Option SyncedRoomSettings)
    (s : Session)
    → Ends (replace_placeholder status resolved settings s).0
unfolding replace_placeholder
replace_placeholder-Ends status resolved settings s =
    updated_status-Ends status
      (update_room (value_of status).room_id (resolve_if_connecting resolved settings) s)

module _ (c : Services) (answers : Answering c) where
  enrich_members-Ends :
      (current : UserId) (ms : List RoomSessionMember) (s : Session)
      → Ends (enrich_members c current ms s).0
  unfolding enrich_members
  enrich_members-Ends current [] s = tt
  enrich_members-Ends current (m ∷ ms) s =
      continue-Ends (or_else none (c.get_user_info m.id s)) _
        (or_else-Ends none (c.get_user_info m.id s) (answers.get_user_info m.id s))
        (λ info s1.
          continue-Ends (enrich_members c current ms s1) _ (enrich_members-Ends current ms s1)
            (λ members s2. tt))

  server_time_offset-Ends : (id : MucId) (s : Session) → Ends (server_time_offset c id s).0
  unfolding server_time_offset
  server_time_offset-Ends id s = elim (Bool-cases (c.is_muc_room_on_connected_server id)) [
    | inl own ↦
        rw (Ends, server_time_offset, own)
          (match-Ends (c.server_features s) (λ f. return f.server_time_offset) (λ e. return (pos 0))
            (answers.server_features s) (λ f s1. tt) (λ e s1. tt))
    | inr other ↦ rw (Ends, server_time_offset, other) tt
  ]

  pub finalize_pending_room-Ends :
      (status : RoomInfoStatus) (s : Session) → Ends (finalize_pending_room c status s).0
  unfolding finalize_pending_room
  finalize_pending_room-Ends status s =
      let info = value_of status in
      continue-Ends (c.connected_id s) _ (answers.connected_id s) (λ id s1.
        continue-Ends (enrich_members c id.bare info.members s1) _
          (enrich_members-Ends id.bare info.members s1)
          (λ members s2.
            continue-Ends (server_time_offset c info.room_id s2) _
              (server_time_offset-Ends info.room_id s2)
              (λ offset s3.
                continue-Ends (or_else none (c.load_settings (RoomId.muc info.room_id) s3)) _
                  (or_else-Ends none (c.load_settings (RoomId.muc info.room_id) s3)
                    (answers.load_settings (RoomId.muc info.room_id) s3))
                  (λ settings s4.
                    replace_placeholder-Ends status (resolved_of c info members offset) settings
                      s4))))
