-- ===== src/Rooms/Service/Finalize/Outcomes.antt =====
-- The placeholder of `finalize_pending_room` (rooms_domain_service.rs).
use prose_core_client.Base.{
  ◌≡◌, ◌∙◌, refl, ap, arith, Option, none, some, true, false, inl, inr, ◌⊎◌, Option-cases,
  Bool-cases, ◌==◌, beq_refl, nat_eq, string_eq, ==_iff, if◌then◌else◌,
}
use prose_core_client.Shared.Ids.{BareJid}
use prose_core_client.Rooms.ConnectedRooms.Refinement.{get-update_found}
use prose_core_client.Rooms.RoomModels.{SyncedRoomSettings, is_connecting}
use prose_core_client.Rooms.RoomError.{RoomError}
use prose_core_client.Rooms.ConnectedRooms.{get, update}
use prose_core_client.Rooms.Room.{
  Room, room_id, Session, details_of, Resolved, resolve_details, by_resolving_with_info, new_room,
}
use prose_core_client.Rooms.Service.{Outcome}
use prose_core_client.Rooms.Service.Requests.{RoomStatus, RoomInfoStatus, value_of, status_with}
use prose_core_client.Rooms.Service.Finalize.{
  settings_or, update_room, resolve_if_connecting, replace_placeholder,
}

-- What the room is resolved to
abbrev pub resolved_room : Resolved → Session → Room
resolved_room resolved s = record { inner = s.fresh; info = resolved.info }

module _ (status : RoomInfoStatus) (resolved : Resolved) (settings : Option SyncedRoomSettings)
    (s : Session) where
  abbrev pub result : Outcome RoomStatus × Session
  unfolding replace_placeholder
  result = replace_placeholder status resolved settings s

  -- The room was removed in the meantime.
  abbrev pub WasRemoved : Type 0
  unfolding result
  WasRemoved =
      (get room_id (value_of status).room_id s.connected ≡ none)
      × (result ≡ (Outcome.failed RoomError.room_was_modified, s))

  -- The room was changed in the meantime: it is yielded as it is.
  abbrev pub WasChanged : Type 0
  unfolding result
  WasChanged =
      (r : Room) × (get room_id (value_of status).room_id s.connected ≡ some r)
      × (is_connecting (details_of r s).state ≡ false)
      × (result.0 ≡ Outcome.done (status_with status r))
      × ((other : BareJid) → get room_id other result.1.connected ≡ get room_id other s.connected)
      × ((other : Room) → details_of other result.1 ≡ details_of other s)

  -- A new room replaces the one that was connecting, and keeps what the server did not tell.
  abbrev pub WasResolved : Type 0
  unfolding result
  WasResolved =
      (r : Room) × (get room_id (value_of status).room_id s.connected ≡ some r)
      × (is_connecting (details_of r s).state ≡ true)
      × (result.0 ≡ Outcome.done (status_with status (resolved_room resolved s)))
      × ((other : BareJid)
          → get room_id other result.1.connected ≡ (
              if (value_of status).room_id == other
              then some (resolved_room resolved s)
              else get room_id other s.connected))
      × (details_of (resolved_room resolved s) result.1
          ≡ resolve_details resolved (settings_or settings (details_of r s).settings)
              (details_of r s))

  replace_placeholder-removed :
      get room_id (value_of status).room_id s.connected ≡ none → WasRemoved
  unfolding result replace_placeholder update_room
  replace_placeholder-removed gone = (gone, rw (update_room, gone) refl)

  changed_result :
      (r : Room)
      → get room_id (value_of status).room_id s.connected ≡ some r
      → is_connecting (details_of r s).state ≡ false
      → result ≡ (
        Outcome.done (status_with status r),
        record s {
          connected = (update room_id (value_of status).room_id (λ old. r) s.connected).1;
        },
      )
  unfolding result replace_placeholder update_room resolve_if_connecting
  changed_result r there other = rw (update_room, there, resolve_if_connecting, other) refl

  replace_placeholder-changed :
      (r : Room)
      → get room_id (value_of status).room_id s.connected ≡ some r
      → is_connecting (details_of r s).state ≡ false
      → WasChanged
  unfolding result
  replace_placeholder-changed r there other =
      let id = (value_of status).room_id in
      let same = changed_result r there other in
      (
        r,
        there,
        other,
        ap (λ o. o.0) same,
        λ key.
            ap (λ o. get room_id key o.1.connected) same
            ∙ ground (
              arith,
              get-update_found room_id id key r r s.connected there,
              ==_iff id key,
              there,
            ),
        λ h. ap (λ o. details_of h o.1) same,
      )

  resolved_session : Room → Session
  unfolding new_room by_resolving_with_info
  resolved_session r =
      let made =
        by_resolving_with_info r resolved (settings_or settings (details_of r s).settings) s in
      record made.1 {
        connected = (update room_id (value_of status).room_id (λ old. made.0) s.connected).1;
      }

  result-resolved_room :
      (r : Room)
      → get room_id (value_of status).room_id s.connected ≡ some r
      → is_connecting (details_of r s).state ≡ true
      → result ≡ (Outcome.done (status_with status (resolved_room resolved s)), resolved_session r)
  unfolding result replace_placeholder update_room resolve_if_connecting by_resolving_with_info
      new_room resolved_session
  result-resolved_room r there waits = rw (update_room, there, resolve_if_connecting, waits) refl

  replace_placeholder-resolved :
      (r : Room)
      → get room_id (value_of status).room_id s.connected ≡ some r
      → is_connecting (details_of r s).state ≡ true
      → WasResolved
  unfolding result resolved_session by_resolving_with_info new_room
  replace_placeholder-resolved r there waits =
      let id = (value_of status).room_id in
      let same = result-resolved_room r there waits in
      (
        r,
        there,
        waits,
        ap (λ o. o.0) same,
        λ key.
            ap (λ o. get room_id key o.1.connected) same
            ∙ get-update_found room_id id key r (resolved_room resolved s) s.connected there,
        ap (λ o. details_of (resolved_room resolved s) o.1) same ∙ rw (beq_refl s.fresh) refl,
      )

-- What the server told about a room that was joined is dropped when the room was removed in the
-- meantime, which is an error, or is no longer connecting, in which case the room is yielded as it is
-- and nothing changes; otherwise one new room takes the place of the placeholder, with the server's
-- information, and the sidebar state and the statistics of the placeholder.
pub replace_placeholder_lem :
    (status : RoomInfoStatus) (resolved : Resolved) (settings : Option SyncedRoomSettings)
    (s : Session)
    → WasRemoved status resolved settings s
      ⊎ WasChanged status resolved settings s
      ⊎ WasResolved status resolved settings s
replace_placeholder_lem status resolved settings s =
    elim (Option-cases (get room_id (value_of status).room_id s.connected)) [
      | inl gone ↦ inl (replace_placeholder-removed status resolved settings s gone)
      | inr (r, there) ↦ elim (Bool-cases (is_connecting (details_of r s).state)) [
        | inl waits ↦
            inr (inr (replace_placeholder-resolved status resolved settings s r there waits))
        | inr other ↦
            inr (inl (replace_placeholder-changed status resolved settings s r there other))
      ]
    ]
