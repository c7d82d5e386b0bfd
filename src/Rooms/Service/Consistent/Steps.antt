-- ===== src/Rooms/Service/Consistent/Steps.antt =====
-- The steps on a session that make, change, replace and remove rooms.
use prose_core_client.Base.{
  String, ◌≡◌, refl, arith, ◌+◌, ◌≤◌, ◌<◌, Option, none, some, inl, inr, Bool-cases, Option-cases,
  if◌then◌else◌, ◌==◌, ==_iff, string_eq, ◌⊎◌,
}
use prose_core_client.Base.Assoc.{lookup-insert}
use prose_core_client.Shared.Ids.{BareJid, MucId, room_bare_jid}
use prose_core_client.Rooms.RoomModels.{
  RoomDetails, RoomInfo, RoomState, RoomSidebarState, SyncedRoomSettings, is_connecting,
}
use prose_core_client.Rooms.ConnectedRooms.{get, update}
use prose_core_client.Rooms.ConnectedRooms.Refinement.{get-update_found}
use prose_core_client.Rooms.Room.{
  Room, room_id, Session, details_of, modify, new_room, Resolved, set_state, by_resolving_with_info,
}
use prose_core_client.Rooms.Service.Requests.{RoomInfoStatus, value_of}
use prose_core_client.Rooms.Service.Connecting.{can_connect, insert_connecting_room, forget_room}
use prose_core_client.Rooms.Service.Connecting.Cases.{
  placeholder, with_placeholder, with_connecting, insert_connecting_room-free,
  insert_connecting_room-stale, insert_connecting_room-live, get-forget_room,
}
use prose_core_client.Rooms.Service.Finalize.{
  update_room, resolve_if_connecting, replace_placeholder, updated_status,
}
use prose_core_client.Rooms.Service.Consistent.{
  look, Consistent, Keeps, same-Consistent, without-Consistent, with-Consistent,
}

pub modify-Consistent :
    (r : Room) (f : RoomDetails → RoomDetails) (s : Session)
    → Consistent s
    → Consistent (modify r f s)
unfolding modify
modify-Consistent r f s h = h

pub new_room-Consistent :
    (info : RoomInfo) (d : RoomDetails) (s : Session)
    → Consistent s
    → Consistent (new_room info d s).1
unfolding new_room
new_room-Consistent info d s h =
    same-Consistent (look s) s.fresh h (look s) (s.fresh + 1) (λ id. refl) (omega arith)

pub forget_room-Consistent :
    (id : BareJid) (s : Session) → Consistent s → Consistent (forget_room id s)
unfolding forget_room
forget_room-Consistent id s h =
    without-Consistent (look s) s.fresh h (look (forget_room id s)) id
      (λ other. get-forget_room id other s)

module _ (id : MucId) (nickname : String) (sidebar_state : RoomSidebarState) where
  with_connecting-Consistent :
      (s : Session) → Consistent s → Consistent (with_connecting id nickname sidebar_state s)
  unfolding get with_connecting placeholder with_placeholder room_bare_jid
  with_connecting-Consistent s h =
      with-Consistent (look s) s.fresh h (look (with_connecting id nickname sidebar_state s)) id
        (placeholder id nickname sidebar_state s) (s.fresh + 1)
        (λ other. lookup-insert id other (placeholder id nickname sidebar_state s) s.connected) refl
        (omega arith) (omega arith)

  with_placeholder-Consistent :
      (s : Session) → Consistent s → Consistent (with_placeholder id nickname sidebar_state s)
  unfolding with_placeholder
  with_placeholder-Consistent s h =
      same-Consistent (look s) s.fresh h (look s) (s.fresh + 1) (λ id. refl) (omega arith)

  pub insert_connecting_room-Consistent : Keeps (insert_connecting_room id nickname sidebar_state)
  unfolding set_state
  insert_connecting_room-Consistent s h = elim (Option-cases (get room_id id s.connected)) [
    | inl free ↦
        rw (insert_connecting_room-free id nickname sidebar_state s free)
          (with_connecting-Consistent s h)
    | inr (r, there) ↦ elim (Bool-cases (can_connect (details_of r s).state)) [
      | inl stale ↦
          rw (insert_connecting_room-stale id nickname sidebar_state s r there stale)
            (modify-Consistent r (λ d. record d { state = RoomState.connecting }) s h)
      | inr live ↦
          rw (insert_connecting_room-live id nickname sidebar_state s r there live)
            (with_placeholder-Consistent s h)
    ]
  ]

-- What the closure of `update` makes of a session: the connected rooms stay, and its room is the one
-- that it was given or a new one for the same JID.
pub record Replaces (id : BareJid) (r : Room) (s : Session) (made : Room × Session) : Type 0 where
  pub connected : made.1.connected ≡ s.connected
  pub fresh : s.fresh ≤ made.1.fresh
  pub replaced :
      (made.0 ≡ r)
      ⊎ ((room_bare_jid (room_id made.0) ≡ id)
          × (s.fresh ≤ made.0.inner)
          × (made.0.inner < made.1.fresh))

abbrev updated : BareJid → Room × Session → Session
updated id (r, s) = record s { connected = (update room_id id (λ old. r) s.connected).1 }

look-updated :
    (id : BareJid) (r : Room) (s : Session) (made : Room × Session)
    → Replaces id r s made
    → look s id ≡ some r
    → (other : BareJid)
    → look (updated id made) other ≡ (if id == other then some made.0 else look s other)
look-updated id r s made h there other =
    rw (h.connected) (get-update_found room_id id other r made.0 s.connected there)

updated-Consistent :
    (id : BareJid) (r : Room) (s : Session) (made : Room × Session)
    → Consistent s
    → look s id ≡ some r
    → Replaces id r s made
    → Consistent (updated id made)
updated-Consistent id r s made h there k = elim k.replaced [
  | inl same ↦
      same-Consistent (look s) s.fresh h (look (updated id made)) made.1.fresh
        (λ other.
          ground (arith, look-updated id r s made k there other, same, there, ==_iff id other))
        k.fresh
  | inr new ↦
      with-Consistent (look s) s.fresh h (look (updated id made)) id made.0 made.1.fresh
        (look-updated id r s made k there) new.0 new.1 new.2
]

-- `update`
pub update_room-Consistent :
    (id : BareJid) (block : Room → Session → Room × Session) (s : Session)
    → Consistent s
    → ((r : Room) → look s id ≡ some r → Replaces id r s (block r s))
    → Consistent (update_room id block s).1
unfolding update_room
update_room-Consistent id block s h made = elim (Option-cases (get room_id id s.connected)) [
  | inl out ↦ rw (update_room, out) h
  | inr (r, there) ↦
      rw (update_room, there) (updated-Consistent id r s (block r s) h there (made r there))
]

resolve_if_connecting-Replaces :
    (resolved : Resolved) (settings : Option SyncedRoomSettings) (id : BareJid) (r : Room)
    (s : Session)
    → room_bare_jid resolved.info.room_id ≡ id
    → Replaces id r s (resolve_if_connecting resolved settings r s)
unfolding resolve_if_connecting by_resolving_with_info new_room
resolve_if_connecting-Replaces resolved settings id r s own =
    elim (Bool-cases (is_connecting (details_of r s).state)) [
      | inl waits ↦
          rw (resolve_if_connecting, waits)
            (record {
              connected = refl;
              fresh = omega arith;
              replaced = inr (own, omega arith, omega arith);
            })
      | inr changed ↦
          rw (resolve_if_connecting, changed)
            (record { connected = refl; fresh = omega arith; replaced = inl refl })
    ]

updated_status-Consistent :
    (status : RoomInfoStatus) (o : Option Room × Session)
    → Consistent o.1
    → Consistent (updated_status status o).1
updated_status-Consistent status (none, s) h = h
updated_status-Consistent status (some r, s) h = h

pub replace_placeholder-Consistent :
    (status : RoomInfoStatus) (resolved : Resolved) (settings : Option SyncedRoomSettings)
    → room_bare_jid resolved.info.room_id ≡ (value_of status).room_id
    → Keeps (replace_placeholder status resolved settings)
unfolding replace_placeholder
replace_placeholder-Consistent status resolved settings own s h =
    let id = (value_of status).room_id in
    updated_status-Consistent status (update_room id (resolve_if_connecting resolved settings) s) (
      update_room-Consistent id (resolve_if_connecting resolved settings) s h
        (λ r there. resolve_if_connecting-Replaces resolved settings id r s own))
