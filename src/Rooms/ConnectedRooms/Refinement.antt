-- ===== src/Rooms/ConnectedRooms/Refinement.antt =====
-- The operations of the repository, seen from what each bare JID yields.
use mathlib.Core.Option
use prose_core_client.Base.{
  ◌≡◌, ◌∙◌, refl, ◌⊎◌, inl, inr, none, some, arith, if◌then◌else◌, ◌==◌, ==_iff, Option-cases,
  string_eq,
}
use prose_core_client.Base.Result.{ok, err}
use prose_core_client.Base.Assoc.{lookup, insert, remove, lookup-insert, lookup-remove}
use prose_core_client.Shared.Ids.{BareJid, RoomId}
use prose_core_client.Rooms.ConnectedRooms.{
  room_already_exists, ConnectedRooms, get, room_key, set, update, delete,
}

module _ {Room : Type 0} (room_id : Room → RoomId) where
  -- A room is added exactly when none with its bare JID is connected, and then changes only what
  -- that JID yields; otherwise the call fails.
  pub set_lem :
      (room : Room) (rooms : ConnectedRooms room_id) (id : BareJid)
      → ((existing : Room) × (get room_id (room_key room_id room) rooms ≡ some existing)
          × (set room_id room rooms ≡ err room_already_exists))
        ⊎ ((rooms' : ConnectedRooms room_id) × (get room_id (room_key room_id room) rooms ≡ none)
            × (set room_id room rooms ≡ ok rooms')
            × (get room_id id rooms'
                ≡ (if room_key room_id room == id then some room else get room_id id rooms)))
  unfolding get set
  set_lem room rooms id = elim (Option-cases (lookup (room_key room_id room) rooms)) [
    | inl free ↦ inr (
      insert (room_key room_id room) room rooms,
      free,
      rw (set, free) refl,
      lookup-insert (room_key room_id room) id room rooms,
    )
    | inr (existing, there) ↦ inl (existing, there, rw (set, there) refl)
  ]

  -- An update yields the changed room where one is connected, and changes only what its JID yields.
  pub update_lem :
      (id : BareJid) (block : Room → Room) (rooms : ConnectedRooms room_id) (other : BareJid)
      → ((update room_id id block rooms).0 ≡ Option.map block (get room_id id rooms))
        × (get room_id other (update room_id id block rooms).1 ≡ (
            if id == other
            then Option.map block (get room_id id rooms)
            else get room_id other rooms))
  unfolding get update
  update_lem id block rooms other = elim (Option-cases (lookup id rooms)) [
    | inl out ↦ rw (update, out) (refl, ground (arith, ==_iff id other, out))
    | inr (room, there) ↦
        rw (update, there)
          (
            refl,
            ground (
              arith,
              lookup-insert id other (block room) (remove id rooms),
              lookup-remove id other rooms,
            ),
          )
  ]

  pub get-update_found :
      (id other : BareJid) (room changed : Room) (rooms : ConnectedRooms room_id)
      → get room_id id rooms ≡ some room
      → get room_id other (update room_id id (λ old. changed) rooms).1
        ≡ (if id == other then some changed else get room_id other rooms)
  get-update_found id other room changed rooms there =
      (update_lem id (λ old. changed) rooms other).1 ∙ rw there refl

  -- A deletion yields the room that was there and removes just that.
  pub delete_lem :
      (id : BareJid) (rooms : ConnectedRooms room_id) (other : BareJid)
      → ((delete room_id id rooms).0 ≡ get room_id id rooms)
        × (get room_id other (delete room_id id rooms).1
            ≡ (if id == other then none else get room_id other rooms))
  unfolding get delete
  delete_lem id rooms other = (refl, lookup-remove id other rooms)
