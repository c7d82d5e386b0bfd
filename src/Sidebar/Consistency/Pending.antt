-- ===== src/Sidebar/Consistency/Pending.antt =====
-- Consistent sessions under the placeholders of rooms that wait to be joined
-- (sidebar_domain_service.rs), and under the other steps of these operations.
use prose_core_client.Base.{
  String, refl, arith, ℕ, ◌≤◌, ◌<◌, Bool, true, false, inl, inr, Option-cases, string_eq,
}
use prose_core_client.Base.Assoc.{lookup, lookup-insert}
use prose_core_client.Shared.Ids.{UserId, room_bare_jid}
use prose_core_client.Rooms.RoomModels.{Bookmark}
use prose_core_client.Rooms.ConnectedRooms.{get, set}
use prose_core_client.Rooms.Room.{Room, room_id, Session, new_room, pending_room, dispatch}
use prose_core_client.Rooms.Service.Consistent.{
  look, ConsistentAt, Consistent, same-Consistent, with-Consistent,
}
use prose_core_client.Sidebar.{sidebar_changed}
use prose_core_client.Sidebar.Changes.{set_if_free}
use prose_core_client.Sidebar.Extend.{notify_if}

pub sidebar_changed-Consistent : (s : Session) → Consistent s → Consistent (sidebar_changed s)
unfolding sidebar_changed dispatch
sidebar_changed-Consistent s h = h

pub notify_if-Consistent : (b : Bool) (s : Session) → Consistent s → Consistent (notify_if b s)
unfolding notify_if sidebar_changed dispatch
notify_if-Consistent true s h = h
notify_if-Consistent false s h = h

-- A room that was just made is put in where its place is free, and dropped otherwise.
set_if_free-Consistent :
    (r : Room) (s : Session) (fresh : ℕ)
    → ConsistentAt (look s) fresh
    → fresh ≤ r.inner
    → r.inner < s.fresh
    → Consistent (set_if_free (r, s))
unfolding set_if_free set get room_bare_jid
set_if_free-Consistent r s fresh h unused made =
    elim (Option-cases (lookup (room_bare_jid (room_id r)) s.connected)) [
      | inl free ↦
          rw (set_if_free, set, free)
            (with-Consistent (look s) fresh h _ (room_bare_jid (room_id r)) r s.fresh
              (λ other. lookup-insert (room_bare_jid (room_id r)) other r s.connected) refl unused
              made)
      | inr (old, there) ↦
          rw (set_if_free, set, there)
            (same-Consistent (look s) fresh h (look s) s.fresh (λ id. refl) (omega arith))
    ]

pub pending_room-Consistent :
    (username : UserId → String) (b : Bookmark) (nickname : String) (s : Session)
    → Consistent s
    → Consistent (set_if_free (pending_room username b nickname s))
unfolding pending_room new_room
pending_room-Consistent username b nickname s h =
    let made = pending_room username b nickname s in
    set_if_free-Consistent made.0 made.1 s.fresh h (omega arith) (omega arith)
