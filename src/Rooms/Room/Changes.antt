-- ===== src/Rooms/Room/Changes.antt =====
-- A change of a room, seen through every handle.
use prose_core_client.Base.{◌≡◌, refl, arith, ◌<◌, if◌then◌else◌, ◌==◌, nat_eq, beq_refl, beq_ne}
use prose_core_client.Rooms.RoomModels.{RoomInfo, RoomDetails}
use prose_core_client.Rooms.Room.{Room, Session, details_of, modify, new_room}

-- A change of a room is seen by the handles that share its cell and by no other.
pub details_of-modify :
    (r other : Room) (f : RoomDetails → RoomDetails) (s : Session)
    → details_of other (modify r f s)
      ≡ (if other.inner == r.inner then f (details_of r s) else details_of other s)
unfolding modify
details_of-modify r other f s = refl

pub details_of-modify_same :
    (r : Room) (f : RoomDetails → RoomDetails) (s : Session)
    → details_of r (modify r f s) ≡ f (details_of r s)
unfolding modify
details_of-modify_same r f s = rw (beq_refl r.inner) refl

-- A new room starts with the given details, and a room that stood before keeps its own.
pub details_of-new_room :
    (info : RoomInfo) (d : RoomDetails) (s : Session)
    → details_of (new_room info d s).0 (new_room info d s).1 ≡ d
unfolding new_room
details_of-new_room info d s = rw (beq_refl s.fresh) refl

pub details_of-new_room_old :
    (info : RoomInfo) (d : RoomDetails) (s : Session) (r : Room)
    → r.inner < s.fresh
    → details_of r (new_room info d s).1 ≡ details_of r s
unfolding new_room
details_of-new_room_old info d s r h = rw (beq_ne r.inner s.fresh (λ e. ground arith)) refl
