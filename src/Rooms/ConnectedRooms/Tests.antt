-- ===== src/Rooms/ConnectedRooms/Tests.antt =====
-- A room is connected, changed and left.
use prose_core_client.Base.{
  ◌≡◌, refl, ◌⊎◌, none, some, [], ◌∷◌, if◌then◌else◌, ◌==◌, string_eq, String,
}
use prose_core_client.Base.Result.{ok, err}
use prose_core_client.Shared.Ids.{BareJid, RoomId}
use prose_core_client.Rooms.ConnectedRooms.{room_already_exists, ConnectedRooms, get, room_key, set}
use prose_core_client.Rooms.ConnectedRooms.Refinement.{set_lem}

-- A room is its identifier and its name.
abbrev Room : Type 0
Room = RoomId × String

abbrev id_of : Room → RoomId
id_of r = r.0

abbrev team : BareJid
team = "team@conf.prose.org"

abbrev room : Room
room = (RoomId.muc team, "Team")

abbrev rooms : ConnectedRooms id_of
rooms = (team, room) ∷ []

abbrev rename : Room → Room
rename r = (r.0, "All")

set_run : set id_of (RoomId.user team, "Other") rooms ≡ err room_already_exists
unfolding set room_key
set_run = refl

set_lem_example :
    ((existing : Room) × (get id_of (room_key id_of room) rooms ≡ some existing)
      × (set id_of room rooms ≡ err room_already_exists))
    ⊎ ((rooms' : ConnectedRooms id_of) × (get id_of (room_key id_of room) rooms ≡ none)
        × (set id_of room rooms ≡ ok rooms')
        × (get id_of team rooms'
            ≡ (if room_key id_of room == team then some room else get id_of team rooms)))
set_lem_example = set_lem id_of room rooms team
