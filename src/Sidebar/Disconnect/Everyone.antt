-- ===== src/Sidebar/Disconnect/Everyone.antt =====
-- The rooms under `handle_disconnect` (sidebar_domain_service.rs).
use prose_core_client.Base.{
  ◌≡◌, ◌∙◌, ap, refl, sym, ℕ, none, List, [], ◌∷◌, Bool, true, false, ◌||◌, inl, inr, Bool-cases,
  any, if◌then◌else◌, ◌==◌, ==_iff, nat_eq,
}
use prose_core_client.Shared.Ids.{UserId}
use prose_core_client.Rooms.RoomModels.{RoomState, RoomDetails}
use prose_core_client.Rooms.ConnectedRooms.{get_all}
use prose_core_client.Rooms.Room.{Room, room_id, Session, details_of, modify, set_state}
use prose_core_client.Rooms.Room.Changes.{details_of-modify}
use prose_core_client.Rooms.Service.{Outcome}
use prose_core_client.Sidebar.{SidebarServices}
use prose_core_client.Sidebar.Disconnect.{disconnect_all, handle_disconnect}

abbrev pub lost : RoomDetails → RoomDetails
lost d = record d { state = RoomState.disconnected none true }

-- A handle shares its details with one of the rooms.
abbrev pub is_among : Room → List Room → Bool
is_among r rooms = any (λ other. r.inner == other.inner) rooms

combine :
    (b a : Bool) (d d' : RoomDetails)
    → d' ≡ (if a then lost d else d)
    → (if b then lost d' else d') ≡ (if a || b then lost d else d)
combine true true d d' h = ap lost h
combine true false d d' h = ap lost h
combine false true d d' h = h
combine false false d d' h = h

-- Nothing but the details of rooms differs.
abbrev pub SameApartFromDetails : Session → Session → Type 0
SameApartFromDetails s s' =
    (s'.connected ≡ s.connected)
    × (s'.fresh ≡ s.fresh)
    × (s'.events ≡ s.events)
    × (s'.sent ≡ s.sent)

disconnect_all-same :
    (rooms : List Room) (s : Session) → SameApartFromDetails s (disconnect_all rooms s)
unfolding disconnect_all set_state modify
disconnect_all-same [] s = (refl, refl, refl, refl)
disconnect_all-same (x ∷ rooms) s =
    disconnect_all-same rooms (set_state x (RoomState.disconnected none true) s)

details_of-set_state :
    (r x : Room) (s : Session)
    → details_of r (set_state x (RoomState.disconnected none true) s)
      ≡ (if r.inner == x.inner then lost (details_of r s) else details_of r s)
unfolding set_state
details_of-set_state r x s = elim (Bool-cases (r.inner == x.inner)) [
  | inl same ↦
      details_of-modify x r lost s
      ∙ rw same (cell r.inner x.inner ((==_iff r.inner x.inner).0 same))
  | inr other ↦ details_of-modify x r lost s ∙ rw other refl
]
  where
    cell : (a b : ℕ) → a ≡ b → lost (s.details b) ≡ lost (s.details a)
    cell a b e = λ i. lost (s.details (sym e i))

disconnect_all_lem :
    (r : Room) (rooms : List Room) (s : Session)
    → details_of r (disconnect_all rooms s)
      ≡ (if is_among r rooms then lost (details_of r s) else details_of r s)
unfolding disconnect_all
disconnect_all_lem r [] s = refl
disconnect_all_lem r (x ∷ rooms) s =
    disconnect_all_lem r rooms (set_state x (RoomState.disconnected none true) s)
    ∙ combine (is_among r rooms) (r.inner == x.inner) (details_of r s)
        (details_of r (set_state x (RoomState.disconnected none true) s))
        (details_of-set_state r x s)

-- When an account is connected, handling a lost connection succeeds and disconnects exactly the rooms
-- that share their details with a connected one: they may be tried again, and nothing else about them
-- changes. No other room changes, all connected rooms stay, no event is dispatched and no bookmark is
-- touched.
pub handle_disconnect_lem :
    (c : SidebarServices) (fuel : ℕ) (account : UserId) (s : Session) (r : Room)
    → c.rooms.connected_account s ≡ (Outcome.done account, s)
    → ((handle_disconnect c fuel s).0 ≡ Outcome.done tt)
      × (details_of r (handle_disconnect c fuel s).1 ≡ (
          if is_among r (get_all room_id s.connected)
          then lost (details_of r s)
          else details_of r s))
      × SameApartFromDetails s (handle_disconnect c fuel s).1
unfolding handle_disconnect
handle_disconnect_lem c fuel account s r there = rw there (
  refl,
  disconnect_all_lem r (get_all room_id s.connected) s,
  disconnect_all-same (get_all room_id s.connected) s,
)
