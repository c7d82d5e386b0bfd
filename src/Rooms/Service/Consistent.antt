-- ===== src/Rooms/Service/Consistent.antt =====
-- When the connected rooms of a session are as they should be: each stands at its own bare JID, and
-- no two share their details.
pub mod Steps
pub mod Joining
pub mod Creating
pub mod Entering
pub mod Reconnecting
use prose_core_client.Base.{
  ◌≡◌, ◌∙◌, refl, sym, arith, ℕ, ◌≤◌, ◌<◌, Option, none, some, Bool, true, false, inl, inr,
  Bool-cases, if◌then◌else◌, ◌==◌, ==_iff, string_eq, String, List,
}
use prose_core_client.Shared.Ids.{BareJid, UserId, MucId, OccupantId, RoomId, room_bare_jid}
use prose_core_client.UserInfo.Models.{Availability}
use prose_core_client.Rooms.RoomModels.{RoomSpec}
use prose_core_client.Rooms.RoomError.{RoomError}
use prose_core_client.Rooms.ConnectedRooms.{get}
use prose_core_client.Rooms.Room.{Room, room_id, Session}
use prose_core_client.Rooms.Service.{Outcome, Op, Services, continue, match, return, or_else}

-- Of what each bare JID yields, and the number of rooms that were ever made
pub record ConsistentAt (look : BareJid → Option Room) (fresh : ℕ) : Type 0 where
  pub key : (id : BareJid) (r : Room) → look id ≡ some r → room_bare_jid (room_id r) ≡ id
  pub allocated : (id : BareJid) (r : Room) → look id ≡ some r → r.inner < fresh
  pub apart :
      (id other : BareJid) (r r' : Room)
      → look id ≡ some r
      → look other ≡ some r'
      → r.inner ≡ r'.inner
      → id ≡ other

abbrev pub look : Session → BareJid → Option Room
look s id = get room_id id s.connected

abbrev pub Consistent : Session → Type 0
Consistent s = ConsistentAt (look s) s.fresh

module _ (old : BareJid → Option Room) (fresh : ℕ) (h : ConsistentAt old fresh) where
  -- The same rooms, among more that were made
  pub same-Consistent :
      (new : BareJid → Option Room) (fresh' : ℕ)
      → ((id : BareJid) → new id ≡ old id)
      → fresh ≤ fresh'
      → ConsistentAt new fresh'
  same-Consistent new fresh' same more = record {
    key = λ id r e. h.key id r (sym (same id) ∙ e);
    allocated = λ id r e. ground (arith, h.allocated id r (sym (same id) ∙ e), more);
    apart = λ id other r r' e e'. h.apart id other r r' (sym (same id) ∙ e) (sym (same other) ∙ e');
  }

  -- A room was taken out.
  pub without-Consistent :
      (new : BareJid → Option Room) (id : BareJid)
      → ((other : BareJid) → new other ≡ (if id == other then none else old other))
      → ConsistentAt new fresh
  without-Consistent new id gone = record {
    key = λ other r e. ground (arith, gone other, e, ==_iff id other, h.key other r);
    allocated = λ other r e. ground (arith, gone other, e, ==_iff id other, h.allocated other r);
    apart = λ other third a b e e' same.
        ground (arith, gone other, gone third, e, e', same, h.apart other third a b);
  }

  -- A new room was put in, or in the place of another.
  pub with-Consistent :
      (new : BareJid → Option Room) (id : BareJid) (r : Room) (fresh' : ℕ)
      → ((other : BareJid) → new other ≡ (if id == other then some r else old other))
      → room_bare_jid (room_id r) ≡ id
      → fresh ≤ r.inner
      → r.inner < fresh'
      → ConsistentAt new fresh'
  with-Consistent new id r fresh' put own unused made = record {
    key = λ other r' e. ground (arith, put other, e, ==_iff id other, own, h.key other r');
    allocated = λ other r' e.
        ground (arith, put other, e, ==_iff id other, made, unused, h.allocated other r');
    apart = λ other third a b e e' same. ground (
      arith,
      put other,
      put third,
      e,
      e',
      same,
      ==_iff id other,
      ==_iff id third,
      unused,
      h.apart other third a b,
      h.allocated other a,
      h.allocated third b,
    );
  }

-- Chains of operations
abbrev pub Keeps : {A : Type 0} → Op A → Type 0
Keeps o = (s : Session) → Consistent s → Consistent (o s).1

pub continue-Consistent :
    {A B : Type 0} (o : Outcome A × Session) (k : A → Op B)
    → Consistent o.1
    → ((a : A) → Keeps (k a))
    → Consistent (continue o k).1
continue-Consistent (Outcome.done a, s) k h rest = rest a s h
continue-Consistent (Outcome.failed e, s) k h rest = h
continue-Consistent (Outcome.running, s) k h rest = h
continue-Consistent (Outcome.panicked, s) k h rest = h

pub match-Consistent :
    {A B : Type 0} (o : Outcome A × Session) (k : A → Op B) (handle : RoomError → Op B)
    → Consistent o.1
    → ((a : A) → Keeps (k a))
    → ((e : RoomError) → Keeps (handle e))
    → Consistent (match o k handle).1
match-Consistent (Outcome.done a, s) k handle h rest other = rest a s h
match-Consistent (Outcome.failed e, s) k handle h rest other = other e s h
match-Consistent (Outcome.running, s) k handle h rest other = h
match-Consistent (Outcome.panicked, s) k handle h rest other = h

pub or_else-Consistent :
    {A : Type 0} (a : A) (o : Outcome A × Session) → Consistent o.1 → Consistent (or_else a o).1
or_else-Consistent a o h = match-Consistent o return (λ e. return a) h (λ x s k. k) (λ e s k. k)

-- What the other services and the events that arrive in the meantime may do to the session
pub record Keeping (c : Services) : Type 0 where
  pub connected_account : Keeps c.connected_account
  pub connected_id : Keeps c.connected_id
  pub new_id : Keeps c.new_id
  pub availability : Keeps c.availability
  pub server_features : Keeps c.server_features
  pub muc_service : Keeps c.muc_service
  pub get_user_info : (id : UserId) → Keeps (c.get_user_info id)
  pub load_settings : (id : RoomId) → Keeps (c.load_settings id)
  pub join_room :
      (id : OccupantId) (password : Option String) (name : String) (a : Availability)
      → Keeps (c.join_room id password name a)
  pub create_or_join_room :
      (id : OccupantId) (room_name name : String) (spec : RoomSpec) (a : Availability)
      → Keeps (c.create_or_join_room id room_name name spec a)
  pub destroy_room : (id : MucId) (other : Option MucId) → Keeps (c.destroy_room id other)
  pub load_public_rooms : (service : BareJid) → Keeps (c.load_public_rooms service)
  pub set_room_owners : (id : MucId) (owners : List UserId) → Keeps (c.set_room_owners id owners)
  pub invite_users_to_room :
      (id : MucId) (users : List UserId) → Keeps (c.invite_users_to_room id users)
  pub send_self_ping : (id : OccupantId) → Keeps (c.send_self_ping id)
  pub catchup_room : (room : Room) → Keeps (c.catchup_room room)
  pub finalize_decryption : Keeps c.finalize_decryption
