-- ===== src/Rooms/Service/Create/Rounds.antt =====
-- The steps of a round of the loop of `create_or_join_room_with_spec` (rooms_domain_service.rs).
use prose_core_client.Base.{
  String, ◌≡◌, refl, ℕ, suc, Option, none, some, inl, inr, Bool-cases, Option-cases,
}
use prose_core_client.Shared.Ids.{MucId, OccupantId}
use prose_core_client.Rooms.RoomModels.{RoomSessionInfo}
use prose_core_client.Rooms.RoomError.{RoomError, GoneError, gone_err}
use prose_core_client.Rooms.Room.{Session}
use prose_core_client.Rooms.Service.{
  Outcome, Op, continue, match, or_else, Services, occupant_id_with_nickname,
}
use prose_core_client.Rooms.Service.Nickname.{try_until_nickname_unique}
use prose_core_client.Rooms.Service.Requests.{RoomInfoStatus, status_with}
use prose_core_client.Rooms.Service.Connecting.{insert_connecting_room, forget_room}
use prose_core_client.Rooms.Service.Create.{
  CreateRequest, next_room_id, create_handler, undo_creation, configure, after_gone, create_once,
  create_loop,
}

module _ (c : Services) (q : CreateRequest) where
  -- The handler's answer is the server's, or an error that leaves the session.
  pub create_handler-keeps :
      (P : Session → Type 0) (id : MucId) (n : String) (s : Session)
      → P s
      → ((full : OccupantId)
          → P (c.create_or_join_room full q.room_name q.display_name q.spec q.availability s).1)
      → P (create_handler c q id n s).1
  unfolding create_handler
  create_handler-keeps P id n s h rest = elim (Option-cases (occupant_id_with_nickname c id n)) [
    | inl bad ↦ rw (create_handler, bad) h
    | inr (full, good) ↦ rw (create_handler, good) (rest full)
  ]

  pub undo_creation-keeps :
      (P : Session → Type 0) (info : RoomSessionInfo) (id : MucId) (s : Session)
      → P s
      → P (or_else tt (c.destroy_room id none s)).1
      → P (undo_creation c info id s).1
  undo_creation-keeps P info id s h rest = elim (Bool-cases info.room_has_been_created) [
    | inl created ↦ rw (undo_creation, created) rest
    | inr entered ↦ rw (undo_creation, entered) h
  ]

  module _ (config : MucId → RoomSessionInfo → Op RoomSessionInfo) where
    pub after_gone-keeps :
        (P : Session → Type 0) (error : RoomError) (gone : Option GoneError) (attempt : ℕ)
        (next : ℕ → String → Op RoomInfoStatus) (s : Session)
        → P s
        → ((attempt' : ℕ) (id : String) → P (next attempt' id s).1)
        → P (after_gone c config q error gone attempt next s).1
    unfolding after_gone
    after_gone-keeps P error none attempt next s h rest = h
    after_gone-keeps P error (some gone) attempt next s h rest =
        elim (Option-cases (next_room_id q.behavior q.room_id attempt gone.new_location)) [
          | inl stop ↦ rw (after_gone, stop) h
          | inr (to, more) ↦ rw (after_gone, more) (rest to.0 to.1)
        ]

    pub create_loop_round :
        (fuel attempt : ℕ) (name : String) (id : MucId) (s : Session)
        → c.from_parts name (c.domain q.service) ≡ some id
        → create_loop c config q (suc fuel) attempt name s
          ≡ continue (insert_connecting_room id q.nickname q.sidebar_state s) (λ status s1.
            match
              (try_until_nickname_unique q.nickname (create_handler c q id) 10 10 s1)
              (λ info. configure c config q (status_with status info) id info)
              (λ error s2.
                after_gone c config q error
                  (gone_err c.from_iri error)
                  attempt
                  (create_loop c config q fuel)
                  (forget_room id s2)))
    unfolding create_loop create_once
    create_loop_round fuel attempt name id s valid = rw (create_loop, valid) refl

    pub create_loop_invalid :
        (fuel attempt : ℕ) (name : String) (s : Session)
        → c.from_parts name (c.domain q.service) ≡ none
        → create_loop c config q (suc fuel) attempt name s
          ≡ (Outcome.failed (RoomError.jid_error "invalid node"), s)
    unfolding create_loop
    create_loop_invalid fuel attempt name s invalid = rw (create_loop, invalid) refl
