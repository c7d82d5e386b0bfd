-- ===== src/Rooms/Service/Consistent/Creating.antt =====
-- Consistent sessions under `create_room` (rooms_domain_service.rs).
use prose_core_client.Base.{String, ℕ, zero, suc, none, inl, inr, Option-cases}
use prose_core_client.Shared.Ids.{MucId}
use prose_core_client.Rooms.RoomModels.{RoomSessionInfo}
use prose_core_client.Rooms.RoomError.{gone_err}
use prose_core_client.Rooms.Room.{Session}
use prose_core_client.Rooms.Service.{Outcome, Op, return, Services}
use prose_core_client.Rooms.Service.Requests.{RoomInfoStatus, status_with}
use prose_core_client.Rooms.Service.Nickname.{try_until_nickname_unique}
use prose_core_client.Rooms.Service.Connecting.{insert_connecting_room, forget_room}
use prose_core_client.Rooms.Service.Create.{
  CreateRequest, create_handler, undo_creation, configure, create_loop, as_anyhow,
  is_public_channel_name_unique,
}
use prose_core_client.Rooms.Service.Create.Rounds.{
  create_handler-keeps, undo_creation-keeps, after_gone-keeps, create_loop_round,
  create_loop_invalid,
}
use prose_core_client.Rooms.Service.Consistent.{
  Consistent, Keeps, Keeping, continue-Consistent, match-Consistent, or_else-Consistent,
}
use prose_core_client.Rooms.Service.Consistent.Steps.{
  forget_room-Consistent, insert_connecting_room-Consistent,
}
use prose_core_client.Rooms.Service.Consistent.Joining.{try_until_nickname_unique-Consistent}

module _ (c : Services) (keep : Keeping c) where
  module _ (q : CreateRequest) (config : MucId → RoomSessionInfo → Op RoomSessionInfo) where
    configure-Consistent :
        ((id : MucId) (info : RoomSessionInfo) → Keeps (config id info))
        → (status : RoomInfoStatus) (id : MucId) (info : RoomSessionInfo)
        → Keeps (configure c config q status id info)
    unfolding configure
    configure-Consistent h status id info s k =
        match-Consistent (config id info s) _ _ (h id info s k) (λ info' s1 k1. k1)
          (λ error s1 k1.
            let k2 = forget_room-Consistent id s1 k1 in
            continue-Consistent (undo_creation c info id (forget_room id s1)) _
              (undo_creation-keeps c q Consistent info id (forget_room id s1) k2 (
                or_else-Consistent tt (c.destroy_room id none (forget_room id s1))
                  (keep.destroy_room id none (forget_room id s1) k2)))
              (λ u s2 k3. k3))

    pub create_loop-Consistent :
        ((id : MucId) (info : RoomSessionInfo) → Keeps (config id info))
        → (fuel attempt : ℕ) (name : String) → Keeps (create_loop c config q fuel attempt name)
    unfolding create_loop
    create_loop-Consistent h zero attempt name s k = k
    create_loop-Consistent h (suc fuel) attempt name s k =
        elim (Option-cases (c.from_parts name (c.domain q.service))) [
          | inl invalid ↦ rw (create_loop_invalid c q config fuel attempt name s invalid) k
          | inr (id, valid) ↦ rw (create_loop_round c q config fuel attempt name id s valid) (
              continue-Consistent (insert_connecting_room id q.nickname q.sidebar_state s) _
                (insert_connecting_room-Consistent id q.nickname q.sidebar_state s k)
                (λ status s1 k1.
                  match-Consistent
                    (try_until_nickname_unique q.nickname (create_handler c q id) 10 10 s1) _ _
                    (try_until_nickname_unique-Consistent q.nickname (create_handler c q id) 10 10
                      (λ n s2 k2. create_handler-keeps c q Consistent id n s2 k2 (λ full.
                        keep.create_or_join_room full q.room_name q.display_name q.spec
                          q.availability s2 k2))
                      s1 k1)
                    (λ info. configure-Consistent h (status_with status info) id info)
                    (λ error s2 k2.
                      after_gone-keeps c q config Consistent error (gone_err c.from_iri error)
                        attempt (create_loop c config q fuel) (forget_room id s2)
                        (forget_room-Consistent id s2 k2)
                        (λ attempt' name'.
                          create_loop-Consistent h fuel attempt' name' (forget_room id s2)
                            (forget_room-Consistent id s2 k2)))))
        ]

  as_anyhow-Consistent :
      {A : Type 0} (o : Outcome A × Session) → Consistent o.1 → Consistent (as_anyhow c o).1
  as_anyhow-Consistent o h = match-Consistent o return _ h (λ a s k. k) (λ e s k. k)

  pub is_public_channel_name_unique-Consistent :
      (name : String) → Keeps (is_public_channel_name_unique c name)
  unfolding is_public_channel_name_unique
  is_public_channel_name_unique-Consistent name s h =
      continue-Consistent (as_anyhow c (c.muc_service s)) _
        (as_anyhow-Consistent (c.muc_service s) (keep.muc_service s h))
        (λ service s1 h1.
          continue-Consistent (as_anyhow c (c.load_public_rooms service s1)) _
            (as_anyhow-Consistent (c.load_public_rooms service s1)
              (keep.load_public_rooms service s1 h1))
            (λ rooms s2 h2. h2))
