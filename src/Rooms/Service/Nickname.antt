-- ===== src/Rooms/Service/Nickname.antt =====
-- `try_until_nickname_unique`: a room is asked for with the preferred nickname, then with numbered
-- ones for as long as the server answers with a conflict.
pub mod Reference
pub mod Answers
use Prim.Native.String.{◌++◌ as str_append}
use prose_core_client.Base.{
  String, ℕ, zero, suc, ◌+◌, Bool, true, false, ltb, leb, ◌&&◌, Option, some, List, [], ◌∷◌,
}
use prose_core_client.Base.Decimal.{decimal}
use prose_core_client.Rooms.RoomError.{RoomError, condition_of, is_conflict}
use prose_core_client.Rooms.Room.{Session}
use prose_core_client.Rooms.Service.{Outcome, Op, match, return, fail}

unfoldable pub nickname_at : String → ℕ → String
unfolding decimal
nickname_at preferred zero = preferred
nickname_at preferred (suc k) = str_append preferred (str_append "#" (decimal (suc k)))

unfoldable pub is_conflict_err : RoomError → Bool
unfolding condition_of
is_conflict_err error = is_conflict (condition_of error)

module _ {U : Type 0} (preferred : String) (join_handler : String → Op U) (max_attempts : ℕ) where
  abbrev pub after_conflict : ℕ → RoomError → Op U → Op U
  after_conflict attempt error retry s = elim (ltb 0 max_attempts && leb max_attempts attempt) [
    | true ↦ fail error s
    | false ↦ retry s
  ]

  unfoldable pub after_error : ℕ → RoomError → Op U → Op U
  unfolding is_conflict_err
  after_error attempt error retry s = elim (is_conflict_err error) [
    | true ↦ after_conflict attempt error retry s
    | false ↦ fail error s
  ]

  -- The loop, from the given number of attempts on
  unfoldable pub try_from : ℕ → ℕ → Op U
  unfolding nickname_at after_error
  try_from zero attempt = λ s. (Outcome.running, s)
  try_from (suc fuel) attempt = λ s.
      match (join_handler (nickname_at preferred attempt) s) return
        (λ error. after_error (attempt + 1) error (try_from fuel (attempt + 1)))

  unfoldable pub try_until_nickname_unique : ℕ → Op U
  unfolding try_from
  try_until_nickname_unique fuel = try_from fuel 0
