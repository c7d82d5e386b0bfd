-- ===== src/Rooms/Service/Nickname/Answers.antt =====
-- The answers to the attempts of `try_until_nickname_unique` (rooms_domain_service.rs).
use prose_core_client.Base.{
  String, ℕ, zero, suc, ◌+◌, ◌≤◌, ◌<◌, ◌≡◌, ◌⊎◌, refl, arith, false, ltb, leb, ◌&&◌, inl, inr,
  Bool-cases,
}
use prose_core_client.Rooms.RoomError.{RoomError}
use prose_core_client.Rooms.Room.{Session}
use prose_core_client.Rooms.Service.{Outcome, Op, match, return}
use prose_core_client.Rooms.Service.Nickname.{
  nickname_at, is_conflict_err, after_error, after_conflict, try_from, try_until_nickname_unique,
}

module _ {U : Type 0} (P : Outcome U → Type 0) (preferred : String) (ask : String → Op U)
    (max_attempts : ℕ) where
  after_error-keeps :
      (attempt : ℕ) (error : RoomError) (retry : Op U) (s : Session)
      → 0 < max_attempts
      → P (Outcome.failed error)
      → (attempt < max_attempts → P (retry s).0)
      → P (after_error preferred ask max_attempts attempt error retry s).0
  unfolding after_error
  after_error-keeps attempt error retry s positive h rest =
      elim (Bool-cases (is_conflict_err error)) [
        | inl conflict ↦ elim (Bool-cases (ltb 0 max_attempts && leb max_attempts attempt)) [
          | inl last ↦ rw (after_error, conflict, after_conflict, last) h
          | inr more ↦ rw (after_error, conflict, after_conflict, more) (rest (ground arith))
        ]
        | inr unlike ↦ rw (after_error, unlike) h
      ]

  match-keeps :
      (o : Outcome U × Session) (handle : RoomError → Op U)
      → P o.0
      → ((e : RoomError) (s : Session) → P (Outcome.failed e) → P (handle e s).0)
      → P (match o return handle).0
  match-keeps (Outcome.done u, s) handle h rest = h
  match-keeps (Outcome.failed e, s) handle h rest = rest e s h
  match-keeps (Outcome.running, s) handle h rest = h
  match-keeps (Outcome.panicked, s) handle h rest = h

  try_from-keeps :
      (fuel attempt : ℕ) (s : Session)
      → ((n : String) (s : Session) → P (ask n s).0)
      → attempt < max_attempts
      → max_attempts ≤ attempt + fuel
      → P (try_from preferred ask max_attempts fuel attempt s).0
  unfolding try_from nickname_at
  try_from-keeps zero attempt s h more enough = ground arith
  try_from-keeps (suc fuel) attempt s h more enough =
      match-keeps (ask (nickname_at preferred attempt) s)
        (λ error.
          after_error preferred ask max_attempts (attempt + 1) error
            (try_from preferred ask max_attempts fuel (attempt + 1)))
        (h (nickname_at preferred attempt) s)
        (λ e s' p.
          after_error-keeps (attempt + 1) e (try_from preferred ask max_attempts fuel (attempt + 1))
            s' (omega arith) p
            (λ again. try_from-keeps fuel (attempt + 1) s' h again (omega arith)))

  -- What holds of every answer holds of the returned one, when the attempts are bounded and there is
  -- fuel for them.
  pub try_until_nickname_unique-keeps :
      (fuel : ℕ) (s : Session)
      → ((n : String) (s : Session) → P (ask n s).0)
      → 0 < max_attempts
      → max_attempts ≤ fuel
      → P (try_until_nickname_unique preferred ask max_attempts fuel s).0
  unfolding try_until_nickname_unique
  try_until_nickname_unique-keeps fuel s h positive enough =
      try_from-keeps fuel 0 s h positive (omega arith)

-- An error other than a conflict is returned at once.
pub try_until_nickname_unique-refused :
    {U : Type 0} (preferred : String) (ask : String → Op U) (max_attempts fuel : ℕ)
    (error : RoomError) (s s' : Session)
    → ask preferred s ≡ (Outcome.failed error, s')
    → is_conflict_err error ≡ false
    → try_until_nickname_unique preferred ask max_attempts (suc fuel) s ≡ (Outcome.failed error, s')
unfolding try_until_nickname_unique try_from nickname_at after_error
try_until_nickname_unique-refused preferred ask max_attempts fuel error s s' answer unlike =
    rw (answer, after_error, unlike) refl

-- After an error the loop gives up or goes on.
pub after_error-cases :
    {U : Type 0} (preferred : String) (ask : String → Op U) (max_attempts attempt : ℕ)
    (error : RoomError) (retry : Op U) (s : Session)
    → (after_error preferred ask max_attempts attempt error retry s ≡ (Outcome.failed error, s))
      ⊎ (after_error preferred ask max_attempts attempt error retry s ≡ retry s)
unfolding after_error
after_error-cases preferred ask max_attempts attempt error retry s =
    elim (Bool-cases (is_conflict_err error)) [
      | inl conflict ↦ elim (Bool-cases (ltb 0 max_attempts && leb max_attempts attempt)) [
        | inl last ↦ inl (rw (after_error, conflict, after_conflict, last) refl)
        | inr more ↦ inr (rw (after_error, conflict, after_conflict, more) refl)
      ]
      | inr unlike ↦ inl (rw (after_error, unlike) refl)
    ]
