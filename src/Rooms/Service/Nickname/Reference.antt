-- ===== src/Rooms/Service/Nickname/Reference.antt =====
-- The order in which nicknames are tried (rooms_domain_service.rs), written without a loop.
use prose_core_client.Base.{
  String, ℕ, zero, suc, ◌+◌, ◌≤◌, ◌<◌, ◌≡◌, refl, arith, true, false, List, [], ◌∷◌, ltb, leb, ◌&&◌,
  inl, inr, Bool-cases,
}
use prose_core_client.Rooms.RoomError.{RoomError}
use prose_core_client.Rooms.Room.{Session}
use prose_core_client.Rooms.Service.{Outcome, Op, match, return}
use prose_core_client.Rooms.Service.Nickname.{
  nickname_at, is_conflict_err, after_error, after_conflict, try_from, try_until_nickname_unique,
}

-- `preferred`, or the numbered nicknames from `attempt` on
abbrev pub nicknames : String → ℕ → ℕ → List String
unfolding nickname_at
nicknames preferred attempt zero = []
nicknames preferred attempt (suc n) =
    nickname_at preferred attempt ∷ nicknames preferred (attempt + 1) n

abbrev pub after_refusal : {U : Type 0} → Op U → RoomError → Op U
after_refusal next error s = elim (is_conflict_err error) [
  | true ↦ next s
  | false ↦ (Outcome.failed error, s)
]

-- The answer to the first nickname that is not in conflict, or else to the last one.
abbrev pub first_accepted : {U : Type 0} → (String → Op U) → List String → Op U
first_accepted ask [] = λ s. (Outcome.running, s)
first_accepted ask (n ∷ []) = ask n
first_accepted ask (n ∷ m ∷ rest) =
    λ s. match (ask n s) return (after_refusal (first_accepted ask (m ∷ rest)))

match-return :
    {U : Type 0} (o : Outcome U × Session) (k : RoomError → Op U)
    → ((error : RoomError) (s : Session) → k error s ≡ (Outcome.failed error, s))
    → match o return k ≡ o
match-return (Outcome.done u, s) k h = refl
match-return (Outcome.failed error, s) k h = h error s
match-return (Outcome.running, s) k h = refl
match-return (Outcome.panicked, s) k h = refl

match-handlers :
    {U : Type 0} (o : Outcome U × Session) (k j : RoomError → Op U)
    → ((error : RoomError) (s : Session) → k error s ≡ j error s)
    → match o return k ≡ match o return j
match-handlers (Outcome.done u, s) k j h = refl
match-handlers (Outcome.failed error, s) k j h = h error s
match-handlers (Outcome.running, s) k j h = refl
match-handlers (Outcome.panicked, s) k j h = refl

module _ {U : Type 0} (preferred : String) (ask : String → Op U) (max_attempts : ℕ) where
  at_limit :
      (attempt : ℕ)
      → 0 < max_attempts
      → max_attempts ≤ attempt
      → (ltb 0 max_attempts && leb max_attempts attempt) ≡ true
  at_limit attempt positive enough = ground arith

  below_limit :
      (attempt : ℕ)
      → attempt < max_attempts
      → (ltb 0 max_attempts && leb max_attempts attempt) ≡ false
  below_limit attempt more = ground arith

  after_error-last :
      (attempt : ℕ) (error : RoomError) (retry : Op U) (s : Session)
      → 0 < max_attempts
      → max_attempts ≤ attempt
      → after_error preferred ask max_attempts attempt error retry s ≡ (Outcome.failed error, s)
  unfolding after_error
  after_error-last attempt error retry s positive enough =
      elim (Bool-cases (is_conflict_err error)) [
        | inl conflict ↦
            rw (after_error, conflict, after_conflict, at_limit attempt positive enough) refl
        | inr unlike ↦ rw (after_error, unlike) refl
      ]

  after_error-retry :
      (attempt : ℕ) (error : RoomError) (retry other : Op U) (s : Session)
      → attempt < max_attempts
      → retry s ≡ other s
      → after_error preferred ask max_attempts attempt error retry s ≡ after_refusal other error s
  unfolding after_error
  after_error-retry attempt error retry other s more h = elim (Bool-cases (is_conflict_err error)) [
    | inl conflict ↦
        rw (after_error, after_refusal, conflict, after_conflict, below_limit attempt more) h
    | inr unlike ↦ rw (after_error, after_refusal, unlike) refl
  ]

  try_from_lem :
      (n fuel attempt : ℕ) (s : Session)
      → max_attempts ≡ attempt + suc n
      → n < fuel
      → try_from preferred ask max_attempts fuel attempt s
        ≡ first_accepted ask (nicknames preferred attempt (suc n)) s
  unfolding try_from nickname_at
  try_from_lem n zero attempt s h enough = ground arith
  try_from_lem zero (suc fuel) attempt s h enough =
      match-return (ask (nickname_at preferred attempt) s)
        (λ error.
          after_error preferred ask max_attempts (attempt + 1) error
            (try_from preferred ask max_attempts fuel (attempt + 1)))
        (λ error s'.
          after_error-last (attempt + 1) error
            (try_from preferred ask max_attempts fuel (attempt + 1)) s' (omega arith) (omega arith))
  try_from_lem (suc n) (suc fuel) attempt s h enough =
      match-handlers (ask (nickname_at preferred attempt) s)
        (λ error.
          after_error preferred ask max_attempts (attempt + 1) error
            (try_from preferred ask max_attempts fuel (attempt + 1)))
        (after_refusal (first_accepted ask (nicknames preferred (attempt + 1) (suc n))))
        (λ error s'.
          after_error-retry (attempt + 1) error
            (try_from preferred ask max_attempts fuel (attempt + 1))
            (first_accepted ask (nicknames preferred (attempt + 1) (suc n))) s' (omega arith)
            (try_from_lem n fuel (attempt + 1) s' (omega arith) (omega arith)))

-- With a bound on the attempts, and fuel for as many, the loop asks with the preferred nickname and
-- then with the numbered ones in turn: its answer is that to the first nickname that is not in
-- conflict, or that to the last of them.
pub try_until_nickname_unique_lem :
    {U : Type 0} (preferred : String) (ask : String → Op U) (max_attempts fuel : ℕ) (s : Session)
    → 0 < max_attempts
    → max_attempts ≤ fuel
    → try_until_nickname_unique preferred ask max_attempts fuel s
      ≡ first_accepted ask (nicknames preferred 0 max_attempts) s
unfolding try_until_nickname_unique
try_until_nickname_unique_lem preferred ask zero fuel s positive enough = ground arith
try_until_nickname_unique_lem preferred ask (suc n) fuel s positive enough =
    try_from_lem preferred ask (suc n) n fuel 0 s (omega arith) (omega arith)
