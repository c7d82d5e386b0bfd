-- ===== src/Rooms/Service/Ends.antt =====
-- Operations that yield a result (or panic) rather than run on.
use prose_core_client.Rooms.RoomError.{RoomError}
use prose_core_client.Rooms.Room.{Session}
use prose_core_client.Rooms.Service.{Outcome, Op, continue, match, return, or_else}

abbrev pub Ends : {A : Type 0} → Outcome A → Type 0
Ends Outcome.running = ⊥
Ends _ = Unit

pub continue-Ends :
    {A B : Type 0} (o : Outcome A × Session) (k : A → Op B)
    → Ends o.0
    → ((a : A) (s : Session) → Ends (k a s).0)
    → Ends (continue o k).0
continue-Ends (Outcome.done a, s) k h rest = rest a s
continue-Ends (Outcome.failed e, s) k h rest = tt
continue-Ends (Outcome.running, s) k h rest = h
continue-Ends (Outcome.panicked, s) k h rest = tt

pub match-Ends :
    {A B : Type 0} (o : Outcome A × Session) (k : A → Op B) (handle : RoomError → Op B)
    → Ends o.0
    → ((a : A) (s : Session) → Ends (k a s).0)
    → ((e : RoomError) (s : Session) → Ends (handle e s).0)
    → Ends (match o k handle).0
match-Ends (Outcome.done a, s) k handle h rest other = rest a s
match-Ends (Outcome.failed e, s) k handle h rest other = other e s
match-Ends (Outcome.running, s) k handle h rest other = h
match-Ends (Outcome.panicked, s) k handle h rest other = tt

pub or_else-Ends : {A : Type 0} (a : A) (o : Outcome A × Session) → Ends o.0 → Ends (or_else a o).0
or_else-Ends a o h = match-Ends o return (λ e. return a) h (λ x s. tt) (λ e s. tt)
