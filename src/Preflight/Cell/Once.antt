-- ===== src/Preflight/Cell/Once.antt =====
-- The preflight runs once for a process, and the constructors agree with its result.
use snoozer.Prelude.{◌≡◌, refl, sym, subst, Option, none, some, List, [], ◌∷◌, All, arith}
use snoozer.Machine.{World, M, pure, ◌>>=◌}
use snoozer.Errors.{HardwareWaitError, Result, ok, err}
use snoozer.Cycles.{HardwareConfig}
use snoozer.Outcome.{Returns, Upto, Returns-Upto, Returns-bind, Upto-bind}
use snoozer.Preflight.Probe.{PreflightReport, Unwind}
use snoozer.Preflight.Cell.{
  PreparedHardwareWait, OnceLock, map, caught, initialize_once, preflight, new_hardware_wait,
}

abbrev Run : Type 0
Run = M (Unwind (Result PreparedHardwareWait HardwareWaitError))

abbrev Answer : Type 0
Answer = Result PreflightReport HardwareWaitError

-- Calls of `HardwareWait::preflight` in order, each with what it would run; their results.
abbrev pub preflights :
    List Run → OnceLock PreparedHardwareWait → M (List Answer × OnceLock PreparedHardwareWait)
preflights [] cell = pure ([], cell)
preflights (run ∷ later) cell =
    let rest = preflights later in
    do
      (answer, cell') ← preflight run cell
      (answers, cell'') ← rest cell'
      pure (answer ∷ answers, cell'')

-- A constructor succeeds with the preflight, and fails with its error.
abbrev pub Agrees : Answer → Result HardwareConfig HardwareWaitError → Type 0
Agrees (ok report) (ok config) = Unit
Agrees (err error) (err error') = error' ≡ error
Agrees _ _ = ⊥

abbrev answer_of : Result PreparedHardwareWait HardwareWaitError → Answer
answer_of = map λ prepared. prepared.report

-- All calls gave the answer of the cell, which is as it was, and so is the world.
abbrev Cached :
    Result PreparedHardwareWait HardwareWaitError
    → World
    → List Answer × OnceLock PreparedHardwareWait
    → World
    → Type 0
Cached result w r u = All (λ answer. answer ≡ answer_of result) r.0 × (r.1 ≡ some result) × (u ≡ w)

all-Cached :
    (runs : List Run) (result : Result PreparedHardwareWait HardwareWaitError) (w : World)
    → Returns (Cached result w) (preflights runs (some result) w)
unfolding preflight initialize_once
all-Cached [] result w = (tt, refl, refl)
all-Cached (run ∷ later) result w =
    Returns-bind (Cached result w) (Cached result w) _ (preflights later (some result)) w
      (all-Cached later result w) λ r u h. ((refl, h.0), h.1, h.2)

-- What calls of the preflight on an empty cell gave, when the first call ran to `w₁`.
abbrev pub RanOnce : Run → World → List Answer × OnceLock PreparedHardwareWait → World → Type 0
RanOnce run w ([], cell) u = ⊥
RanOnce run w (answer ∷ answers, cell) u =
    (preflight run none w ≡ some ((answer, cell), u))
    × All (λ later. later ≡ answer) answers
    × Agrees answer (new_hardware_wait cell)

agrees :
    (result : Result PreparedHardwareWait HardwareWaitError)
    → Agrees (answer_of result) (new_hardware_wait (some result))
unfolding new_hardware_wait
agrees (ok prepared) = tt
agrees (err error) = refl

-- What the first call leaves: the cell holds the result that its answer is made of.
abbrev First : Run → World → Answer × OnceLock PreparedHardwareWait → World → Type 0
First run w r u =
    (preflight run none w ≡ some (r, u))
    × (result : Result PreparedHardwareWait HardwareWaitError) × (r
        ≡ (answer_of result, some result))

call-First :
    (w : World) (o : Option (Unwind (Result PreparedHardwareWait HardwareWaitError) × World))
    → Upto (First (λ _. o) w) (preflight (λ _. o) none w)
unfolding preflight initialize_once
call-First w none = tt
call-First w (some (r, u)) = (refl, caught r, refl)

ran_once :
    (run : Run) (w : World) (result : Result PreparedHardwareWait HardwareWaitError) (u : World)
    → preflight run none w ≡ some ((answer_of result, some result), u)
    → (r : List Answer × OnceLock PreparedHardwareWait) (v : World) → Cached result u r v
    → RanOnce run w (answer_of result ∷ r.0, r.1) v
ran_once run w result u e (answers, cell) v (all, c, t) = (
  ground arith,
  all,
  subst (λ cell. Agrees (answer_of result) (new_hardware_wait cell)) (sym c) (agrees result),
)

RanOnce-after_call :
    (run : Run) (later : List Run) (w : World) (r : Answer × OnceLock PreparedHardwareWait)
    (u : World)
    → First run w r u
    → Upto
        (RanOnce run w)
        ((do (answers, cell) ← preflights later r.1; pure (r.0 ∷ answers, cell)) u)
RanOnce-after_call run later w r u (e, result, eq) =
    subst
      (λ r.
        preflight run none w ≡ some (r, u)
        → Upto (RanOnce run w) ((preflights later r.1 >>= λ x. pure (r.0 ∷ x.0, x.1)) u))
      (sym eq)
      (λ e.
        Upto-bind (Cached result u) (RanOnce run w) _ (preflights later (some result)) u
          (Returns-Upto (Cached result u) (preflights later (some result) u)
            (all-Cached later result u))
          (ran_once run w result u e))
      e

-- However often and with whatever later calls the preflight is asked for, only the first call runs
-- anything: every later call gives the same answer, a failure or a panic too, and leaves the world
-- and the cell as the first call left them; and then `HardwareWait::new` succeeds if that answer
-- was a report, and else fails with the same error.
pub preflights_run_once :
    (run : Run) (later : List Run) (w : World)
    → Upto (RanOnce run w) (preflights (run ∷ later) none w)
unfolding preflight
preflights_run_once run later w =
    Upto-bind (First run w) (RanOnce run w) _ (preflight run none) w (call-First w (run w))
      λ r u f. RanOnce-after_call run later w r u f
