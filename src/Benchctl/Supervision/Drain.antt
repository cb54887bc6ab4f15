-- ===== src/Benchctl/Supervision/Drain.antt =====
-- tools/benchctl/src/supervision.rs: ending the process group of a workload. What the operating system
-- answers at each step, and the clock, are a `Group`. A sleep of 10 ms puts the clock forward by that.
use Prim.Native.String.{String}
use snoozer.Prelude.{
  ℕ, zero, suc, ◌+◌, ◌-◌, ◌*◌, Bool, true, false, List, [], ◌∷◌, Option, none, some, ltb,
  if◌then◌else◌,
}
use snoozer.Errors.{Result, ok, err}
use snoozer.Benchctl.Errors.{BenchError, state_error, io}
pub mod Drained

-- 5 seconds, in nanoseconds
abbrev pub stop_grace : ℕ
stop_grace = 5_000_000_000

abbrev pub drain_limit : ℕ
drain_limit = 5_000_000_000

pub data Signal : Type 0 where
  sigterm sigkill : Signal

-- The answer to `killpg`: it is delivered, there is no such group, or another error.
pub data Answer : Type 0 where
  delivered no_such_process refused : Answer

pub record Group : Type 0 where
  pub clock : ℕ → ℕ  -- `Instant::now` at each step, in nanoseconds, less 10 ms for each sleep before
  pub killpg : ℕ → Answer  -- the answer to a signal, or to the null signal, at each step
  pub waited : ℕ → Bool  -- whether `try_wait` on the leader succeeds at each step

-- The steps so far, the sleeps so far, and the signals with the steps at which they were sent, newest
-- first.
pub record Draining : Type 0 where
  pub time : ℕ
  pub sleeps : ℕ
  pub sent : List (Signal × ℕ)

-- `none` is a loop whose fuel is used up.
abbrev pub Drain : Type 0 → Type 0
Drain A = Draining → Option (Result A BenchError × Draining)

abbrev pub tick : Draining → Draining
tick s = record s { time = suc s.time }

-- `Instant::now`
abbrev pub instant : Group → Draining → ℕ
instant g s = g.clock s.time + s.sleeps * 10_000_000

-- `std::thread::sleep(Duration::from_millis(10))`
abbrev pub sleep : Draining → Draining
sleep s = record s { time = suc s.time; sleeps = suc s.sleeps }

abbrev pub signalled : Answer → Draining → Option (Result (Unit {0}) BenchError × Draining)
signalled refused s = some (err (state_error "cannot signal workload process group"), s)
signalled _ s = some (ok tt, s)

abbrev pub signal_group : Group → Signal → Drain (Unit {0})
signal_group g signal s =
    signalled (g.killpg s.time) (record s { time = suc s.time; sent = (signal, s.time) ∷ s.sent })

-- `group_is_empty(pgid)?` and the way on: the group is empty, or it is not, or the loop ends with an
-- error.
abbrev pub if_empty :
    Answer
    → Draining
    → Option (Result Bool BenchError × Draining)
    → Option (Result Bool BenchError × Draining)
if_empty no_such_process s rest = some (ok true, s)
if_empty delivered s rest = rest
if_empty refused s rest = some (err (state_error "cannot inspect workload process group"), s)

-- One turn after the look at the clock: `try_wait` on the leader if it is reaped, and a look at the
-- group, and a sleep before the next turn.
abbrev pub turn :
    Bool
    → Group
    → Draining
    → (Draining → Option (Result Bool BenchError × Draining))
    → Option (Result Bool BenchError × Draining)
turn false g s rest = if_empty (g.killpg s.time) (tick s) (rest (sleep (tick s)))
turn true g s rest =
    if g.waited s.time
    then if_empty (g.killpg (suc s.time)) (tick (tick s)) (rest (sleep (tick (tick s))))
    else some (err (io "reaping workload supervisor"), tick s)

-- `while started.elapsed() < limit { .. sleep(10 ms) }`: whether the group was seen empty.
unfoldable pub until_empty : Bool → Group → ℕ → ℕ → ℕ → Drain Bool
until_empty reap g zero started limit s = none
until_empty reap g (suc fuel) started limit s =
    let again = until_empty reap g fuel started limit in
    if ltb (instant g s - started) limit
    then turn reap g (tick s) again
    else some (ok false, tick s)

infixl 5 ◌>>=◌
abbrev pub ◌>>=◌ : {A B : Type 0} → Drain A → (A → Drain B) → Drain B
(m >>= f) s = elim (m s) [
  | none ↦ none
  | some (r, u) ↦ elim r [ ok a ↦ f a u | err e ↦ some (err e, u) ]
]

-- `Instant::now` and the loop that it starts
abbrev pub wait_empty : Bool → Group → ℕ → ℕ → Drain Bool
wait_empty reap g fuel limit s = until_empty reap g fuel (instant g s) limit (tick s)

abbrev pub give_up : Bool → Drain (Unit {0})
give_up true s = some (ok tt, s)
give_up false s = some (err (state_error "workload process group could not be proved empty"), s)

abbrev pub kill_unless : Bool → Group → ℕ → Bool → Drain (Unit {0})
kill_unless reap g fuel true s = some (ok tt, s)
kill_unless reap g fuel false s =
    (signal_group g sigkill >>= λ _. wait_empty reap g fuel drain_limit >>= give_up) s

-- `terminate_and_reap_group` reaps the leader in its loops, `terminate_and_drain` does not.
unfoldable pub terminate_group : Bool → Group → ℕ → Drain (Unit {0})
terminate_group reap g fuel =
    signal_group g sigterm >>= λ _. wait_empty reap g fuel stop_grace >>= kill_unless reap g fuel

abbrev pub terminate_and_drain : Group → ℕ → Drain (Unit {0})
terminate_and_drain g fuel = terminate_group false g fuel

abbrev pub terminate_and_reap_group : Group → ℕ → Drain (Unit {0})
terminate_and_reap_group g fuel = terminate_group true g fuel
