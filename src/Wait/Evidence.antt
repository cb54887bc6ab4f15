-- ===== src/Wait/Evidence.antt =====
-- What the result of a raw wait says about the last steps of the thread.
use snoozer.Prelude.{ℕ, ◌-◌, ◌≤◌, ◌<◌, ◌≡◌, ◌≢◌, Option, none, some, List, ◌∷◌}
use snoozer.Machine.{Env, World, Event, loaded, ticked}
use snoozer.Wait.{Deadline, WaitTimeoutResult}

-- A result is justified by the newest entries of the log: a change by an Acquire load of another
-- value, the end of the time by a load of the expected value and then a late reading of the clock.
abbrev pub Evidence : ℕ → Option Deadline → WaitTimeoutResult ℕ → List Event → Type 0
Evidence e d (WaitTimeoutResult.changed v) (loaded u ∷ _) = (u ≡ v) × (v ≢ e)
Evidence e (some d) WaitTimeoutResult.timed_out (ticked n ∷ loaded u ∷ _) =
    (u ≡ e) × (d.timeout ≤ n - d.started)
Evidence e none WaitTimeoutResult.unclassified (loaded u ∷ _) = u ≡ e
Evidence e (some d) WaitTimeoutResult.unclassified (ticked n ∷ loaded u ∷ _) =
    (u ≡ e) × (n - d.started < d.timeout)
Evidence _ _ _ _ = ⊥

-- A clock reading at or past the deadline.
abbrev pub Late : Option Deadline → ℕ → Type 0
Late none now = ⊥
Late (some d) now = d.timeout ≤ now - d.started

-- A change that is reported is what the word was at the step before, and at a timeout the clock
-- was late at the step before.
abbrev pub Fresh : Env → Option Deadline → WaitTimeoutResult ℕ → World → Type 0
Fresh env d (WaitTimeoutResult.changed v) w = w.word (w.time - 1) ≡ v
Fresh env d WaitTimeoutResult.timed_out w = Late d (env.clock (w.time - 1))
Fresh env d WaitTimeoutResult.unclassified w = Unit

abbrev pub Witnessed : Env → ℕ → Option Deadline → WaitTimeoutResult ℕ → World → Type 0
Witnessed env e d r w = Evidence e d r w.trace × Fresh env d r w
