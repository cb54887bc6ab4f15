-- ===== src/Parker/ParkTimeout.antt =====
-- The park operations with a timeout, over a lawful strategy.
use snoozer.Prelude.{
  ℕ, suc, inr, List, [], ◌∷◌, ◌-◌, ◌≤◌, ◌<◌, ◌≡◌, ◌≢◌, Bool, true, false, some, refl, sym, inl, ◌∙◌,
  arith,
}
use snoozer.Machine.{Env, World, Event, M, pure, ◌>>=◌}
use snoozer.Outcome.{Upto, Returns, Upto-bind, Returns-bind, Returns-map, Returns-Upto}
use snoozer.Wait.{Deadline, WaitTimeoutResult, WaitUntilTimeoutResult}
use snoozer.Wait.Evidence.{Evidence, Late}
use snoozer.Wait.Monitor.{IsGuarded, Sound}
use snoozer.Wait.Blocking.{Kept-Steady, Steady}
use snoozer.Wait.Progress.{Settles}
use snoozer.Strategy.{StrategyImpl, wait_if_equal_timeout, wait_until_different_timeout}
use snoozer.Strategy.Laws.{IsLawful}
use snoozer.Strategy.Timed.{
  Verdict, deadline_at, wait_if_equal_timeout-Sound, wait_until_different_timeout_total,
}
use snoozer.Parker.Token.{IsToken}
use snoozer.Parker.Park.{certain}
use snoozer.Parker.Parts.{
  Parked, Unready, Kept-trans, take-Last, take_certain, take_first-Upto, take_first-Returns,
}
use snoozer.Parker.{
  empty_token, take_notification, return_if, ParkTimeoutResult, NotificationTimeoutResult, untaken,
  park_timeout_unready, park_timeout, after_filtered, park_until_timeout_unready,
  park_until_notified_timeout,
}

abbrev pub timeout_took : ParkTimeoutResult → Bool
timeout_took ParkTimeoutResult.notified = true
timeout_took _ = false

abbrev pub until_took : NotificationTimeoutResult → Bool
until_took NotificationTimeoutResult.notified = true
until_took NotificationTimeoutResult.timed_out = false

untaken-took : (r : WaitTimeoutResult ℕ) → timeout_took (untaken r) ≡ false
untaken-took (WaitTimeoutResult.changed v) = refl
untaken-took WaitTimeoutResult.unclassified = refl
untaken-took WaitTimeoutResult.timed_out = refl

-- The deadline of a park that finds no token at `w`: the clock is read in the step after.
abbrev pub park_deadline : Env → World → ℕ → Deadline
park_deadline env w timeout = record { started = env.clock (suc w.time); timeout = timeout }

-- At some step before `u` the clock was at or past the deadline.
abbrev pub Expired : Env → World → ℕ → World → Type 0
Expired env w timeout u = (t : ℕ) × (t < u.time) × (timeout ≤ env.clock t - env.clock (suc w.time))

-- What the timed parks promise: what every park promises, and a timeout only when time is up.
abbrev pub ParkedInTime : Env → World → ℕ → ParkTimeoutResult → World → Type 0
ParkedInTime env w timeout r u =
    Parked env timeout_took w r u × (r ≡ ParkTimeoutResult.timed_out → Expired env w timeout u)

abbrev pub NotifiedInTime : Env → World → ℕ → NotificationTimeoutResult → World → Type 0
NotifiedInTime env w timeout r u =
    Parked env until_took w r u
    × (r ≡ NotificationTimeoutResult.timed_out → Expired env w timeout u)

changed-differs :
    (e v : ℕ) (d : Deadline) (trace : List Event)
    → Evidence e (some d) (WaitTimeoutResult.changed v) trace
    → v ≢ e
changed-differs e v d [] h = absurd h
changed-differs e v d (event ∷ older) h = ground arith

module _ (env : Env) (timeout : ℕ) (w : World) (token : IsToken w.word) where
  -- A timeout of the wait that began at `u` is one of the park.
  expired :
      (u v x : World)
      → u.time ≡ suc w.time
      → Late (some (deadline_at env u timeout)) (env.clock (v.time - 1))
      → w.time < v.time
      → v.time < x.time
      → Expired env w timeout x
  expired u v x e late after lt = (v.time - 1, omega arith, rw e at late)

  -- the last take of `park_timeout`
  abbrev take_untaken : WaitTimeoutResult ℕ → M ParkTimeoutResult
  take_untaken r = take_notification env >>= return_if ParkTimeoutResult.notified (pure (untaken r))

  untaken-Expired :
      (u : World)
      → u.time ≡ suc w.time
      → (r : WaitTimeoutResult ℕ) (v : World)
      → Sound env empty_token (some (deadline_at env u timeout)) r v
      → u.time < v.time
      → (x : World) → v.time < x.time
      → untaken r ≡ ParkTimeoutResult.timed_out
      → Expired env w timeout x
  untaken-Expired u e (WaitTimeoutResult.changed n) v q a x lt t = cc
  untaken-Expired u e WaitTimeoutResult.unclassified v q a x lt t = cc
  untaken-Expired u e WaitTimeoutResult.timed_out v q a x lt t =
      expired u v x e q.0.1 (omega arith) lt

  last_look :
      (u : World)
      → Unready env w token u
      → (r : WaitTimeoutResult ℕ) (v : World)
      → Sound env empty_token (some (deadline_at env u timeout)) r v × Steady 1 u r v
      → Returns (ParkedInTime env w timeout) (take_untaken r v)
  last_look u ready r v q =
      Returns-map _ (ParkedInTime env w timeout)
        (λ k x p. (
          p.0,
          λ t. elim p.2 [
            | inl found ↦ cc
            | inr missed ↦
                untaken-Expired u ready.3 r v q.0 (omega (arith, q.1.0)) x p.1 (sym missed ∙ t)
          ],
        ))
        (take_untaken r v)
        (take-Last env w token timeout_took ParkTimeoutResult.notified refl ready.2 (untaken r)
          (untaken-took r) v (Kept-Steady 1 w u v r ready.0 q.1) q.0.1)

  -- after the filtered wait: an asserted take, or one last look
  decided :
      (s : StrategyImpl) (u : World)
      → Unready env w token u
      → (r : WaitUntilTimeoutResult ℕ) (v : World)
      → Verdict env empty_token (deadline_at env u timeout) u r v
      → Returns (NotifiedInTime env w timeout) (after_filtered env s r v)
  decided s u ready (WaitUntilTimeoutResult.changed n) v q =
      Returns-map _ (NotifiedInTime env w timeout) (λ k x p. (p.0, λ t. cc (p.1)))
        (after_filtered env s (WaitUntilTimeoutResult.changed n) v)
        (take_certain env w token until_took NotificationTimeoutResult.notified refl ready.2 v
          (Kept-trans w u v ready.0 q.1) q.0.1
          (certain env w v token n
            (changed-differs empty_token n (deadline_at env u timeout) v.trace q.0.0.0) q.0.0.1
            (q.1.1 ∙ ready.0.1)))
  decided s u ready WaitUntilTimeoutResult.timed_out v q =
      Returns-map _ (NotifiedInTime env w timeout)
        (λ k x p. (p.0, λ t. expired u v x ready.3 q.0.0.1 (omega (arith, q.2)) p.1))
        (after_filtered env s WaitUntilTimeoutResult.timed_out v)
        (take-Last env w token until_took NotificationTimeoutResult.notified refl ready.2
          NotificationTimeoutResult.timed_out refl v (Kept-trans w u v ready.0 q.1) q.0.1)

module _ (env : Env) (s : StrategyImpl) (law : IsLawful env s) where
  -- With any lawful strategy, for a token that is 0 or 1 and stays 1 until it is taken, and a log
  -- that kept the protocol of the monitor: `park_timeout` reports a notification exactly if it
  -- took one token. If it reports none, it took none and saw the token empty in its last step, and
  -- it reports a timeout only if the clock had reached the deadline. A token that is there when it
  -- starts is taken without blocking. It fails no assertion and executes no hardware wait that was
  -- not armed and rechecked.
  pub park_timeout_sound :
      (fuel timeout : ℕ) (w : World)
      → IsToken w.word
      → IsGuarded env empty_token w
      → Upto (ParkedInTime env w timeout) (park_timeout env s fuel timeout w)
  unfolding park_timeout
  park_timeout_sound fuel timeout w token guarded =
      take_first-Upto env w token timeout_took ParkTimeoutResult.notified refl
        (park_timeout_unready env s fuel timeout) guarded (ParkedInTime env w timeout)
        (λ u q. (q, λ t. cc))
        λ u ready.
          Upto-bind
            (λ r v. Sound env empty_token (some (deadline_at env u timeout)) r v × Steady 1 u r v)
            (ParkedInTime env w timeout) (take_untaken env timeout w token)
            (wait_if_equal_timeout env s fuel empty_token timeout) u
            (wait_if_equal_timeout-Sound env s law fuel empty_token timeout u ready.1)
            λ r v q.
              Returns-Upto (ParkedInTime env w timeout) (take_untaken env timeout w token r v)
                (last_look env timeout w token u ready r v q)

  -- With any lawful strategy, for a token that is 0 or 1 and stays 1 until it is taken, and a log
  -- that kept the protocol of the monitor: `park_until_notified_timeout` returns, with turns and
  -- fuel for the steps until a producer has set the token or the clock stays at or past the
  -- deadline. It reports a notification exactly if it took one token, and a timeout only if the
  -- clock had reached the deadline, it took none, and its last step saw the token empty, so that a
  -- token published at the deadline is not lost. Its `debug_assert` held.
  pub park_until_notified_timeout_total :
      (turns fuel timeout t₀ : ℕ) (w : World)
      → IsToken w.word
      → IsGuarded env empty_token w
      → Settles env w.word empty_token (some (park_deadline env w timeout)) t₀
      → t₀ - w.time < turns
      → t₀ - w.time < fuel
      → Returns
          (NotifiedInTime env w timeout)
          (park_until_notified_timeout env s turns fuel timeout w)
  unfolding park_until_notified_timeout
  park_until_notified_timeout_total turns fuel timeout t₀ w token guarded ends m n =
      take_first-Returns env w token until_took NotificationTimeoutResult.notified refl
        (park_until_timeout_unready env s turns fuel timeout) guarded (NotifiedInTime env w timeout)
        (λ u q. (q, λ t. cc))
        λ u ready.
          Returns-bind (Verdict env empty_token (deadline_at env u timeout) u)
            (NotifiedInTime env w timeout) (after_filtered env s)
            (wait_until_different_timeout env s turns fuel empty_token timeout) u
            (wait_until_different_timeout_total env s law turns fuel empty_token timeout t₀ u
              (rw (ready.0.1, ready.3) ends) ready.1 (omega arith) (omega arith))
            (decided env timeout w token s u ready)
