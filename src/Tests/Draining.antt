-- ===== src/Tests/Draining.antt =====
-- Ending a process group that goes away, and one that stays.
use snoozer.Prelude.{
  ℕ, ◌*◌, ◌≡◌, refl, true, List, [], ◌∷◌, Option, none, some, ltb, if◌then◌else◌, arith,
}
use snoozer.Errors.{ok, err}
use snoozer.Benchctl.Errors.{state_error}
use snoozer.Benchctl.Supervision.Drain.{
  Signal, sigterm, sigkill, delivered, no_such_process, Group, Draining, until_empty,
  terminate_group, terminate_and_drain, terminate_and_reap_group,
}
use snoozer.Benchctl.Supervision.Drain.Drained.{IsPaced, Drains, terminate_group_drained}

-- A second for each step and 10 ms for each sleep; the group is gone at a step.
abbrev gone_at : ℕ → Group
gone_at n = record {
  clock = λ t. t * 1_000_000_000;
  killpg = λ t. if ltb t n then delivered else no_such_process;
  waited = λ _. true;
}

abbrev idle : Draining
idle = record { time = 0; sleeps = 0; sent = [] }

gone_at-IsPaced : (n : ℕ) → IsPaced (gone_at n)
gone_at-IsPaced n t u h = omega arith

-- The group stays for more than 5 seconds, so it is sent SIGKILL.
terminate_group_drained_example :
    Drains (gone_at 9) idle (terminate_group true (gone_at 9) 501 idle)
terminate_group_drained_example =
    terminate_group_drained true (gone_at 9) 500 idle (gone_at-IsPaced 9) (ground arith)

-- How it ends, and the signals that were sent.
abbrev result : {A : Type 0} → Option (A × Draining) → Option (A × List (Signal × ℕ))
result none = none
result (some (r, s)) = some (r, s.sent)

leaves_at_once : result (terminate_and_drain (gone_at 3) 9 idle) ≡ some (ok tt, (sigterm, 0) ∷ [])
unfolding terminate_group until_empty
leaves_at_once = refl

is_killed :
    result (terminate_and_reap_group (gone_at 9) 9 idle)
    ≡ some (ok tt, (sigkill, 7) ∷ (sigterm, 0) ∷ [])
unfolding terminate_group until_empty
is_killed = refl

stays :
    result (terminate_and_drain (gone_at 99) 9 idle)
    ≡ some (
      err (state_error "workload process group could not be proved empty"),
      (sigkill, 9) ∷ (sigterm, 0) ∷ [],
    )
unfolding terminate_group until_empty
stays = refl
