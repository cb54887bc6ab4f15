-- ===== src/Benchctl/Run/Replay.antt =====
-- A second run of an operation that is over.
use Prim.Native.String.{String}
use text.Mathlib.TextPositions.{eq_refl}
use snoozer.Prelude.{◌≡◌, refl, some}
use snoozer.Errors.{ok}
use snoozer.Benchctl.Paths.{FileName}
use snoozer.Benchctl.Host.{World, lift_result}
use snoozer.Benchctl.Host.Ending.{Faultless}
use snoozer.Benchctl.Journal.{Codec, Journal, Request, stage, restored, digest, validate}
use snoozer.Benchctl.Journal.Stored.{Stored}
use snoozer.Benchctl.Journal.Roundtrip.{load-Faultless}
use snoozer.Benchctl.Supervision.{Services, Outcome}
use snoozer.Benchctl.Run.{replay, replay_outcome, reported, terminal_outcome}

replay_outcome-terminal_outcome :
    (j : Journal) (o : Outcome)
    → j.outcome ≡ some (terminal_outcome o)
    → replay_outcome j ≡ reported o
replay_outcome-terminal_outcome j Outcome.success h = rw h refl
replay_outcome-terminal_outcome j (Outcome.failure status) h = rw h refl
replay_outcome-terminal_outcome j Outcome.timed_out h = rw h refl
replay_outcome-terminal_outcome j Outcome.cancelled h = rw h refl

-- A request for an operation whose journal is finished, for the same request and with a recorded
-- outcome, returns what the first run returned for this outcome, success or error, and changes
-- nothing: the idle states are not touched again. No call fails.
pub replay_reports :
    (c : Codec) (s : Services) (path : FileName) (id : String) (request : Request) (j : Journal)
    (o : Outcome) (w : World)
    → Faultless w
    → Stored c path w.operations j
    → validate c j ≡ ok tt
    → stage j ≡ restored
    → digest c request ≡ ok j.request_hash
    → j.outcome ≡ some (terminal_outcome o)
    → replay c s path id request w ≡ lift_result (reported o) w
unfolding replay
replay_reports c s path id request j o w h stored v r d e =
    rw (load-Faultless c path j w h v stored)
      (rw d (rw (eq_refl j.request_hash) (rw r (rw (replay_outcome-terminal_outcome j o e) refl))))
