-- ===== src/Benchctl/Control.antt =====
-- tools/benchctl/src/cpuidle.rs: the way to `status` and to `recover`, from the command line over sudo
-- to the privileged coordinator.
use Prim.Native.String.{String}
use snoozer.Prelude.{Bool, List, [], ◌∷◌, ◌++◌, Option, none, some}
use snoozer.Benchctl.Host.{Host, Action, pure, ◌>>=◌, ◌>>◌}
use snoozer.Benchctl.Journal.{Codec, Stage}
use snoozer.Benchctl.Supervision.{Services}
use snoozer.Benchctl.Recover.{status, recover}
use snoozer.Benchctl.Entry.{Shell, absolute_without_existing, gate}

pub record ControlRequest : Type 0 where
  pub operation_id : Option String
  pub sysfs_root : String
  pub state_root : String
  pub coordinator : Bool

abbrev operation_argument : Option String → List String
operation_argument none = []
operation_argument (some id) = id ∷ []

-- The arguments of `sudo` for an action other than a run.
abbrev pub control_arguments : String → String → ControlRequest → List String
control_arguments action executable request =
    ("--" ∷ executable ∷ action ∷ "--coordinator" ∷ "--sysfs-root" ∷ request.sysfs_root
      ∷ "--state-root" ∷ request.state_root ∷ [])
    ++ operation_argument request.operation_id

unfoldable pub sudo_control : String → Shell → ControlRequest → Action
sudo_control action sh request = do
  executable ← sh.current_exe
  sh.sudo (control_arguments action executable request)

abbrev pub resolved : Shell → ControlRequest → Host ControlRequest
resolved sh request = do
  sysfs_root ← sh.absolute_existing request.sysfs_root
  state_root ← absolute_without_existing sh request.state_root
  pure (record request { sysfs_root = sysfs_root; state_root = state_root })

module _ (c : Codec) (sh : Shell) where
  -- What the process itself prints: nothing if sudo does it.
  unfoldable pub status_request : ControlRequest → Host (List (String × Stage))
  status_request request = do
    known ← resolved sh request
    gate known.sysfs_root known.state_root known.coordinator
        (sudo_control "status" sh known >> pure []) (status c known.operation_id)

  unfoldable pub recover_request : Services → ControlRequest → Action
  recover_request s request = do
    known ← resolved sh request
    gate known.sysfs_root known.state_root known.coordinator (sudo_control "recover" sh known)
        (recover c s known.operation_id)
