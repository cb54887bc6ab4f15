-- ===== src/Tests/Entering.antt =====
-- The way to a run of the benchmark control tool, on the real files of cpuidle.
use snoozer.Prelude.{◌≡◌, ◌⊎◌, refl, true, false, none, some, [], ◌∷◌}
use snoozer.Benchctl.Errors.{BenchError, preflight}
use snoozer.Benchctl.Host.{Action, pure, failed, value}
use snoozer.Benchctl.Supervision.{Outcome}
use snoozer.Benchctl.Run.{RunRequest, coordinate_run}
use snoozer.Benchctl.Control.{
  ControlRequest, control_arguments, sudo_control, status_request, recover_request,
}
use snoozer.Benchctl.Entry.{
  gate, Shell, equal_paths, is_real_root, real_sysfs_root, components, sudo_arguments, sudo_run,
  launch,
}
use snoozer.Benchctl.Entry.Guarded.{IsPrivileged, launch_guarded}
use snoozer.Tests.Control.{machine, prompt, measure, json}

abbrev shell : Shell
shell = record {
  absolute = λ p. pure p;
  absolute_existing = λ p. pure p;
  current_exe = pure "/bin/benchctl";
  process_id = 41;
  sudo = λ _. pure tt;
}

abbrev by_user : RunRequest
by_user = record measure { coordinator = false; client_pid = none }

components_plain : components "/run//a/./b/" ≡ ("" ∷ "run" ∷ "a" ∷ "b" ∷ [])
components_plain = refl

equal_paths_slash : equal_paths "/sys/devices/system/cpu/" real_sysfs_root ≡ true
unfolding equal_paths
equal_paths_slash = refl

equal_paths_other : equal_paths "/tmp/cpu" real_sysfs_root ≡ false
unfolding equal_paths
equal_paths_other = refl

sudo_arguments_run : sudo_arguments "/bin/benchctl" 41 by_user ≡ (
    "--" ∷ "/bin/benchctl" ∷ "run" ∷ "--coordinator" ∷ "--client-pid" ∷ "41" ∷ "--receipt"
    ∷ "/receipt" ∷ "--cpuidle" ∷ "poll-c1" ∷ "--timeout" ∷ "60" ∷ "--sysfs-root"
    ∷ "/sys/devices/system/cpu" ∷ "--state-root" ∷ "/run/benchctl/operations" ∷ "--operation-id"
    ∷ "night-1" ∷ "--cpu" ∷ "0" ∷ "--" ∷ "bench" ∷ [])
sudo_arguments_run = refl

abbrev of_user : ControlRequest
of_user = record {
  operation_id = some "night-1";
  sysfs_root = "/sys/devices/system/cpu";
  state_root = "/run/benchctl/operations/";
  coordinator = false;
}

control_arguments_recover : control_arguments "recover" "/bin/benchctl" of_user ≡ (
    "--" ∷ "/bin/benchctl" ∷ "recover" ∷ "--coordinator" ∷ "--sysfs-root"
    ∷ "/sys/devices/system/cpu" ∷ "--state-root" ∷ "/run/benchctl/operations/" ∷ "night-1" ∷ [])
control_arguments_recover = refl

status_request_user :
    status_request json shell of_user (machine "0\n" []) ≡ (value [], machine "0\n" [])
unfolding status_request sudo_control gate equal_paths
status_request_user = refl

recover_request_elsewhere :
    recover_request json shell
      (prompt Outcome.success)
      (record of_user { state_root = "/tmp" })
      (machine "0\n" [])
    ≡ (
      failed
          (preflight "real sysfs operations require the fixed root-owned Benchctl state directory"),
      machine "0\n" [],
    )
unfolding recover_request gate equal_paths
recover_request_elsewhere = refl

-- A request of a user goes to sudo.
abbrev start : RunRequest → Action
start = coordinate_run json (prompt Outcome.success)

launch_guarded_example :
    ((launch shell start by_user (machine "0\n" []) ≡ sudo_run shell by_user (machine "0\n" []))
      × (is_real_root by_user.sysfs_root ≡ true)
      × (by_user.coordinator ≡ false))
    ⊎ (((e : BenchError) × (launch shell start by_user (machine "0\n" [])
            ≡ (failed e, machine "0\n" [])))
        ⊎ ((launch shell start by_user (machine "0\n" []) ≡ start by_user (machine "0\n" []))
            × (is_real_root by_user.sysfs_root ≡ true
                → IsPrivileged (machine "0\n" []).process by_user)))
launch_guarded_example = launch_guarded shell start by_user (machine "0\n" [])
