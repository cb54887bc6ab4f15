-- ===== src/Tests/Control.antt =====
-- Runs of the benchmark control tool on a machine with one CPU that has three idle states.
use Prim.Native.String.{String}
use native.Mathlib.Decide.{ℕ_discrete}
use snoozer.Prelude.{ℕ, zero, suc, ◌≡◌, refl, true, none, some, List, [], ◌∷◌, if◌then◌else◌}
use snoozer.Benchctl.Paths.{SysfsPath, cpu_root, join, same_path, lookup, replace}
use snoozer.Benchctl.Host.{
  Actor, Node, missing, file, directory, Tree, World, Verdict, passes, crashes, value, halted, pure,
  Exit, attempt,
}
use snoozer.Benchctl.Runtime.{atomic_write}
use snoozer.Benchctl.Text.{trim, parse_usize}
use snoozer.Benchctl.Journal.{
  Codec, Journal, Stage, TerminalOutcome, IdleEntry, advanced, prepared, applied, workload_started,
  workload_finished, draining, restoring, restored, journal_path, digest, validate, store,
  read_boot_id,
}
use snoozer.Benchctl.Inventory.{
  reject_symlink, read_trimmed, read_bit, write_file, write_bit, scan_state, scan_states,
  inventory_names, inventory_cpu, inventory, validate_inventory,
}
use snoozer.Benchctl.Cpuidle.{
  apply_entries, apply, check_entries, put_back, verify_entries, complete_restore, restore,
}
use snoozer.Benchctl.Select.{
  list_journals, select_journals, require_restored, require_no_unfinished_journal,
}
use snoozer.Benchctl.Receipt.{BuildReceipt}
use snoozer.Benchctl.Supervision.{Services, Outcome, IsTidy}
use snoozer.Benchctl.Run.{
  RunRequest, coordinate_run, recorded_request, begin_run, control_run, run_workload, finish_run,
}
use snoozer.Tests.Json.{
  String-discrete, items_discrete, choice_discrete, Journal-discrete, written, codec_of,
}

-- One CPU with three idle states; the bit of the deepest one is given.
abbrev pub state_path : String → String → SysfsPath
state_path name leaf = join (join (join (cpu_root 0) "cpuidle") name) leaf

abbrev pub listed : List (SysfsPath × Node) → Tree
listed [] p = missing
listed ((q, n) ∷ ns) p = if same_path q p then n else listed ns p

abbrev pub laptop : String → Tree
laptop bit = listed (
    (cpu_root 0, directory ("cpuidle" ∷ []))
    ∷ (join (cpu_root 0) "cpuidle", directory ("state2" ∷ "state0" ∷ "state1" ∷ []))
    ∷ (join (join (cpu_root 0) "cpuidle") "state0", directory ("name" ∷ "disable" ∷ []))
    ∷ (join (join (cpu_root 0) "cpuidle") "state1", directory ("name" ∷ "disable" ∷ []))
    ∷ (join (join (cpu_root 0) "cpuidle") "state2", directory ("name" ∷ "disable" ∷ []))
    ∷ (state_path "state0" "name", file "POLL\n")
    ∷ (state_path "state1" "name", file "C1\n")
    ∷ (state_path "state2" "name", file "C6\n")
    ∷ (state_path "state0" "disable", file "0\n")
    ∷ (state_path "state1" "disable", file "0\n")
    ∷ (state_path "state2" "disable", file bit)
    ∷ [])

abbrev pub root_user : Actor
root_user = record { uid = 0; gid = 0 }

abbrev pub machine : String → List Verdict → World
machine bit verdicts = record {
  sysfs = laptop bit;
  operations = [];
  verdicts = verdicts;
  now = 7;
  boot = "boot";
  process = root_user;
}

abbrev pub receipt : BuildReceipt
receipt = record {
  version = "v";
  build_id = "b";
  manifest_path = "/m";
  repository = "/r";
  source_commit = "c";
  source_clean = true;
  lockfile_path = "/r/l";
  lockfile_sha256 = "s";
  package_id = "p";
  bench = "wake_latency";
  features = [];
  profile = "bench";
  rustc = "rustc";
  rustup_toolchain = "stable";
  target_triple = "x86_64";
  benchctl_version = "0";
  benchctl_executable_sha256 = "e";
  executable = "/x";
  executable_sha256 = "d";
  built_unix_millis = 1;
}

-- Services that do their part at once; the workload ends with an outcome.
abbrev pub prompt : Outcome → Services
prompt outcome = record {
  secure_state = pure tt;
  lock_for = λ _. pure tt;
  require_inactive = pure tt;
  invoking_actor = pure root_user;
  load_receipt = λ _. pure receipt;
  verify_checkout_as = λ _ _. pure tt;
  receipt_digest = λ _. pure "digest";
  new_operation_id = pure "fresh";
  client_watch = pure tt;
  accept_snapshots = λ _ _. pure tt;
  coordinate = λ _ _. pure outcome;
  recover_outcome = λ _. pure none;
  cleanup_runtime = λ _. pure tt;
}

pub prompt-IsTidy : (o : Outcome) → IsTidy (prompt o)
prompt-IsTidy o = record {
  secure_state = λ w. (refl, λ _. refl);
  lock_for = λ _ w. (refl, λ _. refl);
  require_inactive = λ w. (refl, λ _. refl);
  invoking_actor = λ w. (refl, λ _. refl);
  load_receipt = λ _ w. (refl, λ _. refl);
  verify_checkout_as = λ _ _ w. (refl, λ _. refl);
  receipt_digest = λ _ w. (refl, λ _. refl);
  new_operation_id = λ w. (refl, λ _. refl);
  client_watch = λ w. (refl, λ _. refl);
  accept_snapshots = λ _ _ w. (refl, λ _. refl);
  coordinate = λ _ _ w. (refl, λ _. refl);
  recover_outcome = λ _ w. (refl, λ _. refl);
  cleanup_runtime = λ _ w. (refl, λ _. refl);
}

abbrev pub measure : RunRequest
measure = record {
  operation_id = some "night-1";
  receipt_path = "/receipt";
  cpus = 0 ∷ [];
  timeout_seconds = 60;
  workload = "bench" ∷ [];
  sysfs_root = "/sys/devices/system/cpu";
  state_root = "/run/benchctl/operations";
  coordinator = true;
  client_pid = some 41;
}

abbrev pub idle_entry : ℕ → String → String → String → String → IdleEntry
idle_entry n dir name original desired = record {
  cpu = 0;
  state = n;
  name = name;
  disable_path = state_path dir "disable";
  original = original;
  desired = desired;
}

abbrev pub at_first : Journal
at_first = record {
  version = "benchctl-journal-v1";
  operation_id = "night-1";
  request =
      recorded_request (codec_of []) (prompt Outcome.success) measure root_user receipt "digest"
        "night-1";
  request_hash = "request";
  coordinator = root_user;
  boot_id = "boot";
  entries =
      idle_entry 0 "state0" "POLL" "0" "0"
      ∷ idle_entry 1 "state1" "C1" "0" "0"
      ∷ idle_entry 2 "state2" "C6" "0" "1"
      ∷ [];
  outcome = none;
  transitions = record { stage = prepared; coordinator = root_user; unix_millis = 7 } ∷ [];
}

abbrev pub next : Stage → Journal → Journal
next st j = advanced st root_user 7 j

abbrev pub at_start : Journal
at_start = next workload_started (next applied at_first)

abbrev pub at_drain : Journal
at_drain =
    next draining
      (next workload_finished (record at_start { outcome = some TerminalOutcome.success }))

-- The journals of a run, and those of a recovery after the workload has started.
abbrev pub json : Codec
json = codec_of (
    at_first
    ∷ next applied at_first
    ∷ at_start
    ∷ at_drain
    ∷ next restoring at_drain
    ∷ next restored (next restoring at_drain)
    ∷ next restoring at_start
    ∷ next restored (next restoring at_start)
    ∷ next restoring at_first
    ∷ next restored (next restoring at_first)
    ∷ [])

-- What the file of a bit holds in the end, and how the run ended.
abbrev pub ending : {A : Type 0} → String → Exit A × World → Exit A × Node
ending name (e, w) = (e, w.sysfs (state_path name "disable"))

run_succeeds :
    ending "state2" (coordinate_run json (prompt Outcome.success) measure (machine "0\n" []))
    ≡ (value tt, file "0\n")
unfolding coordinate_run journal_path begin_run require_no_unfinished_journal select_journals
    list_journals require_restored attempt read_boot_id digest inventory inventory_cpu
    inventory_names scan_states scan_state reject_symlink read_trimmed read_bit trim parse_usize
    store validate atomic_write lookup replace control_run apply validate_inventory apply_entries
    write_bit write_file run_workload finish_run restore check_entries put_back verify_entries
    complete_restore written Journal-discrete String-discrete items_discrete choice_discrete
    ℕ_discrete
run_succeeds = refl

abbrev pub after : ℕ → Verdict → List Verdict
after zero v = v ∷ []
after (suc n) v = passes 0 ∷ after n v

-- The process dies at the first write after the states were switched off.
run_dies :
    ending "state2"
      (coordinate_run json (prompt Outcome.success) measure (machine "0\n" (after 80 crashes)))
    ≡ (halted, file "1\n")
unfolding coordinate_run journal_path begin_run require_no_unfinished_journal select_journals
    list_journals require_restored attempt read_boot_id digest inventory inventory_cpu
    inventory_names scan_states scan_state reject_symlink read_trimmed read_bit trim parse_usize
    store validate atomic_write lookup replace control_run apply validate_inventory apply_entries
    write_bit write_file run_workload finish_run restore check_entries put_back verify_entries
    complete_restore written Journal-discrete String-discrete items_discrete choice_discrete
    ℕ_discrete
run_dies = refl
