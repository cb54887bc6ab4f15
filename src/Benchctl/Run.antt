-- ===== src/Benchctl/Run.antt =====
-- tools/benchctl/src/cpuidle.rs: a run from its request to its outcome.
use Prim.Native.Char.{code}
use Prim.Native.String.{String, compare, ◌++◌ as ◌++ₜ◌}
use text.Mathlib.Text.{◌==◌ as ◌=ₜ◌, is_le}
use snoozer.Prelude.{
  ℕ, Bool, true, false, not, ◌&&◌, ◌||◌, List, [], ◌∷◌, Option, none, some, if◌then◌else◌, ◌==◌,
  length, sort, is_none,
}
use snoozer.Errors.{Result, ok, err}
use snoozer.Benchctl.Paths.{FileName, Directory}
use snoozer.Benchctl.Errors.{
  BenchError, usage, preflight, state_error, workload, request_conflict, recovery_required,
}
use snoozer.Benchctl.Host.{
  Actor, World, Host, Action, pure, throw, ◌>>=◌, ◌>>◌, attempt, throw_if, lift_result, value,
  outcome,
}
use snoozer.Benchctl.Journal.{
  Codec, Request, Journal, TerminalOutcome, prepared, applied, workload_started, workload_finished,
  draining, recoverable, is_restored, new_journal, transition, actor, digest, journal_path,
  exists_file, load, store, read_boot_id,
}
use snoozer.Benchctl.Inventory.{dedup, inventory}
use snoozer.Benchctl.Select.{require_no_unfinished_journal}
use snoozer.Benchctl.Cpuidle.{apply, restore}
use snoozer.Benchctl.Receipt.{BuildReceipt}
use snoozer.Benchctl.Supervision.{Services, Outcome}
pub mod Guarded
pub mod Recoverable
pub mod Replay

pub record RunRequest : Type 0 where
  pub operation_id : Option String
  pub receipt_path : String
  pub cpus : List ℕ
  pub timeout_seconds : ℕ
  pub workload : List String
  pub sysfs_root : String
  pub state_root : String
  pub coordinator : Bool
  pub client_pid : Option ℕ

abbrev pub terminal_outcome : Outcome → TerminalOutcome
terminal_outcome Outcome.success = TerminalOutcome.success
terminal_outcome (Outcome.failure status) = TerminalOutcome.failure status
terminal_outcome Outcome.timed_out = TerminalOutcome.timed_out
terminal_outcome Outcome.cancelled = TerminalOutcome.cancelled

-- What a run returns for the outcome of its workload.
abbrev pub reported : Outcome → Result (Unit {0}) BenchError
reported Outcome.success = ok tt
reported (Outcome.failure status) = err (workload status)
reported Outcome.timed_out = err (workload "timeout elapsed")
reported Outcome.cancelled = err (workload "cancelled by signal")

abbrev pub replay_outcome : Journal → Result (Unit {0}) BenchError
replay_outcome journal = elim journal.outcome [
  | some o ↦ elim o [
    | TerminalOutcome.success ↦ ok tt
    | TerminalOutcome.failure status ↦ err (workload status)
    | TerminalOutcome.timed_out ↦ err (workload "timeout elapsed")
    | TerminalOutcome.cancelled ↦ err (workload "cancelled by signal")
  ]
  | none ↦ err (state_error "operation was restored without a recorded workload outcome")
]

module _ (c : Codec) where
  module _ (s : Services) (path : FileName) where
    abbrev pub record_outcome : Journal → Option Outcome → Host Journal
    record_outcome journal none = pure journal
    record_outcome journal (some outcome) = do
      store c path (record journal { outcome = some (terminal_outcome outcome) })
      pure (record journal { outcome = some (terminal_outcome outcome) })

    unfoldable pub reconcile_runtime_outcome : Journal → Host Journal
    reconcile_runtime_outcome journal =
        if is_none journal.outcome
        then s.recover_outcome journal.operation_id >>= record_outcome journal
        else pure journal

    -- The workload was not coordinated to its end: the idle states stay as they are.
    unfoldable pub abandon : Journal → BenchError → Action
    abandon journal error = do
      reconciled ← reconcile_runtime_outcome journal
      process ← actor
      left ← transition recoverable process reconciled
      store c path left
      throw error

    unfoldable pub finish_run : Journal → Outcome → Action
    finish_run journal workload_status = do
      finished ←
          transition workload_finished journal.coordinator
            (record journal { outcome = some (terminal_outcome workload_status) })
      process ← actor
      drained ← transition draining process finished
      store c path drained
      back ← restore c path drained
      s.cleanup_runtime journal.operation_id
      lift_result (reported workload_status)

    unfoldable pub run_workload : Journal → Action
    run_workload journal = do
      ready ← transition applied journal.coordinator journal
      store c path ready
      started ← transition workload_started journal.coordinator ready
      store c path started
      outcome (s.coordinate started.operation_id started.request) (finish_run started)
          (abandon started)

    -- What was applied is undone when not everything could be applied.
    unfoldable pub undo_apply : Journal → BenchError → Action
    undo_apply journal error =
        outcome (restore c path journal) (λ _. throw error)
          (λ _. throw (state_error "apply failed; cleanup also failed"))

    unfoldable pub control_run : Journal → Action
    control_run journal =
        outcome (apply journal.entries) (λ _. run_workload journal) (undo_apply journal)

    -- The journal is stored before anything is written below the sysfs root.
    unfoldable pub begin_run : String → Request → BuildReceipt → Action
    begin_run operation_id request receipt = do
      require_no_unfinished_journal c
      s.client_watch
      s.accept_snapshots request receipt
      coordinator ← actor
      boot ← read_boot_id
      journal ← new_journal c operation_id request coordinator boot
      entries ← inventory request.cpus
      store c path (record journal { entries = entries })
      control_run (record journal { entries = entries })

    abbrev pub replay_or_refuse : String → Journal → Action
    replay_or_refuse operation_id journal =
        if is_restored journal
        then lift_result (replay_outcome journal)
        else throw (recovery_required operation_id)

    -- An operation whose journal is there is not run again.
    unfoldable pub replay : String → Request → Action
    replay operation_id request = do
      recorded ← load c path
      hash ← lift_result (digest c request)
      throw_if (not (recorded.request_hash =ₜ hash)) (request_conflict operation_id)
      replay_or_refuse operation_id recorded

    abbrev pub run_or_replay : Bool → String → Request → BuildReceipt → Action
    run_or_replay true operation_id request receipt = replay operation_id request
    run_or_replay false operation_id request receipt = begin_run operation_id request receipt

  -- whether a path needs no separator after it
  abbrev ends_separated : Bool → String → Bool
  ends_separated b String.[] = b
  ends_separated b (String.◌∷◌ ch rest) = ends_separated (code ch == b'/') rest

  -- `Path::join` with a name
  abbrev pub join_name : String → String → String
  join_name path name = if ends_separated true path then path ++ₜ name else path ++ₜ ("/" ++ₜ name)

  module _ (s : Services) where
    abbrev pub named : Option String → Host String
    named (some operation_id) = pure operation_id
    named none = s.new_operation_id

    abbrev pub recorded_request : RunRequest → Actor → BuildReceipt → String → String → Request
    recorded_request request workload_actor receipt receipt_hash operation_id = record {
      receipt = request.receipt_path;
      accepted_receipt = join_name request.state_root (operation_id ++ₜ ".receipt");
      receipt_digest = receipt_hash;
      accepted_executable = join_name request.state_root (operation_id ++ₜ ".executable");
      executable_digest = receipt.executable_sha256;
      cpus = sort request.cpus;
      timeout_seconds = request.timeout_seconds;
      workload = request.workload;
      workload_actor = workload_actor;
    }

    unfoldable pub coordinate_run : RunRequest → Action
    coordinate_run request = do
      throw_if (length request.cpus == 0) (usage "at least one CPU is required")
      throw_if (not (length (sort request.cpus) == length (dedup (sort request.cpus))))
          (usage "CPU IDs must be distinct")
      s.secure_state
      s.lock_for false
      s.require_inactive
      workload_actor ← s.invoking_actor
      receipt ← s.load_receipt request.receipt_path
      s.verify_checkout_as receipt workload_actor
      receipt_hash ← s.receipt_digest request.receipt_path
      operation_id ← named request.operation_id
      path ← lift_result (journal_path operation_id)
      found ← exists_file path
      run_or_replay s path found operation_id
          (recorded_request request workload_actor receipt receipt_hash operation_id) receipt
