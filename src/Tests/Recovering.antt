-- ===== src/Tests/Recovering.antt =====
-- The theorems on the benchmark control tool at the machine with three idle states.
use Prim.Native.String.{String}
use native.Mathlib.Decide.{ℕ_discrete}
use snoozer.Prelude.{◌≡◌, ◌⊎◌, refl, subst, true, some, [], ◌∷◌, inl, inr, All}
use snoozer.Errors.{ok}
use snoozer.Benchctl.Paths.{lookup, replace}
use snoozer.Benchctl.Host.{file, World, crashes, value, attempt, lift_result}
use snoozer.Benchctl.Host.Ending.{Ends, On, Returns}
use snoozer.Benchctl.Host.Steady.{Still}
use snoozer.Benchctl.Runtime.{atomic_write}
use snoozer.Benchctl.Text.{trim, parse_usize}
use snoozer.Benchctl.Journal.{
  Journal, IdleEntry, stage, journal_name, restoring, restored, journal_path, digest, validate,
  store, load, read_boot_id,
}
use snoozer.Benchctl.Journal.Stored.{Stored}
use snoozer.Benchctl.Journal.Roundtrip.{load-store}
use snoozer.Benchctl.Inventory.{
  reject_symlink, read_trimmed, read_bit, write_file, write_bit, scan_state, scan_states,
  inventory_names, inventory_cpu, inventory, validate_inventory,
}
use snoozer.Benchctl.Inventory.Described.{HoldsBit, Describes}
use snoozer.Benchctl.Inventory.Scan.{Inventoried, inventory_exact}
use snoozer.Benchctl.Cpuidle.{
  apply_entries, apply, is_foreign, check_entries, put_back, verify_entries, complete_restore,
  restore,
}
use snoozer.Benchctl.Cpuidle.Pending.{Back, HoldsBit-unique}
use snoozer.Benchctl.Cpuidle.Conflict.{Conflicts, restore_conflict_unchanged}
use snoozer.Benchctl.Cpuidle.Succeeds.{Holding}
use snoozer.Benchctl.Cpuidle.Restored.{WritesRestore, restore_returns}
use snoozer.Benchctl.Select.{
  list_journals, select_journals, require_restored, require_no_unfinished_journal,
}
use snoozer.Benchctl.Supervision.{Outcome}
use snoozer.Benchctl.Run.{
  coordinate_run, begin_run, control_run, run_workload, finish_run, replay, reported,
  reconcile_runtime_outcome,
}
use snoozer.Benchctl.Run.Recoverable.{Settled, Recoverable, coordinate_run-Recoverable}
use snoozer.Benchctl.Run.Replay.{replay_reports}
use snoozer.Prelude.{List}
use snoozer.Benchctl.Recover.{recover, recover_journal, undo}
use snoozer.Benchctl.Recover.Back.{Undoes, recover_after_run}
use snoozer.Tests.Json.{
  String-discrete, items_discrete, choice_discrete, Journal-discrete, written, read_back,
  codec_of-IsFaithful,
}
use snoozer.Tests.Control.{
  laptop, machine, prompt, prompt-IsTidy, measure, idle_entry, next, at_start, at_drain, json,
  ending, after,
}

abbrev night : String
night = "night-1"

-- The process dies while it switches the idle states.
abbrev dying : World
dying = machine "0\n" (after 80 crashes)

coordinate_run-Recoverable_example :
    Ends
      (λ _. On (Settled json (laptop "0\n")))
      (On (Recoverable json (laptop "0\n")))
      (coordinate_run json (prompt Outcome.success) measure dying)
coordinate_run-Recoverable_example =
    coordinate_run-Recoverable json (prompt Outcome.success) measure dying (codec_of-IsFaithful _)
      (prompt-IsTidy Outcome.success)

-- A later process, for which every call passes.
abbrev later : World
later = record ((coordinate_run json (prompt Outcome.success) measure dying).1) { verdicts = [] }

-- Its recovery returns, and the idle state that was left off is on again.
recover_returns_after_death :
    ending "state2" (recover json (prompt Outcome.success) (some night) later)
    ≡ (value tt, file "0\n")
unfolding coordinate_run journal_path begin_run require_no_unfinished_journal select_journals
    list_journals require_restored attempt read_boot_id digest inventory inventory_cpu
    inventory_names scan_states scan_state reject_symlink read_trimmed read_bit trim parse_usize
    store validate atomic_write lookup replace control_run apply validate_inventory apply_entries
    write_bit write_file run_workload finish_run restore check_entries put_back verify_entries
    complete_restore written Journal-discrete String-discrete items_discrete choice_discrete
    ℕ_discrete recover recover_journal undo load read_back reconcile_runtime_outcome
recover_returns_after_death = refl

recover_after_run_example :
    (later.sysfs ≡ laptop "0\n")
    ⊎ ((id : String) × (es : List IdleEntry) × Undoes json
          (prompt Outcome.success)
          (laptop "0\n")
          later
          id
          es)
recover_after_run_example =
    recover_after_run json (prompt Outcome.success) measure dying later (codec_of-IsFaithful _)
      (prompt-IsTidy Outcome.success) refl refl

described : All (Describes (laptop "0\n")) at_start.entries
unfolding trim
described = (
  ((_, refl, ("POLL\n", refl, refl)), (("0\n", refl, refl), refl), refl),
  (
    ((_, refl, ("C1\n", refl, refl)), (("0\n", refl, refl), refl), refl),
    (((_, refl, ("C6\n", refl, refl)), (("0\n", refl, refl), refl), refl), tt),
  ),
)

held : All (Holding (laptop "1\n")) at_start.entries
unfolding trim
held = (
  inl (("0\n", refl, refl), refl),
  (inl (("0\n", refl, refl), refl), (inr (("1\n", refl, refl), refl), tt)),
)

valid_start : validate json at_start ≡ ok tt
unfolding validate digest
valid_start = refl

current : validate_inventory at_start.entries (machine "1\n" []) ≡ (value tt, machine "1\n" [])
unfolding coordinate_run journal_path begin_run require_no_unfinished_journal select_journals
    list_journals require_restored attempt read_boot_id digest inventory inventory_cpu
    inventory_names scan_states scan_state reject_symlink read_trimmed read_bit trim parse_usize
    store validate atomic_write lookup replace control_run apply validate_inventory apply_entries
    write_bit write_file run_workload finish_run restore check_entries put_back verify_entries
    complete_restore written Journal-discrete String-discrete items_discrete choice_discrete
    ℕ_discrete
current = refl

writes : WritesRestore json (machine "1\n" []) at_start
unfolding written Journal-discrete String-discrete items_discrete choice_discrete ℕ_discrete
writes = (("iiiiii", refl), ("iiiiiii", refl))

restore_returns_example :
    Returns
      (λ k u.
        (stage k ≡ restored)
        × Stored json (journal_name night) u.operations k
        × Back k.entries u.sysfs)
      (restore json (journal_name night) at_start (machine "1\n" []))
restore_returns_example =
    restore_returns json (journal_name night) (laptop "0\n") at_start (machine "1\n" [])
      (codec_of-IsFaithful _) refl valid_start described current held writes

-- The deepest state was off before the run, and somebody else has switched it on.
abbrev foreign : IdleEntry
foreign = idle_entry 2 "state2" "C6" "1" "1"

abbrev disputed : Journal
disputed = record at_start {
  entries =
      idle_entry 0 "state0" "POLL" "0" "0" ∷ idle_entry 1 "state1" "C1" "0" "0" ∷ foreign ∷ [];
}

deepest_off : HoldsBit (laptop "0\n") foreign.disable_path "0"
unfolding trim
deepest_off = (("0\n", refl, refl), refl)

conflicts : Conflicts (laptop "0\n") foreign
conflicts v h =
    subst (λ x. is_foreign foreign x ≡ true)
      (HoldsBit-unique (laptop "0\n") foreign.disable_path "0" v deepest_off h) refl

restore_conflict_unchanged_example :
    Ends
      (λ _ _. ⊥)
      (λ u. u.sysfs ≡ laptop "0\n")
      (restore json (journal_name night) disputed (machine "0\n" []))
restore_conflict_unchanged_example =
    restore_conflict_unchanged json (journal_name night) disputed foreign (machine "0\n" [])
      (codec_of-IsFaithful _) (inr (inr (inl refl))) conflicts

inventory_exact_example :
    Ends
      (λ es u. Still (laptop "0\n") [] u × Inventoried (laptop "0\n") (0 ∷ []) es)
      (Still (laptop "0\n") [])
      (inventory (0 ∷ []) (machine "0\n" []))
inventory_exact_example = inventory_exact (0 ∷ []) (machine "0\n" [])

written_start : json.to_vec_pretty at_start ≡ some "ii"
unfolding written Journal-discrete String-discrete items_discrete choice_discrete ℕ_discrete
written_start = refl

load-store_example :
    (load json
      (journal_name night)
      ((store json (journal_name night) at_start (machine "0\n" [])).1)).0
    ≡ value at_start
load-store_example =
    load-store json (journal_name night) at_start "ii" (machine "0\n" []) (codec_of-IsFaithful _)
      refl valid_start written_start

-- An operation that is over, with the outcome of its workload.
abbrev over : Journal
over = next restored (next restoring at_drain)

abbrev archived : World
archived = record (machine "0\n" []) { operations = (journal_name night, "iiiii") ∷ [] }

archived_over : Stored json (journal_name night) archived.operations over
unfolding lookup read_back
archived_over = ("iiiii", refl, refl)

valid_over : validate json over ≡ ok tt
unfolding validate digest
valid_over = refl

digested : digest json over.request ≡ ok over.request_hash
unfolding digest
digested = refl

replay_reports_example :
    replay json (prompt Outcome.success) (journal_name night) night over.request archived
    ≡ lift_result (reported Outcome.success) archived
replay_reports_example =
    replay_reports json (prompt Outcome.success) (journal_name night) night over.request over
      Outcome.success archived refl archived_over valid_over refl digested refl
