-- ===== src/Benchctl/Select.antt =====
-- tools/benchctl/src/cpuidle.rs: which journals there are, and whether one of them is unfinished.
use Prim.Native.String.{String, compare, ◌++◌ as ◌++ₜ◌}
use text.Mathlib.Text.{◌==◌ as ◌=ₜ◌, is_le}
use snoozer.Prelude.{
  ℕ, Bool, true, false, not, ◌&&◌, ◌||◌, List, [], ◌∷◌, Option, none, some, if◌then◌else◌, ◌==◌,
  length, sort, is_none,
}
use snoozer.Errors.{Result, ok, err}
use snoozer.Benchctl.Paths.{FileName, Directory}
use snoozer.Benchctl.Errors.{
  BenchError, usage, preflight, state_error, workload, request_conflict, recovery_required,
}
use snoozer.Benchctl.Host.{
  Actor, World, Host, Action, pure, throw, ◌>>=◌, ◌>>◌, attempt, throw_if, lift_result, value,
  outcome,
}
use snoozer.Benchctl.Journal.{
  Codec, Request, Journal, TerminalOutcome, prepared, applied, workload_started, workload_finished,
  draining, recoverable, is_restored, new_journal, transition, actor, digest, journal_path,
  exists_file, load, store, read_boot_id,
}
use snoozer.Benchctl.Inventory.{dedup, inventory}
use snoozer.Benchctl.Cpuidle.{apply, restore}
use snoozer.Benchctl.Receipt.{BuildReceipt}
use snoozer.Benchctl.Supervision.{Services, Outcome}
pub mod Listing

abbrev full_name : FileName → String
full_name f = f.stem ++ₜ ("." ++ₜ f.extension)

abbrev insert_name : FileName → List FileName → List FileName
insert_name f [] = f ∷ []
insert_name f (g ∷ gs) =
    if is_le (compare (full_name f) (full_name g)) then f ∷ g ∷ gs else g ∷ insert_name f gs

abbrev sort_names : List FileName → List FileName
sort_names [] = []
sort_names (f ∷ fs) = insert_name f (sort_names fs)

module _ (c : Codec) where
  unfoldable pub is_unfinished : FileName → Host Bool
  is_unfinished path = do journal ← load c path; pure (not (is_restored journal))

  -- `recoverable_only && load_journal(&path)?.stage() == Stage::Restored`, the other way round
  abbrev pub is_wanted : Bool → FileName → Host Bool
  is_wanted true path = is_unfinished path
  is_wanted false path = pure true

  unfoldable pub list_journals : Bool → Directory → Host (List FileName)
  list_journals recoverable_only [] = pure []
  list_journals recoverable_only ((path, bytes) ∷ d) = do
    attempt "listing operation entry"
    wanted ← if path.extension =ₜ "json" then is_wanted recoverable_only path else pure false
    rest ← list_journals recoverable_only d
    pure (if wanted then path ∷ rest else rest)

  abbrev pub existing : FileName → Bool → List FileName
  existing path true = path ∷ []
  existing path false = []

  -- `select_journals`; the state directory exists
  unfoldable pub select_journals : Option String → Bool → Host (List FileName)
  select_journals (some operation_id) recoverable_only = do
    path ← lift_result (journal_path operation_id)
    found ← exists_file path
    pure (existing path found)
  select_journals none recoverable_only = do
    attempt "listing operation state"
    paths ← λ w. list_journals recoverable_only w.operations w
    pure (sort_names paths)

  unfoldable pub require_restored : List FileName → Action
  require_restored [] = pure tt
  require_restored (path ∷ paths) = do
    journal ← load c path
    throw_if (not (is_restored journal)) (recovery_required journal.operation_id)
    require_restored paths

  unfoldable pub require_no_unfinished_journal : Action
  require_no_unfinished_journal = select_journals none false >>= require_restored
