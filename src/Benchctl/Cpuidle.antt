-- ===== src/Benchctl/Cpuidle.antt =====
-- tools/benchctl/src/cpuidle.rs: switching the idle states of the recorded entries, and putting them
-- back as the journal says.
use Prim.Native.String.{String, ◌++◌ as ◌++ₜ◌}
use text.Mathlib.Text.{◌==◌ as ◌=ₜ◌}
use snoozer.Prelude.{
  ℕ, Bool, true, false, not, ◌&&◌, ◌||◌, List, [], ◌∷◌, Option, none, some, if◌then◌else◌,
}
use snoozer.Benchctl.Paths.{FileName}
use snoozer.Benchctl.Errors.{BenchError, state_error, restore_conflict}
use snoozer.Benchctl.Host.{Host, Action, pure, throw, ◌>>=◌, ◌>>◌, throw_if}
use snoozer.Benchctl.Journal.{
  Codec, Journal, IdleEntry, restoring, restored, conflicted, transition, actor, store,
}
use snoozer.Benchctl.Inventory.{read_bit, write_bit, validate_inventory}
pub mod Pending
pub mod Checks
pub mod Writes
pub mod Restore
pub mod Conflict
pub mod Succeeds
pub mod Moves
pub mod Restored

unfoldable pub apply_entries : List IdleEntry → Action
apply_entries [] = pure tt
apply_entries (entry ∷ entries) = do
  current ← read_bit entry.disable_path
  throw_if (not (current =ₜ entry.original)) (state_error "cpuidle value changed before apply")
  write_bit entry.disable_path entry.desired
  apply_entries entries

unfoldable pub apply : List IdleEntry → Action
apply entries = do validate_inventory entries; apply_entries entries

-- `current != entry.original && current != entry.desired`
abbrev pub is_foreign : IdleEntry → String → Bool
is_foreign entry current = not (current =ₜ entry.original) && not (current =ₜ entry.desired)

abbrev pub original_or_desired : IdleEntry → String
original_or_desired entry = entry.original ++ₜ (" or " ++ₜ entry.desired)

module _ (c : Codec) (path : FileName) where
  -- The conflict is recorded before it is reported.
  unfoldable pub report_conflict : Journal → IdleEntry → String → String → Action
  report_conflict journal entry expected actual = do
    process ← actor
    conflicting ← transition conflicted process journal
    store c path conflicting
    throw (restore_conflict entry.disable_path expected actual)

  abbrev pub reject_if : Bool → Journal → IdleEntry → String → String → Action
  reject_if true journal entry expected actual = report_conflict journal entry expected actual
  reject_if false journal entry expected actual = pure tt

  unfoldable pub check_entries : Journal → List IdleEntry → Action
  check_entries journal [] = pure tt
  check_entries journal (entry ∷ entries) = do
    current ← read_bit entry.disable_path
    reject_if (is_foreign entry current) journal entry (original_or_desired entry) current
    check_entries journal entries

  abbrev pub write_if : Bool → IdleEntry → Action
  write_if true entry = write_bit entry.disable_path entry.original
  write_if false entry = pure tt

  unfoldable pub put_back : Journal → List IdleEntry → Action
  put_back journal [] = pure tt
  put_back journal (entry ∷ entries) = do
    current ← read_bit entry.disable_path
    reject_if (is_foreign entry current) journal entry (original_or_desired entry) current
    write_if ((current =ₜ entry.desired) && not (current =ₜ entry.original)) entry
    put_back journal entries

  unfoldable pub verify_entries : Journal → List IdleEntry → Action
  verify_entries journal [] = pure tt
  verify_entries journal (entry ∷ entries) = do
    actual ← read_bit entry.disable_path
    reject_if (not (actual =ₜ entry.original)) journal entry entry.original actual
    verify_entries journal entries

  -- What `restore` does once the journal says that it has started.
  unfoldable pub complete_restore : Journal → Host Journal
  complete_restore started = do
    put_back started started.entries
    validate_inventory started.entries
    verify_entries started started.entries
    finisher ← actor
    finished ← transition restored finisher started
    store c path finished
    pure finished

  -- The journal as it is when the idle states are back.
  unfoldable pub restore : Journal → Host Journal
  restore journal = do
    validate_inventory journal.entries
    check_entries journal journal.entries
    process ← actor
    started ← transition restoring process journal
    store c path started
    complete_restore started
