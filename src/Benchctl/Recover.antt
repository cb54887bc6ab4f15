-- ===== src/Benchctl/Recover.antt =====
-- `recover` and `status` of tools/benchctl/src/cpuidle.rs.
use Prim.Native.String.{String}
use text.Mathlib.Text.{◌==◌ as ◌=ₜ◌}
use snoozer.Prelude.{Bool, true, false, not, List, [], ◌∷◌, Option, none, some, if◌then◌else◌}
use snoozer.Benchctl.Paths.{FileName}
use snoozer.Benchctl.Errors.{BenchError, state_error}
use snoozer.Benchctl.Host.{World, Host, Action, pure, throw, ◌>>=◌, ◌>>◌, throw_if}
use snoozer.Benchctl.Journal.{Codec, Journal, Stage, stage, is_restored, load, read_boot_id}
use snoozer.Benchctl.Cpuidle.{restore}
use snoozer.Benchctl.Select.{select_journals}
use snoozer.Benchctl.Supervision.{Services}
use snoozer.Benchctl.Run.{reconcile_runtime_outcome}
pub mod Undone
pub mod Back

abbrev pub only : List FileName → Host FileName
only [] = throw (state_error "there is no recoverable operation")
only (path ∷ []) = pure path
only _ = throw (state_error "more than one operation is recoverable; provide an operation ID")

module _ (c : Codec) where
  unfoldable pub stages_of : List FileName → Host (List (String × Stage))
  stages_of [] = pure []
  stages_of (path ∷ paths) = do
    journal ← load c path
    rest ← stages_of paths
    pure ((journal.operation_id, stage journal) ∷ rest)

  -- What `status` prints.
  unfoldable pub status : Option String → Host (List (String × Stage))
  status operation_id = select_journals c operation_id false >>= stages_of

  module _ (s : Services) where
    unfoldable pub undo : FileName → Journal → Action
    undo path journal = do
      boot ← read_boot_id
      throw_if (not (journal.boot_id =ₜ boot))
          (state_error "operation belongs to another Linux boot; automatic recovery is refused")
      reconciled ← reconcile_runtime_outcome c s path journal
      back ← restore c path reconciled
      s.cleanup_runtime journal.operation_id

    unfoldable pub recover_journal : FileName → Journal → Action
    recover_journal path journal =
        if is_restored journal then s.cleanup_runtime journal.operation_id else undo path journal

    unfoldable pub recover : Option String → Action
    recover operation_id = do
      s.secure_state
      s.lock_for true
      s.require_inactive
      paths ← select_journals c operation_id true
      path ← only paths
      journal ← load c path
      recover_journal path journal
