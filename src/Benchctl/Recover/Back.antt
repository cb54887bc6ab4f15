-- ===== src/Benchctl/Recover/Back.antt =====
-- A run and the recovery of its operation together.
use Prim.Native.String.{String}
use snoozer.Prelude.{◌≡◌, sym, subst, ◌⊎◌, inl, inr, List, some, All, Among-All}
use snoozer.Benchctl.Paths.{SysfsPath, FileName, Directory}
use snoozer.Benchctl.Host.{Tree, World, Exit, value, failed, halted}
use snoozer.Benchctl.Host.Ending.{Ends, Ends-map, On}
use snoozer.Errors.{ok}
use snoozer.Benchctl.Journal.{Codec, IdleEntry, journal_name, journal_path}
use snoozer.Benchctl.Journal.Stored.{IsFaithful}
use snoozer.Benchctl.Inventory.Described.{HoldsBit, Describes}
use snoozer.Benchctl.Cpuidle.Pending.{Finished, Guarded, Recorded}
use snoozer.Benchctl.Supervision.{Services, IsTidy}
use snoozer.Benchctl.Run.{RunRequest, coordinate_run}
use snoozer.Benchctl.Run.Recoverable.{Recoverable, Settled, coordinate_run-Recoverable}
use snoozer.Benchctl.Recover.{recover}
use snoozer.Benchctl.Recover.Undone.{recover-Guarded}

-- Every file is the same in the two trees, or holds the same bit.
abbrev pub Alike : Tree → Tree → Type 0
Alike t u = (p : SysfsPath) → (u p ≡ t p) ⊎ ((v : String) × HoldsBit t p v × HoldsBit u p v)

pub Finished-Alike :
    (c : Codec) (path : FileName) (before : Tree) (es : List IdleEntry) (t : Tree) (d : Directory)
    → All (Describes before) es
    → Finished c path before es t d
    → Alike before t
Finished-Alike c path before es t d described (stored, cov, back) p = at (cov p)
  where
    at :
        (t p ≡ before p) ⊎ Recorded es t p
        → (t p ≡ before p) ⊎ ((v : String) × HoldsBit before p v × HoldsBit t p v)
    at (inl h) = inl h
    at (inr (e, m, q, r)) = inr (
      e.original,
      subst (λ x. HoldsBit before x e.original) q (Among-All (Describes before) e es m described).1,
      subst (λ x. HoldsBit t x e.original) q
          (Among-All (λ f. HoldsBit t f.disable_path f.original) e es m back),
    )

Settled-Recoverable :
    (c : Codec) (before : Tree) (t : Tree) (d : Directory)
    → Settled c before t d
    → Recoverable c before t d
Settled-Recoverable c before t d (inl h) = inl h
Settled-Recoverable c before t d (inr (id, es, accepted, des, f)) =
    inr (id, es, accepted, des, inr f)

ended :
    {A : Type 0} (c : Codec) (before : Tree) (o : Exit A × World)
    → Ends (λ _. On (Settled c before)) (On (Recoverable c before)) o
    → On (Recoverable c before) (o.1)
ended c before (value a, u) h = Settled-Recoverable c before u.sysfs u.operations h
ended c before (failed e, u) h = h
ended c before (halted, u) h = h

-- One operation tells how to get back to the tree `before`: its id is accepted, its journal is stored
-- and describes the files of that tree, every file that differs is recorded with a bit it had, and its
-- recovery, when it returns, has put all the bits back. When it fails or dies, a recovery can follow.
abbrev pub Undoes : Codec → Services → Tree → World → String → List IdleEntry → Type 0
Undoes c s before u id es =
    (journal_path id ≡ ok (journal_name id))
    × All (Describes before) es
    × On (Guarded c (journal_name id) before es) u
    × Ends (λ _ v. Alike before v.sysfs × On (Finished c (journal_name id) before es) v)
        (On (Guarded c (journal_name id) before es)) (recover c s (some id) u)

-- After a run that ended in whatever way, a later process finds the disks as the run left them.
-- Either the idle states are as they were before the run, or there is an operation with these
-- properties: its id is accepted, its journal is stored in the state directory and records every file
-- that differs, with the bit that it had before the run; a recovery of this operation that returns has
-- put all the idle states back to the bits that they had, and its journal is finished; and when the
-- recovery fails or dies as well, the same journal still records all this, so that another can follow.
-- The services leave the idle states and the journals alone, and serde_json reads back what it has
-- written.
pub recover_after_run :
    (c : Codec) (s : Services) (request : RunRequest) (w u : World)
    → IsFaithful c
    → IsTidy s
    → (u.sysfs ≡ ((coordinate_run c s request w).1).sysfs)
    → (u.operations ≡ ((coordinate_run c s request w).1).operations)
    → (u.sysfs ≡ w.sysfs) ⊎ ((id : String) × (es : List IdleEntry) × Undoes c s w.sysfs u id es)
recover_after_run c s request w u faithful tidy ht hd = found (
    subst (λ t. Recoverable c w.sysfs t u.operations) (sym ht)
      (subst (λ d. Recoverable c w.sysfs ((coordinate_run c s request w).1).sysfs d) (sym hd)
        (ended c w.sysfs (coordinate_run c s request w)
          (coordinate_run-Recoverable c s request w faithful tidy))))
  where
    found :
        On (Recoverable c w.sysfs) u
        → (u.sysfs ≡ w.sysfs) ⊎ ((id : String) × (es : List IdleEntry) × Undoes c s w.sysfs u id es)
    found (inl h) = inl h
    found (inr (id, es, accepted, des, g)) = inr (
      id,
      es,
      (
        accepted,
        des,
        g,
        Ends-map (λ _. On (Finished c (journal_name id) w.sysfs es))
            (λ _ v. Alike w.sysfs v.sysfs × On (Finished c (journal_name id) w.sysfs es) v)
            (On (Guarded c (journal_name id) w.sysfs es))
            (On (Guarded c (journal_name id) w.sysfs es)) (recover c s (some id) u)
            (recover-Guarded c faithful s tidy id w.sysfs es des u g)
            (λ _ v f. (Finished-Alike c (journal_name id) w.sysfs es v.sysfs v.operations des f, f))
            (λ v k. k),
      ),
    )
