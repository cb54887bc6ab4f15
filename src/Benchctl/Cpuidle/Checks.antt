-- ===== src/Benchctl/Cpuidle/Checks.antt =====
-- The checks of `restore`, and how a conflict gets into the journal.
use Prim.Native.String.{String}
use snoozer.Prelude.{ℕ, ◌≡◌, refl, Bool, true, false, List, [], ◌∷◌}
use snoozer.Benchctl.Paths.{SysfsPath, FileName, Directory}
use snoozer.Benchctl.Host.{Actor, Tree, World}
use snoozer.Benchctl.Host.Ending.{Ends, Ends-bind, Disk, On, Kept}
use snoozer.Benchctl.Host.Steady.{Still, Steady-Kept}
use snoozer.Benchctl.Journal.{
  Codec, Journal, IdleEntry, Stage, stage, conflicted, is_restored, advanced, store,
}
use snoozer.Benchctl.Journal.Stored.{IsFaithful, Stored, store_lem, stage-advanced}
use snoozer.Benchctl.Inventory.{read_bit}
use snoozer.Benchctl.Inventory.Described.{HoldsBit, read_bit-Steady}
use snoozer.Benchctl.Cpuidle.{is_foreign, report_conflict, reject_if, check_entries}

-- Reading a bit changes nothing, whatever holds of the disks.
pub read_bit-Kept :
    (I : Disk) (p : SysfsPath) (w : World)
    → On I w
    → Ends
        (λ v u. On I u × Still w.sysfs w.operations u × HoldsBit w.sysfs p v)
        (On I)
        (read_bit p w)
read_bit-Kept I p w h =
    Steady-Kept I w (HoldsBit w.sysfs p) (read_bit p w) h
      (read_bit-Steady w.sysfs w.operations p w (refl, refl))

-- A predicate on the disks that does not mind which unfinished journal of these entries is stored.
module _ (c : Codec) (faithful : IsFaithful c) (path : FileName) (es : List IdleEntry) (I : Disk)
    (closed : (j : Journal) (t : Tree) (d e : Directory)
      → j.entries ≡ es
      → is_restored j ≡ false
      → I t d
      → Stored c path e j
      → I t e) where
  pub advance-Kept :
      (s : Stage) (a : Actor) (now : ℕ) (j : Journal) (w : World)
      → j.entries ≡ es
      → ((k : Journal) → stage k ≡ s → is_restored k ≡ false)
      → On I w
      → Kept I (store c path (advanced s a now j) w)
  advance-Kept s a now j w e f h =
      store_lem c faithful path I I (advanced s a now j) w h
        (λ u d hu q.
          closed (advanced s a now j) u.sysfs u.operations d e
            (f (advanced s a now j) (stage-advanced s a now j)) hu q)
        (λ _ q. q)

  -- Whether an entry is rejected or not, its conflict is in the journal and nothing else changes.
  pub reject_if-Kept :
      (b : Bool) (j : Journal) (e : IdleEntry) (expected actual : String) (w : World)
      → j.entries ≡ es
      → On I w
      → Ends (λ _ u. On I u × (b ≡ false)) (On I) (reject_if c path b j e expected actual w)
  unfolding report_conflict
  reject_if-Kept true j e expected actual w q h =
      Ends-bind (λ _. On I) _ (On I) _ (store c path (advanced conflicted w.process w.now j)) w
        (advance-Kept conflicted w.process w.now j w q (λ k r. rw r refl) h) (λ _ u hu. hu)
  reject_if-Kept false j e expected actual w q h = (h, refl)

  pub check_entries-Kept :
      (j : Journal) (fs : List IdleEntry) (w : World)
      → j.entries ≡ es
      → On I w
      → Kept I (check_entries c path j fs w)
  unfolding check_entries
  check_entries-Kept j [] w q h = h
  check_entries-Kept j (e ∷ fs) w q h =
      Ends-bind _ (λ _. On I) (On I) _ (read_bit e.disable_path) w
        (read_bit-Kept I e.disable_path w h)
        (λ current u p.
          Ends-bind _ (λ _. On I) (On I) _ (reject_if c path (is_foreign e current) j e _ current) u
            (reject_if-Kept (is_foreign e current) j e _ current u q p.0)
            (λ _ u p. check_entries-Kept j fs u q p.0))
