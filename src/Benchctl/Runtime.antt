-- ===== src/Benchctl/Runtime.antt =====
-- tools/benchctl/src/runtime.rs: a file of the state directory is replaced in one step, by renaming
-- a complete temporary file over it.
use Prim.Native.String.{String}
use snoozer.Prelude.{◌≡◌, ◌∙◌}
use snoozer.Benchctl.Paths.{FileName, replace}
use snoozer.Benchctl.Host.{World, Action, ◌>>◌, attempt, set_operations, value}
use snoozer.Benchctl.Host.Ending.{
  Ends, Ends-map, attempt-then, attempt-then-Faultless, Disk, On, Faultless, attempt-Kept,
  attempt-Faultless,
}

unfoldable publish_file : FileName → String → Action
publish_file path bytes w = set_operations (replace path bytes w.operations) w

-- The temporary file has a name of its own, which no other operation reads.
unfoldable pub atomic_write : FileName → String → Action
unfolding publish_file
atomic_write path bytes = do
  attempt "creating state directory"
  attempt "creating partial state"
  attempt "writing partial state"
  attempt "syncing partial state"
  attempt "publishing state"
  publish_file path bytes
  attempt "syncing state directory"

-- The disks are as before, or the file has its new content and nothing else has changed. The
-- content is there when the write returns.
module _ (I J : Disk) (path : FileName) (bytes : String) where
  pub atomic_write_lem :
      (w : World)
      → On I w
      → ((u : World) → On I u → J u.sysfs (replace path bytes u.operations))
      → ((u : World) → On J u → On I u)
      → Ends (λ _. On J) (On I) (atomic_write path bytes w)
  unfolding atomic_write
  atomic_write_lem w h k weaken = after _ _ w h (λ u hu. after _ _ u hu (λ u hu.
      after _ _ u hu (λ u hu. after _ _ u hu (λ u hu.
        after _ _ u hu
          (λ u hu. settled (record u { operations = replace path bytes u.operations }) (k u hu))))))
    where
      after :
          (op : String) (m : Action) (u : World)
          → On I u
          → ((v : World) → On I v → Ends (λ _. On J) (On I) (m v))
          → Ends (λ _. On J) (On I) ((attempt op >> m) u)
      after op m u hu = attempt-then I (λ _. On J) (On I) op m u hu (λ _ p. p)

      settled : (u : World) → On J u → Ends (λ _. On J) (On I) (attempt "syncing state directory" u)
      settled u hu =
          Ends-map (λ _. On J) (λ _. On J) (On J) (On I) (attempt _ u) (attempt-Kept J _ u hu)
            (λ _ _ p. p) weaken

pub atomic_write-Faultless :
    (path : FileName) (bytes : String) (w : World)
    → Faultless w
    → atomic_write path bytes w
      ≡ (value tt, record w { operations = replace path bytes w.operations })
unfolding atomic_write
atomic_write-Faultless path bytes w h =
    attempt-then-Faultless _ _ w h
    ∙ attempt-then-Faultless _ _ w h
    ∙ attempt-then-Faultless _ _ w h
    ∙ attempt-then-Faultless _ _ w h
    ∙ attempt-then-Faultless _ _ w h
    ∙ attempt-Faultless _ (record w { operations = replace path bytes w.operations }) h
