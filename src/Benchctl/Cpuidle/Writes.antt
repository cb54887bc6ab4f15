-- ===== src/Benchctl/Cpuidle/Writes.antt =====
-- The writes of `apply` and `restore` keep what is recorded, however they end.
use Prim.Native.String.{String, ◌++◌ as ◌++ₜ◌}
use text.Mathlib.Text.{◌==◌ as ◌=ₜ◌}
use snoozer.Prelude.{refl, inl, inr, not, List, [], ◌∷◌, All, Among, Among-All}
use snoozer.Benchctl.Paths.{SysfsPath, FileName, Directory}
use snoozer.Benchctl.Errors.{BenchError, state_error}
use snoozer.Benchctl.Host.{
  Node, missing, file, symlink, directory, Tree, World, ◌>>=◌, throw_if, put, node_at,
}
use snoozer.Benchctl.Host.Ending.{Ends-bind, Disk, On, Kept, attempt-then, throw_if-Kept}
use snoozer.Benchctl.Journal.{Codec, IdleEntry}
use snoozer.Benchctl.Journal.Stored.{IsFaithful}
use snoozer.Benchctl.Inventory.{read_bit, write_file, write_bit, overwrite}
use snoozer.Benchctl.Inventory.Described.{Describes}
use snoozer.Benchctl.Cpuidle.{apply_entries}
use snoozer.Benchctl.Cpuidle.Checks.{read_bit-Kept}
use snoozer.Benchctl.Cpuidle.Pending.{Pending, put-Covered, Describes-is_bit}

module _ (I : Disk) (p : SysfsPath) (v : String)
    (closed : (t : Tree) (d : Directory) → I t d → I (put p (file (v ++ₜ "\n")) t) d) where
  overwrite-Kept : (n : Node) (w : World) → On I w → Kept I (overwrite p (v ++ₜ "\n") n w)
  overwrite-Kept missing w h = h
  overwrite-Kept (file c) w h = closed w.sysfs w.operations h
  overwrite-Kept symlink w h = h
  overwrite-Kept (directory ns) w h = h

  -- A write with its readback keeps what the write itself keeps.
  pub write_bit-Kept : (w : World) → On I w → Kept I (write_bit p v w)
  unfolding write_bit write_file
  write_bit-Kept w h =
      Ends-bind (λ _. On I) (λ _. On I) (On I) _ (write_file p (v ++ₜ "\n")) w
        (attempt-then I (λ _. On I) (On I) "writing cpuidle value"
          (node_at p >>= overwrite p (v ++ₜ "\n")) w h (λ _ q. q)
          (λ u hu. overwrite-Kept (u.sysfs p) u hu))
        (λ _ u hu.
          Ends-bind _ (λ _. On I) (On I) _ (read_bit p) u (read_bit-Kept I p u hu)
            (λ actual x q.
              throw_if-Kept I (not (actual =ₜ v)) (state_error "cpuidle readback failed") x q.0))

module _ (c : Codec) (faithful : IsFaithful c) (path : FileName) (before : Tree)
    (es : List IdleEntry) (described : All (Describes before) es) where
  abbrev P : Disk
  P = Pending c path before es

  pub write_original :
      (e : IdleEntry) (w : World)
      → Among e es
      → On P w
      → Kept P (write_bit e.disable_path e.original w)
  write_original e w m h =
      write_bit-Kept P e.disable_path e.original
        (λ t d p. (
          p.0,
          put-Covered before es e e.original t m
              (Describes-is_bit before e (Among-All (Describes before) e es m described)).0
              (inl refl) p.1,
        ))
        w h

  write_desired :
      (e : IdleEntry) (w : World)
      → Among e es
      → On P w
      → Kept P (write_bit e.disable_path e.desired w)
  write_desired e w m h =
      write_bit-Kept P e.disable_path e.desired
        (λ t d p. (
          p.0,
          put-Covered before es e e.desired t m
              (Describes-is_bit before e (Among-All (Describes before) e es m described)).1
              (inr refl) p.1,
        ))
        w h

  pub apply_entries-Kept :
      (fs : List IdleEntry) (w : World)
      → All (λ e. Among e es) fs
      → On P w
      → Kept P (apply_entries fs w)
  unfolding apply_entries
  apply_entries-Kept [] w m h = h
  apply_entries-Kept (e ∷ fs) w m h =
      Ends-bind _ (λ _. On P) (On P) _ (read_bit e.disable_path) w
        (read_bit-Kept P e.disable_path w h)
        (λ current u p.
          Ends-bind (λ _. On P) (λ _. On P) (On P) _
            (throw_if (not (current =ₜ e.original)) changed) u
            (throw_if-Kept P (not (current =ₜ e.original)) changed u p.0)
            (λ _ u hu.
              Ends-bind (λ _. On P) (λ _. On P) (On P) _ (write_bit e.disable_path e.desired) u
                (write_desired e u m.0 hu) (λ _ u hu. apply_entries-Kept fs u m.1 hu)))
    where
      changed : BenchError
      changed = state_error "cpuidle value changed before apply"
