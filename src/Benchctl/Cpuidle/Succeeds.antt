-- ===== src/Benchctl/Cpuidle/Succeeds.antt =====
-- `restore` where no call fails and nobody else has changed an idle state: it returns.
use Prim.Native.String.{String, ◌++◌ as ◌++ₜ◌}
use text.Mathlib.Text.{◌==◌ as ◌=ₜ◌}
use text.Mathlib.TextEquality.{eq_iff}
use text.Mathlib.TextPositions.{eq_refl}
use snoozer.Prelude.{
  ◌≡◌, refl, ◌∙◌, ◌⊎◌, inl, inr, Bool, true, false, not, ◌&&◌, List, [], ◌∷◌, All, arith,
}
use snoozer.Benchctl.Paths.{SysfsPath, FileName}
use snoozer.Benchctl.Host.{file, Tree, World, value, put}
use snoozer.Benchctl.Host.Ending.{Faultless, attempt-then-Faultless}
use snoozer.Benchctl.Journal.{Codec, Journal, IdleEntry}
use snoozer.Benchctl.Inventory.{write_file, write_bit, is_bit}
use snoozer.Benchctl.Inventory.Described.{HoldsBit}
use snoozer.Benchctl.Inventory.Follow.{read_bit-HoldsBit}
use snoozer.Benchctl.Cpuidle.{is_foreign, check_entries, write_if, put_back, verify_entries}
use snoozer.Benchctl.Cpuidle.Pending.{Back, put-HoldsBit}

write_file-Faultless :
    (p : SysfsPath) (content old : String) (w : World)
    → Faultless w
    → w.sysfs p ≡ file old
    → write_file p content w ≡ (value tt, record w { sysfs = put p (file content) w.sysfs })
unfolding write_file
write_file-Faultless p content old w h e = attempt-then-Faultless _ _ w h ∙ rw e refl

-- A bit is written where there is one.
pub write_bit-Faultless :
    (p : SysfsPath) (v x : String) (w : World)
    → Faultless w
    → HoldsBit w.sysfs p x
    → is_bit v ≡ true
    → write_bit p v w ≡ (value tt, record w { sysfs = put p (file (v ++ₜ "\n")) w.sysfs })
unfolding write_bit
write_bit-Faultless p v x w h ((old, e, q), b) k =
    rw (write_file-Faultless p (v ++ₜ "\n") old w h e) (
      rw
        (read_bit-HoldsBit p v (record w { sysfs = put p (file (v ++ₜ "\n")) w.sysfs }) h
          (put-HoldsBit p v w.sysfs k))
        (rw (eq_refl v) refl))

-- The file of an entry holds one of its two bits.
abbrev pub Holding : Tree → IdleEntry → Type 0
Holding t e = HoldsBit t e.disable_path e.original ⊎ HoldsBit t e.disable_path e.desired

-- `current` is one of the two bits of an entry, read from its file.
abbrev pub Read : Tree → IdleEntry → String → Type 0
Read t e v = HoldsBit t e.disable_path v × ((v ≡ e.original) ⊎ (v ≡ e.desired))

pub bit_of : (t : Tree) (e : IdleEntry) → Holding t e → (v : String) × Read t e v
bit_of t e (inl h) = (e.original, (h, inl refl))
bit_of t e (inr h) = (e.desired, (h, inr refl))

own-foreign :
    (e : IdleEntry) (v : String) → (v ≡ e.original) ⊎ (v ≡ e.desired) → is_foreign e v ≡ false
own-foreign e v (inl q) = ground (arith, eq_iff v e.original, q)
own-foreign e v (inr q) = ground (arith, eq_iff v e.desired, q)

-- The tree after `put_back` has passed an entry.
abbrev pub moved : Bool → IdleEntry → Tree → Tree
moved true e t = put e.disable_path (file (e.original ++ₜ "\n")) t
moved false e t = t

abbrev pub to_move : IdleEntry → String → Bool
to_move e v = (v =ₜ e.desired) && not (v =ₜ e.original)

module _ (c : Codec) (path : FileName) (j : Journal) (e : IdleEntry) (fs : List IdleEntry)
    (w : World) (h : Faultless w) where
  check_entry :
      (v : String)
      → Read w.sysfs e v
      → check_entries c path j (e ∷ fs) w ≡ check_entries c path j fs w
  unfolding check_entries
  check_entry v r = rw (read_bit-HoldsBit e.disable_path v w h r.0) (rw (own-foreign e v r.1) refl)

  verify_entry :
      HoldsBit w.sysfs e.disable_path e.original
      → verify_entries c path j (e ∷ fs) w ≡ verify_entries c path j fs w
  unfolding verify_entries
  verify_entry b =
      rw (read_bit-HoldsBit e.disable_path e.original w h b) (rw (eq_refl e.original) refl)

  write_if-Faultless :
      (b : Bool) (v : String)
      → HoldsBit w.sysfs e.disable_path v
      → is_bit e.original ≡ true
      → write_if c path b e w ≡ (value tt, record w { sysfs = moved b e w.sysfs })
  write_if-Faultless true v k o = write_bit-Faultless e.disable_path e.original v w h k o
  write_if-Faultless false v k o = refl

  pub put_back_entry :
      (v : String)
      → Read w.sysfs e v
      → is_bit e.original ≡ true
      → put_back c path j (e ∷ fs) w
        ≡ put_back c path j fs (record w { sysfs = moved (to_move e v) e w.sysfs })
  unfolding put_back
  put_back_entry v r o =
      rw (read_bit-HoldsBit e.disable_path v w h r.0)
        (rw (own-foreign e v r.1) (rw (write_if-Faultless (to_move e v) v r.0 o) refl))

module _ (c : Codec) (path : FileName) (j : Journal) where
  pub check_entries-Faultless :
      (fs : List IdleEntry) (w : World)
      → Faultless w
      → All (Holding w.sysfs) fs
      → check_entries c path j fs w ≡ (value tt, w)
  unfolding check_entries
  check_entries-Faultless [] w h k = refl
  check_entries-Faultless (e ∷ fs) w h k =
      check_entry c path j e fs w h (bit_of w.sysfs e k.0).0 (bit_of w.sysfs e k.0).1
      ∙ check_entries-Faultless fs w h k.1

  pub verify_entries-Faultless :
      (fs : List IdleEntry) (w : World)
      → Faultless w
      → Back fs w.sysfs
      → verify_entries c path j fs w ≡ (value tt, w)
  unfolding verify_entries
  verify_entries-Faultless [] w h k = refl
  verify_entries-Faultless (e ∷ fs) w h k =
      verify_entry c path j e fs w h k.0 ∙ verify_entries-Faultless fs w h k.1
