-- ===== src/Benchctl/Cpuidle/Restore.antt =====
-- `restore` of tools/benchctl/src/cpuidle.rs, whatever fails and wherever the process dies.
use Prim.Native.String.{String}
use text.Mathlib.Text.{◌==◌ as ◌=ₜ◌}
use text.Mathlib.TextEquality.{eq_iff}
use snoozer.Prelude.{
  ◌≡◌, refl, sym, subst, inl, inr, Bool, true, false, not, ◌&&◌, List, [], ◌∷◌, All, All-Among,
  Among, arith,
}
use snoozer.Benchctl.Paths.{FileName, Directory}
use snoozer.Benchctl.Host.{Tree, World, Host, ◌>>=◌}
use snoozer.Benchctl.Host.Ending.{Ends, Ends-bind, Ends-map, Disk, On, Kept}
use snoozer.Benchctl.Host.Steady.{Steady-Kept}
use snoozer.Benchctl.Journal.{
  Codec, Journal, IdleEntry, restoring, restored, is_restored, advanced, store,
}
use snoozer.Benchctl.Journal.Stored.{IsFaithful, Stored, store_lem, stage-advanced}
use snoozer.Benchctl.Inventory.{read_bit, validate_inventory}
use snoozer.Benchctl.Inventory.Described.{HoldsBit, Describes}
use snoozer.Benchctl.Inventory.Scan.{Current, validate_inventory-Steady}
use snoozer.Benchctl.Cpuidle.{
  is_foreign, reject_if, check_entries, write_if, put_back, verify_entries, complete_restore,
  restore,
}
use snoozer.Benchctl.Cpuidle.Pending.{Pending, Finished, Guarded, Covered, Back, Pending-store}
use snoozer.Benchctl.Cpuidle.Writes.{write_original}
use snoozer.Benchctl.Cpuidle.Checks.{
  read_bit-Kept, advance-Kept, reject_if-Kept, check_entries-Kept,
}

-- Validating the inventory changes nothing, whatever holds of the disks.
pub validate_inventory-Kept :
    (I : Disk) (fs : List IdleEntry) (w : World) → On I w → Kept I (validate_inventory fs w)
validate_inventory-Kept I fs w h =
    Ends-map _ (λ _. On I) (On I) (On I) _
      (Steady-Kept I w (λ _. Current w.sysfs fs) (validate_inventory fs w) h
        (validate_inventory-Steady w.sysfs w.operations fs w (refl, refl)))
      (λ _ _ x. x.0) (λ _ x. x)

module _ (c : Codec) (faithful : IsFaithful c) (path : FileName) (before : Tree)
    (es : List IdleEntry) (described : All (Describes before) es) where
  abbrev P : Disk
  P = Pending c path before es

  abbrev closed :
      (j : Journal) (t : Tree) (d e : Directory)
      → j.entries ≡ es
      → is_restored j ≡ false
      → P t d
      → Stored c path e j
      → P t e
  closed = Pending-store c path before es

  write_if-Kept :
      (b : Bool) (e : IdleEntry) (w : World) → Among e es → On P w → Kept P (write_if c path b e w)
  write_if-Kept true e w m h = write_original c faithful path before es described e w m h
  write_if-Kept false e w m h = h

  put_back-Kept :
      (j : Journal) (fs : List IdleEntry) (w : World)
      → j.entries ≡ es
      → All (λ e. Among e es) fs
      → On P w
      → Kept P (put_back c path j fs w)
  unfolding put_back
  put_back-Kept j [] w q m h = h
  put_back-Kept j (e ∷ fs) w q m h =
      Ends-bind _ (λ _. On P) (On P) _ (read_bit e.disable_path) w
        (read_bit-Kept P e.disable_path w h)
        (λ current u p.
          Ends-bind _ (λ _. On P) (On P) _ (reject_if c path (is_foreign e current) j e _ current) u
            (reject_if-Kept c faithful path es P closed (is_foreign e current) j e _ current u q
              p.0)
            (λ _ u p.
              Ends-bind (λ _. On P) (λ _. On P) (On P) _
                (write_if c path ((current =ₜ e.desired) && not (current =ₜ e.original)) e) u
                (write_if-Kept ((current =ₜ e.desired) && not (current =ₜ e.original)) e u m.0 p.0)
                (λ _ u hu. put_back-Kept j fs u q m.1 hu)))

  -- The tree stays `t` while the bits are verified.
  module _ (t : Tree) where
    abbrev Fixed : Disk
    Fixed s d = (s ≡ t) × P s d

    verify_entries-Kept :
        (j : Journal) (fs : List IdleEntry) (w : World)
        → j.entries ≡ es
        → On Fixed w
        → Ends (λ _ u. On Fixed u × Back fs t) (On Fixed) (verify_entries c path j fs w)
    unfolding verify_entries
    verify_entries-Kept j [] w q h = (h, tt)
    verify_entries-Kept j (e ∷ fs) w q h =
        Ends-bind _ (λ _ u. On Fixed u × Back (e ∷ fs) t) (On Fixed) _ (read_bit e.disable_path) w
          (read_bit-Kept Fixed e.disable_path w h)
          (λ actual u p.
            Ends-bind _ (λ _ u. On Fixed u × Back (e ∷ fs) t) (On Fixed) _
              (reject_if c path (not (actual =ₜ e.original)) j e e.original actual) u
              (reject_if-Kept c faithful path es Fixed
                (λ j s d f q r g k. (g.0, closed j s d f q r g.1 k)) (not (actual =ₜ e.original)) j
                e e.original actual u q p.0)
              (λ _ u x.
                Ends-map (λ _ v. On Fixed v × Back fs t) (λ _ v. On Fixed v × Back (e ∷ fs) t)
                  (On Fixed) (On Fixed) (verify_entries c path j fs u)
                  (verify_entries-Kept j fs u q x.0)
                  (λ _ v y. (
                    y.0,
                    (
                      read e actual x.1 (subst (λ s. HoldsBit s e.disable_path actual) h.0 p.2),
                      y.1,
                    ),
                  ))
                  (λ _ y. y)))
      where
        read :
            (e : IdleEntry) (v : String)
            → not (v =ₜ e.original) ≡ false
            → HoldsBit t e.disable_path v
            → HoldsBit t e.disable_path e.original
        read e v b r =
            subst (HoldsBit t e.disable_path) ((eq_iff v e.original).0 (ground (arith, b))) r

  abbrev Safe : Disk
  Safe s d = Guarded c path before es s d × Back es s

  Safe-Covered : (s : Tree) (d : Directory) → Safe s d → Covered before es s
  Safe-Covered s d (inl p, b) = p.1
  Safe-Covered s d (inr p, b) = p.1

  -- Once the bits are back, the journal that says so is stored.
  finish :
      (j : Journal) (w : World)
      → j.entries ≡ es
      → On Safe w
      → Ends
          (λ _. On (Finished c path before es))
          (On (Guarded c path before es))
          (store c path (advanced restored w.process w.now j) w)
  finish j w q h =
      Ends-map (λ _. On (Finished c path before es)) (λ _. On (Finished c path before es)) (On Safe)
        (On (Guarded c path before es)) (store c path done w)
        (store_lem c faithful path Safe (Finished c path before es) done w h
          (λ u d x k. (
            (done, k, q, stage-advanced restored w.process w.now j),
            Safe-Covered u.sysfs u.operations x,
            x.1,
          ))
          (λ u x. (inr x, x.2)))
        (λ _ _ x. x) (λ u x. x.0)
    where
      done : Journal
      done = advanced restored w.process w.now j

  pending :
      {A B : Type 0} (Q : B → World → Type 0) (m : Host A) (f : A → Host B) (u : World)
      → Kept P (m u)
      → ((a : A) (v : World) → On P v → Ends Q (On (Guarded c path before es)) (f a v))
      → Ends Q (On (Guarded c path before es)) ((m >>= f) u)
  pending Q m f u h k =
      Ends-bind (λ _. On P) Q (On (Guarded c path before es)) f m u
        (Ends-map (λ _. On P) (λ _. On P) (On P) (On (Guarded c path before es)) (m u) h
          (λ _ _ x. x) (λ _. inl))
        k

  complete_restore-Guarded :
      (j : Journal) (w : World)
      → j.entries ≡ es
      → On P w
      → Ends
          (λ _. On (Finished c path before es))
          (On (Guarded c path before es))
          (complete_restore c path j w)
  unfolding complete_restore
  complete_restore-Guarded j w q h =
      pending _ (put_back c path j j.entries) _ w
        (put_back-Kept j j.entries w q (subst (All (λ e. Among e es)) (sym q) (All-Among es)) h)
        (λ _ u hu.
          pending _ (validate_inventory j.entries) _ u (validate_inventory-Kept P j.entries u hu)
            (λ _ u hu.
              Ends-bind _ _ (On (Guarded c path before es)) _ (verify_entries c path j j.entries) u
                (verified u hu)
                (λ _ v y.
                  Ends-bind (λ _. On (Finished c path before es)) _ (On (Guarded c path before es))
                    _ (store c path (advanced restored v.process v.now j)) v (finish j v q y)
                    (λ _ _ z. z))))
    where
      verified :
          (u : World)
          → On P u
          → Ends
              (λ _. On Safe)
              (On (Guarded c path before es))
              (verify_entries c path j j.entries u)
      verified u hu =
          Ends-map (λ _ v. On (Fixed u.sysfs) v × Back j.entries u.sysfs) (λ _. On Safe)
            (On (Fixed u.sysfs)) (On (Guarded c path before es)) _
            (verify_entries-Kept u.sysfs j j.entries u q (refl, hu))
            (λ _ v y.
              (inl y.0.1, subst (Back es) (sym y.0.0) (subst (λ fs. Back fs u.sysfs) q y.1)))
            (λ v y. inl y.1)

  -- The journal names what may have changed until its last stage, and at its last stage every
  -- recorded bit is the original one.
  pub restore-Guarded :
      (j : Journal) (w : World)
      → j.entries ≡ es
      → On P w
      → Ends
          (λ _. On (Finished c path before es))
          (On (Guarded c path before es))
          (restore c path j w)
  unfolding restore
  restore-Guarded j w q h =
      pending _ (validate_inventory j.entries) _ w (validate_inventory-Kept P j.entries w h)
        (λ _ u hu.
          pending _ (check_entries c path j j.entries) _ u
            (check_entries-Kept c faithful path es P closed j j.entries u q hu)
            (λ _ u hu.
              pending _ (store c path (advanced restoring u.process u.now j)) _ u
                (advance-Kept c faithful path es P closed restoring u.process u.now j u q
                  (λ k r. rw r refl) hu)
                (λ _ v hv. complete_restore-Guarded (advanced restoring u.process u.now j) v q hv)))
