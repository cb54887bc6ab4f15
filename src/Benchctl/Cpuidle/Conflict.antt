-- ===== src/Benchctl/Cpuidle/Conflict.antt =====
-- `restore` where somebody else has changed an idle state since the run.
use Prim.Native.String.{String}
use snoozer.Prelude.{◌≡◌, refl, sym, subst, inl, inr, true, false, List, [], ◌∷◌, Among}
use snoozer.Benchctl.Paths.{FileName}
use snoozer.Benchctl.Host.{Tree, World, Host, ◌>>◌}
use snoozer.Benchctl.Host.Ending.{Ends, Ends-bind, Disk, On}
use snoozer.Benchctl.Journal.{Codec, Journal, IdleEntry, conflicted, advanced, store}
use snoozer.Benchctl.Journal.Stored.{IsFaithful}
use snoozer.Benchctl.Inventory.{read_bit, validate_inventory}
use snoozer.Benchctl.Inventory.Described.{HoldsBit}
use snoozer.Benchctl.Cpuidle.{
  is_foreign, original_or_desired, report_conflict, reject_if, check_entries, restore,
}
use snoozer.Benchctl.Cpuidle.Checks.{read_bit-Kept, advance-Kept, reject_if-Kept}
use snoozer.Benchctl.Cpuidle.Restore.{validate_inventory-Kept}

-- Whatever bit the file of the entry holds, it is neither the original nor the desired one.
abbrev pub Conflicts : Tree → IdleEntry → Type 0
Conflicts t e = (v : String) → HoldsBit t e.disable_path v → is_foreign e v ≡ true

module _ (c : Codec) (faithful : IsFaithful c) (path : FileName) (t : Tree) where
  abbrev Fixed : Disk
  Fixed u d = u ≡ t

  -- It does not return, and the tree is as it was.
  abbrev Refused : {A : Type 0} → Host A → World → Type 0
  Refused m w = Ends (λ _ _. ⊥) (On Fixed) (m w)

  report_conflict-Refused :
      (j : Journal) (e : IdleEntry) (expected actual : String) (w : World)
      → On Fixed w
      → Refused (report_conflict c path j e expected actual) w
  unfolding report_conflict
  report_conflict-Refused j e expected actual w h =
      Ends-bind (λ _. On Fixed) (λ _ _. ⊥) (On Fixed) _
        (store c path (advanced conflicted w.process w.now j)) w
        (advance-Kept c faithful path j.entries Fixed (λ _ _ _ _ _ _ x _. x) conflicted w.process
          w.now j w refl (λ k r. rw r refl) h)
        (λ _ u hu. hu)

  check_entries-Refused :
      (j : Journal) (e : IdleEntry) (fs : List IdleEntry) (w : World)
      → Among e fs
      → Conflicts t e
      → On Fixed w
      → Refused (check_entries c path j fs) w
  unfolding check_entries
  check_entries-Refused j e [] w m k h = elim m [ ]
  check_entries-Refused j e (f ∷ fs) w m k h =
      Ends-bind _ (λ _ _. ⊥) (On Fixed) _ (read_bit f.disable_path) w
        (read_bit-Kept Fixed f.disable_path w h)
        (λ current u p.
          which current m (subst (λ s. HoldsBit s f.disable_path current) h p.2) u p.0
            (λ n v x. check_entries-Refused j e fs v n k x))
    where
      which :
          (current : String)
          → Among e (f ∷ fs)
          → HoldsBit t f.disable_path current
          → (u : World) → On Fixed u
          → (Among e fs → (v : World) → On Fixed v → Refused (check_entries c path j fs) v)
          → Refused
              (reject_if c path (is_foreign f current) j f (original_or_desired f) current
                >> check_entries c path j fs)
              u
      which current (inl eq) q u hu again =
          subst
            (λ b.
              Refused
                (reject_if c path b j f (original_or_desired f) current
                  >> check_entries c path j fs)
                u)
            (sym (subst (λ g. Conflicts t g) eq k current q))
            (Ends-bind (λ _ _. ⊥) (λ _ _. ⊥) (On Fixed) _
              (report_conflict c path j f (original_or_desired f) current) u
              (report_conflict-Refused j f (original_or_desired f) current u hu)
              (λ _ _ x. elim x [ ]))
      which current (inr n) q u hu again =
          Ends-bind (λ _ v. On Fixed v × (is_foreign f current ≡ false)) (λ _ _. ⊥) (On Fixed) _
            (reject_if c path (is_foreign f current) j f (original_or_desired f) current) u
            (reject_if-Kept c faithful path j.entries Fixed (λ _ _ _ _ _ _ x _. x)
              (is_foreign f current) j f (original_or_desired f) current u refl hu)
            (λ _ v x. again n v x.0)

-- A restore that meets an idle state with a bit that is neither the recorded one nor the one that the
-- run wrote does not return, and whatever fails in it, it writes to no idle state: those of the other
-- entries are not changed either. serde_json reads back what it has written.
pub restore_conflict_unchanged :
    (c : Codec) (path : FileName) (j : Journal) (e : IdleEntry) (w : World)
    → IsFaithful c
    → Among e j.entries
    → Conflicts w.sysfs e
    → Ends (λ _ _. ⊥) (λ u. u.sysfs ≡ w.sysfs) (restore c path j w)
unfolding restore
restore_conflict_unchanged c path j e w faithful m k =
    Ends-bind (λ _ u. u.sysfs ≡ w.sysfs) (λ _ _. ⊥) (λ u. u.sysfs ≡ w.sysfs) _
      (validate_inventory j.entries) w
      (validate_inventory-Kept (λ t d. t ≡ w.sysfs) j.entries w refl)
      (λ _ u hu.
        Ends-bind (λ _ _. ⊥) (λ _ _. ⊥) (λ u. u.sysfs ≡ w.sysfs) _
          (check_entries c path j j.entries) u
          (check_entries-Refused c faithful path w.sysfs j e j.entries u m k hu)
          (λ _ _ x. elim x [ ]))
