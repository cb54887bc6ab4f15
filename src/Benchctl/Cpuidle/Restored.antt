-- ===== src/Benchctl/Cpuidle/Restored.antt =====
-- `restore` where no call fails and nobody else has changed an idle state: it returns, with every
-- bit back.
use Prim.Native.String.{String}
use text.Mathlib.Text.{◌==◌ as ◌=ₜ◌}
use snoozer.Prelude.{
  ℕ, ◌≡◌, refl, sym, subst, ap, inl, Bool, true, false, not, List, [], ◌∷◌, ◌++◌, some,
  if◌then◌else◌, All, All-Among, arith,
}
use snoozer.Benchctl.Errors.{BenchError, state_error}
use snoozer.Errors.{Result, ok, err}
use snoozer.Benchctl.Paths.{FileName, lookup-replace}
use snoozer.Benchctl.Host.{Actor, Tree, World, value, pure}
use snoozer.Benchctl.Host.Ending.{Ends-bind, Returns, Faultless}
use snoozer.Benchctl.Journal.{
  Codec, Journal, Stage, Transition, stage, restoring, restored, advanced, validate, store, digest,
  check_hash, journal_version,
}
use snoozer.Benchctl.Journal.Stored.{IsFaithful, Stored, stage-advanced}
use snoozer.Benchctl.Journal.Roundtrip.{store-Faultless}
use snoozer.Benchctl.Inventory.{validate_inventory}
use snoozer.Benchctl.Inventory.Described.{Describes}
use snoozer.Benchctl.Inventory.Stable.{validate_inventory-Rebits}
use snoozer.Benchctl.Cpuidle.{put_back, complete_restore, restore}
use snoozer.Benchctl.Cpuidle.Pending.{Back}
use snoozer.Benchctl.Cpuidle.Succeeds.{Holding, check_entries-Faultless, verify_entries-Faultless}
use snoozer.Benchctl.Cpuidle.Moves.{Ready, PutBack, put_back-Returns}

-- serde_json can write this journal.
abbrev pub Writes : Codec → Journal → Type 0
Writes c j = (bytes : String) × (c.to_vec_pretty j ≡ some bytes)

-- It can write the two journals that a restore stores where nothing goes wrong.
abbrev pub WritesRestore : Codec → World → Journal → Type 0
WritesRestore c w j =
    Writes c (advanced restoring w.process w.now j)
    × Writes c (advanced restored w.process w.now (advanced restoring w.process w.now j))

validate-transitions :
    (c : Codec) (t : Transition) (j : Journal) (ts : List Transition)
    → validate c (record j { transitions = ts }) ≡ ok tt
    → validate c (record j { transitions = ts ++ t ∷ [] }) ≡ ok tt
unfolding validate
validate-transitions c t j (u ∷ ts) h = h
validate-transitions c t j [] h =
    unempty (not (j.version =ₜ journal_version)) (digest c j.request) h
  where
    unempty :
        (b : Bool) (r : Result String BenchError)
        → (if b
            then err (state_error "unsupported journal version")
            else check_hash j.request_hash (record j { transitions = [] }) r)
          ≡ ok tt
        → (if b
            then err (state_error "unsupported journal version")
            else check_hash j.request_hash (record j { transitions = t ∷ [] }) r)
          ≡ ok tt
    unempty true r h = ground (arith, h)
    unempty false (err e) h = ground (arith, h)
    unempty false (ok hash) h = ground (arith, h)

validate-advanced :
    (c : Codec) (s : Stage) (a : Actor) (now : ℕ) (j : Journal)
    → validate c j ≡ ok tt
    → validate c (advanced s a now j) ≡ ok tt
validate-advanced c s a now j h =
    validate-transitions c (record { stage = s; coordinator = a; unix_millis = now }) j
      j.transitions h

module _ (c : Codec) (path : FileName) (faithful : IsFaithful c) where
  store-Returns :
      (j : Journal) (w : World)
      → Faultless w
      → validate c j ≡ ok tt
      → Writes c j
      → Returns
          (λ _ u.
            Faultless u
            × (u ≡ record w { operations = u.operations })
            × Stored c path u.operations j)
          (store c path j w)
  store-Returns j w h v (bytes, e) =
      subst
        (Returns (λ _ u.
          Faultless u
          × (u ≡ record w { operations = u.operations })
          × Stored c path u.operations j))
        (sym (store-Faultless c path j w bytes h v e))
        (h, refl, (bytes, lookup-replace path bytes w.operations, faithful j bytes e))

  advance-Returns :
      (s : Stage) (a : Actor) (now : ℕ) (j : Journal) (w : World)
      → Faultless w
      → validate c j ≡ ok tt
      → Writes c (advanced s a now j)
      → Returns
          (λ _ u.
            Faultless u
            × (u ≡ record w { operations = u.operations })
            × Stored c path u.operations (advanced s a now j))
          (store c path (advanced s a now j) w)
  advance-Returns s a now j w h v =
      store-Returns (advanced s a now j) w h (validate-advanced c s a now j v)

  abbrev Over : Journal → World → Type 0
  Over k u = (stage k ≡ restored) × Stored c path u.operations k × Back k.entries u.sysfs

  module _ (before : Tree) (x : World) (hx : Faultless x) where
    -- The recorded states were valid on `x`, before the first bit was put back.
    complete_restore-Returns :
        (j : Journal) (w : World)
        → All (Describes before) j.entries
        → validate c j ≡ ok tt
        → validate_inventory j.entries x ≡ (value tt, x)
        → All (Holding x.sysfs) j.entries
        → Faultless w
        → w.sysfs ≡ x.sysfs
        → Writes c (advanced restored w.process w.now j)
        → Returns Over (complete_restore c path j w)
    unfolding complete_restore
    complete_restore-Returns j w des v valid holding h q writes =
        Ends-bind (PutBack c path j x.sysfs before j.entries des j.entries w) Over (λ _. ⊥) _
          (put_back c path j j.entries) w
          (put_back-Returns c path j x.sysfs before j.entries des j.entries w h
            (subst (λ t. Ready x.sysfs before j.entries des t) (sym q) ((λ p. inl refl), holding))
            (All-Among j.entries))
          (λ _ u p. rw (validate_inventory-Rebits x u hx p.0 p.1.0 j.entries valid) (
            rw (verify_entries-Faultless c path j j.entries u p.0 p.4) (
              Ends-bind
                (λ _ y.
                  Faultless y
                  × (y ≡ record u { operations = y.operations })
                  × Stored c path y.operations (finished u))
                Over (λ _. ⊥) (λ _. pure (finished u)) (store c path (finished u)) u
                (advance-Returns restored u.process u.now j u p.0 v
                  (subst (λ y. Writes c (advanced restored y.process y.now j)) (sym p.2) writes))
                (λ _ y z. (
                  stage-advanced restored u.process u.now j,
                  z.2,
                  subst (Back j.entries) (sym (ap (λ y. y.sysfs) z.1)) p.4,
                )))))
      where
        finished : World → Journal
        finished u = advanced restored u.process u.now j

  restore-Returns :
      (before : Tree) (j : Journal) (w : World)
      → Faultless w
      → All (Describes before) j.entries
      → validate c j ≡ ok tt
      → validate_inventory j.entries w ≡ (value tt, w)
      → All (Holding w.sysfs) j.entries
      → WritesRestore c w j
      → Returns Over (restore c path j w)
  unfolding restore
  restore-Returns before j w h des v valid holding writes = rw valid (
      rw (check_entries-Faultless c path j j.entries w h holding) (
        Ends-bind
          (λ _ y.
            Faultless y
            × (y ≡ record w { operations = y.operations })
            × Stored c path y.operations started)
          Over (λ _. ⊥) (λ _. complete_restore c path started) (store c path started) w
          (advance-Returns restoring w.process w.now j w h v writes.0)
          (λ _ u z.
            complete_restore-Returns before w h started u des
              (validate-advanced c restoring w.process w.now j v) valid holding z.0
              (ap (λ y. y.sysfs) z.1)
              (subst (λ y. Writes c (advanced restored y.process y.now started)) (sym z.1)
                writes.1))))
    where
      started : Journal
      started = advanced restoring w.process w.now j

-- A restore returns, where no call fails, the journal is valid, its entries describe the tree before
-- the run, the idle states are still those that it records, and each has one of its two recorded
-- bits. Then the last stage of the journal is stored, and every recorded file has its original bit.
-- serde_json can write the two journals that are stored, and reads back what it has written.
pub restore_returns :
    (c : Codec) (path : FileName) (before : Tree) (j : Journal) (w : World)
    → IsFaithful c
    → Faultless w
    → validate c j ≡ ok tt
    → All (Describes before) j.entries
    → validate_inventory j.entries w ≡ (value tt, w)
    → All (Holding w.sysfs) j.entries
    → WritesRestore c w j
    → Returns
        (λ k u. (stage k ≡ restored) × Stored c path u.operations k × Back k.entries u.sysfs)
        (restore c path j w)
restore_returns c path before j w faithful h v des valid holding writes =
    restore-Returns c path faithful before j w h des v valid holding writes
