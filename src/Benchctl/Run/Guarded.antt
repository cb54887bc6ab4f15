-- ===== src/Benchctl/Run/Guarded.antt =====
-- A run, whatever fails in it and wherever it dies: what it has changed is in its journal.
use Prim.Native.String.{String}
use snoozer.Prelude.{
  ℕ, ◌≡◌, refl, sym, subst, ◌∙◌, inl, inr, Bool, true, false, List, Option, none, some, All,
  All-Among, Among, is_none, if◌then◌else◌,
}
use snoozer.Errors.{Result, ok, err}
use snoozer.Benchctl.Errors.{BenchError}
use snoozer.Benchctl.Host.{Actor, Tree, World, Host, pure, ◌>>=◌, outcome, lift_result}
use snoozer.Benchctl.Host.Ending.{Ends, Ends-bind, Ends-map, Ends-outcome, Disk, On, Kept}
use snoozer.Benchctl.Journal.{
  Codec, Journal, IdleEntry, Stage, stage, is_restored, advanced, store, journal_name, applied,
  workload_started, workload_finished, draining, recoverable,
}
use snoozer.Benchctl.Journal.Stored.{IsFaithful, store_lem, stage-advanced}
use snoozer.Benchctl.Inventory.{validate_inventory}
use snoozer.Benchctl.Inventory.Described.{Describes}
use snoozer.Benchctl.Cpuidle.{apply, restore}
use snoozer.Benchctl.Cpuidle.Pending.{Pending, Finished, Guarded, Covered, Back, Pending-store}
use snoozer.Benchctl.Cpuidle.Writes.{apply_entries-Kept}
use snoozer.Benchctl.Cpuidle.Checks.{advance-Kept}
use snoozer.Benchctl.Cpuidle.Restore.{restore-Guarded, validate_inventory-Kept}
use snoozer.Benchctl.Supervision.{Services, Outcome, IsTidy, IsLocal, IsSeparate-Kept}
use snoozer.Benchctl.Run.{
  terminal_outcome, reported, record_outcome, reconcile_runtime_outcome, abandon, finish_run,
  run_workload, undo_apply, control_run,
}

module _ (c : Codec) (faithful : IsFaithful c) (s : Services) (tidy : IsTidy s) (id : String)
    (before : Tree) (es : List IdleEntry) (described : All (Describes before) es) where
  abbrev P : Disk
  P = Pending c (journal_name id) before es

  abbrev F : Disk
  F = Finished c (journal_name id) before es

  abbrev G : Disk
  G = Guarded c (journal_name id) before es

  pub P-local : IsLocal P
  P-local w u a ((j, (bytes, l, r), e, b), cov) =
      ((j, (bytes, a.1 id ∙ l, r), e, b), subst (λ t. Covered before es t) (sym a.0) cov)

  pub F-local : IsLocal F
  F-local w u a ((j, (bytes, l, r), e, b), cov, back) = (
    (j, (bytes, a.1 id ∙ l, r), e, b),
    subst (λ t. Covered before es t) (sym a.0) cov,
    subst (λ t. Back es t) (sym a.0) back,
  )

  pub G-local : IsLocal G
  G-local w u a (inl h) = inl (P-local w u a h)
  G-local w u a (inr h) = inr (F-local w u a h)

  -- What follows a computation that keeps the journal unfinished.
  pub pending :
      {A B : Type 0} (Q : B → World → Type 0) (m : Host A) (f : A → Host B) (u : World)
      → Kept P (m u)
      → ((a : A) (v : World) → On P v → Ends Q (On G) (f a v))
      → Ends Q (On G) ((m >>= f) u)
  pending Q m f u h k =
      Ends-bind (λ _. On P) Q (On G) f m u
        (Ends-map (λ _. On P) (λ _. On P) (On P) (On G) (m u) h (λ _ _ x. x) (λ _. inl)) k

  store-Kept :
      (st : Stage) (a : Actor) (now : ℕ) (j : Journal) (w : World)
      → j.entries ≡ es
      → ((k : Journal) → stage k ≡ st → is_restored k ≡ false)
      → On P w
      → Kept P (store c (journal_name id) (advanced st a now j) w)
  store-Kept =
      advance-Kept c faithful (journal_name id) es P (Pending-store c (journal_name id) before es)

  record_outcome-Kept :
      (j : Journal) (o : Option Outcome) (w : World)
      → j.entries ≡ es
      → is_restored j ≡ false
      → On P w
      → Ends (λ k u. On P u × (k.entries ≡ es)) (On P) (record_outcome c s (journal_name id) j o w)
  record_outcome-Kept j none w e r h = (h, e)
  record_outcome-Kept j (some o) w e r h =
      Ends-bind (λ _. On P) _ (On P) _ (store c (journal_name id) next) w
        (store_lem c faithful (journal_name id) P P next w h
          (λ u d hu q.
            Pending-store c (journal_name id) before es next u.sysfs u.operations d e r hu q)
          (λ _ q. q))
        (λ _ u hu. (hu, e))
    where
      next : Journal
      next = record j { outcome = some (terminal_outcome o) }

  pub reconcile_runtime_outcome-Kept :
      (j : Journal) (w : World)
      → j.entries ≡ es
      → is_restored j ≡ false
      → On P w
      → Ends
          (λ k u. On P u × (k.entries ≡ es))
          (On P)
          (reconcile_runtime_outcome c s (journal_name id) j w)
  unfolding reconcile_runtime_outcome
  reconcile_runtime_outcome-Kept j w e r h = which (is_none j.outcome)
    where
      which :
          (b : Bool)
          → Ends
              (λ k u. On P u × (k.entries ≡ es))
              (On P)
              ((if b
                  then s.recover_outcome j.operation_id >>= record_outcome c s (journal_name id) j
                  else pure j)
                w)
      which true =
          Ends-bind (λ _. On P) _ (On P) _ (s.recover_outcome j.operation_id) w
            (IsSeparate-Kept P (s.recover_outcome j.operation_id) w P-local
              (tidy.recover_outcome j.operation_id) h)
            (λ o u hu. record_outcome-Kept j o u e r hu)
      which false = (h, e)

  abandon-Guarded :
      (j : Journal) (e : BenchError) (w : World)
      → j.entries ≡ es
      → is_restored j ≡ false
      → On P w
      → Ends (λ _. On F) (On G) (abandon c s (journal_name id) j e w)
  unfolding abandon
  abandon-Guarded j e w q r h =
      Ends-bind (λ k u. On P u × (k.entries ≡ es)) _ (On G) _
        (reconcile_runtime_outcome c s (journal_name id) j) w
        (Ends-map _ (λ k u. On P u × (k.entries ≡ es)) (On P) (On G) _
          (reconcile_runtime_outcome-Kept j w q r h) (λ _ _ x. x) (λ _. inl))
        (λ k u x.
          pending _ (store c (journal_name id) (advanced recoverable u.process u.now k)) _ u
            (store-Kept recoverable u.process u.now k u x.1 (λ l y. rw y refl) x.0)
            (λ _ v hv. inl hv))

  finish_run-Guarded :
      (j : Journal) (o : Outcome) (w : World)
      → j.entries ≡ es
      → On P w
      → Ends (λ _. On F) (On G) (finish_run c s (journal_name id) j o w)
  unfolding finish_run
  finish_run-Guarded j o w q h =
      pending _ (store c (journal_name id) (advanced draining w.process w.now ended)) _ w
        (store-Kept draining w.process w.now ended w q (λ k r. rw r refl) h)
        (λ _ u hu.
          Ends-bind (λ _. On F) _ (On G) _
            (restore c (journal_name id) (advanced draining w.process w.now ended)) u
            (restore-Guarded c faithful (journal_name id) before es described
              (advanced draining w.process w.now ended) u q hu)
            (λ _ u hu.
              Ends-bind (λ _. On F) _ (On G) _ (s.cleanup_runtime j.operation_id) u
                (Ends-map (λ _. On F) (λ _. On F) (On F) (On G) (s.cleanup_runtime j.operation_id u)
                  (IsSeparate-Kept F (s.cleanup_runtime j.operation_id) u F-local
                    (tidy.cleanup_runtime j.operation_id) hu)
                  (λ _ _ x. x) (λ _. inr))
                (λ _ u hu. told (reported o) u hu)))
    where
      ended : Journal
      ended =
          advanced workload_finished j.coordinator w.now
            (record j { outcome = some (terminal_outcome o) })

      told :
          (r : Result Unit BenchError) (u : World)
          → On F u
          → Ends (λ _. On F) (On G) (lift_result r u)
      told (ok a) u hu = hu
      told (err e) u hu = inr hu

  -- What a run does once its journal says that the workload has started.
  coordinate-Guarded :
      (j : Journal) (w : World)
      → j.entries ≡ es
      → is_restored j ≡ false
      → On P w
      → Ends
          (λ _. On F)
          (On G)
          (outcome
            (s.coordinate j.operation_id j.request)
            (finish_run c s (journal_name id) j)
            (abandon c s (journal_name id) j)
            w)
  coordinate-Guarded j w q r h =
      Ends-outcome (λ _. On P) (λ _. On F) (On P) (On G) (finish_run c s (journal_name id) j)
        (abandon c s (journal_name id) j) (s.coordinate j.operation_id j.request) w
        (IsSeparate-Kept P (s.coordinate j.operation_id j.request) w P-local
          (tidy.coordinate j.operation_id j.request) h)
        (λ o u hu. finish_run-Guarded j o u q hu) (λ e u hu. abandon-Guarded j e u q r hu)
        (λ u. inl)

  run_workload-Guarded :
      (j : Journal) (w : World)
      → j.entries ≡ es
      → On P w
      → Ends (λ _. On F) (On G) (run_workload c s (journal_name id) j w)
  unfolding run_workload
  run_workload-Guarded j w q h =
      pending _ (store c (journal_name id) ready) _ w
        (store-Kept applied j.coordinator w.now j w q (λ k r. rw r refl) h)
        (λ _ u hu.
          pending _
            (store c (journal_name id) (advanced workload_started j.coordinator u.now ready)) _ u
            (store-Kept workload_started j.coordinator u.now ready u q started hu)
            (λ _ v hv.
              coordinate-Guarded (advanced workload_started j.coordinator u.now ready) v q
                (started (advanced workload_started j.coordinator u.now ready)
                  (stage-advanced workload_started j.coordinator u.now ready))
                hv))
    where
      ready : Journal
      ready = advanced applied j.coordinator w.now j

      started : (k : Journal) → stage k ≡ workload_started → is_restored k ≡ false
      started k r = rw r refl

  undo_apply-Guarded :
      (j : Journal) (e : BenchError) (w : World)
      → j.entries ≡ es
      → On P w
      → Ends (λ _. On F) (On G) (undo_apply c s (journal_name id) j e w)
  unfolding undo_apply
  undo_apply-Guarded j e w q h =
      Ends-outcome (λ _. On F) (λ _. On F) (On G) (On G) _ _ (restore c (journal_name id) j) w
        (restore-Guarded c faithful (journal_name id) before es described j w q h) (λ _ u. inr)
        (λ _ u hu. hu) (λ u hu. hu)

  pub control_run-Guarded :
      (j : Journal) (w : World)
      → j.entries ≡ es
      → On P w
      → Ends (λ _. On F) (On G) (control_run c s (journal_name id) j w)
  unfolding control_run apply
  control_run-Guarded j w q h =
      Ends-outcome (λ _. On P) (λ _. On F) (On P) (On G) _ _ (apply j.entries) w
        (Ends-bind (λ _. On P) (λ _. On P) (On P) _ (validate_inventory j.entries) w
          (validate_inventory-Kept P j.entries w h)
          (λ _ u hu.
            apply_entries-Kept c faithful (journal_name id) before es described j.entries u
              (subst (λ fs. All (λ e. Among e es) fs) (sym q) (All-Among es)) hu))
        (λ _ u hu. run_workload-Guarded j u q hu) (λ e u hu. undo_apply-Guarded j e u q hu)
        (λ u. inl)
