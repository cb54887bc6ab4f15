-- ===== src/Benchctl/Run/Recoverable.antt =====
-- A whole run: it leaves the idle states as they were, or its journal tells how to put them back.
use Prim.Native.String.{String}
use text.Mathlib.Text.{◌==◌ as ◌=ₜ◌}
use snoozer.Prelude.{
  ◌≡◌, refl, sym, subst, ◌∙◌, ap, ◌⊎◌, inl, inr, Bool, true, false, not, List, Option, none, some,
  is_none, All, ◌==◌, length, sort, if◌then◌else◌,
}
use snoozer.Errors.{Result, ok, err}
use snoozer.Benchctl.Paths.{FileName, lookup}
use snoozer.Benchctl.Errors.{BenchError, usage, request_conflict, recovery_required}
use snoozer.Benchctl.Host.{
  Actor, Tree, World, Exit, Host, throw, ◌>>=◌, ◌>>◌, lift_result, throw_if,
}
use snoozer.Benchctl.Host.Ending.{Ends, Ends-bind, Ends-map, Disk, On, Kept, throw_if-Kept}
use snoozer.Benchctl.Host.Steady.{Steady, Steady-Kept}
use snoozer.Benchctl.Journal.{
  Codec, Journal, Request, IdleEntry, journal_name, journal_path, digest, is_restored, journal_of,
  new_journal, store, load, read_boot_id, exists_file,
}
use snoozer.Benchctl.Journal.Stored.{IsFaithful, Stored, store_lem}
use snoozer.Benchctl.Journal.Loaded.{
  journal_path-ok, read_boot_id-Kept, load-Steady, lift_result-Steady,
}
use snoozer.Benchctl.Select.{require_no_unfinished_journal}
use snoozer.Benchctl.Select.Listing.{require_no_unfinished_journal-Steady}
use snoozer.Benchctl.Inventory.{inventory, dedup}
use snoozer.Benchctl.Inventory.Described.{Describes}
use snoozer.Benchctl.Inventory.Scan.{Inventoried, inventory-Steady, Inventoried-Describes}
use snoozer.Benchctl.Cpuidle.Pending.{Pending, Finished, Guarded}
use snoozer.Benchctl.Receipt.{BuildReceipt}
use snoozer.Benchctl.Supervision.{Services, IsTidy, IsLocal, IsSeparate, IsSeparate-Kept}
use snoozer.Benchctl.Run.{
  RunRequest, begin_run, replay, replay_or_refuse, replay_outcome, run_or_replay, named,
  recorded_request, coordinate_run, control_run,
}
use snoozer.Benchctl.Run.Guarded.{control_run-Guarded}

-- The journal of one operation, whose id is accepted, describes entries of the tree `before`, and `K`
-- holds of them.
abbrev pub Journaled : (FileName → Tree → List IdleEntry → Disk) → Tree → Disk
Journaled K before t d =
    (id : String) × (es : List IdleEntry) × (journal_path id ≡ ok (journal_name id))
    × All (Describes before) es
    × K (journal_name id) before es t d

-- Nothing has changed since the tree `before`, or a journal says what has.
abbrev pub Recoverable : Codec → Tree → Disk
Recoverable c before t d = (t ≡ before) ⊎ Journaled (Guarded c) before t d

-- Nothing has changed since the tree `before`, or every recorded bit is back.
abbrev pub Settled : Codec → Tree → Disk
Settled c before t d = (t ≡ before) ⊎ Journaled (Finished c) before t d

module _ (c : Codec) (faithful : IsFaithful c) (s : Services) (tidy : IsTidy s)
    (before : Tree) where
  abbrev U : Disk
  U t d = t ≡ before

  U-local : IsLocal U
  U-local w u a h = a.0 ∙ h

  abbrev Good : {A : Type 0} → Exit A × World → Type 0
  Good o = Ends (λ _. On (Settled c before)) (On (Recoverable c before)) o

  -- What follows a computation that leaves the tree alone.
  untouched :
      {A B : Type 0} (m : Host A) (f : A → Host B) (w : World)
      → Kept U (m w)
      → ((a : A) (v : World) → On U v → Good (f a v))
      → Good ((m >>= f) w)
  untouched m f w h k =
      Ends-bind (λ _. On U) (λ _. On (Settled c before)) (On (Recoverable c before)) f m w
        (Ends-map (λ _. On U) (λ _. On U) (On U) (On (Recoverable c before)) (m w) h (λ _ _ x. x)
          (λ _. inl))
        k

  separate :
      {A B : Type 0} (m : Host A) (f : A → Host B) (w : World)
      → IsSeparate m
      → On U w
      → ((a : A) (v : World) → On U v → Good (f a v))
      → Good ((m >>= f) w)
  separate m f w h hw k = untouched m f w (IsSeparate-Kept U m w U-local h hw) k

  -- What follows a computation that leaves the disks alone.
  steady :
      {A B : Type 0} (P : A → Type 0) (m : Host A) (f : A → Host B) (w : World)
      → Steady w.sysfs w.operations P (m w)
      → On U w
      → ((a : A) (v : World) → P a → On U v → Good (f a v))
      → Good ((m >>= f) w)
  steady P m f w h hw k =
      Ends-bind (λ a v. On U v × P a) (λ _. On (Settled c before)) (On (Recoverable c before)) f m w
        (Ends-map _ (λ a v. On U v × P a) (On U) (On (Recoverable c before)) (m w)
          (Steady-Kept U w P (m w) hw h) (λ a v x. (x.0, x.2)) (λ _. inl))
        (λ a v x. k a v x.1 x.0)

  -- The first journal of the operation is stored, and the run goes on.
  controlled :
      (id : String) (j : Journal) (w : World)
      → All (Describes before) j.entries
      → is_restored j ≡ false
      → journal_path id ≡ ok (journal_name id)
      → On U w
      → Good ((store c (journal_name id) j >> control_run c s (journal_name id) j) w)
  controlled id j w des r accepted h =
      Ends-bind (λ _. On J) (λ _. On (Settled c before)) (On (Recoverable c before)) _
        (store c (journal_name id) j) w
        (Ends-map (λ _. On J) (λ _. On J) (On U) (On (Recoverable c before))
          (store c (journal_name id) j w)
          (store_lem c faithful (journal_name id) U J j w h
            (λ u d hu q. (hu, ((j, q, refl, r), λ p. inl (ap (λ t. t p) hu)))) (λ _ x. x.0))
          (λ _ _ x. x) (λ _. inl))
        (λ _ u hu.
          Ends-map (λ _. On (Finished c (journal_name id) before j.entries))
            (λ _. On (Settled c before)) (On (Guarded c (journal_name id) before j.entries))
            (On (Recoverable c before)) (control_run c s (journal_name id) j u)
            (control_run-Guarded c faithful s tidy id before j.entries des j u refl hu.1)
            (λ _ v x. inr (id, j.entries, accepted, des, x))
            (λ v x. inr (id, j.entries, accepted, des, x)))
    where
      J : Disk
      J t d = (t ≡ before) × Pending c (journal_name id) before j.entries t d

  new_journal-unfinished :
      (id : String) (request : Request) (a : Actor) (boot : String) (w : World)
      → On U w
      → Ends (λ j u. On U u × (is_restored j ≡ false)) (On U) (new_journal c id request a boot w)
  new_journal-unfinished id request a boot w h =
      elim (digest c request)
        as (λ r.
          Ends (λ j u. On U u × (is_restored j ≡ false)) (On U)
            (journal_of r id request a boot w)) [ ok hash ↦ (h, refl) | err e ↦ h ]

  begin_run-Recoverable :
      (id : String) (request : Request) (receipt : BuildReceipt) (w : World)
      → journal_path id ≡ ok (journal_name id)
      → On U w
      → Good (begin_run c s (journal_name id) id request receipt w)
  unfolding begin_run
  begin_run-Recoverable id request receipt w accepted h =
      steady (λ _. Unit) (require_no_unfinished_journal c) _ w
        (require_no_unfinished_journal-Steady w.sysfs w.operations c w (refl, refl)) h
        (λ _ u _ hu. separate s.client_watch _ u tidy.client_watch hu (λ _ u hu.
          separate (s.accept_snapshots request receipt) _ u (tidy.accept_snapshots request receipt)
            hu
            (λ _ u hu. untouched read_boot_id _ u (read_boot_id-Kept U u hu) (λ boot v hv.
              Ends-bind (λ j x. On U x × (is_restored j ≡ false)) (λ _. On (Settled c before))
                (On (Recoverable c before)) _ (new_journal c id request u.process boot) v
                (Ends-map _ (λ j x. On U x × (is_restored j ≡ false)) (On U)
                  (On (Recoverable c before)) _
                  (new_journal-unfinished id request u.process boot v hv) (λ _ _ x. x) (λ _. inl))
                (λ j x p.
                  steady (Inventoried x.sysfs request.cpus) (inventory request.cpus) _ x
                    (inventory-Steady x.sysfs x.operations request.cpus x (refl, refl)) p.0
                    (λ es y q hy.
                      controlled id (record j { entries = es }) y
                        (Inventoried-Describes before request.cpus es
                          (subst (λ t. Inventoried t request.cpus es) p.0 q))
                        p.1 accepted hy))))))

  result-Good : (r : Result Unit BenchError) (w : World) → On U w → Good (lift_result r w)
  result-Good (ok a) w h = inl h
  result-Good (err e) w h = inl h

  replay_or_refuse-Good :
      (id : String) (j : Journal) (w : World)
      → On U w
      → Good (replay_or_refuse c s (journal_name id) id j w)
  replay_or_refuse-Good id j w h =
      elim (is_restored j)
        as (λ b.
          Good ((if b then lift_result (replay_outcome j) else throw (recovery_required id)) w)) [
            | true ↦ result-Good (replay_outcome j) w h
            | false ↦ inl h
          ]

  replay-Good :
      (id : String) (request : Request) (w : World)
      → On U w
      → Good (replay c s (journal_name id) id request w)
  unfolding replay
  replay-Good id request w h =
      steady (Stored c (journal_name id) w.operations) (load c (journal_name id)) _ w
        (load-Steady w.sysfs w.operations c (journal_name id) w (refl, refl)) h
        (λ j u _ hu.
          steady (λ a. digest c request ≡ ok a) (lift_result (digest c request)) _ u
            (lift_result-Steady u.sysfs u.operations (digest c request) u (refl, refl)) hu
            (λ hash u _ hu.
              untouched (throw_if (not (j.request_hash =ₜ hash)) (request_conflict id)) _ u
                (throw_if-Kept U (not (j.request_hash =ₜ hash)) (request_conflict id) u hu)
                (λ _ u hu. replay_or_refuse-Good id j u hu)))

  run_or_replay-Good :
      (found : Bool) (id : String) (request : Request) (receipt : BuildReceipt) (w : World)
      → journal_path id ≡ ok (journal_name id)
      → On U w
      → Good (run_or_replay c s (journal_name id) found id request receipt w)
  run_or_replay-Good true id request receipt w accepted h = replay-Good id request w h
  run_or_replay-Good false id request receipt w accepted h =
      begin_run-Recoverable id request receipt w accepted h

  named-Kept : (o : Option String) (w : World) → On U w → Kept U (named c s o w)
  named-Kept none w h = IsSeparate-Kept U s.new_operation_id w U-local tidy.new_operation_id h
  named-Kept (some id) w h = h

  pub coordinate_run-Good :
      (request : RunRequest) (w : World) → On U w → Good (coordinate_run c s request w)
  unfolding coordinate_run
  coordinate_run-Good request w h =
      untouched (throw_if (length request.cpus == 0) none_given) _ w
        (throw_if-Kept U (length request.cpus == 0) none_given w h)
        (λ _ u hu.
          untouched
            (throw_if (not (length (sort request.cpus) == length (dedup (sort request.cpus))))
              doubled)
            _ u
            (throw_if-Kept U
              (not (length (sort request.cpus) == length (dedup (sort request.cpus)))) doubled u hu)
            (λ _ u hu. separate s.secure_state _ u tidy.secure_state hu (λ _ u hu.
              separate (s.lock_for false) _ u (tidy.lock_for false) hu (λ _ u hu.
                separate s.require_inactive _ u tidy.require_inactive hu (λ _ u hu.
                  separate s.invoking_actor _ u tidy.invoking_actor hu (λ actor u hu.
                    separate (s.load_receipt request.receipt_path) _ u
                      (tidy.load_receipt request.receipt_path) hu
                      (λ receipt u hu.
                        separate (s.verify_checkout_as receipt actor) _ u
                          (tidy.verify_checkout_as receipt actor) hu
                          (λ _ u hu.
                            separate (s.receipt_digest request.receipt_path) _ u
                              (tidy.receipt_digest request.receipt_path) hu
                              (λ hash u hu.
                                untouched (named c s request.operation_id) _ u
                                  (named-Kept request.operation_id u hu)
                                  (λ id u hu.
                                    steady (λ path. journal_path id ≡ ok path)
                                      (lift_result (journal_path id)) _ u
                                      (lift_result-Steady u.sysfs u.operations (journal_path id) u
                                        (refl, refl))
                                      hu
                                      (λ path u e hu.
                                        on_path (recorded_request c s request actor receipt hash id)
                                          receipt id path u (journal_path-ok id path e)
                                          (e ∙ ap ok (journal_path-ok id path e)) hu)))))))))))
    where
      none_given : BenchError
      none_given = usage "at least one CPU is required"

      doubled : BenchError
      doubled = usage "CPU IDs must be distinct"

      on_path :
          (r : Request) (receipt : BuildReceipt) (id : String) (path : FileName) (u : World)
          → path ≡ journal_name id
          → journal_path id ≡ ok (journal_name id)
          → On U u
          → Good ((exists_file path >>= λ found. run_or_replay c s path found id r receipt) u)
      on_path r receipt id path u e accepted hu =
          subst (λ q. Good ((exists_file q >>= λ found. run_or_replay c s q found id r receipt) u))
            (sym e)
            (run_or_replay-Good (not (is_none (lookup (journal_name id) u.operations))) id r receipt
              u accepted hu)

-- However a run ends, by returning, by an error or by the death of its process at any call: the tree
-- of the idle states is as it was before the run, or a journal in the state directory, under an id that
-- `journal_path` accepts, names every file that differs, with the bit that it had. When the run returns, and unless it changed nothing,
-- that journal says that it is finished, and every recorded file holds the bit that it had. The
-- services that the run calls leave the idle states and the journals alone, and serde_json reads back
-- what it has written.
pub coordinate_run-Recoverable :
    (c : Codec) (s : Services) (request : RunRequest) (w : World)
    → IsFaithful c
    → IsTidy s
    → Ends (λ _. On (Settled c w.sysfs)) (On (Recoverable c w.sysfs)) (coordinate_run c s request w)
coordinate_run-Recoverable c s request w faithful tidy =
    coordinate_run-Good c faithful s tidy w.sysfs request w refl
