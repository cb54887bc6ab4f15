-- ===== src/Benchctl/Recover/Undone.antt =====
-- Recovery of one operation, whatever fails in it and wherever it dies.
use Prim.Native.String.{String}
use text.Mathlib.Text.{◌==◌ as ◌=ₜ◌}
use snoozer.Prelude.{
  ◌≡◌, refl, sym, subst, ap, ◌⊎◌, inl, inr, Bool, true, false, not, List, [], ◌∷◌, some, is_none,
  if◌then◌else◌, All,
}
use snoozer.Errors.{ok}
use snoozer.Benchctl.Paths.{FileName, Directory, lookup}
use snoozer.Benchctl.Errors.{BenchError, state_error}
use snoozer.Benchctl.Host.{Tree, World, Exit, Host, Action, ◌>>=◌, throw_if, lift_result}
use snoozer.Benchctl.Host.Ending.{Ends, Ends-bind, Ends-map, Disk, On, throw_if-Kept}
use snoozer.Benchctl.Host.Steady.{Still, Steady, Steady-bind, Steady-Kept}
use snoozer.Benchctl.Journal.{
  Codec, Journal, IdleEntry, stage, restored, is_restored, journal_name, journal_path, load,
  read_boot_id,
}
use snoozer.Benchctl.Journal.Stored.{IsFaithful, Stored, Stored-unique}
use snoozer.Benchctl.Journal.Loaded.{
  journal_path-ok, read_boot_id-Kept, load-Steady, lift_result-Steady,
}
use snoozer.Benchctl.Select.{select_journals, existing}
use snoozer.Benchctl.Inventory.Described.{Describes}
use snoozer.Benchctl.Cpuidle.{restore}
use snoozer.Benchctl.Cpuidle.Pending.{Pending, Finished, Guarded}
use snoozer.Benchctl.Cpuidle.Restore.{restore-Guarded}
use snoozer.Benchctl.Supervision.{Services, IsTidy, IsSeparate, IsSeparate-Kept}
use snoozer.Benchctl.Run.{reconcile_runtime_outcome}
use snoozer.Benchctl.Run.Guarded.{F-local, G-local, pending, reconcile_runtime_outcome-Kept}
use snoozer.Benchctl.Recover.{only, undo, recover_journal, recover}

select_journals-some :
    (c : Codec) (id : String) (r : Bool) (t : Tree) (d : Directory) (w : World)
    → Still t d w
    → Steady t d
        (λ paths. (paths ≡ []) ⊎ (paths ≡ journal_name id ∷ []))
        (select_journals c (some id) r w)
unfolding select_journals
select_journals-some c id r t d w h =
    Steady-bind t d (λ path. journal_path id ≡ ok path)
      (λ paths. (paths ≡ []) ⊎ (paths ≡ journal_name id ∷ [])) _ (lift_result (journal_path id)) w
      (lift_result-Steady t d (journal_path id) w h)
      (λ path u hu e.
        (hu, at path (journal_path-ok id path e) (not (is_none (lookup path u.operations)))))
  where
    at :
        (path : FileName)
        → path ≡ journal_name id
        → (b : Bool) → (existing c path b ≡ []) ⊎ (existing c path b ≡ journal_name id ∷ [])
    at path e true = inr (ap (λ p. p ∷ []) e)
    at path e false = inl refl

module _ (c : Codec) (faithful : IsFaithful c) (s : Services) (tidy : IsTidy s) (id : String)
    (before : Tree) (es : List IdleEntry) (described : All (Describes before) es) where
  abbrev P : Disk
  P = Pending c (journal_name id) before es

  abbrev F : Disk
  F = Finished c (journal_name id) before es

  abbrev G : Disk
  G = Guarded c (journal_name id) before es

  abbrev Good : {A : Type 0} → Exit A × World → Type 0
  Good o = Ends (λ _. On F) (On G) o

  cleaned : (j : Journal) (w : World) → On F w → Good (s.cleanup_runtime j.operation_id w)
  cleaned j w h =
      Ends-map (λ _. On F) (λ _. On F) (On F) (On G) (s.cleanup_runtime j.operation_id w)
        (IsSeparate-Kept F (s.cleanup_runtime j.operation_id) w
          (F-local c faithful s tidy id before es described) (tidy.cleanup_runtime j.operation_id)
          h)
        (λ _ _ x. x) (λ _. inr)

  undo-Good :
      (j : Journal) (w : World)
      → j.entries ≡ es
      → is_restored j ≡ false
      → On P w
      → Good (undo c s (journal_name id) j w)
  unfolding undo
  undo-Good j w q r h =
      pending c faithful s tidy id before es described (λ _. On F) read_boot_id _ w
        (read_boot_id-Kept P w h)
        (λ boot u hu.
          pending c faithful s tidy id before es described (λ _. On F)
            (throw_if (not (j.boot_id =ₜ boot)) other) _ u
            (throw_if-Kept P (not (j.boot_id =ₜ boot)) other u hu)
            (λ _ u hu.
              Ends-bind (λ k v. On P v × (k.entries ≡ es)) (λ _. On F) (On G) _
                (reconcile_runtime_outcome c s (journal_name id) j) u
                (Ends-map (λ k v. On P v × (k.entries ≡ es)) (λ k v. On P v × (k.entries ≡ es))
                  (On P) (On G) _
                  (reconcile_runtime_outcome-Kept c faithful s tidy id before es described j u q r
                    hu)
                  (λ _ _ x. x) (λ _. inl))
                (λ k v x.
                  Ends-bind (λ _. On F) (λ _. On F) (On G) _ (restore c (journal_name id) k) v
                    (restore-Guarded c faithful (journal_name id) before es described k v x.1 x.0)
                    (λ _ y hy. cleaned j y hy))))
    where
      other : BenchError
      other = state_error "operation belongs to another Linux boot; automatic recovery is refused"

  recover_journal-Good :
      (j : Journal) (w : World)
      → Stored c (journal_name id) w.operations j
      → On G w
      → Good (recover_journal c s (journal_name id) j w)
  unfolding recover_journal
  recover_journal-Good j w q (inl ((k, stored, e, r), cov)) =
      subst
        (λ i. Good (
          (if is_restored i then s.cleanup_runtime i.operation_id else undo c s (journal_name id) i)
            w))
        same
        (subst
          (λ b.
            Good ((if b then s.cleanup_runtime k.operation_id else undo c s (journal_name id) k) w))
          (sym r) (undo-Good k w e r ((k, stored, e, r), cov)))
    where
      same : k ≡ j
      same = Stored-unique c (journal_name id) w.operations k j stored q
  recover_journal-Good j w q (inr ((k, stored, e, r), cov, back)) =
      subst
        (λ i. Good (
          (if is_restored i then s.cleanup_runtime i.operation_id else undo c s (journal_name id) i)
            w))
        same
        (subst
          (λ b.
            Good ((if b then s.cleanup_runtime k.operation_id else undo c s (journal_name id) k) w))
          (sym (over r)) (cleaned k w ((k, stored, e, r), cov, back)))
    where
      same : k ≡ j
      same = Stored-unique c (journal_name id) w.operations k j stored q

      over : stage k ≡ restored → is_restored k ≡ true
      over x = rw x refl

  separate :
      {A B : Type 0} (m : Host A) (f : A → Host B) (w : World)
      → IsSeparate m
      → On G w
      → ((a : A) (v : World) → On G v → Good (f a v))
      → Good ((m >>= f) w)
  separate m f w h hw k =
      Ends-bind (λ _. On G) (λ _. On F) (On G) f m w
        (IsSeparate-Kept G m w (G-local c faithful s tidy id before es described) h hw) k

  steady :
      {A B : Type 0} (P : A → Type 0) (m : Host A) (f : A → Host B) (w : World)
      → Steady w.sysfs w.operations P (m w)
      → On G w
      → ((a : A) (v : World) → Still w.sysfs w.operations v → P a → On G v → Good (f a v))
      → Good ((m >>= f) w)
  steady P m f w h hw k =
      Ends-bind (λ a v. On G v × Still w.sysfs w.operations v × P a) (λ _. On F) (On G) f m w
        (Steady-Kept G w P (m w) hw h) (λ a v x. k a v x.1 x.2 x.0)

  -- Recovery of a guarded operation, whatever fails in it: the operation stays guarded, and it is
  -- finished when recovery returns.
  pub recover-Guarded : (w : World) → On G w → Good (recover c s (some id) w)
  unfolding recover
  recover-Guarded w h = separate s.secure_state _ w tidy.secure_state h (λ _ u hu.
      separate (s.lock_for true) _ u (tidy.lock_for true) hu (λ _ u hu.
        separate s.require_inactive _ u tidy.require_inactive hu (λ _ u hu.
          steady (λ paths. (paths ≡ []) ⊎ (paths ≡ journal_name id ∷ []))
            (select_journals c (some id) true) _ u
            (select_journals-some c id true u.sysfs u.operations u (refl, refl)) hu
            (λ paths v _ e hv. selected paths e v hv))))
    where
      rest : FileName → Action
      rest path = load c path >>= recover_journal c s path

      loaded : (v : World) → On G v → Good (rest (journal_name id) v)
      loaded v hv =
          steady (Stored c (journal_name id) v.operations) (load c (journal_name id))
            (recover_journal c s (journal_name id)) v
            (load-Steady v.sysfs v.operations c (journal_name id) v (refl, refl)) hv
            (λ j x still q hx.
              recover_journal-Good j x (subst (λ d. Stored c (journal_name id) d j) (sym still.1) q)
                hx)

      selected :
          (paths : List FileName)
          → (paths ≡ []) ⊎ (paths ≡ journal_name id ∷ [])
          → (v : World) → On G v
          → Good ((only paths >>= rest) v)
      selected paths (inl e) v hv = subst (λ ps. Good ((only ps >>= rest) v)) (sym e) hv
      selected paths (inr e) v hv = subst (λ ps. Good ((only ps >>= rest) v)) (sym e) (loaded v hv)
