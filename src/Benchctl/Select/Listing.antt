-- ===== src/Benchctl/Select/Listing.antt =====
-- Looking for journals changes nothing.
use Prim.Native.String.{String}
use text.Mathlib.Text.{◌==◌ as ◌=ₜ◌}
use snoozer.Prelude.{Bool, true, false, not, List, [], ◌∷◌, Option, none, some, if◌then◌else◌}
use snoozer.Benchctl.Paths.{FileName, Directory}
use snoozer.Benchctl.Errors.{BenchError, recovery_required}
use snoozer.Benchctl.Host.{Tree, World, Host, pure, ◌>>=◌, ◌>>◌, attempt, throw_if, lift_result}
use snoozer.Benchctl.Host.Ending.{Ends-map}
use snoozer.Benchctl.Host.Steady.{Still, Steady, Steady-bind, Steady-attempt}
use snoozer.Benchctl.Journal.{Codec, is_restored, load, journal_path}
use snoozer.Benchctl.Journal.Stored.{Stored}
use snoozer.Benchctl.Journal.Loaded.{load-Steady, lift_result-Steady}
use snoozer.Benchctl.Select.{
  is_unfinished, is_wanted, list_journals, select_journals, require_restored,
  require_no_unfinished_journal,
}

module _ (t : Tree) (d : Directory) (c : Codec) where
  -- What is returned is of no interest here.
  abbrev Quiet : {A : Type 0} → Host A → Type 0
  Quiet m = (w : World) → Still t d w → Steady t d (λ _. Unit) (m w)

  Quiet-bind :
      {A B : Type 0} (m : Host A) (f : A → Host B)
      → Quiet m
      → ((a : A) → Quiet (f a))
      → Quiet (m >>= f)
  Quiet-bind m f h k w s =
      Steady-bind t d (λ _. Unit) (λ _. Unit) f m w (h w s) (λ a u hu _. k a u hu)

  Quiet-attempt : {A : Type 0} (op : String) (m : Host A) → Quiet m → Quiet (attempt op >> m)
  Quiet-attempt op m h w s = Steady-attempt t d (λ _. Unit) op m w s h

  Quiet-load : (path : FileName) → Quiet (load c path)
  Quiet-load path w s =
      Ends-map (λ j u. Still t d u × Stored c path d j) (λ _ u. Still t d u × Unit) (Still t d)
        (Still t d) (load c path w) (load-Steady t d c path w s) (λ _ _ p. (p.0, tt)) (λ _ p. p)

  Quiet-throw_if : (b : Bool) (e : BenchError) → Quiet (throw_if b e)
  Quiet-throw_if true e w s = s
  Quiet-throw_if false e w s = (s, tt)

  Quiet-wanted :
      (r : Bool) (path : FileName) (json : Bool)
      → Quiet (if json then is_wanted c r path else pure false)
  unfolding is_unfinished
  Quiet-wanted r path false w s = (s, tt)
  Quiet-wanted false path true w s = (s, tt)
  Quiet-wanted true path true w s =
      Quiet-bind (load c path) _ (Quiet-load path) (λ j w s. (s, tt)) w s

  Quiet-list : (r : Bool) (e : Directory) → Quiet (list_journals c r e)
  unfolding list_journals
  Quiet-list r [] w s = (s, tt)
  Quiet-list r ((path, bytes) ∷ e) w s =
      Quiet-attempt "listing operation entry" _
        (Quiet-bind (if path.extension =ₜ "json" then is_wanted c r path else pure false) _
          (Quiet-wanted r path (path.extension =ₜ "json"))
          (λ wanted. Quiet-bind (list_journals c r e) _ (Quiet-list r e) (λ rest w s. (s, tt))))
        w s

  pub Quiet-select_journals : (o : Option String) (r : Bool) → Quiet (select_journals c o r)
  unfolding select_journals
  Quiet-select_journals (some id) r =
      Quiet-bind (lift_result (journal_path id)) _
        (λ w s.
          Ends-map (λ a u. Still t d u × _) (λ _ u. Still t d u × Unit) (Still t d) (Still t d) _
            (lift_result-Steady t d (journal_path id) w s) (λ _ _ p. (p.0, tt)) (λ _ p. p))
        (λ path w s. (s, tt))
  Quiet-select_journals none r = Quiet-attempt "listing operation state" _ (
      Quiet-bind (λ w. list_journals c r w.operations w) _ (λ w s. Quiet-list r w.operations w s)
        (λ paths w s. (s, tt)))

  Quiet-restored : (paths : List FileName) → Quiet (require_restored c paths)
  unfolding require_restored
  Quiet-restored [] w s = (s, tt)
  Quiet-restored (path ∷ paths) w s =
      Quiet-bind (load c path) _ (Quiet-load path)
        (λ j.
          Quiet-bind (throw_if (not (is_restored j)) (recovery_required j.operation_id)) _
            (Quiet-throw_if (not (is_restored j)) (recovery_required j.operation_id))
            (λ _. Quiet-restored paths))
        w s

  pub require_no_unfinished_journal-Steady :
      (w : World) → Still t d w → Steady t d (λ _. Unit) (require_no_unfinished_journal c w)
  unfolding require_no_unfinished_journal
  require_no_unfinished_journal-Steady =
      Quiet-bind (select_journals c none false) (require_restored c)
        (Quiet-select_journals none false) Quiet-restored
