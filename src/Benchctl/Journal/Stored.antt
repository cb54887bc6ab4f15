-- ===== src/Benchctl/Journal/Stored.antt =====
-- What storing and loading a journal leave in the state directory.
use Prim.Native.String.{String}
use snoozer.Prelude.{ℕ, ◌≡◌, refl, sym, ap, ◌∙◌, List, [], ◌∷◌, ◌++◌, Option, none, some, arith}
use snoozer.Errors.{Result, ok, err}
use snoozer.Benchctl.Paths.{FileName, Directory, lookup, replace, lookup-replace}
use snoozer.Benchctl.Errors.{BenchError}
use snoozer.Benchctl.Host.{Actor, World, Host, ◌>>=◌, lift_result}
use snoozer.Benchctl.Host.Ending.{Ends, Disk, On}
use snoozer.Benchctl.Runtime.{atomic_write, atomic_write_lem}
use snoozer.Benchctl.Journal.{
  Codec, Journal, Stage, Transition, stage, advanced, validate, store, or_json,
}

-- serde_json reads back what it has written.
abbrev pub IsFaithful : Codec → Type 0
IsFaithful c =
    (j : Journal) (bytes : String) → c.to_vec_pretty j ≡ some bytes → c.from_slice bytes ≡ some j

-- The file at the path is this journal.
abbrev pub Stored : Codec → FileName → Directory → Journal → Type 0
Stored c path d j = (bytes : String) × (lookup path d ≡ some bytes) × (c.from_slice bytes ≡ some j)

some_inj : {A : Type 0} {a b : A} → some a ≡ some b → a ≡ b
some_inj h = cc h

-- A file is one journal at most.
pub Stored-unique :
    (c : Codec) (path : FileName) (d : Directory) (j k : Journal)
    → Stored c path d j
    → Stored c path d k
    → j ≡ k
Stored-unique c path d j k (a, la, ra) (b, lb, rb) =
    some_inj (sym ra ∙ ap c.from_slice (some_inj (sym la ∙ lb)) ∙ rb)

pub stage-advanced :
    (s : Stage) (a : Actor) (now : ℕ) (j : Journal) → stage (advanced s a now j) ≡ s
stage-advanced s a now j = last j.transitions
  where
    last :
        (ts : List Transition)
        → stage (record j {
          transitions = ts ++ record { stage = s; coordinator = a; unix_millis = now } ∷ [];
        })
          ≡ s
    last [] = refl
    last (t ∷ []) = refl
    last (t ∷ u ∷ ts) = last (u ∷ ts)

-- What follows a result that is computed without the operating system.
pub lift_result-then :
    {A B : Type 0} (Q : B → World → Type 0) (R : World → Type 0) (r : Result A BenchError)
    (f : A → Host B) (w : World)
    → R w
    → ((a : A) → r ≡ ok a → Ends Q R (f a w))
    → Ends Q R ((lift_result r >>= f) w)
lift_result-then Q R (ok a) f w h k = k a refl
lift_result-then Q R (err e) f w h k = h

or_json-ok : {A : Type 0} (op : String) (o : Option A) (a : A) → or_json op o ≡ ok a → o ≡ some a
or_json-ok op none a h = ground arith
or_json-ok op (some b) a h = ground arith

module _ (c : Codec) (faithful : IsFaithful c) (path : FileName) where
  -- Storing a journal leaves the disks as they are, or has put the journal into its file.
  module _ (I J : Disk) (j : Journal) where
    pub store_lem :
        (w : World)
        → On I w
        → ((u : World) (d : Directory) → On I u → Stored c path d j → J u.sysfs d)
        → ((u : World) → On J u → On I u)
        → Ends (λ _. On J) (On I) (store c path j w)
    unfolding store
    store_lem w h k weaken =
        lift_result-then (λ _. On J) (On I) (validate c j) _ w h
          (λ _ _.
            lift_result-then (λ _. On J) (On I) (or_json "serializing journal" (c.to_vec_pretty j))
              (atomic_write path) w h
              (λ bytes e.
                atomic_write_lem I J path bytes w h
                  (λ u hu. k u (replace path bytes u.operations) hu (
                    bytes,
                    lookup-replace path bytes u.operations,
                    faithful j bytes (or_json-ok "serializing journal" (c.to_vec_pretty j) bytes e),
                  ))
                  weaken))
