-- ===== src/Benchctl/Host/Ending.antt =====
-- What holds when a computation of benchctl ends: `P` of what it returns, `R` when it does not
-- return, and the rules for sequences of computations.
use Prim.Native.String.{String}
use snoozer.Prelude.{◌≡◌, refl, Bool, true, false, List, [], ◌∷◌}
use snoozer.Benchctl.Paths.{Directory}
use snoozer.Benchctl.Errors.{BenchError}
use snoozer.Benchctl.Host.{
  Tree, World, Verdict, passes, fails, crashes, Exit, value, failed, halted, Host, ◌>>=◌, ◌>>◌,
  outcome, attempt, throw_if,
}

abbrev pub Ends : {A : Type 0} → (A → World → Type 0) → (World → Type 0) → Exit A × World → Type 0
Ends P R (value a, w) = P a w
Ends P R (failed e, w) = R w
Ends P R (halted, w) = R w

-- It returns, with `P` of what it returns.
abbrev pub Returns : {A : Type 0} → (A → World → Type 0) → Exit A × World → Type 0
Returns P o = Ends P (λ _. ⊥) o

-- A predicate on what is on the disks: the sysfs tree and the state directory.
abbrev pub Disk : Type 1
Disk = Tree → Directory → Type 0

abbrev pub On : Disk → World → Type 0
On I w = I w.sysfs w.operations

-- `I` holds however it ends.
abbrev pub Kept : {A : Type 0} → Disk → Exit A × World → Type 0
Kept I o = Ends (λ _. On I) (On I) o

-- No further call fails.
abbrev pub Faultless : World → Type 0
Faultless w = w.verdicts ≡ []

module _ {A B : Type 0} (P : A → World → Type 0) (Q : B → World → Type 0) (R : World → Type 0) where
  ended-bind :
      (f : A → Host B) (o : Exit A × World) (w : World)
      → Ends P R o
      → ((a : A) (u : World) → P a u → Ends Q R (f a u))
      → Ends Q R (((λ _. o) >>= f) w)
  ended-bind f (value a, u) w h k = k a u h
  ended-bind f (failed e, u) w h k = h
  ended-bind f (halted, u) w h k = h

  pub Ends-bind :
      (f : A → Host B) (m : Host A) (w : World)
      → Ends P R (m w)
      → ((a : A) (u : World) → P a u → Ends Q R (f a u))
      → Ends Q R ((m >>= f) w)
  Ends-bind f m w = ended-bind f (m w) w

-- What follows a computation whose error is taken up.
module _ {A B : Type 0} (P : A → World → Type 0) (Q : B → World → Type 0)
    (R S : World → Type 0) where
  ended-outcome :
      (f : A → Host B) (g : BenchError → Host B) (o : Exit A × World) (w : World)
      → Ends P R o
      → ((a : A) (u : World) → P a u → Ends Q S (f a u))
      → ((e : BenchError) (u : World) → R u → Ends Q S (g e u))
      → ((u : World) → R u → S u)
      → Ends Q S (outcome (λ _. o) f g w)
  ended-outcome f g (value a, u) w h k l m = k a u h
  ended-outcome f g (failed e, u) w h k l m = l e u h
  ended-outcome f g (halted, u) w h k l m = m u h

  pub Ends-outcome :
      (f : A → Host B) (g : BenchError → Host B) (m : Host A) (w : World)
      → Ends P R (m w)
      → ((a : A) (u : World) → P a u → Ends Q S (f a u))
      → ((e : BenchError) (u : World) → R u → Ends Q S (g e u))
      → ((u : World) → R u → S u)
      → Ends Q S (outcome m f g w)
  Ends-outcome f g m w = ended-outcome f g (m w) w

-- Weaker predicates hold as well.
module _ {A : Type 0} (P Q : A → World → Type 0) (R S : World → Type 0) where
  pub Ends-map :
      (o : Exit A × World)
      → Ends P R o
      → ((a : A) (w : World) → P a w → Q a w)
      → ((w : World) → R w → S w)
      → Ends Q S o
  Ends-map (value a, w) h f g = f a w h
  Ends-map (failed e, w) h f g = g w h
  Ends-map (halted, w) h f g = g w h

-- A call of the operating system leaves the disks to its caller.
module _ (I : Disk) where
  heard-Kept :
      (op : String) (v : List Verdict) (w : World) → w.verdicts ≡ v → On I w → Kept I (attempt op w)
  unfolding attempt
  heard-Kept op [] w e h = rw e h
  heard-Kept op (passes t ∷ vs) w e h = rw e h
  heard-Kept op (fails ∷ vs) w e h = rw e h
  heard-Kept op (crashes ∷ vs) w e h = rw e h

  pub attempt-Kept : (op : String) (w : World) → On I w → Kept I (attempt op w)
  attempt-Kept op w = heard-Kept op w.verdicts w refl

  pub throw_if-Kept : (b : Bool) (e : BenchError) (w : World) → On I w → Kept I (throw_if b e w)
  throw_if-Kept true e w h = h
  throw_if-Kept false e w h = h

pub attempt-Faultless : (op : String) (w : World) → Faultless w → attempt op w ≡ (value tt, w)
unfolding attempt
attempt-Faultless op w e = rw e refl

-- What follows a call starts from the disks that the call was made on.
module _ {B : Type 0} (I : Disk) (Q : B → World → Type 0) (R : World → Type 0) where
  pub attempt-then :
      (op : String) (m : Host B) (w : World)
      → On I w
      → ((u : World) → On I u → R u)
      → ((u : World) → On I u → Ends Q R (m u))
      → Ends Q R ((attempt op >> m) w)
  attempt-then op m w h r k =
      Ends-bind (λ _. On I) Q R (λ _. m) (attempt op) w
        (Ends-map (λ _. On I) (λ _. On I) (On I) R (attempt op w) (attempt-Kept I op w h)
          (λ _ _ p. p) r)
        (λ _. k)

pub attempt-then-Faultless :
    {B : Type 0} (op : String) (m : Host B) (w : World) → Faultless w → (attempt op >> m) w ≡ m w
attempt-then-Faultless op m w e = rw (attempt-Faultless op w e) refl
