-- ===== src/Outcome.antt =====
-- What a computation of the thread returns, and the rules for sequences of computations.
use snoozer.Prelude.{Option, none, some, Bool, true, false, if◌then◌else◌, ◌≡◌, refl, arith}
use snoozer.Machine.{World, M, ◌>>=◌}

-- `P` holds of what is returned, if anything is returned.
abbrev pub Upto : {A : Type 0} → (A → World → Type 0) → Option (A × World) → Type 0
Upto P none = Unit
Upto P (some (a, w)) = P a w

-- Something is returned, and `P` holds of it.
abbrev pub Returns : {A : Type 0} → (A → World → Type 0) → Option (A × World) → Type 0
Returns P none = ⊥
Returns P (some (a, w)) = P a w

module _ {A : Type 0} (P : A → World → Type 0) where
  pub Returns-Upto : (o : Option (A × World)) → Returns P o → Upto P o
  Returns-Upto none h = tt
  Returns-Upto (some (a, w)) h = h

  module _ (Q : A → World → Type 0) (imp : (a : A) (w : World) → P a w → Q a w) where
    pub Returns-map : (o : Option (A × World)) → Returns P o → Returns Q o
    Returns-map none h = h
    Returns-map (some (a, w)) h = imp a w h

    pub Upto-map : (o : Option (A × World)) → Upto P o → Upto Q o
    Upto-map none h = tt
    Upto-map (some (a, w)) h = imp a w h

pub Upto-both :
    {A : Type 0} (P Q : A → World → Type 0) (o : Option (A × World))
    → Upto P o
    → Upto Q o
    → Upto (λ a w. P a w × Q a w) o
Upto-both P Q none p q = tt
Upto-both P Q (some (a, w)) p q = (p, q)

pub Returns-both :
    {A : Type 0} (P Q : A → World → Type 0) (o : Option (A × World))
    → Returns P o
    → Returns Q o
    → Returns (λ a w. P a w × Q a w) o
Returns-both P Q none p q = p
Returns-both P Q (some (a, w)) p q = (p, q)

pub Returns-meet :
    {A : Type 0} (P Q : A → World → Type 0) (o : Option (A × World))
    → Returns P o
    → Upto Q o
    → Returns (λ a w. P a w × Q a w) o
Returns-meet P Q none p q = p
Returns-meet P Q (some (a, w)) p q = (p, q)

-- The rules for `m >>= f`: what `m` returns is what `f` may rely on.
module _ {A B : Type 0} (P : A → World → Type 0) (Q : B → World → Type 0) (f : A → M B) where
  bound-Returns :
      (o : Option (A × World)) (w : World)
      → Returns P o
      → ((a : A) (u : World) → P a u → Returns Q (f a u))
      → Returns Q (((λ _. o) >>= f) w)
  bound-Returns none w h k = h
  bound-Returns (some (a, u)) w h k = k a u h

  pub Returns-bind :
      (m : M A) (w : World)
      → Returns P (m w)
      → ((a : A) (u : World) → P a u → Returns Q (f a u))
      → Returns Q ((m >>= f) w)
  Returns-bind m w = bound-Returns (m w) w

  bound-Upto :
      (o : Option (A × World)) (w : World)
      → Upto P o
      → ((a : A) (u : World) → P a u → Upto Q (f a u))
      → Upto Q (((λ _. o) >>= f) w)
  bound-Upto none w h k = tt
  bound-Upto (some (a, u)) w h k = k a u h

  pub Upto-bind :
      (m : M A) (w : World)
      → Upto P (m w)
      → ((a : A) (u : World) → P a u → Upto Q (f a u))
      → Upto Q ((m >>= f) w)
  Upto-bind m w = bound-Upto (m w) w

-- What a computation `m >>= f` that returned went through.
module _ {A B : Type 0} (f : A → M B) (b : B) (v : World) where
  bound-some :
      (o : Option (A × World)) (w : World)
      → ((λ _. o) >>= f) w ≡ some (b, v)
      → (a : A) × (u : World) × (o ≡ some (a, u)) × (f a u ≡ some (b, v))
  bound-some none w h = ground arith
  bound-some (some (a, u)) w h = (a, u, refl, h)

  pub bind-some :
      (m : M A) (w : World)
      → (m >>= f) w ≡ some (b, v)
      → (a : A) × (u : World) × (m w ≡ some (a, u)) × (f a u ≡ some (b, v))
  bind-some m w = bound-some (m w) w

-- What holds of either branch holds of the conditional.
pub if-both :
    {A : Type 0} (P : Option (A × World) → Type 0) (b : Bool) (m n : M A) (w : World)
    → (b ≡ true → P (m w))
    → (b ≡ false → P (n w))
    → P ((if b then m else n) w)
if-both P true m n w p q = p refl
if-both P false m n w p q = q refl

pub Upto-self : {A : Type 0} (o : Option (A × World)) → Upto (λ a w. o ≡ some (a, w)) o
Upto-self none = tt
Upto-self (some (a, w)) = refl
