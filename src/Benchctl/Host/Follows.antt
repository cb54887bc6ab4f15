-- ===== src/Benchctl/Host/Follows.antt =====
-- Two computations of benchctl that read two trees and return related values.
use Prim.Native.String.{String}
use snoozer.Prelude.{◌≡◌, refl, sym, subst, Bool, true, false}
use snoozer.Benchctl.Paths.{SysfsPath}
use snoozer.Benchctl.Errors.{BenchError}
use snoozer.Benchctl.Host.{Node, World, Host, value, pure, ◌>>=◌, ◌>>◌, attempt, throw_if, node_at}
use snoozer.Benchctl.Host.Ending.{Ends, Ends-bind, Ends-map, Faultless, attempt-Faultless}

-- On `u`, `n` returns a value that is related to `a`, and changes nothing.
abbrev pub Answers : {A B : Type 0} → World → (A → B → Type 0) → Host B → A → Type 0
Answers {A} {B} u R n a = (b : B) × (n u ≡ (value b, u)) × R a b

-- Where `m` returns on `w`, it changes nothing, and `n` returns a related value on `u`.
abbrev pub Follows : {A B : Type 0} → World → World → (A → B → Type 0) → Host A → Host B → Type 0
Follows w u R m n = Ends (λ a x. (x ≡ w) × Answers u R n a) (λ _. Unit) (m w)

module _ (w u : World) where
  pub Follows-bind :
      {A B C D : Type 0} (R : A → B → Type 0) (S : C → D → Type 0) (f : A → Host C) (g : B → Host D)
      (m : Host A) (n : Host B)
      → Follows w u R m n
      → ((a : A) (b : B) → R a b → Follows w u S (f a) (g b))
      → Follows w u S (m >>= f) (n >>= g)
  Follows-bind R S f g m n h k =
      Ends-bind (λ a x. (x ≡ w) × Answers u R n a) (λ c x. (x ≡ w) × Answers u S (n >>= g) c)
        (λ _. Unit) f m w h
        (λ a x (e, (b, q, r)).
          subst (λ y. Ends (λ c x. (x ≡ w) × Answers u S (n >>= g) c) (λ _. Unit) (f a y)) (sym e)
            (Ends-map (λ c x. (x ≡ w) × Answers u S (g b) c)
              (λ c x. (x ≡ w) × Answers u S (n >>= g) c) (λ _. Unit) (λ _. Unit) (f a w) (k a b r)
              (λ c x (i, (d, j, t)). (i, (d, rw q j, t))) (λ _ _. tt)))

  pub Follows-pure :
      {A B : Type 0} (R : A → B → Type 0) (a : A) (b : B) → R a b → Follows w u R (pure a) (pure b)
  Follows-pure R a b r = (refl, (b, refl, r))

  pub Follows-throw_if :
      (a b : Bool) (e f : BenchError)
      → (a ≡ false → b ≡ false)
      → Follows w u (λ _ _. Unit) (throw_if a e) (throw_if b f)
  Follows-throw_if true b e f h = tt
  Follows-throw_if false b e f h = rw (h refl) (refl, (tt, refl, tt))

  -- No call fails on either side.
  module _ (hw : Faultless w) (hu : Faultless u) where
    pub Follows-attempt :
        {A B : Type 0} (R : A → B → Type 0) (op : String) (m : Host A) (n : Host B)
        → Follows w u R m n
        → Follows w u R (attempt op >> m) (attempt op >> n)
    Follows-attempt R op m n h =
        Follows-bind (λ _ _. Unit) R (λ _. m) (λ _. n) (attempt op) (attempt op)
          (rw (attempt-Faultless op w hw) (refl, (tt, attempt-Faultless op u hu, tt))) (λ _ _ _. h)

    pub Follows-node :
        {A B : Type 0} (R : A → B → Type 0) (p : SysfsPath) (f : Node → Host A) (g : Node → Host B)
        → Follows w u R (f (w.sysfs p)) (g (u.sysfs p))
        → Follows w u R (node_at p >>= f) (node_at p >>= g)
    Follows-node R p f g h = h
