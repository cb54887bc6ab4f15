-- ===== src/Benchctl/Host/Steady.antt =====
-- Computations of benchctl that leave the disks as they are, and what they return.
use Prim.Native.String.{String}
use snoozer.Prelude.{◌≡◌, refl, sym, subst, Bool, true, false}
use snoozer.Benchctl.Paths.{SysfsPath, Directory}
use snoozer.Benchctl.Errors.{BenchError}
use snoozer.Benchctl.Host.{Node, Tree, World, Exit, Host, ◌>>=◌, ◌>>◌, attempt, throw_if, node_at}
use snoozer.Benchctl.Host.Ending.{Ends, Ends-bind, Ends-map, Disk, On, attempt-then}

-- The disks are `t` and `d`.
abbrev pub Still : Tree → Directory → World → Type 0
Still t d w = (w.sysfs ≡ t) × (w.operations ≡ d)

-- It ends with the disks as they are, and `P` of what it returns.
abbrev pub Steady : {A : Type 0} → Tree → Directory → (A → Type 0) → Exit A × World → Type 0
Steady t d P o = Ends (λ a u. Still t d u × P a) (Still t d) o

module _ (t : Tree) (d : Directory) where
  pub Steady-bind :
      {A B : Type 0} (P : A → Type 0) (Q : B → Type 0) (f : A → Host B) (m : Host A) (w : World)
      → Steady t d P (m w)
      → ((a : A) (u : World) → Still t d u → P a → Steady t d Q (f a u))
      → Steady t d Q ((m >>= f) w)
  Steady-bind P Q f m w h k =
      Ends-bind (λ a u. Still t d u × P a) (λ b u. Still t d u × Q b) (Still t d) f m w h
        (λ a u p. k a u p.0 p.1)

  pub Steady-attempt :
      {B : Type 0} (Q : B → Type 0) (op : String) (m : Host B) (w : World)
      → Still t d w
      → ((u : World) → Still t d u → Steady t d Q (m u))
      → Steady t d Q ((attempt op >> m) w)
  Steady-attempt Q op m w h k =
      attempt-then (λ s e. (s ≡ t) × (e ≡ d)) (λ b u. Still t d u × Q b) (Still t d) op m w h
        (λ _ p. p) k

  pub Steady-node :
      {B : Type 0} (Q : B → Type 0) (path : SysfsPath) (f : Node → Host B) (w : World)
      → Still t d w
      → Steady t d Q (f (t path) w)
      → Steady t d Q ((node_at path >>= f) w)
  Steady-node Q path f w h k = subst (λ s. Steady t d Q (f (s path) w)) (sym h.0) k

  pub Steady-throw_if :
      (b : Bool) (e : BenchError) (w : World)
      → Still t d w
      → Steady t d (λ _. b ≡ false) (throw_if b e w)
  Steady-throw_if true e w h = h
  Steady-throw_if false e w h = (h, refl)

-- Whatever holds of the disks still holds afterwards.
module _ (I : Disk) (w : World) where
  Still-On : (u : World) → On I w → Still w.sysfs w.operations u → On I u
  Still-On u h s = subst (λ t. I t u.operations) (sym s.0) (subst (λ d. I w.sysfs d) (sym s.1) h)

  pub Steady-Kept :
      {A : Type 0} (P : A → Type 0) (o : Exit A × World)
      → On I w
      → Steady w.sysfs w.operations P o
      → Ends (λ a u. On I u × Still w.sysfs w.operations u × P a) (On I) o
  Steady-Kept P o h s =
      Ends-map (λ a u. Still w.sysfs w.operations u × P a)
        (λ a u. On I u × Still w.sysfs w.operations u × P a) (Still w.sysfs w.operations) (On I) o s
        (λ a u p. (Still-On u h p.0, p.0, p.1)) (λ u. Still-On u h)
