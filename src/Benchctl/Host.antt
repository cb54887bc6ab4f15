-- ===== src/Benchctl/Host.antt =====
-- The machine that tools/benchctl runs on: the sysfs tree, the state directory, and what becomes of
-- each call of the operating system. A call passes, fails, or is the one at which the process dies;
-- what it wrote before stays written.
use Prim.Native.String.{String}
use snoozer.Prelude.{
  ℕ, ◌+◌, ◌≡◌, refl, Bool, true, false, List, [], ◌∷◌, Option, none, some, if◌then◌else◌,
}
use snoozer.Errors.{Result, ok, err}
use snoozer.Benchctl.Paths.{SysfsPath, same_path, Directory}
use snoozer.Benchctl.Errors.{BenchError, io}
pub mod Ending
pub mod Steady
pub mod Follows

-- A symbolic link is not followed here: benchctl rejects it before it reads below it.
pub data Node : Type 0 where
  missing : Node
  file : String → Node
  symlink : Node
  directory : List String → Node

abbrev pub Tree : Type 0
Tree = SysfsPath → Node

-- `uid` and `gid` of a process
pub record Actor : Type 0 where
  pub uid : ℕ
  pub gid : ℕ

pub data Verdict : Type 0 where
  passes : (elapsed : ℕ) → Verdict
  fails : Verdict
  crashes : Verdict

-- The calls after the last verdict pass in no time.
pub record World : Type 0 where
  pub sysfs : Tree
  pub operations : Directory
  pub verdicts : List Verdict
  pub now : ℕ  -- milliseconds since the epoch
  pub boot : String
  pub process : Actor

-- How a computation ends: it returns, it returns an error, or the process is gone.
pub data Exit {ℓ} (A : Type ℓ) : Type ℓ where
  value : A → Exit A
  failed : BenchError → Exit A
  halted : Exit A

abbrev pub Host {ℓ} : Type ℓ → Type ℓ
Host A = World → Exit A × World

abbrev pub Action : Type 0
Action = Host (Unit {0})

abbrev pub pure {ℓ} : {A : Type ℓ} → A → Host A
pure a w = (value a, w)

abbrev pub throw {ℓ} : {A : Type ℓ} → BenchError → Host A
throw e w = (failed e, w)

abbrev follow {ℓ κ} :
    {A : Type ℓ} {B : Type κ} → (A → Host B) → (BenchError → Host B) → Exit A → Host B
follow f h (value a) = f a
follow f h (failed e) = h e
follow f h halted = λ w. (halted, w)

infixl 5 ◌>>=◌ ◌>>◌
abbrev pub ◌>>=◌ {ℓ κ} : {A : Type ℓ} {B : Type κ} → Host A → (A → Host B) → Host B
(m >>= f) w = follow f throw ((m w).0) ((m w).1)

abbrev pub ◌>>◌ {ℓ} : {B : Type ℓ} → Action → Host B → Host B
m >> k = m >>= λ _. k

-- `match m { Ok(a) => .., Err(e) => .. }`
abbrev pub outcome {ℓ κ} :
    {A : Type ℓ} {B : Type κ} → Host A → (A → Host B) → (BenchError → Host B) → Host B
outcome m f h w = follow f h ((m w).0) ((m w).1)

abbrev pub throw_if : Bool → BenchError → Action
throw_if true e = throw e
throw_if false e = pure tt

abbrev judged : String → Verdict → Action
judged op (passes t) w = (value tt, record w { now = w.now + t })
judged op fails w = (failed (io op), w)
judged op crashes w = (halted, w)

abbrev heard : String → List Verdict → Action
heard op [] w = (value tt, w)
heard op (v ∷ vs) w = judged op v (record w { verdicts = vs })

-- One call of the operating system; an error of it is reported under the name of the operation.
unfoldable pub attempt : String → Action
attempt op w = heard op w.verdicts w

abbrev pub node_at : SysfsPath → Host Node
node_at p w = (value (w.sysfs p), w)

abbrev pub put : SysfsPath → Node → Tree → Tree
put p n t q = if same_path p q then n else t q

abbrev pub put_node : SysfsPath → Node → Action
put_node p n w = (value tt, record w { sysfs = put p n w.sysfs })

abbrev pub set_operations : Directory → Action
set_operations d w = (value tt, record w { operations = d })

abbrev pub lift_result {ℓ} : {A : Type ℓ} → Result A BenchError → Host A
lift_result (ok a) = pure a
lift_result (err e) = throw e
