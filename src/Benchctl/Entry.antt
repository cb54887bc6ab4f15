-- ===== src/Benchctl/Entry.antt =====
-- tools/benchctl/src/cpuidle.rs: the way to a run, from the command line over sudo to the privileged
-- coordinator.
use Prim.Native.Char.{Char, code}
use Prim.Native.String.{String, ◌++◌ as ◌++ₜ◌, slice}
use text.Mathlib.Text.{◌==◌ as ◌=ₜ◌}
use snoozer.Prelude.{
  ℕ, zero, suc, ◌+◌, ◌/◌, ◌%◌, Bool, true, false, not, ◌&&◌, ◌||◌, List, [], ◌∷◌, ◌++◌, Option,
  none, some, ltb, ◌==◌, if◌then◌else◌, is_none,
}
use snoozer.Errors.{Result, ok, err}
use snoozer.Benchctl.Errors.{BenchError, preflight}
use snoozer.Benchctl.Host.{
  Actor, World, Host, Action, pure, throw, ◌>>=◌, ◌>>◌, throw_if, lift_result,
}
use snoozer.Benchctl.Journal.{Codec, actor}
use snoozer.Benchctl.Supervision.{Services}
use snoozer.Benchctl.Run.{RunRequest, coordinate_run}
pub mod Guarded

abbrev pub real_sysfs_root : String
real_sysfs_root = "/sys/devices/system/cpu"

abbrev pub real_state_root : String
real_state_root = "/run/benchctl/operations"

-- What the process asks of its surroundings: absolute paths, with and without resolving links, its
-- own executable and number, and sudo with these arguments, waited for.
pub record Shell : Type 0 where
  pub absolute : String → Host String
  pub absolute_existing : String → Host String
  pub current_exe : Host String
  pub process_id : ℕ
  pub sudo : List String → Action

-- The parts of a path, with what is between two separators.
abbrev add_char : Char → List String → List String
add_char c [] = String.◌∷◌ c String.[] ∷ []
add_char c (s ∷ ss) = String.◌∷◌ c s ∷ ss

abbrev parts : String → List String
parts String.[] = "" ∷ []
parts (String.◌∷◌ c s) = let rest = parts s in if code c == b'/' then "" ∷ rest else add_char c rest

abbrev named_parts : List String → List String
named_parts [] = []
named_parts (s ∷ ss) =
    let rest = named_parts ss in if (s =ₜ "") || (s =ₜ ".") then rest else s ∷ rest

-- The components of a path: a repeated separator, one at the end, and a dot after the first are not
-- among them; an absolute path has an empty first one.
abbrev components_of : List String → List String
components_of [] = []
components_of (s ∷ ss) = s ∷ named_parts ss

abbrev pub components : String → List String
components path = components_of (parts path)

abbrev equal_lists : List String → List String → Bool
equal_lists [] [] = true
equal_lists [] (t ∷ ts) = false
equal_lists (s ∷ ss) [] = false
equal_lists (s ∷ ss) (t ∷ ts) = (s =ₜ t) && equal_lists ss ts

-- Two paths are equal if their components are.
unfoldable pub equal_paths : String → String → Bool
equal_paths p q = equal_lists (components p) (components q)

abbrev pub is_real_root : String → Bool
is_real_root path = equal_paths path real_sysfs_root

abbrev pub validate_production_state_root : String → String → Result (Unit {0}) BenchError
validate_production_state_root sysfs_root state_root =
    if is_real_root sysfs_root && not (equal_paths state_root real_state_root)
    then err
        (preflight "real sysfs operations require the fixed root-owned Benchctl state directory")
    else ok tt

abbrev pub require_coordinator_privilege : String → Bool → Action
require_coordinator_privilege sysfs_root coordinator = do
  process ← actor
  throw_if (is_real_root sysfs_root && (not coordinator || not (process.uid == 0)))
      (preflight "real sysfs operations require the hidden privileged coordinator")

abbrev is_traversal : List String → Bool
is_traversal [] = false
is_traversal (s ∷ ss) = (s =ₜ "..") || is_traversal ss

abbrev pub absolute_without_existing : Shell → String → Host String
absolute_without_existing sh path = do
  absolute ← sh.absolute path
  throw_if (equal_paths absolute "/" || is_traversal (components absolute))
      (preflight "state root must be an absolute non-root path without traversal")
  pure absolute

-- An operation on the files below a sysfs root is handed to sudo or done here.
abbrev pub gate_as : {A : Type 0} → Bool → String → Bool → Host A → Host A → Host A
gate_as true sysfs_root coordinator delegate body = delegate
gate_as false sysfs_root coordinator delegate body = do
  require_coordinator_privilege sysfs_root coordinator
  body

unfoldable pub gate : {A : Type 0} → String → String → Bool → Host A → Host A → Host A
gate sysfs_root state_root coordinator delegate body = do
  lift_result (validate_production_state_root sysfs_root state_root)
  gate_as (is_real_root sysfs_root && not coordinator) sysfs_root coordinator delegate body

-- A number in decimal; a number has no more digits than it has units.
abbrev digits : ℕ → ℕ → String
digits zero n = slice "0123456789" n (suc n)
digits (suc fuel) n =
    let rest = digits fuel (n / 10) in
    if ltb n 10
    then slice "0123456789" n (suc n)
    else rest ++ₜ slice "0123456789" (n % 10) (suc (n % 10))

abbrev pub decimal : ℕ → String
decimal n = digits n n

abbrev operation_arguments : Option String → List String
operation_arguments none = []
operation_arguments (some id) = "--operation-id" ∷ id ∷ []

abbrev cpu_arguments : List ℕ → List String
cpu_arguments [] = []
cpu_arguments (cpu ∷ cpus) = "--cpu" ∷ decimal cpu ∷ cpu_arguments cpus

-- The arguments of `sudo` for a run.
abbrev pub sudo_arguments : String → ℕ → RunRequest → List String
sudo_arguments executable pid request =
    ("--"
      ∷ executable
      ∷ "run"
      ∷ "--coordinator"
      ∷ "--client-pid"
      ∷ decimal pid
      ∷ "--receipt"
      ∷ request.receipt_path
      ∷ "--cpuidle"
      ∷ "poll-c1"
      ∷ "--timeout"
      ∷ decimal request.timeout_seconds
      ∷ "--sysfs-root"
      ∷ request.sysfs_root
      ∷ "--state-root"
      ∷ request.state_root
      ∷ [])
    ++ operation_arguments request.operation_id
    ++ cpu_arguments request.cpus
    ++ ("--" ∷ request.workload)

unfoldable pub sudo_run : Shell → RunRequest → Action
sudo_run sh request = do
  executable ← sh.current_exe
  sh.sudo (sudo_arguments executable sh.process_id request)

-- A run on the real files has a client.
abbrev pub for_client : (RunRequest → Action) → RunRequest → Action
for_client coordinate request = do
  throw_if (is_real_root request.sysfs_root && is_none request.client_pid)
      (preflight "privileged run coordinator requires its unprivileged client PID")
  coordinate request

-- The run of a request whose paths are absolute: `coordinate` is reached in a process that may.
unfoldable pub launch : Shell → (RunRequest → Action) → RunRequest → Action
launch sh coordinate request =
    gate request.sysfs_root request.state_root request.coordinator (sudo_run sh request)
      (for_client coordinate request)

unfoldable pub run : Codec → Services → Shell → RunRequest → Action
run c s sh request = do
  receipt_path ← sh.absolute request.receipt_path
  sysfs_root ← sh.absolute_existing request.sysfs_root
  state_root ← absolute_without_existing sh request.state_root
  launch sh (coordinate_run c s) (record request {
    receipt_path = receipt_path;
    sysfs_root = sysfs_root;
    state_root = state_root;
  })
