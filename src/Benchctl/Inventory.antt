-- ===== src/Benchctl/Inventory.antt =====
-- tools/benchctl/src/cpuidle.rs: reading and writing the files of the cpuidle directories, and the
-- inventory of the idle states of some CPUs.
use Prim.Native.String.{String, ◌++◌ as ◌++ₜ◌}
use text.Mathlib.Text.{◌==◌ as ◌=ₜ◌}
use snoozer.Prelude.{
  ℕ, suc, Bool, true, false, not, ◌&&◌, ◌||◌, List, [], ◌∷◌, ◌++◌, Option, none, some, leb, ◌==◌,
  if◌then◌else◌, length, sort,
}
use snoozer.Benchctl.Paths.{SysfsPath, cpu_root, join, same_path}
use snoozer.Benchctl.Errors.{BenchError, preflight, state_error, io}
use snoozer.Benchctl.Host.{
  Node, missing, file, symlink, directory, Host, Action, pure, throw, ◌>>=◌, ◌>>◌, attempt,
  throw_if, node_at, put_node,
}
use snoozer.Benchctl.Journal.{IdleEntry}
use snoozer.Benchctl.Text.{trim, strip_prefix, parse_usize}
pub mod Described
pub mod Listed
pub mod Loop
pub mod Scan
pub mod Same
pub mod Follow
pub mod Stable

abbrev linked : Node → Action
linked missing = throw (io "inspecting controlled path")
linked symlink = throw (preflight "symbolic links are rejected")
linked _ = pure tt

unfoldable pub reject_symlink : SysfsPath → Action
reject_symlink path = do attempt "inspecting controlled path"; node ← node_at path; linked node

abbrev text_of : String → Node → Host String
text_of op (file content) = pure (trim content)
text_of op _ = throw (io op)

unfoldable pub read_trimmed : SysfsPath → String → Host String
read_trimmed path op = do attempt op; node ← node_at path; text_of op node

abbrev pub is_bit : String → Bool
is_bit v = (v =ₜ "0") || (v =ₜ "1")

unfoldable pub read_bit : SysfsPath → Host String
read_bit path = do
  bit ← read_trimmed path "reading cpuidle value"
  throw_if (not (is_bit bit)) (state_error "cpuidle value is not 0 or 1")
  pure bit

-- `fs::write` to a file that is there. A sysfs file has no contents to truncate: opening and writing it
-- is one step here.
abbrev pub overwrite : SysfsPath → String → Node → Action
overwrite path content (file _) = put_node path (file content)
overwrite path content _ = throw (io "writing cpuidle value")

unfoldable pub write_file : SysfsPath → String → Action
write_file path content = do
  attempt "writing cpuidle value"
  node ← node_at path
  overwrite path content node

unfoldable pub write_bit : SysfsPath → String → Action
write_bit path bit = do
  write_file path (bit ++ₜ "\n")
  actual ← read_bit path
  throw_if (not (actual =ₜ bit)) (state_error "cpuidle readback failed")

-- What the loop over the directory of one CPU has found so far.
pub record Found : Type 0 where
  pub poll_count : ℕ
  pub c1_count : ℕ
  pub cpu_entries : List IdleEntry

abbrev pub desired_bit : String → String
desired_bit name = if (name =ₜ "POLL") || (name =ₜ "C1") then "0" else "1"

abbrev pub noted : ℕ → ℕ → SysfsPath → String → String → Found → Found
noted cpu state path name original found = record {
  poll_count = if name =ₜ "POLL" then suc found.poll_count else found.poll_count;
  c1_count = if not (name =ₜ "POLL") && (name =ₜ "C1") then suc found.c1_count else found.c1_count;
  cpu_entries =
      found.cpu_entries
      ++ record {
        cpu = cpu;
        state = state;
        name = name;
        disable_path = path;
        original = original;
        desired = desired_bit name;
      }
        ∷ [];
}

unfoldable pub scan_state : ℕ → SysfsPath → Found → ℕ → Host Found
scan_state cpu state_root found state = do
  reject_symlink state_root
  reject_symlink (join state_root "name")
  reject_symlink (join state_root "disable")
  name ← read_trimmed (join state_root "name") "reading cpuidle state name"
  original ← read_bit (join state_root "disable")
  pure (noted cpu state (join state_root "disable") name original found)

abbrev pub or_invalid : Option ℕ → Host ℕ
or_invalid none = throw (preflight "invalid cpuidle state directory")
or_invalid (some n) = pure n

abbrev pub scan_named : ℕ → SysfsPath → Found → Option String → Host Found
scan_named cpu state_root found none = pure found
scan_named cpu state_root found (some index) =
    or_invalid (parse_usize index) >>= scan_state cpu state_root found

unfoldable pub scan_states : ℕ → SysfsPath → List String → Found → Host Found
scan_states cpu root [] found = pure found
scan_states cpu root (name ∷ names) found = do
  attempt "reading cpuidle entry"
  more ← scan_named cpu (join root name) found (strip_prefix "state" name)
  scan_states cpu root names more

abbrev pub names_in : Node → Host (List String)
names_in (directory names) = pure names
names_in _ = throw (io "reading cpuidle inventory")

-- `sort_by_key(|entry| entry.state)`, which is stable
abbrev insert_entry : IdleEntry → List IdleEntry → List IdleEntry
insert_entry e [] = e ∷ []
insert_entry e (f ∷ fs) = if leb e.state f.state then e ∷ f ∷ fs else f ∷ insert_entry e fs

abbrev pub sort_entries : List IdleEntry → List IdleEntry
sort_entries [] = []
sort_entries (e ∷ es) = insert_entry e (sort_entries es)

abbrev pub is_exact : Found → Bool
is_exact found =
    not (length found.cpu_entries == 0) && (found.poll_count == 1) && (found.c1_count == 1)

-- The states that are listed under the names of the directory of one CPU.
unfoldable pub inventory_names : ℕ → List String → Host (List IdleEntry)
inventory_names cpu names = do
  found ←
      scan_states cpu (join (cpu_root cpu) "cpuidle") names
        (record { poll_count = 0; c1_count = 0; cpu_entries = [] })
  throw_if (not (is_exact found)) (preflight "CPU must expose exact POLL and C1 cpuidle states")
  pure (sort_entries found.cpu_entries)

unfoldable pub inventory_cpu : ℕ → Host (List IdleEntry)
inventory_cpu cpu = do
  reject_symlink (cpu_root cpu)
  reject_symlink (join (cpu_root cpu) "cpuidle")
  attempt "reading cpuidle inventory"
  node ← node_at (join (cpu_root cpu) "cpuidle")
  names ← names_in node
  inventory_names cpu names

unfoldable pub inventory : List ℕ → Host (List IdleEntry)
inventory [] = pure []
inventory (cpu ∷ cpus) = do
  entries ← inventory_cpu cpu
  rest ← inventory cpus
  pure (entries ++ rest)

abbrev pub cpus_of : List IdleEntry → List ℕ
cpus_of [] = []
cpus_of (e ∷ es) = e.cpu ∷ cpus_of es

-- `dedup`: of equal neighbours the first stays
abbrev dedup_after : ℕ → List ℕ → List ℕ
dedup_after a [] = []
dedup_after a (b ∷ xs) = let rest = dedup_after b xs in if a == b then rest else b ∷ rest

abbrev pub dedup : List ℕ → List ℕ
dedup [] = []
dedup (a ∷ xs) = a ∷ dedup_after a xs

abbrev pub same_state : IdleEntry → IdleEntry → Bool
same_state left right =
    (left.cpu == right.cpu)
    && (left.state == right.state)
    && (left.name =ₜ right.name)
    && same_path left.disable_path right.disable_path

abbrev pub all_same : List IdleEntry → List IdleEntry → Bool
all_same [] [] = true
all_same (e ∷ es) (f ∷ fs) = same_state e f && all_same es fs
all_same _ _ = false

unfoldable pub validate_inventory : List IdleEntry → Action
validate_inventory recorded = do
  current ← inventory (dedup (sort (cpus_of recorded)))
  throw_if (not (all_same current recorded))
      (state_error "current cpuidle inventory differs from the journal")
