-- ===== src/Benchctl/Paths.antt =====
-- The paths that tools/benchctl builds: of the cpuidle directories below the sysfs root, and of the
-- files in its state directory.
use Prim.Native.String.{String}
use text.Mathlib.Text.{◌==◌ as ◌=ₜ◌}
use text.Mathlib.TextEquality.{eq_iff}
use snoozer.Prelude.{
  ℕ, ◌≡◌, ◌↔◌, Bool, true, false, ◌&&◌, Option, none, some, List, [], ◌∷◌, ◌==◌, ==_iff,
  if◌then◌else◌, arith,
}

-- `sysfs_root.join(format!("cpu{cpu}"))`, and `path.join(name)` below it.
pub data SysfsPath : Type 0 where
  cpu_root : (cpu : ℕ) → SysfsPath
  join : SysfsPath → String → SysfsPath

-- A file of the state directory by its stem and its extension.
pub record FileName : Type 0 where
  pub stem : String
  pub extension : String

abbrev pub same_path : SysfsPath → SysfsPath → Bool
same_path (cpu_root a) (cpu_root b) = a == b
same_path (cpu_root a) (join q t) = false
same_path (join p s) (cpu_root b) = false
same_path (join p s) (join q t) = (s =ₜ t) && same_path p q

abbrev pub same_file : FileName → FileName → Bool
same_file a b = (a.stem =ₜ b.stem) && (a.extension =ₜ b.extension)

pub same_path_iff : (p q : SysfsPath) → (same_path p q ≡ true) ↔ (p ≡ q)
same_path_iff (cpu_root a) (cpu_root b) = grind (arith, ==_iff a b)
same_path_iff (cpu_root a) (join q t) = ground arith
same_path_iff (join p s) (cpu_root b) = ground arith
same_path_iff (join p s) (join q t) = ground (arith, eq_iff s t, same_path_iff p q)

pub same_file_refl : (a : FileName) → same_file a a ≡ true
same_file_refl a = ground (arith, eq_iff a.stem a.stem, eq_iff a.extension a.extension)

-- A directory of named files, in the order in which `read_dir` lists it.
abbrev pub Directory : Type 0
Directory = List (FileName × String)

unfoldable pub lookup : FileName → Directory → Option String
lookup k [] = none
lookup k ((j, v) ∷ d) = if same_file j k then some v else lookup k d

unfoldable pub replace : FileName → String → Directory → Directory
replace k v [] = (k, v) ∷ []
replace k v ((j, u) ∷ d) = if same_file j k then (k, v) ∷ d else (j, u) ∷ replace k v d

pub lookup-replace : (k : FileName) (v : String) (d : Directory) → lookup k (replace k v d) ≡ some v
unfolding lookup replace
lookup-replace k v [] = ground (arith, same_file_refl k)
lookup-replace k v ((j, u) ∷ d) = ground (arith, same_file_refl k, lookup-replace k v d)

-- The files of another stem or extension stay as they are.
pub lookup-replace_other :
    (k j : FileName) (v : String) (d : Directory)
    → same_file k j ≡ false
    → ((i : FileName) → same_file i k ≡ true → same_file i j ≡ false)
    → lookup j (replace k v d) ≡ lookup j d
unfolding lookup replace
lookup-replace_other k j v [] h t = ground arith
lookup-replace_other k j v ((i, u) ∷ d) h t = ground (arith, t i, lookup-replace_other k j v d h t)
