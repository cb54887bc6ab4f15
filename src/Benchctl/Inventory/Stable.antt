-- ===== src/Benchctl/Inventory/Stable.antt =====
-- An inventory stays valid while bits change.
use Prim.Native.String.{String}
use snoozer.Prelude.{ℕ, ◌≡◌, refl, sym, subst, false, not, List, [], ◌∷◌, ◌++◌, sort, arith}
use snoozer.Benchctl.Paths.{SysfsPath, cpu_root, join}
use snoozer.Benchctl.Errors.{BenchError, state_error, preflight}
use snoozer.Benchctl.Host.{
  Node, missing, file, symlink, directory, World, value, pure, ◌>>=◌, throw_if,
}
use snoozer.Benchctl.Host.Ending.{Ends, Faultless}
use snoozer.Benchctl.Host.Follows.{
  Answers, Follows, Follows-bind, Follows-pure, Follows-throw_if, Follows-attempt, Follows-node,
}
use snoozer.Benchctl.Journal.{IdleEntry}
use snoozer.Benchctl.Inventory.{
  Found, scan_states, names_in, sort_entries, is_exact, inventory_names, inventory_cpu, inventory,
  cpus_of, dedup, all_same, validate_inventory,
}
use snoozer.Benchctl.Inventory.Same.{
  SameStates, SameFound, SameStates-append, length-SameStates, sort_entries-SameStates,
  all_same-SameStates,
}
use snoozer.Benchctl.Inventory.Follow.{Rebits, kept, reject_symlink-follow, scan_states-Follows}

module _ (w u : World) (hw : Faultless w) (hu : Faultless u) (rebits : Rebits w.sysfs u.sysfs) where
  is_exact-SameFound :
      (f g : Found) → SameFound f g → not (is_exact f) ≡ false → not (is_exact g) ≡ false
  is_exact-SameFound f g s h =
      ground (arith, s.0, s.1, length-SameStates f.cpu_entries g.cpu_entries s.2, h)

  inventory_names-Follows :
      (cpu : ℕ) (names : List String)
      → Follows w u SameStates (inventory_names cpu names) (inventory_names cpu names)
  unfolding inventory_names
  inventory_names-Follows cpu names =
      Follows-bind w u SameFound SameStates _ _ (scan_states cpu root names nothing)
        (scan_states cpu root names nothing)
        (scan_states-Follows w u hw hu rebits cpu root names nothing nothing (refl, refl, tt))
        (λ f g s.
          Follows-bind w u (λ _ _. Unit) SameStates (λ _. pure (sort_entries f.cpu_entries))
            (λ _. pure (sort_entries g.cpu_entries)) (throw_if (not (is_exact f)) inexact)
            (throw_if (not (is_exact g)) inexact)
            (Follows-throw_if w u (not (is_exact f)) (not (is_exact g)) inexact inexact
              (is_exact-SameFound f g s))
            (λ _ _ _.
              Follows-pure w u SameStates (sort_entries f.cpu_entries) (sort_entries g.cpu_entries)
                (sort_entries-SameStates f.cpu_entries g.cpu_entries s.2)))
    where
      root : SysfsPath
      root = join (cpu_root cpu) "cpuidle"

      inexact : BenchError
      inexact = preflight "CPU must expose exact POLL and C1 cpuidle states"

      nothing : Found
      nothing = record { poll_count = 0; c1_count = 0; cpu_entries = [] }

  listed-Follows :
      (cpu : ℕ) (n : Node)
      → Follows w u SameStates
          (names_in n >>= inventory_names cpu)
          (names_in n >>= inventory_names cpu)
  listed-Follows cpu missing = tt
  listed-Follows cpu (file c) = tt
  listed-Follows cpu symlink = tt
  listed-Follows cpu (directory names) = inventory_names-Follows cpu names

  inventory_cpu-Follows : (cpu : ℕ) → Follows w u SameStates (inventory_cpu cpu) (inventory_cpu cpu)
  unfolding inventory_cpu
  inventory_cpu-Follows cpu = reject_symlink-follow w u hw hu rebits SameStates (cpu_root cpu) _ _ (
      reject_symlink-follow w u hw hu rebits SameStates root _ _ (
        Follows-attempt w u hw hu SameStates _ _ _ (
          Follows-node w u hw hu SameStates root (λ n. names_in n >>= inventory_names cpu)
            (λ n. names_in n >>= inventory_names cpu)
            (subst
              (λ n.
                Follows w u SameStates (names_in (w.sysfs root) >>= inventory_names cpu)
                  (names_in n >>= inventory_names cpu))
              (sym (kept w u hw hu rebits (cpu_root cpu) "cpuidle" refl))
              (listed-Follows cpu (w.sysfs root))))))
    where
      root : SysfsPath
      root = join (cpu_root cpu) "cpuidle"

  inventory-Follows : (cpus : List ℕ) → Follows w u SameStates (inventory cpus) (inventory cpus)
  unfolding inventory
  inventory-Follows [] = Follows-pure w u SameStates [] [] tt
  inventory-Follows (cpu ∷ cpus) =
      Follows-bind w u SameStates SameStates _ _ (inventory_cpu cpu) (inventory_cpu cpu)
        (inventory_cpu-Follows cpu)
        (λ a b s.
          Follows-bind w u SameStates SameStates (λ rest. pure (a ++ rest))
            (λ rest. pure (b ++ rest)) (inventory cpus) (inventory cpus) (inventory-Follows cpus)
            (λ c d r.
              Follows-pure w u SameStates (a ++ c) (b ++ d) (SameStates-append a b c d s r)))

  validate_inventory-Follows :
      (recorded : List IdleEntry)
      → Follows w u (λ _ _. Unit) (validate_inventory recorded) (validate_inventory recorded)
  unfolding validate_inventory
  validate_inventory-Follows recorded =
      Follows-bind w u SameStates (λ _ _. Unit) _ _ (inventory cpus) (inventory cpus)
        (inventory-Follows cpus)
        (λ es fs s.
          Follows-throw_if w u (not (all_same es recorded)) (not (all_same fs recorded)) differs
            differs (λ h. ground (arith, h, all_same-SameStates es fs recorded s)))
    where
      cpus : List ℕ
      cpus = dedup (sort (cpus_of recorded))

      differs : BenchError
      differs = state_error "current cpuidle inventory differs from the journal"

  -- Recorded states that are valid in one tree are valid in the other.
  pub validate_inventory-Rebits :
      (recorded : List IdleEntry)
      → validate_inventory recorded w ≡ (value tt, w)
      → validate_inventory recorded u ≡ (value tt, u)
  validate_inventory-Rebits recorded h = answered (
      subst
        (λ o.
          Ends (λ a x. (x ≡ w) × Answers u (λ _ _. Unit) (validate_inventory recorded) a)
            (λ _. Unit) o)
        h (validate_inventory-Follows recorded))
    where
      answered :
          (w ≡ w) × Answers u (λ _ _. Unit) (validate_inventory recorded) tt
          → validate_inventory recorded u ≡ (value tt, u)
      answered (i, (tt, e, r)) = e
