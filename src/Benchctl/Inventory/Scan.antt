-- ===== src/Benchctl/Inventory/Scan.antt =====
-- The loops of the inventory describe the directories that they read, and change nothing.
use Prim.Native.String.{String}
use snoozer.Prelude.{
  ℕ, ◌≡◌, refl, sym, subst, true, false, not, List, [], ◌∷◌, ◌++◌, All, arith, sort,
}
use snoozer.Benchctl.Paths.{cpu_root, Directory}
use snoozer.Benchctl.Errors.{BenchError, state_error, preflight}
use snoozer.Benchctl.Host.{
  Node, missing, file, symlink, directory, Tree, World, pure, ◌>>=◌, throw_if,
}
use snoozer.Benchctl.Host.Ending.{Ends, Ends-map}
use snoozer.Benchctl.Host.Steady.{
  Still, Steady, Steady-bind, Steady-attempt, Steady-node, Steady-throw_if,
}
use snoozer.Benchctl.Journal.{IdleEntry}
use snoozer.Benchctl.Inventory.{
  Found, scan_states, names_in, sort_entries, is_exact, inventory_names, inventory_cpu, inventory,
  cpus_of, dedup, all_same, validate_inventory,
}
use snoozer.Benchctl.Inventory.Listed.{
  cpuidle_root, Listed, IsComplete, sort_entries-Perm, sort_entries-Ascending,
}
use snoozer.Benchctl.Inventory.Described.{
  Describes, Exact, count_named-sort_entries, All-append, sort_entries-All, reject_symlink-then,
}
use snoozer.Benchctl.Inventory.Loop.{Scanned, scan_states-Steady}

module _ (t : Tree) (d : Directory) (cpu : ℕ) where
  names_in-Steady :
      (n : Node) (w : World) → Still t d w → Steady t d (λ ns. n ≡ directory ns) (names_in n w)
  names_in-Steady missing w h = h
  names_in-Steady (file c) w h = h
  names_in-Steady symlink w h = h
  names_in-Steady (directory ns) w h = (h, refl)

  abbrev nothing : Found
  nothing = record { poll_count = 0; c1_count = 0; cpu_entries = [] }

  sorted-Exact :
      (names : List String) (found : Found)
      → t (cpuidle_root cpu) ≡ directory names
      → Scanned t cpu (Listed t cpu names) nothing found
      → is_exact found ≡ true
      → Exact t cpu (sort_entries found.cpu_entries)
        × IsComplete t cpu (sort_entries found.cpu_entries)
  sorted-Exact names found dir (p, (new, q, l)) e = (
    (
      sort_entries-All _ found.cpu_entries p.0,
      ground (arith, p.1, e, count_named-sort_entries "POLL" found.cpu_entries),
      ground (arith, p.2, e, count_named-sort_entries "C1" found.cpu_entries),
    ),
    (
      names,
      found.cpu_entries,
      dir,
      subst (Listed t cpu names) (sym q) l,
      sort_entries-Perm found.cpu_entries,
      sort_entries-Ascending found.cpu_entries,
    ),
  )

  -- The entries of the CPU: all described, with one of each of the two names, and all of them.
  abbrev Known : List IdleEntry → Type 0
  Known es = Exact t cpu es × IsComplete t cpu es

  inventory_names-Steady :
      (names : List String) (w : World)
      → t (cpuidle_root cpu) ≡ directory names
      → Still t d w
      → Steady t d Known (inventory_names cpu names w)
  unfolding inventory_names
  inventory_names-Steady names w dir h =
      Steady-bind t d (Scanned t cpu (Listed t cpu names) nothing) Known _
        (scan_states cpu (cpuidle_root cpu) names nothing) w
        (scan_states-Steady t d cpu names nothing w h (tt, refl, refl))
        (λ found u hu p.
          Steady-bind t d (λ _. not (is_exact found) ≡ false) Known
            (λ _. pure (sort_entries found.cpu_entries)) (throw_if (not (is_exact found)) inexact) u
            (Steady-throw_if t d (not (is_exact found)) inexact u hu)
            (λ _ u hu e. (hu, sorted-Exact names found dir p (ground (arith, e)))))
    where
      inexact : BenchError
      inexact = preflight "CPU must expose exact POLL and C1 cpuidle states"

  inventory_cpu-Steady : (w : World) → Still t d w → Steady t d Known (inventory_cpu cpu w)
  unfolding inventory_cpu
  inventory_cpu-Steady w h = reject_symlink-then t d Known (cpu_root cpu) _ w h (λ u hu.
      reject_symlink-then t d Known (cpuidle_root cpu) _ u hu (λ u hu.
        Steady-attempt t d Known _ _ u hu (λ u hu.
          Steady-node t d Known (cpuidle_root cpu) (λ node. names_in node >>= inventory_names cpu) u
            hu
            (Steady-bind t d (λ ns. t (cpuidle_root cpu) ≡ directory ns) Known (inventory_names cpu)
              (names_in (t (cpuidle_root cpu))) u (names_in-Steady (t (cpuidle_root cpu)) u hu)
              (λ names u hu e. inventory_names-Steady names u e hu)))))

-- The inventory of some CPUs is the states of each of them, in their order.
abbrev pub Inventoried : Tree → List ℕ → List IdleEntry → Type 0
Inventoried t [] es = es ≡ []
Inventoried t (cpu ∷ cpus) es =
    (first : List IdleEntry) × (rest : List IdleEntry) × (es ≡ first ++ rest)
    × Exact t cpu first
    × IsComplete t cpu first
    × Inventoried t cpus rest

-- The recorded states are those that the directories have, apart from the bits.
abbrev pub Current : Tree → List IdleEntry → Type 0
Current t recorded =
    (current : List IdleEntry) × Inventoried t (dedup (sort (cpus_of recorded))) current
    × (all_same current recorded ≡ true)

module _ (t : Tree) (d : Directory) where
  -- An inventory that is returned is exact: it lists, CPU by CPU, the states that the directories
  -- describe, with one state of each of the two names for each CPU. However it ends, nothing is changed.
  pub inventory-Steady :
      (cpus : List ℕ) (w : World) → Still t d w → Steady t d (Inventoried t cpus) (inventory cpus w)
  unfolding inventory
  inventory-Steady [] w h = (h, refl)
  inventory-Steady (cpu ∷ cpus) w h =
      Steady-bind t d (λ es. Exact t cpu es × IsComplete t cpu es) (Inventoried t (cpu ∷ cpus)) _
        (inventory_cpu cpu) w (inventory_cpu-Steady t d cpu w h)
        (λ first u hu p.
          Steady-bind t d (Inventoried t cpus) (Inventoried t (cpu ∷ cpus)) _ (inventory cpus) u
            (inventory-Steady cpus u hu) (λ rest u hu q. (hu, (first, rest, refl, p.0, p.1, q))))

  -- An inventory that is accepted is the current one, apart from the bits.
  pub validate_inventory-Steady :
      (recorded : List IdleEntry) (w : World)
      → Still t d w
      → Steady t d (λ _. Current t recorded) (validate_inventory recorded w)
  unfolding validate_inventory
  validate_inventory-Steady recorded w h =
      Steady-bind t d (Inventoried t cpus) (λ _. Current t recorded) _ (inventory cpus) w
        (inventory-Steady cpus w h)
        (λ current u hu p.
          Ends-map (λ _ v. Still t d v × (not (all_same current recorded) ≡ false))
            (λ _ v. Still t d v × Current t recorded) (Still t d) (Still t d)
            (throw_if (not (all_same current recorded)) differs u)
            (Steady-throw_if t d (not (all_same current recorded)) differs u hu)
            (λ _ v q. (q.0, (current, p, ground (arith, q.1)))) (λ _ q. q))
    where
      cpus : List ℕ
      cpus = dedup (sort (cpus_of recorded))

      differs : BenchError
      differs = state_error "current cpuidle inventory differs from the journal"

pub Inventoried-Describes :
    (t : Tree) (cpus : List ℕ) (es : List IdleEntry) → Inventoried t cpus es → All (Describes t) es
Inventoried-Describes t [] es p = subst (All (Describes t)) (sym p) tt
Inventoried-Describes t (cpu ∷ cpus) es (first, rest, e, x, _, q) =
    subst (All (Describes t)) (sym e)
      (All-append _ first rest (forget first x.0) (Inventoried-Describes t cpus rest q))
  where
    forget :
        (fs : List IdleEntry) → All (λ e. Describes t e × (e.cpu ≡ cpu)) fs → All (Describes t) fs
    forget [] h = tt
    forget (f ∷ fs) h = (h.0.0, forget fs h.1)

-- An inventory that is returned lists the states of the CPUs one CPU after the other. Those of a CPU are
-- exactly the names in the listing of its own cpuidle directory that start with "state", each with a
-- number after that, one entry for each name, sorted by the numbers; an entry has the number of its directory, the path of its file "disable", the
-- name and the bit that its two files have, and the bit 0 as wanted for the polling state and the first C
-- state alone; and each CPU has one of each of the two. However the inventory ends, it has changed
-- nothing.
pub inventory_exact :
    (cpus : List ℕ) (w : World)
    → Ends
        (λ es u. Still w.sysfs w.operations u × Inventoried w.sysfs cpus es)
        (Still w.sysfs w.operations)
        (inventory cpus w)
inventory_exact cpus w = inventory-Steady w.sysfs w.operations cpus w (refl, refl)
