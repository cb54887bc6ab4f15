-- ===== src/Benchctl/Inventory/Loop.antt =====
-- The loop of the inventory over the names of one cpuidle directory.
use Prim.Native.String.{String}
use text.Mathlib.Text.{◌==◌ as ◌=ₜ◌}
use snoozer.Prelude.{inl, inr, ℕ, ◌≡◌, refl, true, false, List, [], ◌∷◌, Option, none, some, arith}
use snoozer.Benchctl.Paths.{SysfsPath, join, Directory}
use snoozer.Benchctl.Host.{Tree, World}
use snoozer.Benchctl.Host.Ending.{Ends-map}
use snoozer.Benchctl.Host.Steady.{Still, Steady, Steady-bind, Steady-attempt}
use snoozer.Benchctl.Journal.{IdleEntry}
use snoozer.Benchctl.Text.{strip_prefix, parse_usize}
use snoozer.Benchctl.Inventory.{
  read_trimmed, read_bit, desired_bit, Found, noted, scan_state, or_invalid, scan_named,
  scan_states,
}
use text.Mathlib.TextEquality.{eq_iff}
use snoozer.Benchctl.Inventory.Listed.{cpuidle_root, Gives, Listed, Adds, Adds-nothing, Adds-Listed}
use snoozer.Benchctl.Inventory.Described.{
  Holds, HoldsBit, Tallied, count_named-append, All-append, reject_symlink-then,
  read_trimmed-Steady, read_bit-Steady,
}

poll-c1 : (name : String) → (name =ₜ "POLL") ≡ true → (name =ₜ "C1") ≡ false
poll-c1 name h = ground (arith, eq_iff name "POLL", eq_iff name "C1", eq_iff "POLL" "C1")

module _ (t : Tree) (cpu : ℕ) where
  noted-Tallied :
      (n : ℕ) (root : SysfsPath) (name bit : String) (found : Found)
      → Tallied t cpu found
      → Holds t (join root "name") name
      → HoldsBit t (join root "disable") bit
      → Tallied t cpu (noted cpu n (join root "disable") name bit found)
  noted-Tallied n root name bit found p q r = (
    All-append _ found.cpu_entries _ p.0 ((((root, refl, q), r, refl), refl), tt),
    ground (arith, p.1, count_named-append "POLL" found.cpu_entries new),
    ground (arith, p.2, poll-c1 name, count_named-append "C1" found.cpu_entries new),
  )
    where
      new : IdleEntry
      new = record {
        cpu = cpu;
        state = n;
        name = name;
        disable_path = join root "disable";
        original = bit;
        desired = desired_bit name;
      }

-- The loop over the names goes on from what was found: what it finds is what it says, and it adds
-- the entries of the names.
abbrev pub Scanned : Tree → ℕ → (List IdleEntry → Type 0) → Found → Found → Type 0
Scanned t cpu P f g = Tallied t cpu g × Adds t cpu P f g

module _ (t : Tree) (d : Directory) (cpu : ℕ) where
  scan_state-Steady :
      (name index : String) (found : Found) (n : ℕ) (w : World)
      → strip_prefix "state" name ≡ some index
      → parse_usize index ≡ some n
      → Still t d w
      → Tallied t cpu found
      → Steady t d
          (Scanned t cpu (Gives t cpu name) found)
          (scan_state cpu (join (cpuidle_root cpu) name) found n w)
  unfolding scan_state
  scan_state-Steady name index found n w s q h p = reject_symlink-then t d Post root _ w h (λ u hu.
      reject_symlink-then t d Post (join root "name") _ u hu (λ u hu.
        reject_symlink-then t d Post (join root "disable") _ u hu (λ u hu.
          Steady-bind t d (Holds t (join root "name")) Post _
            (read_trimmed (join root "name") "reading cpuidle state name") u
            (read_trimmed-Steady t d (join root "name") _ u hu)
            (λ label u hu k.
              Steady-bind t d (HoldsBit t (join root "disable")) Post _
                (read_bit (join root "disable")) u (read_bit-Steady t d (join root "disable") u hu)
                (λ bit u hu r. (
                  hu,
                  (
                    noted-Tallied t cpu n root label bit found p k r,
                    (_, refl, inr (_, refl, ((index, s, q), refl, refl, k, r, refl))),
                  ),
                ))))))
    where
      root : SysfsPath
      root = join (cpuidle_root cpu) name

      Post : Found → Type 0
      Post = Scanned t cpu (Gives t cpu name) found

  scan_named-Steady :
      (name : String) (found : Found) (w : World)
      → Still t d w
      → Tallied t cpu found
      → Steady t d
          (Scanned t cpu (Gives t cpu name) found)
          (scan_named cpu (join (cpuidle_root cpu) name) found (strip_prefix "state" name) w)
  scan_named-Steady name found w h p = at (strip_prefix "state" name) refl
    where
      Post : Found → Type 0
      Post = Scanned t cpu (Gives t cpu name) found

      numbered : (o : Option ℕ) → Steady t d (λ n. o ≡ some n) (or_invalid o w)
      numbered none = h
      numbered (some n) = (h, refl)

      at :
          (o : Option String)
          → strip_prefix "state" name ≡ o
          → Steady t d Post (scan_named cpu (join (cpuidle_root cpu) name) found o w)
      at none e = (h, (p, Adds-nothing t cpu (Gives t cpu name) found (inl (e, refl))))
      at (some index) e =
          Steady-bind t d (λ n. parse_usize index ≡ some n) Post
            (scan_state cpu (join (cpuidle_root cpu) name) found) (or_invalid (parse_usize index)) w
            (numbered (parse_usize index))
            (λ n u hu q. scan_state-Steady name index found n u e q hu p)

  pub scan_states-Steady :
      (names : List String) (found : Found) (w : World)
      → Still t d w
      → Tallied t cpu found
      → Steady t d
          (Scanned t cpu (Listed t cpu names) found)
          (scan_states cpu (cpuidle_root cpu) names found w)
  unfolding scan_states
  scan_states-Steady [] found w h p = (h, (p, Adds-nothing t cpu (Listed t cpu []) found refl))
  scan_states-Steady (name ∷ names) found w h p = Steady-attempt t d Post _ _ w h (λ u hu.
      Steady-bind t d (Scanned t cpu (Gives t cpu name) found) Post
        (scan_states cpu (cpuidle_root cpu) names)
        (scan_named cpu (join (cpuidle_root cpu) name) found (strip_prefix "state" name)) u
        (scan_named-Steady name found u hu p)
        (λ more u hu q.
          Ends-map (λ g v. Still t d v × Scanned t cpu (Listed t cpu names) more g)
            (λ g v. Still t d v × Post g) (Still t d) (Still t d)
            (scan_states cpu (cpuidle_root cpu) names more u)
            (scan_states-Steady names more u hu q.0)
            (λ g v x. (x.0, (x.1.0, Adds-Listed t cpu name names found more g q.1 x.1.1)))
            (λ _ x. x)))
    where
      Post : Found → Type 0
      Post = Scanned t cpu (Listed t cpu (name ∷ names)) found
