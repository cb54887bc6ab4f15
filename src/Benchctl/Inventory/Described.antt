-- ===== src/Benchctl/Inventory/Described.antt =====
-- The inventory describes the cpuidle directories as they are, and changes nothing.
use Prim.Native.String.{String}
use text.Mathlib.Text.{◌==◌ as ◌=ₜ◌}
use snoozer.Prelude.{
  ℕ, suc, ◌+◌, ◌≡◌, refl, true, false, not, List, [], ◌∷◌, ◌++◌, if◌then◌else◌, leb, All, arith,
}
use snoozer.Benchctl.Paths.{SysfsPath, join, Directory}
use snoozer.Benchctl.Errors.{state_error}
use snoozer.Benchctl.Host.{
  Node, missing, file, symlink, directory, Tree, World, Host, pure, ◌>>=◌, throw_if,
}
use snoozer.Benchctl.Host.Steady.{
  Still, Steady, Steady-bind, Steady-attempt, Steady-node, Steady-throw_if,
}
use snoozer.Benchctl.Journal.{IdleEntry}
use snoozer.Benchctl.Text.{trim}
use snoozer.Benchctl.Inventory.{
  linked, text_of, reject_symlink, read_trimmed, read_bit, is_bit, desired_bit, Found, insert_entry,
  sort_entries,
}

-- The file at a path holds a text, between white space.
abbrev pub Holds : Tree → SysfsPath → String → Type 0
Holds t path v = (content : String) × (t path ≡ file content) × (trim content ≡ v)

abbrev pub HoldsBit : Tree → SysfsPath → String → Type 0
HoldsBit t path v = Holds t path v × (is_bit v ≡ true)

-- An entry names the file that it is about, with the name of its state and the bit that the file
-- holds, and the bit that is wanted for the state of this name.
abbrev pub Describes : Tree → IdleEntry → Type 0
Describes t e =
    ((root : SysfsPath) × (e.disable_path ≡ join root "disable")
      × Holds t (join root "name") e.name)
    × HoldsBit t e.disable_path e.original
    × (e.desired ≡ desired_bit e.name)

-- The number of states of a name.
abbrev pub count_named : String → List IdleEntry → ℕ
count_named name [] = 0
count_named name (e ∷ es) =
    let rest = count_named name es in if e.name =ₜ name then suc rest else rest

-- What the loop over the directory of one CPU has found is what it says.
abbrev pub Tallied : Tree → ℕ → Found → Type 0
Tallied t cpu found =
    All (λ e. Describes t e × (e.cpu ≡ cpu)) found.cpu_entries
    × (found.poll_count ≡ count_named "POLL" found.cpu_entries)
    × (found.c1_count ≡ count_named "C1" found.cpu_entries)

-- The states of one CPU: all described, with one of each of the two names.
abbrev pub Exact : Tree → ℕ → List IdleEntry → Type 0
Exact t cpu es =
    All (λ e. Describes t e × (e.cpu ≡ cpu)) es
    × (count_named "POLL" es ≡ 1)
    × (count_named "C1" es ≡ 1)

pub count_named-append :
    (name : String) (es : List IdleEntry) (e : IdleEntry)
    → count_named name (es ++ e ∷ []) ≡ count_named name es + count_named name (e ∷ [])
count_named-append name [] e = ground arith
count_named-append name (f ∷ es) e = ground (arith, count_named-append name es e)

count_named-insert_entry :
    (name : String) (e : IdleEntry) (es : List IdleEntry)
    → count_named name (insert_entry e es) ≡ count_named name (e ∷ es)
count_named-insert_entry name e [] = refl
count_named-insert_entry name e (f ∷ es) = ground (arith, count_named-insert_entry name e es)

pub count_named-sort_entries :
    (name : String) (es : List IdleEntry) → count_named name (sort_entries es) ≡ count_named name es
count_named-sort_entries name [] = refl
count_named-sort_entries name (e ∷ es) =
    ground
      (arith, count_named-insert_entry name e (sort_entries es), count_named-sort_entries name es)

module _ {ℓ} (P : IdleEntry → Type ℓ) where
  pub All-append : (es fs : List IdleEntry) → All P es → All P fs → All P (es ++ fs)
  All-append [] fs p q = q
  All-append (e ∷ es) fs p q = (p.0, All-append es fs p.1 q)

  pub insert_entry-All :
      (e : IdleEntry) (es : List IdleEntry) → P e → All P es → All P (insert_entry e es)
  insert_entry-All e [] p q = (p, tt)
  insert_entry-All e (f ∷ fs) p q =
      elim (leb e.state f.state) as (λ b. All P (if b then e ∷ f ∷ fs else f ∷ insert_entry e fs)) [
        | true ↦ (p, q)
        | false ↦ (q.0, insert_entry-All e fs p q.1)
      ]

  pub sort_entries-All : (es : List IdleEntry) → All P es → All P (sort_entries es)
  sort_entries-All [] p = tt
  sort_entries-All (e ∷ es) p = insert_entry-All e (sort_entries es) p.0 (sort_entries-All es p.1)

module _ (t : Tree) (d : Directory) where
  reject_symlink-Steady :
      (path : SysfsPath) (w : World) → Still t d w → Steady t d (λ _. Unit) (reject_symlink path w)
  unfolding reject_symlink
  reject_symlink-Steady path w h =
      Steady-attempt t d (λ _. Unit) _ _ w h
        (λ u hu. Steady-node t d (λ _. Unit) path linked u hu (linked-Steady (t path) u hu))
    where
      linked-Steady : (n : Node) (u : World) → Still t d u → Steady t d (λ _. Unit) (linked n u)
      linked-Steady missing u s = s
      linked-Steady (file c) u s = (s, tt)
      linked-Steady symlink u s = s
      linked-Steady (directory ns) u s = (s, tt)

  pub read_trimmed-Steady :
      (path : SysfsPath) (op : String) (w : World)
      → Still t d w
      → Steady t d (Holds t path) (read_trimmed path op w)
  unfolding read_trimmed
  read_trimmed-Steady path op w h = Steady-attempt t d (Holds t path) op _ w h (λ u hu.
      Steady-node t d (Holds t path) path (text_of op) u hu (text_of-Steady (t path) refl u hu))
    where
      text_of-Steady :
          (n : Node)
          → t path ≡ n
          → (u : World) → Still t d u
          → Steady t d (Holds t path) (text_of op n u)
      text_of-Steady missing e u s = s
      text_of-Steady (file c) e u s = (s, (c, e, refl))
      text_of-Steady symlink e u s = s
      text_of-Steady (directory ns) e u s = s

  pub read_bit-Steady :
      (path : SysfsPath) (w : World) → Still t d w → Steady t d (HoldsBit t path) (read_bit path w)
  unfolding read_bit
  read_bit-Steady path w h =
      Steady-bind t d (Holds t path) (HoldsBit t path) _ (read_trimmed path "reading cpuidle value")
        w (read_trimmed-Steady path "reading cpuidle value" w h)
        (λ v u hu p.
          Steady-bind t d (λ _. not (is_bit v) ≡ false) (HoldsBit t path) (λ _. pure v)
            (throw_if (not (is_bit v)) (state_error "cpuidle value is not 0 or 1")) u
            (Steady-throw_if t d (not (is_bit v)) _ u hu)
            (λ _ x hx b. (hx, (p, ground (arith, b)))))

  -- What follows once a path is known not to be a link.
  pub reject_symlink-then :
      {B : Type 0} (Q : B → Type 0) (path : SysfsPath) (f : Unit → Host B) (w : World)
      → Still t d w
      → ((u : World) → Still t d u → Steady t d Q (f tt u))
      → Steady t d Q ((reject_symlink path >>= f) w)
  reject_symlink-then Q path f w h k =
      Steady-bind t d (λ _. Unit) Q f (reject_symlink path) w (reject_symlink-Steady path w h)
        (λ _ u hu _. k u hu)
