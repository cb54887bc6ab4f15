-- ===== src/Benchctl/Inventory/Listed.antt =====
-- What the listing of a cpuidle directory has to do with the entries of the inventory.
use Prim.Native.String.{String}
use mathlib.Core.List.{Perm}
use mathlib.Core.List.Perm as Perm
use snoozer.Prelude.{
  ℕ, ◌≡◌, ◌≤◌, refl, sym, ap, ◌∙◌, ◌⊎◌, inl, inr, true, false, List, [], ◌∷◌, ◌++◌, none, some, leb,
  if◌then◌else◌, All, All-map, Bool-cases, arith,
}
use snoozer.Benchctl.Paths.{SysfsPath, cpu_root, join}
use snoozer.Benchctl.Host.{directory, Tree}
use snoozer.Benchctl.Journal.{IdleEntry}
use snoozer.Benchctl.Text.{strip_prefix, parse_usize}
use snoozer.Benchctl.Inventory.{desired_bit, Found, insert_entry, sort_entries}
use snoozer.Benchctl.Inventory.Described.{Holds, HoldsBit, insert_entry-All}

abbrev pub cpuidle_root : ℕ → SysfsPath
cpuidle_root cpu = join (cpu_root cpu) "cpuidle"

-- The entry is about the directory of this name below the cpuidle directory of the CPU: it has the
-- number of the name, the text of its file "name", and the bit of its file "disable".
abbrev pub IsEntry : Tree → ℕ → String → IdleEntry → Type 0
IsEntry t cpu name e =
    ((index : String) × (strip_prefix "state" name ≡ some index)
      × (parse_usize index ≡ some e.state))
    × (e.cpu ≡ cpu)
    × (e.disable_path ≡ join (join (cpuidle_root cpu) name) "disable")
    × Holds t (join (join (cpuidle_root cpu) name) "name") e.name
    × HoldsBit t (join (join (cpuidle_root cpu) name) "disable") e.original
    × (e.desired ≡ desired_bit e.name)

-- One name of the listing gives one entry if it is the name of a state, and none otherwise.
abbrev pub Gives : Tree → ℕ → String → List IdleEntry → Type 0
Gives t cpu name es =
    ((strip_prefix "state" name ≡ none) × (es ≡ []))
    ⊎ ((e : IdleEntry) × (es ≡ e ∷ []) × IsEntry t cpu name e)

-- The entries are those of the names, in their order.
abbrev pub Listed : Tree → ℕ → List String → List IdleEntry → Type 0
Listed t cpu [] es = es ≡ []
Listed t cpu (name ∷ names) es =
    (one : List IdleEntry) × (rest : List IdleEntry) × (es ≡ one ++ rest)
    × Gives t cpu name one
    × Listed t cpu names rest

-- The numbers of the states do not fall.
abbrev pub Ascending : List IdleEntry → Type 0
Ascending [] = Unit
Ascending (e ∷ es) = All (λ f. e.state ≤ f.state) es × Ascending es

-- The entries of the whole cpuidle directory of the CPU, by the numbers of the states.
abbrev pub IsComplete : Tree → ℕ → List IdleEntry → Type 0
IsComplete t cpu es =
    (names : List String) × (listed : List IdleEntry) × (t (cpuidle_root cpu) ≡ directory names)
    × Listed t cpu names listed
    × Perm es listed
    × Ascending es

-- The loop adds the entries of these names to what it has found.
abbrev pub Adds : Tree → ℕ → (List IdleEntry → Type 0) → Found → Found → Type 0
Adds t cpu P f g = (new : List IdleEntry) × (g.cpu_entries ≡ f.cpu_entries ++ new) × P new

append_nil : (es : List IdleEntry) → es ++ [] ≡ es
append_nil [] = refl
append_nil (e ∷ es) = ap (λ fs. e ∷ fs) (append_nil es)

append_assoc : (es fs gs : List IdleEntry) → (es ++ fs) ++ gs ≡ es ++ (fs ++ gs)
append_assoc [] fs gs = refl
append_assoc (e ∷ es) fs gs = ap (λ hs. e ∷ hs) (append_assoc es fs gs)

module _ (t : Tree) (cpu : ℕ) where
  pub Adds-nothing : (P : List IdleEntry → Type 0) (f : Found) → P [] → Adds t cpu P f f
  Adds-nothing P f p = ([], sym (append_nil f.cpu_entries), p)

  pub Adds-Listed :
      (name : String) (names : List String) (f g h : Found)
      → Adds t cpu (Gives t cpu name) f g
      → Adds t cpu (Listed t cpu names) g h
      → Adds t cpu (Listed t cpu (name ∷ names)) f h
  Adds-Listed name names f g h (one, p, x) (rest, q, y) = (
    one ++ rest,
    q ∙ ap (λ es. es ++ rest) p ∙ append_assoc f.cpu_entries one rest,
    (one, rest, refl, x, y),
  )

insert_entry-Perm : (e : IdleEntry) (es : List IdleEntry) → Perm (insert_entry e es) (e ∷ es)
insert_entry-Perm e [] = Perm.refl (e ∷ [])
insert_entry-Perm e (f ∷ es) =
    elim (leb e.state f.state)
      as (λ b. Perm (if b then e ∷ f ∷ es else f ∷ insert_entry e es) (e ∷ f ∷ es)) [
        | true ↦ Perm.refl (e ∷ f ∷ es)
        | false ↦ Perm.trans (Perm.cons f (insert_entry-Perm e es)) (Perm.swap e f es)
      ]

pub sort_entries-Perm : (es : List IdleEntry) → Perm (sort_entries es) es
sort_entries-Perm [] = Perm.refl []
sort_entries-Perm (e ∷ es) =
    Perm.trans (insert_entry-Perm e (sort_entries es)) (Perm.cons e (sort_entries-Perm es))

insert_entry-Ascending :
    (e : IdleEntry) (es : List IdleEntry) → Ascending es → Ascending (insert_entry e es)
insert_entry-Ascending e [] h = (tt, tt)
insert_entry-Ascending e (f ∷ es) h = elim (Bool-cases (leb e.state f.state)) [
  | inl b ↦ rw b (
    (
      ground (arith, b),
      All-map (λ g. f.state ≤ g.state) (λ g. e.state ≤ g.state) es h.0
          (λ g q. ground (arith, b, q)),
    ),
    h,
  )
  | inr b ↦ rw b (
    insert_entry-All (λ g. f.state ≤ g.state) e es (ground (arith, b)) h.0,
    insert_entry-Ascending e es h.1,
  )
]

pub sort_entries-Ascending : (es : List IdleEntry) → Ascending (sort_entries es)
sort_entries-Ascending [] = tt
sort_entries-Ascending (e ∷ es) =
    insert_entry-Ascending e (sort_entries es) (sort_entries-Ascending es)
