-- ===== src/Benchctl/Inventory/Same.antt =====
-- Lists of idle states that are the same but for their bits.
use snoozer.Prelude.{
  suc, ◌≡◌, refl, subst, ap, Bool, true, false, ◌&&◌, List, [], ◌∷◌, ◌++◌, if◌then◌else◌, leb,
  length, arith,
}
use snoozer.Benchctl.Journal.{IdleEntry}
use snoozer.Benchctl.Inventory.{Found, insert_entry, sort_entries, same_state, all_same}

-- The same idle state, with whatever bit.
abbrev pub SameState : IdleEntry → IdleEntry → Type 0
SameState e f =
    (e.cpu ≡ f.cpu) × (e.state ≡ f.state) × (e.name ≡ f.name) × (e.disable_path ≡ f.disable_path)

abbrev pub SameStates : List IdleEntry → List IdleEntry → Type 0
SameStates [] [] = Unit
SameStates (e ∷ es) (f ∷ fs) = SameState e f × SameStates es fs
SameStates _ _ = ⊥

abbrev pub SameFound : Found → Found → Type 0
SameFound a b =
    (a.poll_count ≡ b.poll_count)
    × (a.c1_count ≡ b.c1_count)
    × SameStates a.cpu_entries b.cpu_entries

pub SameStates-append :
    (es fs gs hs : List IdleEntry)
    → SameStates es fs
    → SameStates gs hs
    → SameStates (es ++ gs) (fs ++ hs)
SameStates-append [] [] gs hs p q = q
SameStates-append [] (f ∷ fs) gs hs p q = elim p [ ]
SameStates-append (e ∷ es) [] gs hs p q = elim p [ ]
SameStates-append (e ∷ es) (f ∷ fs) gs hs p q = (p.0, SameStates-append es fs gs hs p.1 q)

pub length-SameStates : (es fs : List IdleEntry) → SameStates es fs → length es ≡ length fs
length-SameStates [] [] p = refl
length-SameStates [] (f ∷ fs) p = elim p [ ]
length-SameStates (e ∷ es) [] p = elim p [ ]
length-SameStates (e ∷ es) (f ∷ fs) p = ap suc (length-SameStates es fs p.1)

insert_entry-SameStates :
    (e f : IdleEntry) (es fs : List IdleEntry)
    → SameState e f
    → SameStates es fs
    → SameStates (insert_entry e es) (insert_entry f fs)
insert_entry-SameStates e f [] [] s p = (s, tt)
insert_entry-SameStates e f [] (h ∷ fs) s p = elim p [ ]
insert_entry-SameStates e f (g ∷ es) [] s p = elim p [ ]
insert_entry-SameStates e f (g ∷ es) (h ∷ fs) s p =
    subst
      (λ b. SameStates (insert_entry e (g ∷ es)) (if b then f ∷ h ∷ fs else h ∷ insert_entry f fs))
      (cc (s.1, p.0.1))
      (elim (leb e.state g.state)
        as (λ b.
          SameStates (if b then e ∷ g ∷ es else g ∷ insert_entry e es)
            (if b then f ∷ h ∷ fs else h ∷ insert_entry f fs)) [
              | true ↦ (s, p)
              | false ↦ (p.0, insert_entry-SameStates e f es fs s p.1)
            ])

pub sort_entries-SameStates :
    (es fs : List IdleEntry) → SameStates es fs → SameStates (sort_entries es) (sort_entries fs)
sort_entries-SameStates [] [] p = tt
sort_entries-SameStates [] (f ∷ fs) p = elim p [ ]
sort_entries-SameStates (e ∷ es) [] p = elim p [ ]
sort_entries-SameStates (e ∷ es) (f ∷ fs) p =
    insert_entry-SameStates e f (sort_entries es) (sort_entries fs) p.0
      (sort_entries-SameStates es fs p.1)

-- A list that is the same as the recorded one stays so.
pub all_same-SameStates :
    (es fs recorded : List IdleEntry)
    → SameStates es fs
    → all_same es recorded ≡ true
    → all_same fs recorded ≡ true
all_same-SameStates [] [] recorded p h = h
all_same-SameStates [] (f ∷ fs) recorded p h = elim p [ ]
all_same-SameStates (e ∷ es) [] recorded p h = elim p [ ]
all_same-SameStates (e ∷ es) (f ∷ fs) [] p h = h
all_same-SameStates (e ∷ es) (f ∷ fs) (r ∷ rs) p h =
    ground
      (arith, split (same_state e r) (all_same es rs) h, kept, all_same-SameStates es fs rs p.1)
  where
    split : (a b : Bool) → (a && b) ≡ true → (a ≡ true) × (b ≡ true)
    split a b h = ground (arith, h)

    kept : same_state f r ≡ same_state e r
    kept = cc (p.0.0, p.0.1, p.0.2, p.0.3)
