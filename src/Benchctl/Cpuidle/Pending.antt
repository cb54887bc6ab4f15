-- ===== src/Benchctl/Cpuidle/Pending.antt =====
-- What is on the disks while the idle states are not back: the journal records every file that may
-- have changed, with the bit that it had.
use Prim.Native.String.{String, ◌++◌ as ◌++ₜ◌}
use text.Mathlib.Text.{◌==◌ as ◌=ₜ◌}
use text.Mathlib.TextEquality.{eq_iff}
use snoozer.Prelude.{
  ◌≡◌, refl, sym, subst, ap, ◌∙◌, ◌⊎◌, inl, inr, true, false, ◌||◌, List, if◌then◌else◌, All, Among,
  arith, Bool-cases,
}
use snoozer.Benchctl.Paths.{SysfsPath, FileName, Directory, same_path, same_path_iff}
use snoozer.Benchctl.Host.{Node, file, Tree, put}
use snoozer.Benchctl.Host.Ending.{Disk}
use snoozer.Benchctl.Journal.{Codec, Journal, IdleEntry, stage, restored, is_restored}
use snoozer.Benchctl.Journal.Stored.{Stored}
use snoozer.Benchctl.Inventory.{is_bit, desired_bit}
use snoozer.Benchctl.Inventory.Described.{HoldsBit, Describes}
use snoozer.Benchctl.Text.{trim}

-- One of the entries is about this file, and the file holds one of its two bits.
abbrev pub Recorded : List IdleEntry → Tree → SysfsPath → Type 0
Recorded es t p =
    (e : IdleEntry) × Among e es
    × (e.disable_path ≡ p)
    × (HoldsBit t p e.original ⊎ HoldsBit t p e.desired)

-- Every file that differs from the tree `before` is recorded.
abbrev pub Covered : Tree → List IdleEntry → Tree → Type 0
Covered before es t = (p : SysfsPath) → (t p ≡ before p) ⊎ Recorded es t p

-- Every recorded file holds its original bit.
abbrev pub Back : List IdleEntry → Tree → Type 0
Back es t = All (λ e. HoldsBit t e.disable_path e.original) es

module _ (c : Codec) (path : FileName) (before : Tree) (es : List IdleEntry) where
  abbrev pub Pending : Disk
  Pending t d =
      ((j : Journal) × Stored c path d j × (j.entries ≡ es) × (is_restored j ≡ false))
      × Covered before es t

  abbrev pub Finished : Disk
  Finished t d =
      ((j : Journal) × Stored c path d j × (j.entries ≡ es) × (stage j ≡ restored))
      × Covered before es t
      × Back es t

  abbrev pub Guarded : Disk
  Guarded t d = Pending t d ⊎ Finished t d

  -- Storing another journal of the same entries keeps it, as long as its stage is not the last one.
  pub Pending-store :
      (j : Journal) (t : Tree) (d e : Directory)
      → j.entries ≡ es
      → is_restored j ≡ false
      → Pending t d
      → Stored c path e j
      → Pending t e
  Pending-store j t d e h s p q = ((j, q, h, s), p.1)

is_bit-cases : (v : String) → is_bit v ≡ true → (v ≡ "0") ⊎ (v ≡ "1")
is_bit-cases v h = ground (arith, eq_iff v "0", eq_iff v "1")

trim-bit : (v : String) → is_bit v ≡ true → trim (v ++ₜ "\n") ≡ v
unfolding trim
trim-bit v h = elim (is_bit-cases v h) [ inl e ↦ rw e refl | inr e ↦ rw e refl ]

desired_bit-is_bit : (name : String) → is_bit (desired_bit name) ≡ true
desired_bit-is_bit name =
    elim ((name =ₜ "POLL") || (name =ₜ "C1")) as (λ b. is_bit (if b then "0" else "1") ≡ true) [
      | true ↦ refl
      | false ↦ refl
    ]

pub Describes-is_bit :
    (t : Tree) (e : IdleEntry)
    → Describes t e
    → (is_bit e.original ≡ true) × (is_bit e.desired ≡ true)
Describes-is_bit t e h = (h.1.1, subst (λ v. is_bit v ≡ true) (sym h.2) (desired_bit-is_bit e.name))

pub put-same : (p : SysfsPath) (n : Node) (t : Tree) → put p n t p ≡ n
put-same p n t = ground (arith, same_path_iff p p)

pub put-other : (p q : SysfsPath) (n : Node) (t : Tree) → same_path p q ≡ false → put p n t q ≡ t q
put-other p q n t h = rw h refl

-- The file holds what is written to it.
pub put-HoldsBit :
    (p : SysfsPath) (v : String) (t : Tree)
    → is_bit v ≡ true
    → HoldsBit (put p (file (v ++ₜ "\n")) t) p v
put-HoldsBit p v t h = ((v ++ₜ "\n", put-same p (file (v ++ₜ "\n")) t, trim-bit v h), h)

-- Files that are the same hold the same.
pub HoldsBit-equal :
    (t u : Tree) (p : SysfsPath) (v : String) → u p ≡ t p → HoldsBit t p v → HoldsBit u p v
HoldsBit-equal t u p v e h = ((h.0.0, e ∙ h.0.1, h.0.2), h.1)

pub HoldsBit-unique :
    (t : Tree) (p : SysfsPath) (v w : String) → HoldsBit t p v → HoldsBit t p w → v ≡ w
HoldsBit-unique t p v w h k = sym h.0.2 ∙ ap trim (file_inj (sym h.0.1 ∙ k.0.1)) ∙ k.0.2
  where
    file_inj : {a b : String} → file a ≡ file b → a ≡ b
    file_inj h = cc h

-- Writing one of the two bits of an entry keeps what is recorded.
module _ (before : Tree) (es : List IdleEntry) (e : IdleEntry) (v : String) where
  pub put-Covered :
      (t : Tree)
      → Among e es
      → is_bit v ≡ true
      → (v ≡ e.original) ⊎ (v ≡ e.desired)
      → Covered before es t
      → Covered before es (put e.disable_path (file (v ++ₜ "\n")) t)
  put-Covered t m b which cov p = elim (Bool-cases (same_path e.disable_path p)) [
    | inl s ↦
        inr (
          e,
          m,
          (same_path_iff e.disable_path p).0 s,
          written ((same_path_iff e.disable_path p).0 s),
        )
    | inr s ↦ untouched (put-other e.disable_path p _ t s) (cov p)
  ]
    where
      new : Tree
      new = put e.disable_path (file (v ++ₜ "\n")) t

      holds : (q : SysfsPath) → e.disable_path ≡ q → HoldsBit new q v
      holds q h = subst (λ q. HoldsBit new q v) h (put-HoldsBit e.disable_path v t b)

      written : e.disable_path ≡ p → HoldsBit new p e.original ⊎ HoldsBit new p e.desired
      written h = elim which [
        | inl k ↦ inl (subst (HoldsBit new p) k (holds p h))
        | inr k ↦ inr (subst (HoldsBit new p) k (holds p h))
      ]

      untouched :
          new p ≡ t p → (t p ≡ before p) ⊎ Recorded es t p → (new p ≡ before p) ⊎ Recorded es new p
      untouched kept (inl h) = inl (kept ∙ h)
      untouched kept (inr (f, k, q, inl x)) =
          inr (f, k, q, inl (HoldsBit-equal t new p f.original kept x))
      untouched kept (inr (f, k, q, inr x)) =
          inr (f, k, q, inr (HoldsBit-equal t new p f.desired kept x))
