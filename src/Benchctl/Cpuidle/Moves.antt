-- ===== src/Benchctl/Cpuidle/Moves.antt =====
-- What `put_back` keeps of the tree while it puts one bit after the other back.
use Prim.Native.String.{String, ◌++◌ as ◌++ₜ◌}
use text.Mathlib.TextEquality.{eq_iff}
use snoozer.Prelude.{
  ◌≡◌, refl, sym, subst, ◌∙◌, ◌⊎◌, inl, inr, Bool, true, false, List, [], ◌∷◌, All, All-map,
  All-both, All-Among, Among, Among-All, Bool-cases, arith,
}
use snoozer.Benchctl.Paths.{SysfsPath, FileName, same_path, same_path_iff}
use snoozer.Benchctl.Host.{Node, file, Tree, World, put}
use snoozer.Benchctl.Host.Ending.{Ends-map, Returns, Faultless}
use snoozer.Benchctl.Journal.{Codec, Journal, IdleEntry}
use snoozer.Benchctl.Inventory.Described.{HoldsBit, Describes}
use snoozer.Benchctl.Inventory.Follow.{Rebits, BothBits}
use snoozer.Benchctl.Cpuidle.{put_back}
use snoozer.Benchctl.Cpuidle.Pending.{
  Back, put-other, put-HoldsBit, HoldsBit-equal, HoldsBit-unique, Describes-is_bit,
}
use snoozer.Benchctl.Cpuidle.Succeeds.{Holding, Read, bit_of, moved, to_move, put_back_entry}

put-either : (p q : SysfsPath) (n : Node) (t : Tree) → (p ≡ q) ⊎ (put p n t q ≡ t q)
put-either p q n t = elim (Bool-cases (same_path p q)) [
  | inl h ↦ inl ((same_path_iff p q).0 h)
  | inr h ↦ inr (put-other p q n t h)
]

-- The bit that stays is the original one.
stays-original :
    (e : IdleEntry) (v : String)
    → (v ≡ e.original) ⊎ (v ≡ e.desired)
    → to_move e v ≡ false
    → v ≡ e.original
stays-original e v (inl q) h = q
stays-original e v (inr q) h = ground (arith, eq_iff v e.original, eq_iff v e.desired, q, h)

module _ (start before : Tree) (es : List IdleEntry) (described : All (Describes before) es) where
  -- The tree differs from the first one in bits alone, and every entry has one of its two bits.
  abbrev pub Ready : Tree → Type 0
  Ready t = Rebits start t × All (Holding t) es

  -- An original bit stays.
  abbrev pub Originals : Tree → Tree → Type 0
  Originals t u =
      (g : IdleEntry)
      → Among g es
      → HoldsBit t g.disable_path g.original
      → HoldsBit u g.disable_path g.original

  module _ (e : IdleEntry) (m : Among e es) (t : Tree) where
    abbrev new : Tree
    new = put e.disable_path (file (e.original ++ₜ "\n")) t

    own : Describes before e
    own = Among-All (Describes before) e es m described

    written : (q : SysfsPath) → e.disable_path ≡ q → HoldsBit new q e.original
    written q h =
        subst (λ p. HoldsBit new p e.original) h
          (put-HoldsBit e.disable_path e.original t (Describes-is_bit before e own).0)

    -- Entries about one file have one original bit.
    agrees :
        (g : IdleEntry)
        → Among g es
        → e.disable_path ≡ g.disable_path
        → HoldsBit new g.disable_path g.original
    agrees g k h =
        subst (HoldsBit new g.disable_path)
          (HoldsBit-unique before g.disable_path e.original g.original
            (subst (λ p. HoldsBit before p e.original) h own.1)
            (Among-All (Describes before) g es k described).1)
          (written g.disable_path h)

    new-Originals : Originals t new
    new-Originals g k b = at (put-either e.disable_path g.disable_path _ t)
      where
        at :
            (e.disable_path ≡ g.disable_path) ⊎ (new g.disable_path ≡ t g.disable_path)
            → HoldsBit new g.disable_path g.original
        at (inl h) = agrees g k h
        at (inr h) = HoldsBit-equal t new g.disable_path g.original h b

    new-Holding : (g : IdleEntry) → Among g es → Holding t g → Holding new g
    new-Holding g k b = at (put-either e.disable_path g.disable_path _ t) b
      where
        at :
            (e.disable_path ≡ g.disable_path) ⊎ (new g.disable_path ≡ t g.disable_path)
            → Holding t g
            → Holding new g
        at (inl h) b = inl (agrees g k h)
        at (inr h) (inl x) = inl (HoldsBit-equal t new g.disable_path g.original h x)
        at (inr h) (inr x) = inr (HoldsBit-equal t new g.disable_path g.desired h x)

    new-Rebits : (v : String) → HoldsBit t e.disable_path v → Rebits start t → Rebits start new
    new-Rebits v b r q = at (put-either e.disable_path q _ t) (r q)
      where
        first :
            (t q ≡ start q) ⊎ BothBits start t q
            → HoldsBit t q v
            → (x : String) × HoldsBit start q x
        first (inl h) k = (v, HoldsBit-equal t start q v (sym h) k)
        first (inr (root, x, y)) k = x

        at :
            (e.disable_path ≡ q) ⊎ (new q ≡ t q)
            → (t q ≡ start q) ⊎ BothBits start t q
            → (new q ≡ start q) ⊎ BothBits start new q
        at (inl h) k = inr (
          (own.0.0, sym h ∙ own.0.1),
          first k (subst (λ p. HoldsBit t p v) h b),
          (e.original, written q h),
        )
        at (inr h) (inl k) = inl (h ∙ k)
        at (inr h) (inr (root, x, (y, z))) = inr (root, x, (y, HoldsBit-equal t new q y h z))

    moved-Ready :
        (b : Bool) (v : String) → HoldsBit t e.disable_path v → Ready t → Ready (moved b e t)
    moved-Ready true v k r = (
      new-Rebits v k r.0,
      All-map (λ g. Among g es × Holding t g) (Holding new) es
          (All-both (λ g. Among g es) (Holding t) es (All-Among es) r.1)
          (λ g x. new-Holding g x.0 x.1),
    )
    moved-Ready false v k r = r

    moved-Originals : (b : Bool) → Originals t (moved b e t)
    moved-Originals true g k x = new-Originals g k x
    moved-Originals false g k x = x

    moved-back :
        (b : Bool) (v : String)
        → Read t e v
        → to_move e v ≡ b
        → HoldsBit (moved b e t) e.disable_path e.original
    moved-back true v r h = written e.disable_path refl
    moved-back false v r h = subst (HoldsBit t e.disable_path) (stays-original e v r.1 h) r.0

module _ (c : Codec) (path : FileName) (j : Journal) (start before : Tree) (es : List IdleEntry)
    (described : All (Describes before) es) where
  -- Everything is put back, in a tree that still differs in bits alone.
  abbrev pub PutBack : List IdleEntry → World → Unit {0} → World → Type 0
  PutBack fs w a u =
      Faultless u
      × Ready start before es described u.sysfs
      × (u ≡ record w { sysfs = u.sysfs })
      × Originals start before es described w.sysfs u.sysfs
      × Back fs u.sysfs

  pub put_back-Returns :
      (fs : List IdleEntry) (w : World)
      → Faultless w
      → Ready start before es described w.sysfs
      → All (λ e. Among e es) fs
      → Returns (PutBack fs w) (put_back c path j fs w)
  unfolding put_back
  put_back-Returns [] w h r m = (h, r, refl, (λ g k x. x), tt)
  put_back-Returns (e ∷ fs) w h r m = subst (Returns (PutBack (e ∷ fs) w)) (sym step) (
      Ends-map (PutBack fs after) (PutBack (e ∷ fs) w) (λ _. ⊥) (λ _. ⊥)
        (put_back c path j fs after)
        (put_back-Returns fs after h
          (moved-Ready start before es described e m.0 w.sysfs b v read.0 r) m.1)
        (λ _ u x. (
          x.0,
          x.1,
          x.2,
          (λ g k y. x.3 g k (moved-Originals start before es described e m.0 w.sysfs b g k y)),
          (x.3 e m.0 (moved-back start before es described e m.0 w.sysfs b v read refl), x.4),
        ))
        (λ _ x. x))
    where
      v : String
      v = (bit_of w.sysfs e (Among-All (Holding w.sysfs) e es m.0 r.1)).0

      read : Read w.sysfs e v
      read = (bit_of w.sysfs e (Among-All (Holding w.sysfs) e es m.0 r.1)).1

      b : Bool
      b = to_move e v

      after : World
      after = record w { sysfs = moved b e w.sysfs }

      step : put_back c path j (e ∷ fs) w ≡ put_back c path j fs after
      step =
          put_back_entry c path j e fs w h v read
            (Describes-is_bit before e (Among-All (Describes before) e es m.0 described)).0
