-- ===== src/Benchctl/Inventory/Follow.antt =====
-- Two trees that differ in the bits of idle states alone have the same inventory, but for the bits.
use Prim.Native.String.{String}
use text.Mathlib.Text.{◌==◌ as ◌=ₜ◌}
use text.Mathlib.TextEquality.{eq_iff}
use snoozer.Prelude.{
  ℕ, suc, ◌≡◌, refl, sym, subst, ap, ◌∙◌, ◌⊎◌, inl, inr, false, not, ◌&&◌, List, [], ◌∷◌, Option,
  none, some, if◌then◌else◌, arith,
}
use snoozer.Benchctl.Paths.{SysfsPath, join}
use snoozer.Benchctl.Errors.{state_error}
use snoozer.Benchctl.Host.{
  Node, missing, file, symlink, directory, Tree, World, value, Host, pure, ◌>>=◌, ◌>>◌, throw_if,
}
use snoozer.Benchctl.Host.Ending.{Faultless, attempt-then-Faultless}
use snoozer.Benchctl.Host.Follows.{
  Follows, Follows-bind, Follows-pure, Follows-throw_if, Follows-attempt, Follows-node,
}
use snoozer.Benchctl.Text.{trim, strip_prefix, parse_usize}
use snoozer.Benchctl.Inventory.{
  linked, text_of, reject_symlink, read_trimmed, read_bit, is_bit, Found, noted, scan_state,
  or_invalid, scan_named, scan_states,
}
use snoozer.Benchctl.Inventory.Described.{Holds, HoldsBit}
use snoozer.Benchctl.Inventory.Same.{SameFound, SameStates-append}

-- Both trees have a bit in this file.
abbrev pub BothBits : Tree → Tree → SysfsPath → Type 0
BothBits t u p =
    ((root : SysfsPath) × (p ≡ join root "disable"))
    × ((v : String) × HoldsBit t p v)
    × ((v : String) × HoldsBit u p v)

-- The trees differ in bits alone.
abbrev pub Rebits : Tree → Tree → Type 0
Rebits t u = (p : SysfsPath) → (u p ≡ t p) ⊎ BothBits t u p

leaf : (p q : SysfsPath) (s t : String) → join p s ≡ join q t → s ≡ t
leaf p q s t h = cc h

read_trimmed-Holds :
    (p : SysfsPath) (op v : String) (u : World)
    → Faultless u
    → Holds u.sysfs p v
    → read_trimmed p op u ≡ (value v, u)
unfolding read_trimmed
read_trimmed-Holds p op v u h (content, e, q) = attempt-then-Faultless op _ u h ∙ rw e (rw q refl)

-- A bit that is there is read.
pub read_bit-HoldsBit :
    (p : SysfsPath) (v : String) (u : World)
    → Faultless u
    → HoldsBit u.sysfs p v
    → read_bit p u ≡ (value v, u)
unfolding read_bit
read_bit-HoldsBit p v u h b = rw (read_trimmed-Holds p _ v u h b.0) (rw b.1 refl)

module _ (w u : World) (hw : Faultless w) (hu : Faultless u) (rebits : Rebits w.sysfs u.sysfs) where
  -- A file of another name is the same.
  pub kept :
      (root : SysfsPath) (name : String)
      → (name =ₜ "disable") ≡ false
      → u.sysfs (join root name) ≡ w.sysfs (join root name)
  kept root name h = elim (rebits (join root name)) [
    | inl e ↦ e
    | inr ((q, e), b, x) ↦ ground (arith, h, eq_iff name "disable", leaf root q name "disable" e)
  ]

  linked-same : (n : Node) → Follows w u (λ _ _. Unit) (linked n) (linked n)
  linked-same missing = tt
  linked-same (file c) = (refl, (tt, refl, tt))
  linked-same symlink = tt
  linked-same (directory ns) = (refl, (tt, refl, tt))

  linked-Follows :
      (p : SysfsPath) → Follows w u (λ _ _. Unit) (linked (w.sysfs p)) (linked (u.sysfs p))
  linked-Follows p = at (rebits p)
    where
      at :
          (u.sysfs p ≡ w.sysfs p) ⊎ BothBits w.sysfs u.sysfs p
          → Follows w u (λ _ _. Unit) (linked (w.sysfs p)) (linked (u.sysfs p))
      at (inl e) =
          subst (λ n. Follows w u (λ _ _. Unit) (linked (w.sysfs p)) (linked n)) (sym e)
            (linked-same (w.sysfs p))
      at (inr (r, (v, ((c, e, q), b)), (x, ((d, f, k), y)))) = rw e (rw f (refl, (tt, refl, tt)))

  reject_symlink-Follows :
      (p : SysfsPath) → Follows w u (λ _ _. Unit) (reject_symlink p) (reject_symlink p)
  unfolding reject_symlink
  reject_symlink-Follows p =
      Follows-attempt w u hw hu (λ _ _. Unit) _ _ _
        (Follows-node w u hw hu (λ _ _. Unit) p linked linked (linked-Follows p))

  text_of-Follows :
      (op : String) (n : Node) → Follows w u (λ a b. a ≡ b) (text_of op n) (text_of op n)
  text_of-Follows op missing = tt
  text_of-Follows op (file c) = (refl, (trim c, refl, refl))
  text_of-Follows op symlink = tt
  text_of-Follows op (directory ns) = tt

  read_trimmed-Follows :
      (p : SysfsPath) (op : String)
      → u.sysfs p ≡ w.sysfs p
      → Follows w u (λ a b. a ≡ b) (read_trimmed p op) (read_trimmed p op)
  unfolding read_trimmed
  read_trimmed-Follows p op e =
      Follows-attempt w u hw hu (λ a b. a ≡ b) _ _ _
        (Follows-node w u hw hu (λ a b. a ≡ b) p (text_of op) (text_of op)
          (subst (λ n. Follows w u (λ a b. a ≡ b) (text_of op (w.sysfs p)) (text_of op n)) (sym e)
            (text_of-Follows op (w.sysfs p))))

  read_bit-kept :
      (p : SysfsPath) → u.sysfs p ≡ w.sysfs p → Follows w u (λ _ _. Unit) (read_bit p) (read_bit p)
  unfolding read_bit
  read_bit-kept p e =
      Follows-bind w u (λ a b. a ≡ b) (λ _ _. Unit) _ _ (read_trimmed p "reading cpuidle value")
        (read_trimmed p "reading cpuidle value") (read_trimmed-Follows p "reading cpuidle value" e)
        (λ a b q.
          Follows-bind w u (λ _ _. Unit) (λ _ _. Unit) (λ _. pure a) (λ _. pure b)
            (throw_if (not (is_bit a)) (state_error "cpuidle value is not 0 or 1"))
            (throw_if (not (is_bit b)) (state_error "cpuidle value is not 0 or 1"))
            (Follows-throw_if w u (not (is_bit a)) (not (is_bit b)) _ _
              (λ h. subst (λ v. not (is_bit v) ≡ false) q h))
            (λ _ _ _. Follows-pure w u (λ _ _. Unit) a b tt))

  read_bit-Follows : (p : SysfsPath) → Follows w u (λ _ _. Unit) (read_bit p) (read_bit p)
  read_bit-Follows p = at (rebits p)
    where
      at :
          (u.sysfs p ≡ w.sysfs p) ⊎ BothBits w.sysfs u.sysfs p
          → Follows w u (λ _ _. Unit) (read_bit p) (read_bit p)
      at (inr (r, (v, b), (x, y))) =
          rw (read_bit-HoldsBit p v w hw b) (refl, (x, read_bit-HoldsBit p x u hu y, tt))
      at (inl e) = read_bit-kept p e

  noted-SameFound :
      (cpu n : ℕ) (p : SysfsPath) (name a b : String) (f g : Found)
      → SameFound f g
      → SameFound (noted cpu n p name a f) (noted cpu n p name b g)
  noted-SameFound cpu n p name a b f g s = (
    ap (λ k. if name =ₜ "POLL" then suc k else k) s.0,
    ap (λ k. if not (name =ₜ "POLL") && (name =ₜ "C1") then suc k else k) s.1,
    SameStates-append f.cpu_entries g.cpu_entries _ _ s.2 ((refl, refl, refl, refl), tt),
  )

  pub reject_symlink-follow :
      {A B : Type 0} (S : A → B → Type 0) (p : SysfsPath) (m : Host A) (n : Host B)
      → Follows w u S m n
      → Follows w u S (reject_symlink p >> m) (reject_symlink p >> n)
  reject_symlink-follow S p m n h =
      Follows-bind w u (λ _ _. Unit) S (λ _. m) (λ _. n) (reject_symlink p) (reject_symlink p)
        (reject_symlink-Follows p) (λ _ _ _. h)

  scan_state-Follows :
      (cpu : ℕ) (root : SysfsPath) (f g : Found) (n : ℕ)
      → SameFound f g
      → Follows w u SameFound (scan_state cpu root f n) (scan_state cpu root g n)
  unfolding scan_state
  scan_state-Follows cpu root f g n s = reject_symlink-follow SameFound root _ _ (
      reject_symlink-follow SameFound (join root "name") _ _ (
        reject_symlink-follow SameFound (join root "disable") _ _ (
          Follows-bind w u (λ a b. a ≡ b) SameFound _ _ (read_trimmed (join root "name") named)
            (read_trimmed (join root "name") named)
            (read_trimmed-Follows (join root "name") named (kept root "name" refl))
            (λ name other e.
              subst (λ x. Follows w u SameFound (finding name f) (finding x g)) e
                (Follows-bind w u (λ _ _. Unit) SameFound
                  (λ bit. pure (noted cpu n (join root "disable") name bit f))
                  (λ bit. pure (noted cpu n (join root "disable") name bit g))
                  (read_bit (join root "disable")) (read_bit (join root "disable"))
                  (read_bit-Follows (join root "disable"))
                  (λ a b _.
                    Follows-pure w u SameFound (noted cpu n (join root "disable") name a f)
                      (noted cpu n (join root "disable") name b g)
                      (noted-SameFound cpu n (join root "disable") name a b f g s)))))))
    where
      named : String
      named = "reading cpuidle state name"

      finding : String → Found → Host Found
      finding name f = read_bit (join root "disable") >>= λ bit.
          pure (noted cpu n (join root "disable") name bit f)

  scan_named-Follows :
      (cpu : ℕ) (root : SysfsPath) (f g : Found) (index : Option String)
      → SameFound f g
      → Follows w u SameFound (scan_named cpu root f index) (scan_named cpu root g index)
  scan_named-Follows cpu root f g none s = Follows-pure w u SameFound f g s
  scan_named-Follows cpu root f g (some index) s = at (parse_usize index)
    where
      at :
          (o : Option ℕ)
          → Follows w u SameFound
              (or_invalid o >>= scan_state cpu root f)
              (or_invalid o >>= scan_state cpu root g)
      at none = tt
      at (some n) = scan_state-Follows cpu root f g n s

  pub scan_states-Follows :
      (cpu : ℕ) (root : SysfsPath) (names : List String) (f g : Found)
      → SameFound f g
      → Follows w u SameFound (scan_states cpu root names f) (scan_states cpu root names g)
  unfolding scan_states
  scan_states-Follows cpu root [] f g s = Follows-pure w u SameFound f g s
  scan_states-Follows cpu root (name ∷ names) f g s = Follows-attempt w u hw hu SameFound _ _ _ (
      Follows-bind w u SameFound SameFound (scan_states cpu root names) (scan_states cpu root names)
        (scan_named cpu (join root name) f (strip_prefix "state" name))
        (scan_named cpu (join root name) g (strip_prefix "state" name))
        (scan_named-Follows cpu (join root name) f g (strip_prefix "state" name) s)
        (λ a b x. scan_states-Follows cpu root names a b x))
