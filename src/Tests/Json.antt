-- ===== src/Tests/Json.antt =====
-- A stand-in for serde_json that writes the journals of a given list and reads them back.
use Prim.Native.String.{String}
use text.Mathlib.Text.{◌==◌ as ◌=ₜ◌}
use text.Mathlib.TextEquality.{eq_iff}
use native.Mathlib.Decide.{ℕ_discrete}
use snoozer.Prelude.{
  ◌≡◌, refl, sym, ap, subst, Bool, true, false, Option, none, some, List, [], ◌∷◌, arith,
}
use snoozer.Benchctl.Journal.{Codec, Journal}
use snoozer.Benchctl.Journal.Stored.{IsFaithful}

pub text-differs : (s t : String) → (s =ₜ t) ≡ false → ¬ (s ≡ t)
text-differs s t h e = ground (arith, h, eq_iff s t, e)

module _ {A : Type 0} where
  pub head_of : {x y : A} {xs ys : List A} → (x ∷ xs) ≡ (y ∷ ys) → x ≡ y
  head_of e = cc e

  pub tail_of : {x y : A} {xs ys : List A} → (x ∷ xs) ≡ (y ∷ ys) → xs ≡ ys
  tail_of e = cc e

  pub both_of : {x y : A} {xs ys : List A} → x ≡ y → xs ≡ ys → (x ∷ xs) ≡ (y ∷ ys)
  both_of p q = cc (p, q)

  pub not-cons : (y : A) (ys : List A) → ¬ ([] ≡ (y ∷ ys))
  not-cons y ys e = ground (arith, e)

  pub value_of : {x y : A} → some x ≡ some y → x ≡ y
  value_of e = cc e

  pub not-some : (y : A) → ¬ (none ≡ some y)
  not-some y e = ground (arith, e)

abbrev same_text : (s t : String) (b : Bool) → (s =ₜ t) ≡ b → Dec (s ≡ t)
same_text s t true h = yes ((eq_iff s t).0 h)
same_text s t false h = no (text-differs s t h)

unfoldable pub String-discrete : Discrete String
String-discrete s t = same_text s t (s =ₜ t) refl

module _ {A : Type 0} where
  abbrev same_cons :
      {x y : A} {xs ys : List A} → Dec (x ≡ y) → Dec (xs ≡ ys) → Dec ((x ∷ xs) ≡ (y ∷ ys))
  same_cons (yes p) (yes q) = yes (both_of p q)
  same_cons (no n) d = no (λ e. n (head_of e))
  same_cons (yes p) (no n) = no (λ e. n (tail_of e))

  unfoldable pub items_discrete : Discrete A → Discrete (List A)
  items_discrete d [] [] = yes refl
  items_discrete d [] (y ∷ ys) = no (not-cons y ys)
  items_discrete d (x ∷ xs) [] = no (λ e. not-cons x xs (sym e))
  items_discrete d (x ∷ xs) (y ∷ ys) = same_cons (d x y) (items_discrete d xs ys)

  abbrev same_some : {x y : A} → Dec (x ≡ y) → Dec (some x ≡ some y)
  same_some (yes p) = yes (ap some p)
  same_some (no n) = no (λ e. n (value_of e))

  unfoldable pub choice_discrete : Discrete A → Discrete (Option A)
  choice_discrete d none none = yes refl
  choice_discrete d none (some y) = no (not-some y)
  choice_discrete d (some x) none = no (λ e. not-some x (sym e))
  choice_discrete d (some x) (some y) = same_some (d x y)

unfoldable pub Journal-discrete : Discrete Journal
Journal-discrete = hlevel (ℕ_discrete, String-discrete, items_discrete, choice_discrete)

-- The journals of a list, each written as its position in unary.
abbrev position : (j k : Journal) → Dec (j ≡ k) → Option String → Option String
position j k (yes e) o = some ""
position j k (no n) none = none
position j k (no n) (some s) = some (String.◌∷◌ "i" s)

unfoldable pub written : List Journal → Journal → Option String
written [] j = none
written (k ∷ ks) j = position j k (Journal-discrete j k) (written ks j)

unfoldable pub read_back : List Journal → String → Option Journal
read_back [] s = none
read_back (k ∷ ks) String.[] = some k
read_back (k ∷ ks) (String.◌∷◌ c s) = read_back ks s

pub read_back-written :
    (ks : List Journal) (j : Journal) (s : String) → written ks j ≡ some s → read_back ks s ≡ some j
unfolding written read_back
read_back-written [] j s h = ground arith
read_back-written (k ∷ ks) j s h =
    at (Journal-discrete j k) (written ks j) refl h (λ x e. read_back-written ks j x e)
  where
    text_of : {a b : String} → some a ≡ some b → a ≡ b
    text_of h = cc h

    at :
        (d : Dec (j ≡ k)) (o : Option String)
        → written ks j ≡ o
        → position j k d o ≡ some s
        → ((x : String) → written ks j ≡ some x → read_back ks x ≡ some j)
        → read_back (k ∷ ks) s ≡ some j
    at (yes e) o q h again =
        subst (λ x. read_back (k ∷ ks) x ≡ some j) (text_of h) (ap some (sym e))
    at (no n) none q h again = ground (arith, h)
    at (no n) (some x) q h again =
        subst (λ y. read_back (k ∷ ks) y ≡ some j) (text_of h) (again x q)

-- serde_json on the journals of a list.
abbrev pub codec_of : List Journal → Codec
codec_of ks = record {
  to_vec = λ r. some "request";
  to_vec_pretty = written ks;
  from_slice = read_back ks;
  hex_digest = λ s. s;
}

pub codec_of-IsFaithful : (ks : List Journal) → IsFaithful (codec_of ks)
codec_of-IsFaithful ks = read_back-written ks
