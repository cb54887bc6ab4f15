-- ===== src/Prelude/Lists.antt =====
-- Lists measured by native numbers, predicates over all items, sorting and indexing.
use Prim.Native.Nat.{ℕ, zero, suc}
use snoozer.Prelude.Tests.{leb, if◌then◌else◌}
use mathlib.Core.Path.{◌≡◌, refl, sym, subst}
use mathlib.Core.Logic.{◌⊎◌, inl, inr}
use mathlib.Core.List.{List, [], ◌∷◌}

abbrev pub length {ℓ} : {A : Type ℓ} → List A → ℕ
length [] = 0
length (x ∷ xs) = suc (length xs)

abbrev pub All {ℓ κ} : {A : Type ℓ} → (A → Type κ) → List A → Type κ
All P [] = Unit
All P (x ∷ xs) = P x × All P xs

abbrev insert : ℕ → List ℕ → List ℕ
insert x [] = x ∷ []
insert x (y ∷ ys) = if leb x y then x ∷ y ∷ ys else y ∷ insert x ys

-- `sort_unstable` on numbers
abbrev pub sort : List ℕ → List ℕ
sort [] = []
sort (x ∷ xs) = insert x (sort xs)

-- `xs[i]`, only used in range: the arrays of the program have a fixed length
abbrev pub item : List ℕ → ℕ → ℕ
item [] i = 0
item (x ∷ xs) zero = x
item (x ∷ xs) (suc i) = item xs i

-- `x` is one of the items.
abbrev pub Among : {A : Type 0} → A → List A → Type 0
Among x [] = ⊥
Among x (y ∷ ys) = (x ≡ y) ⊎ Among x ys

pub All-map {ℓ κ μ} :
    {A : Type ℓ} (P : A → Type κ) (Q : A → Type μ) (xs : List A)
    → All P xs
    → ((x : A) → P x → Q x)
    → All Q xs
All-map P Q [] h f = tt
All-map P Q (x ∷ xs) h f = (f x h.0, All-map P Q xs h.1 f)

pub All-Among : {A : Type 0} (xs : List A) → All (λ x. Among x xs) xs
All-Among [] = tt
All-Among (x ∷ xs) = (inl refl, All-map (λ y. Among y xs) _ xs (All-Among xs) (λ _. inr))

pub Among-All {κ} :
    {A : Type 0} (P : A → Type κ) (x : A) (xs : List A) → Among x xs → All P xs → P x
Among-All P x [] m h = elim m [ ]
Among-All P x (y ∷ ys) (inl e) h = subst P (sym e) h.0
Among-All P x (y ∷ ys) (inr m) h = Among-All P x ys m h.1

pub All-both {ℓ κ μ} :
    {A : Type ℓ} (P : A → Type κ) (Q : A → Type μ) (xs : List A)
    → All P xs
    → All Q xs
    → All (λ x. P x × Q x) xs
All-both P Q [] p q = tt
All-both P Q (x ∷ xs) p q = ((p.0, q.0), All-both P Q xs p.1 q.1)
