-- ===== src/Timer/Collection.antt =====
-- `collect_tsc_frequencies` of src/arch/x86_64/{amd,intel}.rs: it fills the array with three samples,
-- and it ends when every sample does.
use snoozer.Prelude.{
  ℕ, zero, suc, ◌≡◌, ◌<◌, refl, sym, subst, ap, ◌==◌, Option, none, some, List, [], ◌∷◌, length,
  All, arith,
}
use snoozer.Machine.{World, M}
use snoozer.Outcome.{Upto, Returns, Returns-bind, Upto-bind, if-both}
use snoozer.Timer.{
  set_item, keep, collect_attempts, collect_tsc_frequencies, timer_calibration_attempts,
}

module _ (P : ℕ → Type 0) where
  -- The first items of the array are samples.
  abbrev Taken : ℕ → List ℕ → Type 0
  Taken zero xs = Unit
  Taken (suc n) [] = ⊥
  Taken (suc n) (x ∷ xs) = P x × Taken n xs

  Taken-set_item :
      (n : ℕ) (xs : List ℕ) (x : ℕ)
      → P x
      → n < length xs
      → Taken n xs
      → Taken (suc n) (set_item xs n x)
  Taken-set_item n [] x p h t = absurd (omega arith)
  Taken-set_item zero (y ∷ ys) x p h t = (p, tt)
  Taken-set_item (suc n) (y ∷ ys) x p h t = (t.0, Taken-set_item n ys x p (omega arith) t.1)

  Taken-All : (xs : List ℕ) → Taken (length xs) xs → All P xs
  Taken-All [] t = tt
  Taken-All (x ∷ xs) t = (t.0, Taken-All xs t.1)

  abbrev pub Sampled : Option ℕ → World → Type 0
  Sampled none w = Unit
  Sampled (some x) w = P x

  abbrev pub Collected : Option (List ℕ) → World → Type 0
  Collected none w = Unit
  Collected (some xs) w = (length xs ≡ 3) × All P xs

  abbrev Filling : ℕ → List ℕ → Type 0
  Filling n xs = (length xs ≡ 3) × (n < 3) × Taken n xs

length-set_item : (n : ℕ) (xs : List ℕ) (x : ℕ) → length (set_item xs n x) ≡ length xs
length-set_item n [] x = refl
length-set_item zero (y ∷ ys) x = refl
length-set_item (suc n) (y ∷ ys) x = ap suc (length-set_item n ys x)

module _ (P : ℕ → Type 0) (sample_once : M (Option ℕ)) where
  filled :
      (n : ℕ) (xs : List ℕ) (x : ℕ)
      → P x
      → Filling P n xs
      → (length (set_item xs n x) ≡ 3) × Taken P (suc n) (set_item xs n x)
  filled n xs x p f = (
    omega (arith, length-set_item n xs x, f.0),
    Taken-set_item P n xs x p (omega (arith, f.0, f.1)) f.2,
  )

  complete : (xs : List ℕ) → length xs ≡ 3 → Taken P 3 xs → All P xs
  complete xs l t = Taken-All P xs (subst (λ n. Taken P n xs) (sym l) t)

  kept :
      (rest : List ℕ → ℕ → M (Option (List ℕ)))
      → ((xs : List ℕ) (n : ℕ) (w : World) → Filling P n xs → Upto (Collected P) (rest xs n w))
      → (xs : List ℕ) (n : ℕ) (w : World) → Filling P n xs
      → (answer : Option ℕ) → Sampled P answer w
      → Upto (Collected P) (keep rest xs n answer w)
  kept rest next xs n w f none s = next xs n w f
  kept rest next xs n w f (some x) s =
      let (l, t) = filled n xs x s f in
      if-both (Upto (Collected P)) (suc n == 3) _ _ w
        (λ full. (
          l,
          complete (set_item xs n x) l
              (subst (λ k. Taken P k (set_item xs n x)) {x = suc n} {y = 3} (ground arith) t),
        ))
        λ more. next (set_item xs n x) (suc n) w (l, ground (arith, f.1), t)

  attempts_sound :
      ((w : World) → Upto (Sampled P) (sample_once w))
      → (attempts : ℕ) (xs : List ℕ) (n : ℕ) (w : World) → Filling P n xs
      → Upto (Collected P) (collect_attempts sample_once attempts xs n w)
  unfolding collect_attempts
  attempts_sound s zero xs n w f = tt
  attempts_sound s (suc attempts) xs n w f =
      Upto-bind (Sampled P) (Collected P) _ sample_once w (s w) λ answer u h.
        kept (collect_attempts sample_once attempts) (attempts_sound s attempts) xs n u f answer h

  keep-Returns :
      (rest : List ℕ → ℕ → M (Option (List ℕ)))
      → ((xs : List ℕ) (n : ℕ) (w : World) → Returns (λ _ _. Unit {0}) (rest xs n w))
      → (xs : List ℕ) (n : ℕ) (w : World) (answer : Option ℕ)
      → Returns (λ _ _. Unit {0}) (keep rest xs n answer w)
  keep-Returns rest next xs n w none = next xs n w
  keep-Returns rest next xs n w (some x) =
      if-both (Returns λ _ _. Unit) (suc n == 3) _ _ w (λ _. tt)
        λ _. next (set_item xs n x) (suc n) w

  attempts_return :
      ((w : World) → Returns (λ _ _. Unit {0}) (sample_once w))
      → (attempts : ℕ) (xs : List ℕ) (n : ℕ) (w : World)
      → Returns (λ _ _. Unit {0}) (collect_attempts sample_once attempts xs n w)
  unfolding collect_attempts
  attempts_return s zero xs n w = tt
  attempts_return s (suc attempts) xs n w =
      Returns-bind (λ _ _. Unit) (λ _ _. Unit) _ sample_once w (s w)
        λ answer u _.
          keep-Returns (collect_attempts sample_once attempts) (attempts_return s attempts) xs n u
            answer

  pub collected :
      ((w : World) → Upto (Sampled P) (sample_once w))
      → (w : World) → Upto (Collected P) (collect_tsc_frequencies sample_once w)
  unfolding collect_tsc_frequencies
  collected s w =
      attempts_sound s timer_calibration_attempts (0 ∷ 0 ∷ 0 ∷ []) 0 w (refl, omega arith, tt)

  pub collect-Returns :
      ((w : World) → Returns (λ _ _. Unit {0}) (sample_once w))
      → (w : World) → Returns (λ _ _. Unit {0}) (collect_tsc_frequencies sample_once w)
  unfolding collect_tsc_frequencies
  collect-Returns s w = attempts_return s timer_calibration_attempts (0 ∷ 0 ∷ 0 ∷ []) 0 w
