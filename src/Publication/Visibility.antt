-- ===== src/Publication/Visibility.antt =====
-- Which publications the consumer sees, over every interleaving of producers and consumer.
use snoozer.Prelude.{ℕ, ◌≡◌, ◌⊎◌, inl, inr, refl, true, List, [], ◌∷◌, ◌++◌, ==_iff, arith}
use snoozer.Parker.{notified_token}
use snoozer.Publication.{Channel, new_pair, publish, unpark_single, unpark_multi, take}

abbrev pub Member : ℕ → List ℕ → Type 0
Member x [] = ⊥
Member x (y ∷ ys) = (x ≡ y) ⊎ Member x ys

Member-append_left : (x : ℕ) (xs ys : List ℕ) → Member x xs → Member x (xs ++ ys)
Member-append_left x [] ys h = absurd h
Member-append_left x (y ∷ xs) ys (inl e) = inl e
Member-append_left x (y ∷ xs) ys (inr h) = inr (Member-append_left x xs ys h)

Member-append_right : (x : ℕ) (xs ys : List ℕ) → Member x ys → Member x (xs ++ ys)
Member-append_right x [] ys h = h
Member-append_right x (y ∷ xs) ys h = inr (Member-append_right x xs ys h)

Member-append_cases : (x : ℕ) (xs ys : List ℕ) → Member x (xs ++ ys) → Member x xs ⊎ Member x ys
Member-append_cases x [] ys h = inr h
Member-append_cases x (y ∷ xs) ys (inl e) = inl (inl e)
Member-append_cases x (y ∷ xs) ys (inr h) = elim (Member-append_cases x xs ys h) [
  | inl a ↦ inl (inr a)
  | inr b ↦ inr b
]

-- A pair with many producers, and the publications that were notified so far.
pub record System : Type 0 where
  pub channel : Channel
  pub notified : List ℕ

-- One step of a producer or of the consumer of a multi-producer pair.
pub data Step (s : System) : System → Type 0 where
  writes : (p x : ℕ) → Step s (record s { channel = publish p x s.channel })
  notifies :
      (p : ℕ)
      → Step s (record {
        channel = unpark_multi p s.channel;
        notified = s.channel.written p ++ s.notified;
      })
  takes : Step s (record s { channel = (take s.channel).1 })

pub data Reach : System → Type 0 where
  start : Reach (record { channel = new_pair; notified = [] })
  next : {s t : System} → Reach s → Step s t → Reach t

abbrev Carries : System → Type 0
Carries s = (x : ℕ) → Member x s.notified → Member x s.channel.carried

Step-Carries : {s t : System} → Step s t → Carries s → Carries t
unfolding unpark_multi take
Step-Carries (writes p x) h y m = h y m
Step-Carries {s} (notifies p) h y m =
    elim (Member-append_cases y (s.channel.written p) s.notified m) [
      | inl a ↦ Member-append_left y (s.channel.written p) s.channel.carried a
      | inr b ↦ Member-append_right y (s.channel.written p) s.channel.carried (h y b)
    ]
Step-Carries {s} takes h y m = ground (arith, h y m)

Reach-Carries : {s : System} → Reach s → Carries s
Reach-Carries start y m = m
Reach-Carries (next r st) y m = Step-Carries st (Reach-Carries r) y m

take-view :
    (c : Channel) (x : ℕ) → (take c).0 ≡ true → Member x c.carried → Member x (take c).1.view
unfolding take
take-view c x taken m =
    rw ((==_iff c.token notified_token).1 (ground arith)) (Member-append_left x c.carried c.view m)

-- In every reachable state of a multi-producer pair, a consumer that takes the token sees every
-- publication of every producer that has notified, however many notifications have coalesced.
pub multi_visible :
    {s : System}
    → Reach s
    → (take s.channel).0 ≡ true
    → (x : ℕ) → Member x s.notified
    → Member x (take s.channel).1.view
multi_visible {s} r taken x m = take-view s.channel x taken (Reach-Carries r x m)

-- One step of a single-producer pair whose producer is `p`.
pub data SingleStep (p : ℕ) (s : System) : System → Type 0 where
  writes : (x : ℕ) → SingleStep p s (record s { channel = publish p x s.channel })
  notifies :
      SingleStep p s (record {
        channel = unpark_single p s.channel;
        notified = s.channel.written p ++ s.notified;
      })
  takes : SingleStep p s (record s { channel = (take s.channel).1 })

pub data SingleReach (p : ℕ) : System → Type 0 where
  start : SingleReach p (record { channel = new_pair; notified = [] })
  next : {s t : System} → SingleReach p s → SingleStep p s t → SingleReach p t

-- The store of the only producer carries all that its earlier stores carried.
record CarriesOwn (p : ℕ) (s : System) : Type 0 where
  own : (x : ℕ) → Member x s.notified → Member x (s.channel.written p)
  carried : (x : ℕ) → Member x s.notified → Member x s.channel.carried

publish-Member :
    (p x y : ℕ) (c : Channel) → Member y (c.written p) → Member y ((publish p x c).written p)
publish-Member p x y c m = ground (arith, m)

SingleStep-CarriesOwn : {p : ℕ} {s t : System} → SingleStep p s t → CarriesOwn p s → CarriesOwn p t
unfolding unpark_single take
SingleStep-CarriesOwn {p} {s} (writes x) h = record {
  own = λ y m. publish-Member p x y s.channel (h.own y m);
  carried = h.carried;
}
SingleStep-CarriesOwn {p} {s} notifies h = record { own = both; carried = both }
  where
    both : (y : ℕ) → Member y (s.channel.written p ++ s.notified) → Member y (s.channel.written p)
    both y m = elim (Member-append_cases y (s.channel.written p) s.notified m) [
      | inl a ↦ a
      | inr b ↦ h.own y b
    ]
SingleStep-CarriesOwn {p} {s} takes h = record {
  own = λ y m. ground (arith, h.own y m);
  carried = λ y m. ground (arith, h.carried y m);
}

SingleReach-CarriesOwn : {p : ℕ} {s : System} → SingleReach p s → CarriesOwn p s
SingleReach-CarriesOwn start = record { own = λ y m. absurd m; carried = λ y m. m }
SingleReach-CarriesOwn (next r st) = SingleStep-CarriesOwn st (SingleReach-CarriesOwn r)

-- In every reachable state of a single-producer pair the plain Release store is enough: a consumer
-- that takes the token sees every publication that its producer has notified.
pub single_visible :
    {p : ℕ} {s : System}
    → SingleReach p s
    → (take s.channel).0 ≡ true
    → (x : ℕ) → Member x s.notified
    → Member x (take s.channel).1.view
single_visible {p} {s} r taken x m =
    take-view s.channel x taken ((SingleReach-CarriesOwn r).carried x m)

-- Why a single-producer handle may not be cloned: when two producers notify by the plain store,
-- and neither the second producer nor the consumer knows a publication of the first, the token is
-- taken and the consumer does not see that publication.
pub shared_store_loses :
    (p q x : ℕ) (c : Channel)
    → ¬ Member x (c.written q)
    → ¬ Member x c.view
    → let c' = unpark_single q (unpark_single p c) in
      ((take c').0 ≡ true) × ¬ Member x (take c').1.view
unfolding unpark_single take
shared_store_loses p q x c nq nv =
    (refl, λ m. elim (Member-append_cases x (c.written q) c.view m) [ inl a ↦ nq a | inr b ↦ nv b ])
