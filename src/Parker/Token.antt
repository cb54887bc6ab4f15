-- ===== src/Parker/Token.antt =====
-- One consumer and producers that only notify: what taking the token does.
use native.Mathlib.Nat.{add-zero, add-suc}
use native.Mathlib.Decide.{ℕ_discrete}
use snoozer.Prelude.{
  subst, refl, ◌≢◌, some, ℕ, zero, suc, ◌+◌, ◌-◌, ◌≤◌, ◌<◌, ◌≡◌, ◌==◌, Bool, true, false, arith,
}
use snoozer.Machine.{Env, World, step, peeked, exchanged, seen}
use snoozer.Outcome.{Returns}
use snoozer.Wait.Monitor.{IsGuarded}
use snoozer.Wait.Blocking.{takes, failures, blocks}
use snoozer.Parker.{empty_token, notified_token, take_notification}

-- The word is a token that producers set and nobody else clears.
pub record IsToken (word : ℕ → ℕ) : Type 0 where
  pub binary : (t : ℕ) → word t ≤ 1
  pub kept : (t : ℕ) → word t ≡ notified_token → word (suc t) ≡ notified_token

-- So it stays when the consumer has emptied it.
abbrev pub IsProduced : Env → Type 0
IsProduced env = (t : ℕ) → IsToken (env.after t empty_token)

module _ {word : ℕ → ℕ} (token : IsToken word) where
  kept-add : (n t : ℕ) → word t ≡ notified_token → word (t + n) ≡ notified_token
  kept-add zero t h = rw add-zero h
  kept-add (suc n) t h = rw add-suc (token.kept (t + n) (kept-add n t h))

  -- A notification stays until it is taken.
  pub kept-le : (t u : ℕ) → t ≤ u → word t ≡ notified_token → word u ≡ notified_token
  kept-le t u le h =
      let e : t + (u - t) ≡ u = omega arith in
      subst (λ x. word x ≡ notified_token) e (kept-add (u - t) t h)

-- What the thread left of the token: emptied at some step since `w`, or as it was, and then the
-- last step saw it empty.
abbrev pub Left : Env → World → Bool → World → Type 0
Left env w true u = (t : ℕ) × (w.time ≤ t) × (t < u.time) × (u.word ≡ env.after t empty_token)
Left env w false u = (u.word ≡ w.word) × (u.word (u.time - 1) ≡ empty_token)

abbrev pub count : Bool → ℕ
count true = 1
count false = 0

-- A park operation that began at `w` took one token, or none, as `took` says, and no more; it
-- failed no assertion, and it kept the protocol of the monitor.
pub record Settled (env : Env) (w : World) (took : Bool) (u : World) : Type 0 where
  pub taken : takes u.trace ≡ count took + takes w.trace
  pub sane : failures u.trace ≡ failures w.trace
  pub left : Left env w took u
  pub guarded : IsGuarded env empty_token u
  pub later : w.time < u.time

-- the world after the Relaxed load and the compare-exchange that took the token
abbrev emptied : Env → World → World
emptied env w = record (step (step w (peeked (seen w))) (exchanged notified_token empty_token)) {
  word = env.after (suc w.time) empty_token;
}

-- What `take_notification` gives: the token exactly if it is there, and without blocking.
abbrev pub Taken : Env → World → Bool → World → Type 0
Taken env w took u =
    Settled env w took u
    × (took ≡ (seen w == notified_token))
    × (blocks u.trace ≡ blocks w.trace)
    × (took ≡ false → u.time ≡ suc w.time)

module _ (env : Env) (w : World) (token : IsToken w.word)
    (guarded : IsGuarded env empty_token w) where
  take-full : seen w ≡ notified_token → take_notification env w ≡ some (true, emptied env w)
  unfolding take_notification
  take-full h = ground (arith, token.kept w.time h)

  take-empty :
      seen w ≢ notified_token → take_notification env w ≡ some (false, step w (peeked (seen w)))
  unfolding take_notification
  take-empty h = ground arith

  full-Settled : Settled env w true (emptied env w)
  full-Settled = record {
    taken = refl;
    sane = refl;
    left = (suc w.time, omega arith, omega arith, refl);
    guarded = guarded;
    later = omega arith;
  }

  empty-Settled : seen w ≢ notified_token → Settled env w false (step w (peeked (seen w)))
  empty-Settled h = record {
    taken = omega arith;
    sane = refl;
    left = (refl, ground (arith, token.binary w.time));
    guarded = guarded;
    later = omega arith;
  }

  pub take_notification-Taken : Returns (Taken env w) (take_notification env w)
  take_notification-Taken = elim (ℕ_discrete (seen w) notified_token) [
    | yes h ↦ rw (take-full h) (full-Settled, ground (arith, h), ground arith, λ e. cc)
    | no h ↦ rw (take-empty h) (empty-Settled h, ground (arith, h), ground arith, λ e. refl)
  ]
