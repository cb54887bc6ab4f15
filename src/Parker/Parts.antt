-- ===== src/Parker/Parts.antt =====
-- The parts of a park operation: the first take, the take after a wait, and the asserted take.
use snoozer.Prelude.{
  suc, ◌<◌, ◌≡◌, ◌≢◌, ◌==◌, Bool, true, false, refl, sym, subst, ◌∙◌, arith, inl, inr, ◌⊎◌,
}
use snoozer.Machine.{Env, World, M, pure, ◌>>=◌, ◌>>◌, debug_assert, seen}
use snoozer.Outcome.{Upto, Returns, Upto-bind, Returns-bind, Returns-map, Returns-Upto}
use snoozer.Wait.Monitor.{IsGuarded}
use snoozer.Wait.Blocking.{Kept, blocks}
use snoozer.Parker.Token.{IsToken, Settled, Taken, Left, take_notification-Taken}
use snoozer.Parker.{empty_token, notified_token, take_notification, take_asserted, return_if}

-- A take after a wait that began at `w₀` counts for `w₀`.
Left-Kept :
    (env : Env) (w₀ w u : World) (took : Bool) → Kept w₀ w → Left env w took u → Left env w₀ took u
Left-Kept env w₀ w u true k (t, from, to, e) = (t, omega arith, to, e)
Left-Kept env w₀ w u false k (same, empty) = (same ∙ k.1, empty)

Settled-Kept :
    (env : Env) (w₀ w u : World) (took : Bool)
    → Kept w₀ w
    → Settled env w took u
    → Settled env w₀ took u
Settled-Kept env w₀ w u took k h = record {
  taken = omega (arith, h.taken, k.2);
  sane = h.sane ∙ k.3;
  left = Left-Kept env w₀ w u took k h.left;
  guarded = h.guarded;
  later = omega (arith, h.later, k.0);
}

-- What has not taken the token has stored nothing.
pub Settled-Kept_of_not : (env : Env) (w u : World) → Settled env w false u → Kept w u
Settled-Kept_of_not env w u h = (omega (arith, h.later), h.left.0, omega (arith, h.taken), h.sane)

pub Kept-trans : (a b c : World) → Kept a b → Kept b c → Kept a c
Kept-trans a b c p q = (omega arith, q.1 ∙ p.1, q.2 ∙ p.2, q.3 ∙ p.3)

-- What every park operation promises of the token: it reports a notification exactly if it took one
-- token, it failed no assertion and kept the protocol, and a token that is there at its start is
-- taken without blocking.
abbrev pub Parked : {R : Type 0} → Env → (R → Bool) → World → R → World → Type 0
Parked env took w r u =
    Settled env w (took r) u
    × (seen w ≡ notified_token → (took r ≡ true) × (blocks u.trace ≡ blocks w.trace))

module _ (env : Env) (w : World) (token : IsToken w.word) where
  abbrev Retaken : World → Bool → World → Type 0
  Retaken u took v = Settled env w took v × (took ≡ (seen u == notified_token)) × (u.time < v.time)

  -- the take that follows a wait
  retake :
      (u : World)
      → Kept w u
      → IsGuarded env empty_token u
      → Returns (Retaken u) (take_notification env u)
  retake u k h =
      Returns-map _ _ (λ took v q. (Settled-Kept env w u v took k q.0, q.1, q.0.later))
        (take_notification env u) (take_notification-Taken env u (subst IsToken (sym k.1) token) h)

  -- `let consumed = self.take_notification(); debug_assert!(consumed);` where the token is there
  pub take_asserted-Settled :
      (u : World)
      → Kept w u
      → IsGuarded env empty_token u
      → seen u ≡ notified_token
      → Returns (λ _ v. Settled env w true v) (take_asserted env u)
  unfolding take_asserted
  take_asserted-Settled u k h full =
      Returns-bind (Retaken u) (λ _ v. Settled env w true v) debug_assert (take_notification env) u
        (retake u k h) passes
    where
      passes :
          (took : Bool) (v : World)
          → Retaken u took v
          → Returns (λ _ x. Settled env w true x) (debug_assert took v)
      passes true v q = record {
        taken = q.0.taken;
        sane = q.0.sane;
        left = let (t, from, to, e) = q.0.left in (t, from, omega arith, e);
        guarded = q.0.guarded;
        later = omega (arith, q.0.later);
      }
      passes false v q = absurd (ground (arith, full))

  -- after the take that follows a wait which ended at `u`
  abbrev pub Last : {R : Type 0} → (R → Bool) → R → R → World → R → World → Type 0
  Last took found missed u r v =
      Parked env took w r v × (u.time < v.time) × ((r ≡ found) ⊎ (r ≡ missed))

  -- what is left to do when the first take found nothing
  abbrev pub Unready : World → Type 0
  Unready u =
      Kept w u × IsGuarded env empty_token u × (seen w ≢ notified_token) × (u.time ≡ suc w.time)

  module _ {R : Type 0} (took : R → Bool) (found : R) (finds : took found ≡ true)
      (unready : seen w ≢ notified_token) where
    settle : (r : R) (b : Bool) (v : World) → took r ≡ b → Settled env w b v → Parked env took w r v
    settle r b v e h = (rw e h, λ full. absurd (unready full))

    -- a take after a wait, where it is reported as `found` or as `missed`
    pub take-Last :
        (missed : R)
        → took missed ≡ false
        → (u : World) → Kept w u
        → IsGuarded env empty_token u
        → Returns
            (Last took found missed u)
            ((take_notification env >>= return_if found (pure missed)) u)
    take-Last missed misses u k h =
        Returns-bind (Retaken u) (Last took found missed u) (return_if found (pure missed))
          (take_notification env) u (retake u k h) finish
      where
        finish :
            (b : Bool) (v : World)
            → Retaken u b v
            → Returns (Last took found missed u) (return_if found (pure missed) b v)
        finish true v q = (settle found true v finds q.0, q.2, inl refl)
        finish false v q = (settle missed false v misses q.0, q.2, inr refl)

    -- an asserted take after a wait that saw the token
    pub take_certain :
        (u : World)
        → Kept w u
        → IsGuarded env empty_token u
        → seen u ≡ notified_token
        → Returns (λ r v. Parked env took w r v × (r ≡ found)) ((take_asserted env >> pure found) u)
    take_certain u k h full =
        Returns-bind (λ _ v. Settled env w true v) (λ r v. Parked env took w r v × (r ≡ found))
          (λ _. pure found) (take_asserted env) u (take_asserted-Settled u k h full)
          (λ _ v q. (settle found true v finds q, refl))

  module _ {R : Type 0} (took : R → Bool) (found : R) (finds : took found ≡ true) (rest : M R)
      (guarded : IsGuarded env empty_token w) (Q : R → World → Type 0)
      (done : (u : World) → Parked env took w found u → Q found u) where
    first : (u : World) → Taken env w true u → Parked env took w found u
    first u q = (rw finds q.0, λ full. (finds, q.2))

    second : (u : World) → Taken env w false u → Unready u
    second u q = (
      Settled-Kept_of_not env w u q.0,
      q.0.guarded,
      λ full. absurd (ground (arith, q.1)),
      q.3 refl,
    )

    pub take_first-Upto :
        ((u : World) → Unready u → Upto Q (rest u))
        → Upto Q ((take_notification env >>= return_if found rest) w)
    take_first-Upto k =
        Upto-bind (Taken env w) Q (return_if found rest) (take_notification env) w
          (Returns-Upto _ (take_notification env w) (take_notification-Taken env w token guarded))
          cases
      where
        cases : (b : Bool) (u : World) → Taken env w b u → Upto Q (return_if found rest b u)
        cases true u q = done u (first u q)
        cases false u q = k u (second u q)

    pub take_first-Returns :
        ((u : World) → Unready u → Returns Q (rest u))
        → Returns Q ((take_notification env >>= return_if found rest) w)
    take_first-Returns k =
        Returns-bind (Taken env w) Q (return_if found rest) (take_notification env) w
          (take_notification-Taken env w token guarded) cases
      where
        cases : (b : Bool) (u : World) → Taken env w b u → Returns Q (return_if found rest b u)
        cases true u q = done u (first u q)
        cases false u q = k u (second u q)
