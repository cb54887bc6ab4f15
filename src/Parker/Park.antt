-- ===== src/Parker/Park.antt =====
-- The park operations over a lawful strategy: one token or none is taken, none is lost, and the
-- assertions of the source hold.
use snoozer.Prelude.{
  ℕ, Option, ◌+◌, ◌-◌, ◌≤◌, ◌<◌, ◌≡◌, ◌≢◌, Bool, true, false, refl, sym, subst, inl, none, ◌∙◌,
  arith,
}
use snoozer.Machine.{Env, World, M, pure, ◌>>=◌, seen}
use snoozer.Outcome.{Upto, Returns, Upto-bind, Returns-bind, Returns-map, Upto-map, Returns-Upto}
use snoozer.Wait.{Deadline, WaitResult}
use snoozer.Wait.Monitor.{IsGuarded}
use snoozer.Wait.Blocking.{Kept, blocks}
use snoozer.Wait.Progress.{Settles}
use snoozer.Strategy.{StrategyImpl, wait_if_equal, wait_until_different}
use snoozer.Strategy.Laws.{IsLawful}
use snoozer.Strategy.Filtered.{
  Observed, RawObserved, wait_until_different_total, wait_if_equal_sound,
}
use snoozer.Parker.Token.{IsToken, kept-le}
use snoozer.Parker.Parts.{
  Parked, Kept-trans, take-Last, take_asserted-Settled, take_first-Upto, take_first-Returns,
}
use snoozer.Parker.{
  empty_token, notified_token, take_notification, take_asserted, return_if, ParkResult,
  park_unready, park, park_until_unready, park_until_notified,
}

abbrev pub park_took : ParkResult → Bool
park_took ParkResult.notified = true
park_took ParkResult.unclassified = false

-- the last take of `park`
abbrev take_or_not : Env → M ParkResult
take_or_not env =
    take_notification env >>= return_if ParkResult.notified (pure ParkResult.unclassified)

-- the first observation that the token is not empty makes it certain
pub certain :
    (env : Env) (w u : World)
    → IsToken w.word
    → (v : ℕ) → v ≢ empty_token
    → u.word (u.time - 1) ≡ v
    → u.word ≡ w.word
    → seen u ≡ notified_token
certain env w u token v differs current same =
    let t : IsToken u.word = subst IsToken (sym same) token in
    kept-le t (u.time - 1) u.time (omega arith) (omega (arith, t.binary (u.time - 1)))

pub settles :
    (env : Env) (w : World)
    → IsToken w.word
    → (t₀ : ℕ) → w.word t₀ ≡ notified_token
    → (d : Option Deadline) → Settles env w.word empty_token d t₀
settles env w token t₀ published d t le = inl (ground (arith, kept-le token t₀ t le published))

module _ (env : Env) (s : StrategyImpl) (law : IsLawful env s) where
  abbrev OneWait : World → WaitResult ℕ → World → Type 0
  OneWait u r v = RawObserved env empty_token u r v × (blocks v.trace ≤ 1 + blocks u.trace)

  raw-Kept :
      (u : World) (r : WaitResult ℕ) (v : World)
      → RawObserved env empty_token u r v
      → Kept u v × IsGuarded env empty_token v
  raw-Kept u (WaitResult.changed x) v h = (h.kept, h.guarded)
  raw-Kept u WaitResult.unclassified v h = (h.1, h.3)

  -- With any lawful strategy, for a token that is 0 or 1 and stays 1 until it is taken, and a log
  -- that kept the protocol of the monitor: `park` reports a notification exactly if it took one
  -- token. If it reports none, it took none and saw the token empty in its last step. A token that
  -- is there when it starts is taken without blocking. It fails no assertion and executes no
  -- hardware wait that was not armed and rechecked.
  pub park_sound :
      (fuel : ℕ) (w : World)
      → IsToken w.word
      → IsGuarded env empty_token w
      → Upto (Parked env park_took w) (park env s fuel w)
  unfolding park
  park_sound fuel w token guarded =
      take_first-Upto env w token park_took ParkResult.notified refl (park_unready env s fuel)
        guarded (Parked env park_took w) (λ u q. q)
        λ u ready.
          Upto-bind (OneWait u) (Parked env park_took w) (λ _. take_or_not env)
            (wait_if_equal env s fuel empty_token) u
            (wait_if_equal_sound env s law fuel empty_token u ready.1)
            λ r v q.
              let (kept, still) = raw-Kept u r v q.0 in
              Upto-map _ (Parked env park_took w) (λ _ x y. y.0) (take_or_not env v)
                (Returns-Upto _ (take_or_not env v) (
                  take-Last env w token park_took ParkResult.notified refl ready.2
                    ParkResult.unclassified refl v (Kept-trans w u v ready.0 kept) still))

  -- With any lawful strategy, for a token that is 0 or 1 and stays 1 until it is taken, and a log
  -- that kept the protocol of the monitor: the park that waits until it is notified returns, with
  -- turns and fuel for the steps until a producer has set the token. It has then taken exactly one
  -- token, its `debug_assert` held, and it executed no hardware wait that was not armed and
  -- rechecked. A token that is there when it starts is taken without blocking.
  pub park_until_notified_total :
      (turns fuel t₀ : ℕ) (w : World)
      → IsToken w.word
      → IsGuarded env empty_token w
      → w.word t₀ ≡ notified_token
      → t₀ - w.time < turns
      → t₀ - w.time < fuel
      → Returns (Parked env (λ _. true) w) (park_until_notified env s turns fuel w)
  unfolding park_until_notified
  park_until_notified_total turns fuel t₀ w token guarded published m n =
      take_first-Returns env w token (λ _. true) tt refl (park_until_unready env s turns fuel)
        guarded (Parked env (λ _. true) w) (λ u q. q)
        λ u ready.
          Returns-bind (Observed env empty_token u) (Parked env (λ _. true) w)
            (λ _. take_asserted env) (wait_until_different env s turns fuel empty_token) u
            (wait_until_different_total env s law turns fuel empty_token t₀ u
              (subst (λ f. Settles env f empty_token none t₀) (sym ready.0.1)
                (settles env w token t₀ published none))
              ready.1 (omega arith) (omega arith))
            λ v x seen_it.
              Returns-map _ _ (λ _ y q. (q, λ full. absurd (ready.2 full))) (take_asserted env x)
                (take_asserted-Settled env w token x (Kept-trans w u x ready.0 seen_it.kept)
                  seen_it.guarded
                  (certain env w x token v seen_it.differs seen_it.current
                    (seen_it.kept.1 ∙ ready.0.1)))
