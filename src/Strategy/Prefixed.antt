-- ===== src/Strategy/Prefixed.antt =====
-- `if let Some(result) = spin_prefix(..) { return result; }` before another wait.
use snoozer.Prelude.{ℕ, Option, none, some, ◌∙◌, arith}
use snoozer.Machine.{Env, World, M, ◌>>=◌}
use snoozer.Outcome.{Returns, Returns-map, Returns-bind, Returns-both}
use snoozer.Wait.{Deadline, WaitTimeoutResult, or_else, spin_prefix}
use snoozer.Wait.Polling.{Early, spin_prefix-Early}
use snoozer.Wait.Monitor.{IsGuarded, Sound, spin_prefix-IsGuarded}
use snoozer.Wait.Blocking.{Steady, spin_prefix-Steady}
use snoozer.Wait.Progress.{Settles, Progress, EarlyProgress, spin_prefix-Progress}

module _ (env : Env) (e n : ℕ) (d : Option Deadline) (rest : M (WaitTimeoutResult ℕ)) where
  abbrev prefixed : M (WaitTimeoutResult ℕ)
  prefixed = spin_prefix env e n d >>= λ early. or_else early rest

  abbrev Justified : Option (WaitTimeoutResult ℕ) → World → Type 0
  Justified early u = Early env e d early u × IsGuarded env e u

  or_else-Sound :
      ((u : World) → IsGuarded env e u → Returns (Sound env e d) (rest u))
      → (early : Option (WaitTimeoutResult ℕ)) (u : World) → Justified early u
      → Returns (Sound env e d) (or_else early rest u)
  or_else-Sound k none u h = k u h.1
  or_else-Sound k (some r) u h = h

  pub prefixed-Sound :
      ((u : World) → IsGuarded env e u → Returns (Sound env e d) (rest u))
      → (w : World) → IsGuarded env e w
      → Returns (Sound env e d) (prefixed w)
  prefixed-Sound k w h =
      Returns-bind Justified (Sound env e d) (λ early. or_else early rest) (spin_prefix env e n d) w
        (Returns-both _ _ (spin_prefix env e n d w) (spin_prefix-Early env e d n w)
          (spin_prefix-IsGuarded env e d n w h))
        (or_else-Sound k)

  module _ (steady : (u : World) → Returns (Steady 1 u) (rest u)) where
    or_else-Progress :
        (t₀ : ℕ) (w : World) (early : Option (WaitTimeoutResult ℕ)) (u : World)
        → EarlyProgress t₀ w early u
        → Returns (Progress t₀ w) (or_else early rest u)
    or_else-Progress t₀ w none u h =
        Returns-map _ (Progress t₀ w)
          (λ r u' q. (omega arith, q.1 ∙ h.1, λ at. absurd (omega arith))) (rest u) (steady u)
    or_else-Progress t₀ w (some r) u h = h

    pub prefixed-Progress :
        (t₀ : ℕ) (w : World) → Settles env w.word e d t₀ → Returns (Progress t₀ w) (prefixed w)
    prefixed-Progress t₀ w h =
        Returns-bind (EarlyProgress t₀ w) (Progress t₀ w) (λ early. or_else early rest)
          (spin_prefix env e n d) w (spin_prefix-Progress env e t₀ d n w h) (or_else-Progress t₀ w)

    or_else-Steady :
        (w : World) (early : Option (WaitTimeoutResult ℕ)) (u : World)
        → Steady 0 w early u
        → Returns (Steady 1 w) (or_else early rest u)
    or_else-Steady w none u h =
        Returns-map _ (Steady 1 w)
          (λ r u' q. (omega arith, q.1 ∙ h.1, omega arith, q.3 ∙ h.3, q.4 ∙ h.4)) (rest u)
          (steady u)
    or_else-Steady w (some r) u h = (h.0, h.1, omega arith, h.3, h.4)

    pub prefixed-Steady : (w : World) → Returns (Steady 1 w) (prefixed w)
    prefixed-Steady w =
        Returns-bind (Steady 0 w) (Steady 1 w) (λ early. or_else early rest) (spin_prefix env e n d)
          w (spin_prefix-Steady env e d n w) (or_else-Steady w)
