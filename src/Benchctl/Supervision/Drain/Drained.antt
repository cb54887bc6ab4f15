-- ===== src/Benchctl/Supervision/Drain/Drained.antt =====
-- Ending a process group takes a bounded number of turns, and success is a proof that it is empty.
use snoozer.Prelude.{
  ℕ, zero, suc, ◌+◌, ◌-◌, ◌*◌, ◌≤◌, ◌<◌, ◌≡◌, refl, subst, Bool, true, false, ◌∷◌, Option, none,
  some, ltb, if◌then◌else◌, arith,
}
use snoozer.Errors.{Result, ok, err}
use snoozer.Benchctl.Errors.{BenchError, io}
use snoozer.Benchctl.Supervision.Drain.{
  stop_grace, drain_limit, Signal, sigterm, sigkill, Answer, delivered, no_such_process, refused,
  Group, Draining, Drain, tick, instant, sleep, signalled, signal_group, if_empty, turn,
  until_empty, ◌>>=◌, wait_empty, give_up, kill_unless, terminate_group,
}

-- The clock does not run back, and a sleep of 10 ms takes at least as long: what the clock shows less 10
-- ms for each sleep does not run back.
abbrev pub IsPaced : Group → Type 0
IsPaced g = (t u : ℕ) → t ≤ u → g.clock t ≤ g.clock u

-- The group was seen empty at a step between two.
abbrev pub SeenEmpty : Group → ℕ → ℕ → Type 0
SeenEmpty g from to = (t : ℕ) × (from ≤ t) × (t < to) × (g.killpg t ≡ no_such_process)

-- The loop ends; later than it began, and with a group that was seen empty if it says so.
abbrev Looped : Group → Draining → Option (Result Bool BenchError × Draining) → Type 0
Looped g s none = ⊥
Looped g s (some (ok true, u)) = (s.time ≤ u.time) × SeenEmpty g s.time u.time
Looped g s (some (ok false, u)) = s.time ≤ u.time
Looped g s (some (err e, u)) = s.time ≤ u.time

Looped-earlier :
    (g : Group) (s u : Draining) (o : Option (Result Bool BenchError × Draining))
    → s.time ≤ u.time
    → Looped g u o
    → Looped g s o
Looped-earlier g s u none h l = l
Looped-earlier g s u (some (ok true, v)) h (k, (t, a, b, c)) =
    (ground arith, (t, ground arith, b, c))
Looped-earlier g s u (some (ok false, v)) h l = ground arith
Looped-earlier g s u (some (err e, v)) h l = ground arith

if_empty-Looped :
    (g : Group) (s : Draining) (t : ℕ) (u : Draining)
    (rest : Option (Result Bool BenchError × Draining))
    → s.time ≤ t
    → u.time ≡ suc t
    → Looped g s rest
    → Looped g s (if_empty (g.killpg t) u rest)
if_empty-Looped g s t u rest h e l = at (g.killpg t) refl
  where
    at : (a : Answer) → g.killpg t ≡ a → Looped g s (if_empty a u rest)
    at delivered q = l
    at no_such_process q = (ground arith, (t, h, ground arith, q))
    at refused q = ground arith

-- One turn, if the loop goes on as it should.
turn-Looped :
    (reap : Bool) (g : Group) (s : Draining)
    (rest : Draining → Option (Result Bool BenchError × Draining))
    → ((u : Draining) → (suc s.time ≤ u.time) × (u.sleeps ≡ suc s.sleeps) → Looped g u (rest u))
    → Looped g s (turn reap g (tick s) rest)
turn-Looped false g s rest k =
    if_empty-Looped g s (suc s.time) (tick (tick s)) (rest last) (ground arith) refl
      (Looped-earlier g s last (rest last) (ground arith) (k last (ground arith, refl)))
  where
    last : Draining
    last = sleep (tick (tick s))
turn-Looped true g s rest k = at (g.waited (suc s.time))
  where
    last : Draining
    last = sleep (tick (tick (tick s)))

    at :
        (b : Bool)
        → Looped g s (
            if b
            then if_empty (g.killpg (suc (suc s.time))) (tick (tick (tick s))) (rest last)
            else some (err (io "reaping workload supervisor"), tick (tick s)))
    at true =
        if_empty-Looped g s (suc (suc s.time)) (tick (tick (tick s))) (rest last) (ground arith)
          refl (Looped-earlier g s last (rest last) (ground arith) (k last (ground arith, refl)))
    at false = ground arith

until_empty-Looped :
    (reap : Bool) (g : Group) (fuel started limit : ℕ) (s : Draining)
    → IsPaced g
    → limit + started ≤ instant g s + fuel * 10_000_000
    → Looped g s (until_empty reap g (suc fuel) started limit s)
unfolding until_empty
until_empty-Looped reap g zero started limit s paced h =
    subst
      (λ b. Looped g s (
        if b
        then turn reap g (tick s) (until_empty reap g zero started limit)
        else some (ok false, tick s)))
      (over (instant g s) h) (ground arith)
  where
    over : (now : ℕ) → limit + started ≤ now + 0 → false ≡ ltb (now - started) limit
    over now h = ground arith
until_empty-Looped reap g (suc fuel) started limit s paced h =
    at (ltb (instant g s - started) limit) (λ u l.
      until_empty-Looped reap g fuel started limit u paced (
        later (instant g s) (instant g u) h (
          slept (g.clock s.time) (g.clock u.time) s.sleeps u.sleeps
            (paced s.time u.time (ground (arith, l.0))) l.1)))
  where
    slept :
        (a b n m : ℕ) → a ≤ b → m ≡ suc n → (a + n * 10_000_000) + 10_000_000 ≤ b + m * 10_000_000
    slept a b n m h e = omega arith

    later :
        (a b : ℕ)
        → limit + started ≤ a + suc fuel * 10_000_000
        → a + 10_000_000 ≤ b
        → limit + started ≤ b + fuel * 10_000_000
    later a b h k = omega arith

    at :
        (b : Bool)
        → ((u : Draining)
            → (suc s.time ≤ u.time) × (u.sleeps ≡ suc s.sleeps)
            → Looped g u (until_empty reap g (suc fuel) started limit u))
        → Looped g s (
            if b
            then turn reap g (tick s) (until_empty reap g (suc fuel) started limit)
            else some (ok false, tick s))
    at true again = turn-Looped reap g s (until_empty reap g (suc fuel) started limit) again
    at false again = ground arith

-- It returns, and where it succeeds, the group was seen empty after the first signal.
abbrev pub Drains : Group → Draining → Option (Result (Unit {0}) BenchError × Draining) → Type 0
Drains g s none = ⊥
Drains g s (some (ok a, u)) = SeenEmpty g s.time u.time
Drains g s (some (err e, u)) = Unit

Drains-earlier :
    (g : Group) (s u : Draining) (o : Option (Result (Unit {0}) BenchError × Draining))
    → s.time ≤ u.time
    → Drains g u o
    → Drains g s o
Drains-earlier g s u none h d = d
Drains-earlier g s u (some (ok a, v)) h (t, b, c, e) = (t, ground arith, c, e)
Drains-earlier g s u (some (err e, v)) h d = tt

module _ (g : Group) (paced : IsPaced g) (fuel : ℕ) (enough : 500 ≤ fuel) (reap : Bool) where
  -- A loop with a limit of 5 seconds, and what follows it.
  wait_empty-then :
      (s : Draining) (f : Bool → Drain (Unit {0}))
      → ((u : Draining) → s.time ≤ u.time → SeenEmpty g s.time u.time → Drains g s (f true u))
      → ((u : Draining) → s.time ≤ u.time → Drains g s (f false u))
      → Drains g s ((wait_empty reap g (suc fuel) 5_000_000_000 >>= f) s)
  wait_empty-then s f seen unseen = at (wait_empty reap g (suc fuel) 5_000_000_000 s) (
      Looped-earlier g s (tick s) (wait_empty reap g (suc fuel) 5_000_000_000 s) (ground arith) (
        until_empty-Looped reap g fuel (instant g s) 5_000_000_000 (tick s) paced (
          long (g.clock s.time) (g.clock (suc s.time)) (s.sleeps * 10_000_000)
            (paced s.time (suc s.time) (ground arith)))))
    where
      long : (a b n : ℕ) → a ≤ b → 5_000_000_000 + (a + n) ≤ (b + n) + fuel * 10_000_000
      long a b n h = omega arith

      at :
          (o : Option (Result Bool BenchError × Draining))
          → Looped g s o
          → Drains g s (((λ _. o) >>= f) s)
      at none l = l
      at (some (ok true, u)) (l, e) = seen u l e
      at (some (ok false, u)) l = unseen u l
      at (some (err e, u)) l = tt

  -- A signal, and what follows it.
  signal_group-then :
      (s : Draining) (sig : Signal) (f : Unit → Drain (Unit {0}))
      → ((u : Draining) → s.time ≤ u.time → Drains g u (f tt u))
      → Drains g s ((signal_group g sig >>= f) s)
  signal_group-then s sig f k = at (g.killpg s.time)
    where
      next : Draining
      next = record s { time = suc s.time; sent = (sig, s.time) ∷ s.sent }

      at : (a : Answer) → Drains g s (((λ _. signalled a next) >>= f) s)
      at delivered = Drains-earlier g s next (f tt next) (ground arith) (k next (ground arith))
      at no_such_process =
          Drains-earlier g s next (f tt next) (ground arith) (k next (ground arith))
      at refused = tt

  killed : (s : Draining) → Drains g s (kill_unless reap g (suc fuel) false s)
  killed s =
      signal_group-then s sigkill (λ _. wait_empty reap g (suc fuel) drain_limit >>= give_up)
        (λ u h. wait_empty-then u give_up (λ v _ e. e) (λ v _. tt))

-- Ending a process group returns, with 501 turns for each of its two loops: it does not wait forever
-- for a group that stays. Where it returns success, the operating system has said after its first
-- signal that the group has no process any more. This holds with and without reaping the leader.
-- The clock does not run back, and a sleep of 10 ms takes 10 ms at least; nothing is asked of the time
-- between two readings of the clock without a sleep.
pub terminate_group_drained :
    (reap : Bool) (g : Group) (fuel : ℕ) (s : Draining)
    → IsPaced g
    → 500 ≤ fuel
    → Drains g s (terminate_group reap g (suc fuel) s)
unfolding terminate_group
terminate_group_drained reap g fuel s paced enough =
    signal_group-then g paced fuel enough reap s sigterm
      (λ _. wait_empty reap g (suc fuel) stop_grace >>= kill_unless reap g (suc fuel))
      (λ u h.
        wait_empty-then g paced fuel enough reap u (kill_unless reap g (suc fuel)) (λ v _ e. e)
          (λ v l.
            Drains-earlier g u v (kill_unless reap g (suc fuel) false v) l
              (killed g paced fuel enough reap v)))
