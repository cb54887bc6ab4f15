-- ===== src/Machine.antt =====
-- The machine that one waiting thread sees: a watched atomic word that other threads may change at
-- any step, a clock, the timestamp counter, and the log of what the thread did.
-- `WaitableAtomic` of src/atomic.rs, and the instructions of src/arch/x86_64/{amd,intel}.rs.
use snoozer.Prelude.{ℕ, suc, Bool, true, false, Option, none, some, List, ◌∷◌, ◌==◌, if◌then◌else◌}

-- What the thread does, in order.
pub data Event : Type 0 where
  loaded : ℕ → Event  -- Acquire load of the watched word
  peeked : ℕ → Event  -- Relaxed load, or the load of a failed compare-exchange
  exchanged : ℕ → ℕ → Event  -- successful Acquire compare-exchange, from and to
  asserted : Bool → Event  -- `debug_assert!` and its condition
  ticked : ℕ → Event  -- `Instant::now`, in nanoseconds
  counted : ℕ → Event  -- the timestamp counter
  spun : Event  -- `std::hint::spin_loop`
  yielded : Event  -- `thread::yield_now`
  armed : ℕ → Event  -- MONITORX or UMONITOR at an address
  mwaited : ℕ → ℕ → Event  -- MWAITX with its cycles and hint
  umwaited : ℕ → Event  -- UMWAIT with its deadline
  handed_off : Event  -- the store that lets the preflight helper go
  published : Event  -- the preflight helper's store to the target

-- Everything that the thread does not decide, as functions of the number of its steps so far.
pub record Env : Type 0 where
  pub after : ℕ → ℕ → ℕ → ℕ  -- the word at each step, after this thread stored a value at a step
  pub clock : ℕ → ℕ  -- `Instant::now`, in nanoseconds
  pub counter : ℕ → ℕ  -- the timestamp counter, a u64
  pub address : ℕ  -- the address of the watched word

pub record World : Type 0 where
  pub time : ℕ  -- steps made
  pub word : ℕ → ℕ  -- the watched word at each step, as long as the thread does not store
  pub trace : List Event  -- newest first

-- A computation of the thread; `none` is one that is still running when its fuel is used up.
abbrev pub M {ℓ} : Type ℓ → Type ℓ
M A = World → Option (A × World)

abbrev pub Action : Type 0
Action = M (Unit {0})

abbrev pub pure {ℓ} : {A : Type ℓ} → A → M A
pure a w = some (a, w)

infixl 5 ◌>>=◌ ◌>>◌
abbrev pub ◌>>=◌ {ℓ κ} : {A : Type ℓ} {B : Type κ} → M A → (A → M B) → M B
◌>>=◌ m f w = elim (m w) [ none ↦ none | some (a, w') ↦ f a w' ]

abbrev pub ◌>>◌ {ℓ} : {B : Type ℓ} → Action → M B → M B
m >> k = m >>= λ _. k

abbrev pub running {ℓ} : {A : Type ℓ} → M A
running w = none

-- One step that shows in the log.
abbrev pub step : World → Event → World
step w e = record w { time = suc w.time; trace = e ∷ w.trace }

abbrev pub act : Event → Action
act e w = some (tt, step w e)

abbrev pub spin_loop : Action
spin_loop = act spun

abbrev pub yield_now : Action
yield_now = act yielded

abbrev pub monitorx : ℕ → Action
monitorx address = act (armed address)

abbrev pub mwaitx : ℕ → ℕ → Action
mwaitx timeout_cycles c_state_hint = act (mwaited timeout_cycles c_state_hint)

abbrev pub umonitor : ℕ → Action
umonitor address = act (armed address)

abbrev pub umwait_c01 : ℕ → Action
umwait_c01 deadline = act (umwaited deadline)

abbrev pub debug_assert : Bool → Action
debug_assert condition = act (asserted condition)

-- the value that a load reads now, and the world after an Acquire load
abbrev pub seen : World → ℕ
seen w = w.word w.time

abbrev pub saw : World → World
saw w = step w (loaded (seen w))

abbrev pub load_acquire : M ℕ
load_acquire w = some (seen w, saw w)

abbrev pub load_relaxed : M ℕ
load_relaxed w = some (seen w, step w (peeked (seen w)))

module _ (env : Env) where
  -- `compare_exchange(.., Acquire, Relaxed).is_ok()`
  abbrev pub compare_exchange : ℕ → ℕ → M Bool
  compare_exchange current new w =
      if seen w == current
      then some (true, record (step w (exchanged current new)) { word = env.after w.time new })
      else some (false, step w (peeked (seen w)))

  abbrev pub tick : World → World
  tick w = step w (ticked (env.clock w.time))

  abbrev pub instant_now : M ℕ
  instant_now w = some (env.clock w.time, tick w)

  abbrev pub read_tsc_ordered : M ℕ
  read_tsc_ordered w = let c = env.counter w.time in some (c, step w (counted c))
