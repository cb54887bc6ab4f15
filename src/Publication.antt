-- ===== src/Publication.antt =====
-- What the token carries from the producers to the consumer: the `unpark` operations and the
-- consumer's compare-exchange of src/parker.rs over the release sequences of the C++ memory model,
-- which Rust's atomics follow. `SingleUnparker::unpark` is a Release store and starts a release
-- sequence of its own; `MultiUnparker::unpark` is a Release read-modify-write and continues those
-- that are there, as the consumer's compare-exchange does.
pub mod Visibility
pub mod Mailbox
use Prim.Native.Nat.{bit_or}
use snoozer.Prelude.{ℕ, Bool, true, false, List, [], ◌∷◌, ◌++◌, ◌==◌, if◌then◌else◌}
use snoozer.Parker.{empty_token, notified_token}

-- Publications are numbered; a producer's own list holds what it has written so far.
pub record Channel : Type 0 where
  pub token : ℕ  -- the value of the token
  pub carried : List ℕ  -- what an Acquire access of the token's current value makes visible
  pub written : ℕ → List ℕ  -- what each producer has written, newest first
  pub view : List ℕ  -- what the consumer is sure to see

-- `single_pair` and `multi_pair`: an empty token and nothing written
abbrev pub new_pair : Channel
new_pair = record { token = empty_token; carried = []; written = λ _. []; view = [] }

-- A producer writes its data before it notifies.
abbrev pub publish : ℕ → ℕ → Channel → Channel
publish p x c = record c { written = λ q. if p == q then x ∷ c.written q else c.written q }

-- `SingleUnparker::unpark`
unfoldable pub unpark_single : ℕ → Channel → Channel
unpark_single p c = record c { token = notified_token; carried = c.written p }

-- `MultiUnparker::unpark`
unfoldable pub unpark_multi : ℕ → Channel → Channel
unpark_multi p c = record c {
  token = bit_or c.token notified_token;
  carried = c.written p ++ c.carried;
}

-- The consumer's compare-exchange: whether it took the token, and what it then sees.
unfoldable pub take : Channel → Bool × Channel
take c =
    if c.token == notified_token
    then (true, record c { token = empty_token; view = c.carried ++ c.view })
    else (false, c)
