-- ===== src/Benchctl/Supervision.antt =====
-- What a run of tools/benchctl asks of the rest of the system: the supervision of the workload, build receipts, and the
-- locks. None of it touches the cpuidle files or a journal.
use Prim.Native.String.{String}
use snoozer.Prelude.{Bool, Option, ◌≡◌}
use snoozer.Benchctl.Paths.{lookup}
use snoozer.Benchctl.Host.{World, Host, Action, Actor}
use snoozer.Benchctl.Host.Ending.{Ends, Ends-map, Disk, On, Kept}
use snoozer.Benchctl.Journal.{Request, journal_name}
use snoozer.Benchctl.Receipt.{BuildReceipt}
pub mod Drain

-- `Outcome` of tools/benchctl/src/supervision.rs
pub data Outcome : Type 0 where
  success : Outcome
  failure : String → Outcome
  timed_out : Outcome
  cancelled : Outcome

pub record Services : Type 0 where
  -- `create_dir_all` of the state directory and `secure_state_directory`
  pub secure_state : Action
  -- `lock_for`, which may wait
  pub lock_for : Bool → Action
  pub require_inactive : Action
  pub invoking_actor : Host Actor
  pub load_receipt : String → Host BuildReceipt
  pub verify_checkout_as : BuildReceipt → Actor → Action
  pub receipt_digest : String → Host String
  pub new_operation_id : Host String
  pub client_watch : Action
  -- the snapshots of the receipt and the executable in the state directory
  pub accept_snapshots : Request → BuildReceipt → Action
  pub coordinate : String → Request → Host Outcome
  pub recover_outcome : String → Host (Option Outcome)
  pub cleanup_runtime : String → Action

-- The cpuidle files and every journal are what they were.
abbrev pub Apart : World → World → Type 0
Apart w u =
    (u.sysfs ≡ w.sysfs)
    × ((id : String)
        → lookup (journal_name id) u.operations ≡ lookup (journal_name id) w.operations)

abbrev pub IsSeparate : {A : Type 0} → Host A → Type 0
IsSeparate m = (w : World) → Ends (λ _. Apart w) (Apart w) (m w)

pub record IsTidy (s : Services) : Type 0 where
  pub secure_state : IsSeparate s.secure_state
  pub lock_for : (wait : Bool) → IsSeparate (s.lock_for wait)
  pub require_inactive : IsSeparate s.require_inactive
  pub invoking_actor : IsSeparate s.invoking_actor
  pub load_receipt : (path : String) → IsSeparate (s.load_receipt path)
  pub verify_checkout_as :
      (receipt : BuildReceipt) (actor : Actor) → IsSeparate (s.verify_checkout_as receipt actor)
  pub receipt_digest : (path : String) → IsSeparate (s.receipt_digest path)
  pub new_operation_id : IsSeparate s.new_operation_id
  pub client_watch : IsSeparate s.client_watch
  pub accept_snapshots :
      (request : Request) (receipt : BuildReceipt) → IsSeparate (s.accept_snapshots request receipt)
  pub coordinate : (id : String) (request : Request) → IsSeparate (s.coordinate id request)
  pub recover_outcome : (id : String) → IsSeparate (s.recover_outcome id)
  pub cleanup_runtime : (id : String) → IsSeparate (s.cleanup_runtime id)

-- A predicate on the tree and the journals alone.
abbrev pub IsLocal : Disk → Type 0
IsLocal I = (w u : World) → Apart w u → On I w → On I u

pub IsSeparate-Kept :
    {A : Type 0} (I : Disk) (m : Host A) (w : World)
    → IsLocal I
    → IsSeparate m
    → On I w
    → Kept I (m w)
IsSeparate-Kept I m w local separate h =
    Ends-map (λ _. Apart w) (λ _. On I) (Apart w) (On I) (m w) (separate w) (λ _ u a. local w u a h)
      (λ u a. local w u a h)
