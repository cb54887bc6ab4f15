-- ===== src/Benchctl/Journal.antt =====
-- tools/benchctl/src/journal.rs: the journal of one operation. What serde_json and sha2 compute is a
-- parameter, `Codec`.
use Prim.Native.Char.{code}
use Prim.Native.String.{String}
use text.Mathlib.Text.{◌==◌ as ◌=ₜ◌}
use snoozer.Prelude.{
  ℕ, Bool, true, false, not, ◌&&◌, ◌||◌, List, [], ◌∷◌, ◌++◌, Option, none, some, leb, ◌==◌,
  if◌then◌else◌, is_none,
}
use snoozer.Errors.{Result, ok, err}
use snoozer.Benchctl.Paths.{SysfsPath, FileName, lookup}
use snoozer.Benchctl.Errors.{BenchError, usage, state_error, io, json}
use snoozer.Benchctl.Host.{
  Actor, World, Host, Action, pure, throw, ◌>>=◌, ◌>>◌, attempt, throw_if, lift_result, value,
}
use snoozer.Benchctl.Runtime.{atomic_write}
pub mod Stored
pub mod Loaded
pub mod Roundtrip

abbrev pub journal_version : String
journal_version = "benchctl-journal-v1"

pub record Request : Type 0 where
  pub receipt : String
  pub accepted_receipt : String
  pub receipt_digest : String
  pub accepted_executable : String
  pub executable_digest : String
  pub cpus : List ℕ
  pub timeout_seconds : ℕ
  pub workload : List String
  pub workload_actor : Actor

pub record IdleEntry : Type 0 where
  pub cpu : ℕ
  pub state : ℕ
  pub name : String
  pub disable_path : SysfsPath
  pub original : String
  pub desired : String

pub data Stage : Type 0 where
  prepared applied workload_started workload_finished draining restoring restored recoverable
        conflicted :
      Stage

pub data TerminalOutcome : Type 0 where
  success : TerminalOutcome
  failure : String → TerminalOutcome
  timed_out : TerminalOutcome
  cancelled : TerminalOutcome

pub record Transition : Type 0 where
  pub stage : Stage
  pub coordinator : Actor
  pub unix_millis : ℕ

pub record Journal : Type 0 where
  pub version : String
  pub operation_id : String
  pub request : Request
  pub request_hash : String
  pub coordinator : Actor
  pub boot_id : String
  pub entries : List IdleEntry
  pub outcome : Option TerminalOutcome
  pub transitions : List Transition

-- `serde_json::to_vec`, `to_vec_pretty` and `from_slice`, and `hex_digest`.
pub record Codec : Type 0 where
  pub to_vec : Request → Option String
  pub to_vec_pretty : Journal → Option String
  pub from_slice : String → Option Journal
  pub hex_digest : String → String

abbrev pub or_json {ℓ} : {A : Type ℓ} → String → Option A → Result A BenchError
or_json op none = err (json op)
or_json op (some a) = ok a

abbrev hashed : Codec → Option String → Result String BenchError
hashed c none = err (json "hashing request")
hashed c (some encoded) = ok (c.hex_digest encoded)

unfoldable pub digest : Codec → Request → Result String BenchError
digest c r = hashed c (c.to_vec r)

abbrev last_stage : List Transition → Stage
last_stage [] = prepared
last_stage (t ∷ []) = t.stage
last_stage (t ∷ u ∷ ts) = last_stage (u ∷ ts)

abbrev pub stage : Journal → Stage
stage j = last_stage j.transitions

abbrev is_restored_stage : Stage → Bool
is_restored_stage restored = true
is_restored_stage _ = false

-- `journal.stage() == Stage::Restored`
abbrev pub is_restored : Journal → Bool
is_restored j = is_restored_stage (stage j)

abbrev pub journal_of : Result String BenchError → String → Request → Actor → String → Host Journal
journal_of (err e) id request actor boot w = throw e w
journal_of (ok hash) id request actor boot w =
    pure
      (record {
        version = journal_version;
        operation_id = id;
        request = request;
        request_hash = hash;
        coordinator = actor;
        boot_id = boot;
        entries = [];
        outcome = none;
        transitions = record { stage = prepared; coordinator = actor; unix_millis = w.now } ∷ [];
      })
      w

abbrev pub new_journal : Codec → String → Request → Actor → String → Host Journal
new_journal c id request = journal_of (digest c request) id request

-- `journal.transition(stage, actor)`, at the time `now`
abbrev pub advanced : Stage → Actor → ℕ → Journal → Journal
advanced s actor now j = record j {
  transitions = j.transitions ++ record { stage = s; coordinator = actor; unix_millis = now } ∷ [];
}

abbrev pub transition : Stage → Actor → Journal → Host Journal
transition s actor j w = (value (advanced s actor w.now j), w)

-- `actor()`
abbrev pub actor : Host Actor
actor w = (value w.process, w)

abbrev is_empty : List Transition → Bool
is_empty [] = true
is_empty (t ∷ ts) = false

abbrev pub check_hash : String → Journal → Result String BenchError → Result (Unit {0}) BenchError
check_hash h j (err e) = err e
check_hash h j (ok hash) =
    if not (h =ₜ hash)
    then err (state_error "journal request hash does not match its request")
    else if is_empty j.transitions
    then err (state_error "journal has no transition")
    else ok tt

unfoldable pub validate : Codec → Journal → Result (Unit {0}) BenchError
validate c j =
    if not (j.version =ₜ journal_version)
    then err (state_error "unsupported journal version")
    else check_hash j.request_hash j (digest c j.request)

abbrev is_id_char : ℕ → Bool
is_id_char k =
    (leb b'0' k && leb k b'9')
    || (leb b'A' k && leb k b'Z')
    || (leb b'a' k && leb k b'z')
    || (k == b'-')
    || (k == b'_')

abbrev are_id_chars : String → Bool
are_id_chars String.[] = true
are_id_chars (String.◌∷◌ c s) = is_id_char (code c) && are_id_chars s

abbrev pub journal_name : String → FileName
journal_name id = record { stem = id; extension = "json" }

unfoldable pub journal_path : String → Result FileName BenchError
journal_path id =
    if (id =ₜ "") || not (are_id_chars id)
    then err (usage "operation id must contain only ASCII letters, digits, '-' or '_'")
    else ok (journal_name id)

abbrev pub file_contents : String → Option String → Host String
file_contents op none = throw (io op)
file_contents op (some bytes) = pure bytes

abbrev pub read_file : String → FileName → Host String
read_file op path w = file_contents op (lookup path w.operations) w

-- `exists()` of a file in the state directory
abbrev pub exists_file : FileName → Host Bool
exists_file path w = (value (not (is_none (lookup path w.operations))), w)

unfoldable pub load : Codec → FileName → Host Journal
load c path = do
  attempt "reading journal"
  bytes ← read_file "reading journal" path
  journal ← lift_result (or_json "reading journal" (c.from_slice bytes))
  lift_result (validate c journal)
  pure journal

unfoldable pub store : Codec → FileName → Journal → Action
store c path journal = do
  lift_result (validate c journal)
  bytes ← lift_result (or_json "serializing journal" (c.to_vec_pretty journal))
  atomic_write path bytes

-- `boot_id()`
unfoldable pub read_boot_id : Host String
read_boot_id = do attempt "reading boot identity"; λ w. (value w.boot, w)
