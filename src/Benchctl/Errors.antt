-- ===== src/Benchctl/Errors.antt =====
-- tools/benchctl/src/error.rs: the errors of the benchmark control tool. Texts that the source fills
-- in with paths and operating-system errors keep their fixed part.
use Prim.Native.String.{String}
use snoozer.Prelude.{ℕ}
use snoozer.Benchctl.Paths.{SysfsPath}

pub data BenchError : Type 0 where
  usage : String → BenchError
  preflight : String → BenchError
  request_conflict : (operation_id : String) → BenchError
  recovery_required : (operation_id : String) → BenchError
  restore_conflict : (path : SysfsPath) (expected : String) (actual : String) → BenchError
  state_error : String → BenchError
  workload : String → BenchError
  io : (operation : String) → BenchError
  json : (operation : String) → BenchError

abbrev pub retry_advice : BenchError → String
retry_advice (request_conflict _) = "do not retry unchanged"
retry_advice (usage _) = "do not retry unchanged"
retry_advice (preflight _) = "do not retry unchanged"
retry_advice (recovery_required _) = "run `benchctl recover <id>`"
retry_advice (restore_conflict _ _ _) = "run `benchctl recover <id>`"
retry_advice (workload _) =
    ("inspect workload output; a new operation is safe only after successful cleanup")
retry_advice (state_error _) = "inspect state and retry only when the cause is resolved"
retry_advice (io _) = "inspect state and retry only when the cause is resolved"
retry_advice (json _) = "inspect state and retry only when the cause is resolved"

abbrev pub exit_code : BenchError → ℕ
exit_code (workload _) = 1
exit_code _ = 2
