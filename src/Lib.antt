-- ===== src/Lib.antt =====
-- snoozer: waiting for a change of an atomic word, on Linux x86-64 with the wait instructions of the
-- processor, and one-token notification pairs on top of it.
--
-- The program. A strategy (src/strategy.rs) waits until a watched atomic differs from an expected
-- value: by polling, by polling and yielding, or by MONITORX/MWAITX or UMONITOR/UMWAIT. Four public
-- waits are built over the strategy's raw wait, with and without a timeout, raw and filtered. A
-- parker (src/parker.rs) watches a token with a strategy and takes it with a compare-exchange;
-- unparkers set the token. Before a hardware strategy can be made, a preflight of the process reads
-- CPUID (src/capabilities.rs, src/arch), calibrates the timestamp counter, and probes that a wait
-- blocks and that a store ends it; its result is kept in a process-wide cell.
--
-- The model. One thread waits; it is a computation `M` over a `World` (Machine) that counts steps
-- and logs what the thread did. What others do to the word, the clock and the counter is an `Env`:
-- arbitrary functions of the step number, so a theorem about every environment is one about every
-- interleaving. `none` is a computation whose fuel is used up; a theorem that something returns says
-- `Returns`, one that justifies what is returned says `Upto` (Outcome).
--
-- + Prelude, Words: shared names, Boolean tests, lists; saturating and checked integer operations.
-- + Machine: `WaitableAtomic`, the instructions of src/arch/x86_64, `Instant::now` as steps.
-- + Errors: the types of src/error.rs.
-- + Wait: results, `Deadline`, `spin_prefix`, `classify_after_wait`, and the raw waits of
--   `BusySpin` and `SpinThenYield`; with the evidence for a result (Evidence), the monitor that
--   checks arming and rechecking in the log (Monitor), counts of blocking (Blocking) and progress
--   (Progress).
-- + Cycles: `AmdConfig`, `IntelConfig`, `duration_to_cycles` and the timeouts of the instructions.
-- + Hardware: the four protocols and the raw waits of the hardware strategies.
-- + Strategy: `StrategyImpl` as a record, the laws of a strategy (Laws) with a proof for each of the
--   five strategies (Lawful), and the public waits of `impl_wait_strategy!` (Filtered, Timed), which
--   need only the laws.
-- + Parker: `ParkerCore` over any lawful strategy; the word of the machine is the token.
-- + Publication: what a token carries from producers to the consumer, over release sequences.
-- + Capabilities: CPUID and its decoding for AMD, Intel, and both (Vendors).
-- + Timer: `calibrate_timer_hz` of both vendors and what it calls.
-- + Preflight: `prepare_hardware_config` (Config), `functional_preflight` (Probe), its helper thread
--   (Producer), and `initialize_once` with the constructors (Cell).
-- + Benchctl: tools/benchctl/src, which switches idle states of CPUs off for a benchmark and puts them back.
--   Its machine (Host) has the sysfs tree, the state directory, and a verdict for each call of the
--   operating system; error.rs (Errors), paths and files (Paths, Text, and Runtime for runtime.rs),
--   journal.rs (Journal); and of cpuidle.rs the inventory (Inventory), apply and restore (Cpuidle),
--   the choice of journals (Select), the way to a run (Entry), a run (Run), its recovery
--   (Recover) and the way there (Control).
--   Two paths are equal if their components are, as Rust's `Path` has it. Supervision names what a
--   run asks of supervision.rs, receipt.rs (Receipt) and the locks, with the law that these leave idle
--   states and journals alone; its child Drain is the end of a process group, loops with fuel of which
--   501 turns are enough, since each turn sleeps 10 ms and the limit is 5 s.
-- + Tests: every theorem at a concrete machine.
--
-- In Benchctl a computation ends by a value, an error, or the death of the process; what it wrote
-- stays. A file is replaced by renaming, in one step; opening and writing a sysfs file is one step too,
-- since it has no contents to truncate; a directory is listed in the order of its
-- entries; a symbolic link is rejected before anything below it is read. Nobody else writes to the
-- files while an operation runs, but the tree that a recovery finds is arbitrary.
--
-- Durations and instants are natural numbers of nanoseconds. Integers of w bits keep their saturation
-- and their checks as written in the source; words that are only compared are natural numbers. The
-- loops that wait take fuel, one unit for each turn, and their theorems ask for as many turns as
-- there are steps until the word or the clock decides, which is enough since each turn takes time.
-- A wait instruction is one step: that it returns is what its timeout operand is for, and how long it
-- took is in the clock of the environment.
--
-- Not modelled: the order of weaker memory accesses beyond release sequences (Publication states the
-- rule that is used), the effect of the instructions on power and latency, the texts of errors, and
-- what CPUID, prctl, thread spawning and channels answer, which are parameters. Of
-- tools/benchctl, the rest of the supervision, the checks of a receipt, the locks, what sudo does,
-- and the command line are not modelled, and a loss of power is not either; serde_json and sha2 are parameters.
-- The benchmarks (benches) are not modelled.
pub mod Benchctl
pub mod Prelude
pub mod Words
pub mod Machine
pub mod Outcome
pub mod Errors
pub mod Wait
pub mod Cycles
pub mod Hardware
pub mod Strategy
pub mod Parker
pub mod Publication
pub mod Capabilities
pub mod Timer
pub mod Preflight
pub mod Tests
