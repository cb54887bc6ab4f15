-- ===== src/Tests.antt =====
-- Tests: the theorems at concrete machines, and the data they share.
mod Waits
mod Json
mod Control
mod Recovering
mod Draining
mod Entering
mod Parking
mod Publishing
mod Preparing
mod Timing
use snoozer.Prelude.{
  ℕ, suc, ◌+◌, ◌*◌, ◌≡◌, ◌≢◌, ◌≤◌, ◌⊎◌, inl, Option, none, [], ltb, if◌then◌else◌, arith,
}
use snoozer.Machine.{Env, World}
use snoozer.Wait.{Deadline}
use snoozer.Wait.Monitor.{quiet, fault}
use snoozer.Wait.Progress.{Settles}
use snoozer.Capabilities.{Cpuid, monitorx_mwaitx_bit, rdtscp_bit, invariant_tsc_bit}
use snoozer.Capabilities.Amd.{amd_vendor_ebx, amd_vendor_edx, amd_vendor_ecx}
use snoozer.Cycles.{HardwareConfig, amd, intel, new_amd, new_intel}

-- A microsecond for each step, a counter of 3 GHz, and a word that keeps what is stored.
abbrev pub steady_env : Env
steady_env = record {
  after = λ _ v _. v;
  clock = λ t. t * 1_000;
  counter = λ t. t * 3_000;
  address = 64;
}

-- A word that changes from 0 to the value at a step.
abbrev pub changing : ℕ → ℕ → ℕ → ℕ
changing at v t = if ltb t at then 0 else v

abbrev pub at_rest : (ℕ → ℕ) → World
at_rest word = record { time = 0; word = word; trace = [] }

abbrev pub ryzen : HardwareConfig
ryzen = amd (new_amd 2_400_000_000)

abbrev pub xeon : HardwareConfig
xeon = intel (new_intel 2_400_000_000)

-- Nothing was executed yet.
pub at_rest-quiet : quiet ≢ fault
at_rest-quiet = ground arith

pub changing-Settles :
    (v : ℕ) → v ≢ 0 → (d : Option Deadline) → Settles steady_env (changing 6 v) 0 d 6
changing-Settles v h d t k = inl (ground arith)

-- A processor that calls itself AuthenticAMD and sets the feature bits.
abbrev pub amd_cpuid : Cpuid
amd_cpuid leaf = record {
  eax = 0x8000_0020;
  ebx = amd_vendor_ebx;
  ecx = if ltb 0 leaf then monitorx_mwaitx_bit else amd_vendor_ecx;
  edx = if ltb 0 leaf then rdtscp_bit + invariant_tsc_bit else amd_vendor_edx;
}
