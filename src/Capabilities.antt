-- ===== src/Capabilities.antt =====
-- CPU facts: the registers that `CPUID` returns, decoded by src/arch/x86_64/{amd,intel,mod}.rs into
-- the `Capabilities` of src/capabilities.rs. What `CPUID` answers is a parameter.
pub mod Amd
pub mod Intel
pub mod Vendors
use Prim.Native.Nat.{bit_and}
use snoozer.Prelude.{
  ℕ, ◌+◌, ◌*◌, ◌^◌, Bool, true, false, not, ◌&&◌, Option, none, some, leb, ◌==◌, if◌then◌else◌,
}

pub record Capabilities : Type 0 where
  pub supported_target : Bool
  pub amd_vendor : Bool
  pub intel_vendor : Bool
  pub monitorx_mwaitx : Bool
  pub waitpkg : Bool
  pub invariant_tsc : Bool
  pub rdtscp : Bool

-- `Capabilities::default()`
abbrev pub no_capabilities : Capabilities
no_capabilities = record {
  supported_target = false;
  amd_vendor = false;
  intel_vendor = false;
  monitorx_mwaitx = false;
  waitpkg = false;
  invariant_tsc = false;
  rdtscp = false;
}

pub record CpuidResult : Type 0 where
  pub eax : ℕ
  pub ebx : ℕ
  pub ecx : ℕ
  pub edx : ℕ

-- `__cpuid(leaf)`; the sub-leaf is 0 in every call.
abbrev pub Cpuid : Type 0
Cpuid = ℕ → CpuidResult

-- `u32::from_le_bytes`
abbrev pub from_le_bytes : ℕ → ℕ → ℕ → ℕ → ℕ
from_le_bytes a b c d = a + b * 2 ^ 8 + c * 2 ^ 16 + d * 2 ^ 24

-- `features & bit != 0`
abbrev pub has_bit : ℕ → ℕ → Bool
has_bit features bit = not (bit_and features bit == 0)

-- `Option::is_some_and(|features| features & bit != 0)`
abbrev pub some_bit : ℕ → Option ℕ → Bool
some_bit bit none = false
some_bit bit (some features) = has_bit features bit

-- `condition.then(|| value)`
abbrev pub then_some {ℓ} : {A : Type ℓ} → Bool → A → Option A
then_some condition value = if condition then some value else none

abbrev pub extended_cpuid_base : ℕ
extended_cpuid_base = 0x8000_0000

abbrev pub extended_features_leaf : ℕ
extended_features_leaf = 0x8000_0001

abbrev pub invariant_tsc_leaf : ℕ
invariant_tsc_leaf = 0x8000_0007

abbrev pub waitpkg_leaf : ℕ
waitpkg_leaf = 0x0000_0007

abbrev pub monitorx_mwaitx_bit : ℕ
monitorx_mwaitx_bit = 2 ^ 29

abbrev pub waitpkg_bit : ℕ
waitpkg_bit = 2 ^ 5

abbrev pub rdtscp_bit : ℕ
rdtscp_bit = 2 ^ 27

abbrev pub invariant_tsc_bit : ℕ
invariant_tsc_bit = 2 ^ 8

-- `extended_leaf_availability` of either vendor module
abbrev pub extended_leaf_availability : ℕ → Bool × Bool
extended_leaf_availability extended_max =
    (leb extended_features_leaf extended_max, leb invariant_tsc_leaf extended_max)
