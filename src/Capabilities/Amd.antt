-- ===== src/Capabilities/Amd.antt =====
-- Capability detection of src/arch/x86_64/amd.rs.
use snoozer.Prelude.{ℕ, Bool, true, false, ◌&&◌, Option, ◌==◌}
use mathlib.Core.Option
use snoozer.Capabilities.{
  Capabilities, Cpuid, from_le_bytes, some_bit, then_some, extended_cpuid_base,
  extended_features_leaf, invariant_tsc_leaf, monitorx_mwaitx_bit, rdtscp_bit, invariant_tsc_bit,
  extended_leaf_availability,
}

-- "Auth", "enti", "cAMD"
abbrev pub amd_vendor_ebx : ℕ
amd_vendor_ebx = from_le_bytes b'A' b'u' b't' b'h'

abbrev pub amd_vendor_edx : ℕ
amd_vendor_edx = from_le_bytes b'e' b'n' b't' b'i'

abbrev pub amd_vendor_ecx : ℕ
amd_vendor_ecx = from_le_bytes b'c' b'A' b'M' b'D'

pub record CapabilityRegisters : Type 0 where
  pub vendor_ebx : ℕ
  pub vendor_edx : ℕ
  pub vendor_ecx : ℕ
  pub extended_features_ecx : Option ℕ
  pub extended_features_edx : Option ℕ
  pub invariant_features_edx : Option ℕ

unfoldable pub decode_capabilities : CapabilityRegisters → Capabilities
decode_capabilities registers = record {
  supported_target = true;
  amd_vendor =
      registers.vendor_ebx == amd_vendor_ebx
      && registers.vendor_edx == amd_vendor_edx
      && registers.vendor_ecx == amd_vendor_ecx;
  intel_vendor = false;
  monitorx_mwaitx = some_bit monitorx_mwaitx_bit registers.extended_features_ecx;
  waitpkg = false;
  invariant_tsc = some_bit invariant_tsc_bit registers.invariant_features_edx;
  rdtscp = some_bit rdtscp_bit registers.extended_features_edx;
}

unfoldable pub detect_capabilities : Cpuid → Capabilities
unfolding decode_capabilities
detect_capabilities cpuid =
    let vendor = cpuid 0 in
    let extended_max = (cpuid extended_cpuid_base).eax in
    let (has_extended_features, has_invariant_features) = extended_leaf_availability extended_max in
    let extended_features = then_some has_extended_features (cpuid extended_features_leaf) in
    let invariant_features = then_some has_invariant_features (cpuid invariant_tsc_leaf) in
    decode_capabilities (record {
      vendor_ebx = vendor.ebx;
      vendor_edx = vendor.edx;
      vendor_ecx = vendor.ecx;
      extended_features_ecx = Option.map (λ f. f.ecx) extended_features;
      extended_features_edx = Option.map (λ f. f.edx) extended_features;
      invariant_features_edx = Option.map (λ f. f.edx) invariant_features;
    })

unfoldable pub timer_calibration_is_usable : Capabilities → Bool
timer_calibration_is_usable capabilities =
    capabilities.amd_vendor && capabilities.monitorx_mwaitx && capabilities.invariant_tsc
    && capabilities.rdtscp
