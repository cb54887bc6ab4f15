-- ===== src/Capabilities/Intel.antt =====
-- Capability detection of src/arch/x86_64/intel.rs.
use snoozer.Prelude.{ℕ, Bool, ◌&&◌, Option, none, leb, ◌==◌, if◌then◌else◌}
use mathlib.Core.Option
use snoozer.Capabilities.{
  Cpuid, from_le_bytes, some_bit, then_some, extended_cpuid_base, extended_features_leaf,
  invariant_tsc_leaf, waitpkg_leaf, waitpkg_bit, rdtscp_bit, invariant_tsc_bit,
  extended_leaf_availability,
}

-- "Genu", "ineI", "ntel"
abbrev pub intel_vendor_ebx : ℕ
intel_vendor_ebx = from_le_bytes b'G' b'e' b'n' b'u'

abbrev pub intel_vendor_edx : ℕ
intel_vendor_edx = from_le_bytes b'i' b'n' b'e' b'I'

abbrev pub intel_vendor_ecx : ℕ
intel_vendor_ecx = from_le_bytes b'n' b't' b'e' b'l'

pub record IntelCapabilityRegisters : Type 0 where
  pub vendor_ebx : ℕ
  pub vendor_edx : ℕ
  pub vendor_ecx : ℕ
  pub waitpkg_features_ecx : Option ℕ
  pub extended_features_edx : Option ℕ
  pub invariant_features_edx : Option ℕ

pub record IntelCapabilities : Type 0 where
  pub intel_vendor : Bool
  pub waitpkg : Bool
  pub invariant_tsc : Bool
  pub rdtscp : Bool
  pub timer_hz : Option ℕ

abbrev pub waitpkg_leaf_is_available : ℕ → Bool
waitpkg_leaf_is_available basic_max = leb waitpkg_leaf basic_max

unfoldable pub decode_capabilities : IntelCapabilityRegisters → Option ℕ → IntelCapabilities
decode_capabilities registers calibrated_timer_hz =
    let intel_vendor =
      registers.vendor_ebx == intel_vendor_ebx
      && registers.vendor_edx == intel_vendor_edx
      && registers.vendor_ecx == intel_vendor_ecx in
    let waitpkg = some_bit waitpkg_bit registers.waitpkg_features_ecx in
    let rdtscp = some_bit rdtscp_bit registers.extended_features_edx in
    let invariant_tsc = some_bit invariant_tsc_bit registers.invariant_features_edx in
    record {
      intel_vendor = intel_vendor;
      waitpkg = waitpkg;
      invariant_tsc = invariant_tsc;
      rdtscp = rdtscp;
      timer_hz =
          if intel_vendor && waitpkg && invariant_tsc && rdtscp then calibrated_timer_hz else none;
    }

unfoldable pub detect_capabilities : Cpuid → IntelCapabilities
unfolding decode_capabilities
detect_capabilities cpuid =
    let vendor = cpuid 0 in
    let waitpkg_features = then_some (waitpkg_leaf_is_available vendor.eax) (cpuid waitpkg_leaf) in
    let extended_max = (cpuid extended_cpuid_base).eax in
    let (has_extended_features, has_invariant_features) = extended_leaf_availability extended_max in
    let extended_features = then_some has_extended_features (cpuid extended_features_leaf) in
    let invariant_features = then_some has_invariant_features (cpuid invariant_tsc_leaf) in
    decode_capabilities
      (record {
        vendor_ebx = vendor.ebx;
        vendor_edx = vendor.edx;
        vendor_ecx = vendor.ecx;
        waitpkg_features_ecx = Option.map (λ f. f.ecx) waitpkg_features;
        extended_features_edx = Option.map (λ f. f.edx) extended_features;
        invariant_features_edx = Option.map (λ f. f.edx) invariant_features;
      })
      none

unfoldable pub timer_calibration_is_usable : IntelCapabilities → Bool
timer_calibration_is_usable capabilities =
    capabilities.intel_vendor && capabilities.waitpkg && capabilities.invariant_tsc
    && capabilities.rdtscp
