-- ===== src/Preflight/Config/Detected.antt =====
-- Which processors get a hardware wait, from the registers that `CPUID` returns.
use snoozer.Prelude.{◌≡◌, ◌≤◌, ◌↔◌, true, arith}
use snoozer.Errors.{amd_mwaitx, intel_umwait, ok}
use snoozer.Capabilities.{
  Cpuid, CpuidResult, has_bit, extended_cpuid_base, extended_features_leaf, waitpkg_leaf,
  monitorx_mwaitx_bit, waitpkg_bit,
}
use snoozer.Capabilities.Amd.{amd_vendor_ebx, amd_vendor_edx, amd_vendor_ecx}
use snoozer.Capabilities.Intel.{intel_vendor_ebx, intel_vendor_edx, intel_vendor_ecx}
use snoozer.Capabilities.Vendors.{detect_capabilities}
use snoozer.Preflight.Config.{select_backend}

-- CPUID leaf 0 says "AuthenticAMD".
abbrev pub SaysAmd : CpuidResult → Type 0
SaysAmd r = (r.ebx ≡ amd_vendor_ebx) × (r.edx ≡ amd_vendor_edx) × (r.ecx ≡ amd_vendor_ecx)

-- CPUID leaf 0 says "GenuineIntel".
abbrev pub SaysIntel : CpuidResult → Type 0
SaysIntel r = (r.ebx ≡ intel_vendor_ebx) × (r.edx ≡ intel_vendor_edx) × (r.ecx ≡ intel_vendor_ecx)

-- On Linux x86-64 the AMD backend is selected exactly for a processor that calls itself AuthenticAMD,
-- has the leaf of the extended features, and sets the MONITORX bit there; and the Intel backend
-- exactly for one that calls itself GenuineIntel, has the leaf of WAITPKG, and sets its bit.
pub select_backend-detect_capabilities :
    (cpuid : Cpuid)
    → ((select_backend (detect_capabilities cpuid) ≡ ok amd_mwaitx) ↔ (
        SaysAmd (cpuid 0)
        × (extended_features_leaf ≤ (cpuid extended_cpuid_base).eax)
        × (has_bit (cpuid extended_features_leaf).ecx monitorx_mwaitx_bit ≡ true)))
      × ((select_backend (detect_capabilities cpuid) ≡ ok intel_umwait) ↔ (
          SaysIntel (cpuid 0)
          × (waitpkg_leaf ≤ (cpuid 0).eax)
          × (has_bit (cpuid waitpkg_leaf).ecx waitpkg_bit ≡ true)))
unfolding select_backend detect_capabilities
select_backend-detect_capabilities cpuid = ground arith
