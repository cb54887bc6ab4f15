-- ===== src/Capabilities/Vendors.antt =====
-- `arch::detect_capabilities` on Linux x86-64, and what it never reports.
use snoozer.Prelude.{◌≡◌, true, false, if◌then◌else◌, arith}
use snoozer.Capabilities.{Capabilities, Cpuid}
use snoozer.Capabilities.Amd
use snoozer.Capabilities.Amd.{amd_vendor_ebx}
use snoozer.Capabilities.Intel
use snoozer.Capabilities.Intel.{intel_vendor_ebx}

unfoldable pub detect_capabilities : Cpuid → Capabilities
unfolding Amd.detect_capabilities Intel.detect_capabilities
detect_capabilities cpuid =
    let amd = Amd.detect_capabilities cpuid in
    let intel = Intel.detect_capabilities cpuid in
    record {
      supported_target = true;
      amd_vendor = amd.amd_vendor;
      intel_vendor = intel.intel_vendor;
      monitorx_mwaitx = amd.monitorx_mwaitx;
      waitpkg = intel.waitpkg;
      invariant_tsc = if amd.amd_vendor then amd.invariant_tsc else intel.invariant_tsc;
      rdtscp = if amd.amd_vendor then amd.rdtscp else intel.rdtscp;
    }

-- Whatever CPUID answers, a processor is never reported as AMD and Intel at once.
pub one_vendor :
    (cpuid : Cpuid)
    → (detect_capabilities cpuid).amd_vendor ≡ true
    → (detect_capabilities cpuid).intel_vendor ≡ false
unfolding detect_capabilities
one_vendor cpuid h = ground arith
