-- ===== src/Errors.antt =====
-- The strategy names and the errors of src/error.rs.

pub data Strategy : Type 0 where
  busy_spin spin_then_yield hardware_wait spin_then_hardware_wait : Strategy

pub data HardwareBackend : Type 0 where
  amd_mwaitx intel_umwait : HardwareBackend

pub data UnsupportedReason : Type 0 where
  unsupported_target unsupported_cpu_vendor missing_monitorx_mwaitx missing_waitpkg
        missing_invariant_tsc missing_rdtscp tsc_access_disabled unstable_timer_calibration :
      UnsupportedReason

pub record UnsupportedStrategy : Type 0 where
  pub strategy : Strategy
  pub reason : UnsupportedReason

pub data PreflightFailure : Type 0 where
  wait_did_not_block store_wake_not_observed inconclusive : PreflightFailure

pub data HardwareWaitError : Type 0 where
  preflight_required : HardwareWaitError
  preflight_panicked : HardwareWaitError
  unsupported : UnsupportedStrategy → HardwareWaitError
  preflight_failed : (backend : HardwareBackend) (reason : PreflightFailure) → HardwareWaitError

-- `Result<T, E>`
pub data Result {ℓ κ} (T : Type ℓ) (E : Type κ) : Type (ℓ ⊔ κ) where
  ok : T → Result T E
  err : E → Result T E
