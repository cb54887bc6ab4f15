-- ===== src/Benchctl/Receipt.antt =====
-- The receipt of a benchmark build, tools/benchctl/src/receipt.rs.
use Prim.Native.String.{String}
use snoozer.Prelude.{ℕ, Bool, List}

pub record BuildReceipt : Type 0 where
  pub version : String
  pub build_id : String
  pub manifest_path : String
  pub repository : String
  pub source_commit : String
  pub source_clean : Bool
  pub lockfile_path : String
  pub lockfile_sha256 : String
  pub package_id : String
  pub bench : String
  pub features : List String
  pub profile : String
  pub rustc : String
  pub rustup_toolchain : String
  pub target_triple : String
  pub benchctl_version : String
  pub benchctl_executable_sha256 : String
  pub executable : String
  pub executable_sha256 : String
  pub built_unix_millis : ℕ
