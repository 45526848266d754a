-- ===== src/Prereq.antt =====
-- pkg/prereq/checker.go: the prerequisites of a host. The facts of `CollectSnapshot`, the regular
-- expression, `fmt.Sscanf` and what `fmt` prints of an integer are arguments (`Scanner`).
pub mod Verdict
use Prim.Native.String.{◌++◌}
use llm_slo_e_bpf_toolkit.Prelude.{
  Bool, true, false, not, ◌&&◌, ◌||◌, String, str_eq, List, [], ◌∷◌, Option, none, some, length,
  ◌==◌, if◌then◌else◌,
}
use llm_slo_e_bpf_toolkit.Prelude.Int.{ℤ, pos, leb_ℤ, ltb_ℤ, eqb_ℤ}
use llm_slo_e_bpf_toolkit.Prelude.Time.{Time}

abbrev pub severity_blocker : String
severity_blocker = "blocker"

abbrev pub severity_warning : String
severity_warning = "warning"

pub record CheckResult : Type 0 where
  pub name : String
  pub pass : Bool
  pub severity : String
  pub current : String
  pub required : String
  pub remediation : String

pub record Report : Type 0 where
  pub generated_at : Time
  pub host_os : String
  pub host_arch : String
  pub kernel_release : String
  pub checks : List CheckResult
  pub pass : Bool

pub record Snapshot : Type 0 where
  pub host_os : String
  pub host_arch : String
  pub kernel_release : String
  pub has_btf : Bool
  pub has_kernel_hdrs : Bool
  pub has_bpf_tool : Bool
  pub has_clang : Bool
  pub has_kind : Bool
  pub has_helm : Bool
  pub is_root : Bool

-- `find` is `kernelVersionPattern.FindStringSubmatch`, `scan` is `fmt.Sscanf` with "%d.%d".
pub record Scanner : Type 0 where
  pub trim : String → String
  pub find : String → List String
  pub scan : String → Option (ℤ × ℤ)
  pub print : ℤ → String

unfoldable pub bool_label : Bool → String
bool_label v = if v then "true" else "false"

unfoldable pub kernel_headers_path : String → String
kernel_headers_path kernel =
    if str_eq kernel "" then "" else "/lib/modules/" ++ (kernel ++ "/build")

first_match : List String → String
first_match [] = ""
first_match (m ∷ rest) = m

unfoldable pub parse_kernel_release : Scanner → String → Option (ℤ × ℤ)
unfolding first_match
parse_kernel_release scanner release =
    let found = scanner.find (scanner.trim release) in
    if length found == 3 then scanner.scan (first_match found) else none

abbrev pub is_recent_kernel : ℤ × ℤ → Bool
is_recent_kernel v = ltb_ℤ (pos 5) v.0 || (eqb_ℤ v.0 (pos 5) && leb_ℤ (pos 15) v.1)

kernel_check_of : Scanner → String → Option (ℤ × ℤ) → CheckResult
kernel_check_of scanner release none = record {
  name = "kernel_version";
  pass = false;
  severity = severity_blocker;
  current = release;
  required = ">=5.15";
  remediation = "Use Linux kernel 5.15+ for supported CO-RE signal set.";
}
kernel_check_of scanner release (some v) = record {
  name = "kernel_version";
  pass = is_recent_kernel v;
  severity = severity_blocker;
  current = scanner.print v.0 ++ ("." ++ scanner.print v.1);
  required = ">=5.15";
  remediation = "Upgrade Linux kernel to >=5.15 on validation hosts.";
}

unfoldable pub build_kernel_check : Scanner → String → CheckResult
unfolding kernel_check_of
build_kernel_check scanner release =
    kernel_check_of scanner release (parse_kernel_release scanner release)

-- A check of one fact of the host.
abbrev pub fact : String → Bool → String → String → CheckResult
fact name pass severity remediation = record {
  name = name;
  pass = pass;
  severity = severity;
  current = bool_label pass;
  required = "true";
  remediation = remediation;
}

unfoldable pub checks_of : Scanner → Snapshot → List CheckResult
checks_of scanner snapshot =
    record {
      name = "host_linux";
      pass = str_eq snapshot.host_os "linux";
      severity = severity_blocker;
      current = snapshot.host_os;
      required = "linux";
      remediation =
          "Run prereq and privileged eBPF tests on a Linux host (self-hosted runner for CI).";
    }
    ∷ build_kernel_check scanner snapshot.kernel_release
    ∷ fact "btf_available" snapshot.has_btf severity_blocker
        "Enable kernel BTF and ensure /sys/kernel/btf/vmlinux exists."
    ∷ fact "kernel_headers" snapshot.has_kernel_hdrs severity_warning
        "Install kernel headers matching uname -r for local probe build workflows."
    ∷ fact "bpftool_installed" snapshot.has_bpf_tool severity_blocker
        "Install bpftool on Linux runner/host used for CO-RE generation and smoke tests."
    ∷ fact "clang_installed" snapshot.has_clang severity_warning
        "Install clang/llvm for BPF object compilation."
    ∷ fact "privileged_execution" snapshot.is_root severity_blocker
        "Run in privileged context (root or equivalent capability setup) for probe load tests."
    ∷ fact "kind_installed" snapshot.has_kind severity_warning
        "Install kind to run local multi-node integration lab."
    ∷ fact "helm_installed" snapshot.has_helm severity_warning
        "Install helm for optional chart-based deployment flows."
    ∷ []

-- The loop that stops at the first blocker that does not pass.
unfoldable pub no_blocker : List CheckResult → Bool
no_blocker [] = true
no_blocker (check ∷ checks) =
    let rest = no_blocker checks in
    if str_eq check.severity severity_blocker && not check.pass then false else rest

unfoldable pub evaluate : Scanner → Time → Snapshot → Report
evaluate scanner now snapshot = record {
  generated_at = now;
  host_os = snapshot.host_os;
  host_arch = snapshot.host_arch;
  kernel_release = snapshot.kernel_release;
  checks = checks_of scanner snapshot;
  pass = no_blocker (checks_of scanner snapshot);
}

unfoldable pub all_pass : List CheckResult → Bool
all_pass [] = true
all_pass (check ∷ checks) = let rest = all_pass checks in if not check.pass then false else rest

unfoldable pub strict_pass : Report → Bool
unfolding all_pass
strict_pass report = all_pass report.checks
