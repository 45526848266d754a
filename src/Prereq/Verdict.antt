-- ===== src/Prereq/Verdict.antt =====
-- When a host meets the prerequisites of pkg/prereq/checker.go.
use llm_slo_e_bpf_toolkit.Prelude.{
  ◌≡◌, refl, Bool, false, ◌&&◌, String, str_eq, Option, none, some, arith,
}
use llm_slo_e_bpf_toolkit.Prelude.Int.{ℤ}
use llm_slo_e_bpf_toolkit.Prelude.Time.{Time}
use llm_slo_e_bpf_toolkit.Prereq.{
  Snapshot, Scanner, is_recent_kernel, parse_kernel_release, kernel_check_of, build_kernel_check,
  checks_of, no_blocker, evaluate, all_pass, strict_pass,
}

-- The kernel's release is readable and at least 5.15.
abbrev pub is_recent : Option (ℤ × ℤ) → Bool
is_recent none = false
is_recent (some v) = is_recent_kernel v

kernel_check_lem :
    (scanner : Scanner) (release : String) (v : Option (ℤ × ℤ))
    → let check = kernel_check_of scanner release v in
      (check.pass ≡ is_recent v) × (check.severity ≡ "blocker")
unfolding kernel_check_of
kernel_check_lem scanner release none = (refl, refl)
kernel_check_lem scanner release (some v) = (refl, refl)

-- The report passes exactly on Linux with a recent kernel that has BTF, with bpftool and as root. The
-- other checks only warn: they count for `StrictPass`, which no report passes that does not pass.
pub evaluate-strict_pass :
    (scanner : Scanner) (now : Time) (s : Snapshot)
    → let report = evaluate scanner now s in
      (report.pass ≡ (
        str_eq s.host_os "linux"
        && (is_recent (parse_kernel_release scanner s.kernel_release)
            && (s.has_btf && (s.has_bpf_tool && s.is_root)))))
      × (strict_pass report
          ≡ (report.pass && (s.has_kernel_hdrs && (s.has_clang && (s.has_kind && s.has_helm)))))
unfolding evaluate strict_pass all_pass no_blocker checks_of build_kernel_check
evaluate-strict_pass scanner now s =
    let v = parse_kernel_release scanner s.kernel_release in
    let (kernel, blocks) = kernel_check_lem scanner s.kernel_release v in
    rw (kernel, blocks) (ground arith)
