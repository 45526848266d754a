-- ===== src/CdGate/Tests.antt =====
-- A gate that finds a slow service and then loses Prometheus, and each theorem at it.
use llm_slo_e_bpf_toolkit.Prelude.{◌≡◌, true, not, ◌&&◌, ◌||◌, String, str_eq, some, if◌then◌else◌}
use llm_slo_e_bpf_toolkit.Prelude.Int.{pos}
use llm_slo_e_bpf_toolkit.Prelude.Float64.{Fixed, fixed}
use llm_slo_e_bpf_toolkit.CdGate.{
  Thresholds, Answer, failed, answered, checks, evaluate_slo_gate, is_error, apply_fail_open,
  exit_code,
}
use llm_slo_e_bpf_toolkit.CdGate.Verdict.{
  all_within, all_answered, breaches, evaluate_slo_gate_lem, exit_code-apply_fail_open,
}

abbrev limits : Thresholds Fixed
limits = record {
  ttft_p95_ms = some (pos 800_000_000_000_000);
  error_rate = some (pos 50_000_000_000);
  burn_rate = some (pos 2_000_000_000_000);
}

-- The latency is 900 ms, and every other query times out.
abbrev slow : String → Answer Fixed
slow q =
    if str_eq q "histogram_quantile(0.95, sum(rate(llm_slo_ttft_ms_bucket[5m])) by (le))"
    then answered (some (pos 900_000_000_000_000))
    else failed "timeout"

evaluate_slo_gate_lem_example :
    let r = evaluate_slo_gate slow (pos 5) limits in
    (r.pass ≡ all_within slow (checks limits))
    × (is_error r.error ≡ not (all_answered slow (checks limits)))
    × (r.violations ≡ breaches slow (checks limits))
evaluate_slo_gate_lem_example = evaluate_slo_gate_lem slow (pos 5) limits

exit_code-apply_fail_open_example :
    exit_code (apply_fail_open true (evaluate_slo_gate slow (pos 5) limits)) ≡ (
      if all_within slow (checks limits) || (not (all_answered slow (checks limits)) && true)
      then 0
      else 1)
exit_code-apply_fail_open_example = exit_code-apply_fail_open slow true (pos 5) limits
