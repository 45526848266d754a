-- ===== src/ReleaseGate/Tests.antt =====
-- A candidate that is slower than a baseline of the same commit, on a host with one run of each, and
-- each theorem at them.
use Prim.Native.String.{◌++◌ as ◌<>◌}
use llm_slo_e_bpf_toolkit.Prelude.{
  ◌≡◌, refl, ℕ, ◌+◌, ◌≤◌, Bool, not, ◌&&◌, ◌==◌, String, str_eq, List, [], ◌∷◌, map, All, some,
  length, true, false, lookup, if◌then◌else◌, count_if,
}
use llm_slo_e_bpf_toolkit.Prelude.Int.{pos, ℤ, ◌+ℤ◌, ◌-ℤ◌, ◌*ℤ◌, quot_ℕ}
use llm_slo_e_bpf_toolkit.Prelude.Float64.{Fixed, fixed, fixed-IsIeee, fle}
use llm_slo_e_bpf_toolkit.Prelude.FloatMath.{fixed_math, one}
use llm_slo_e_bpf_toolkit.Prelude.Sort.{sort_stable}
use llm_slo_e_bpf_toolkit.Collector.Samples.{RawSample}
use llm_slo_e_bpf_toolkit.ReleaseGate.Significance.{
  evaluate_significance, significance_loop, load_distributions, scenario_significance,
  start_significance,
}
use llm_slo_e_bpf_toolkit.ReleaseGate.Variance.{
  ScenarioVariance, VarianceGate, evaluate_variance, variance_loop, scenario_variance,
  collect_figures,
}
use llm_slo_e_bpf_toolkit.ReleaseGate.Evaluate.{Summary, evaluate, evaluate_gates}
use llm_slo_e_bpf_toolkit.ReleaseGate.Evaluate.Passing.{is_nil, evaluate-passes}
use llm_slo_e_bpf_toolkit.ReleaseGate.Significance.Verdict.{none_regresses}
use llm_slo_e_bpf_toolkit.ReleaseGate.Variance.Verdict.{
  IsSteady, evaluate_variance-verdict, all_vary_little,
}
use llm_slo_e_bpf_toolkit.ReleaseGate.Config.{Config, normalize_config}
use llm_slo_e_bpf_toolkit.ReleaseGate.Results.{ok}
use llm_slo_e_bpf_toolkit.ReleaseGate.Inputs.{
  Host, CollectorCpuSample, discover_runs, load_samples_from_runs, load_raw_samples, parse_lines,
  extract_ttft, extract_tokens, extract_error_rates, load_collector_cpu_samples, read_rows,
  index_of, does_exist, listed, exists, manifest, rows, lines,
}
use llm_slo_e_bpf_toolkit.ReleaseGate.Overhead.{
  evaluate_baseline, evaluate_overhead, collect_scenarios, collect_runs, add_samples, add_sample,
  append_value, nothing_collected, overhead_verdict,
}
use llm_slo_e_bpf_toolkit.ReleaseGate.Overhead.Verdict.{
  exceeding, no_numbers, values_of, found_values, overhead_verdict-pass,
}
use llm_slo_e_bpf_toolkit.ReleaseGate.Statistics.{
  cliffs_delta, dominance, no_tally, quantile, sort_floats, at_index, interpolate, mean,
}
use llm_slo_e_bpf_toolkit.ReleaseGate.Statistics.Dominance.{
  pairs, is_greater, is_lower, cliffs_delta-counts,
}
use llm_slo_e_bpf_toolkit.ReleaseGate.Ranks.{tie_runs, sorted_points, ranks_of}
use llm_slo_e_bpf_toolkit.ReleaseGate.Ranks.MidRanks.{
  mean_rank, lower_values, upto_values, ranks_of-counts,
}

abbrev slow : List Fixed
slow = fixed.milli 3000 ∷ fixed.milli 2000 ∷ fixed.milli 2000 ∷ []

abbrev fast : List Fixed
fast = fixed.milli 2000 ∷ fixed.milli 1000 ∷ []

cliffs_delta-counts_example :
    let ps = pairs slow fast in
    let greater = count_if is_greater ps in
    let lower = count_if is_lower ps in
    (cliffs_delta slow fast ≡ (
      if length ps == 0
      then fixed.milli 0
      else fixed.fdiv
          (fixed.fsub (fixed.of_int (pos greater)) (fixed.of_int (pos lower)))
          (fixed.of_int (pos (length ps)))))
    × ((dominance slow fast no_tally).greater ≡ greater)
    × ((dominance slow fast no_tally).lower ≡ lower)
    × (greater + lower ≤ length ps)
cliffs_delta-counts_example = cliffs_delta-counts slow fast

ranks_of-counts_example :
    let points = sorted_points {F = Fixed} slow fast in
    ranks_of {F = Fixed} (tie_runs (length points) 0 points)
    ≡ map
        (λ p.
          mean_rank {F = Fixed} (lower_values slow fast p.value) (upto_values slow fast p.value))
        points
ranks_of-counts_example =
    ranks_of-counts fixed-IsIeee slow fast (refl, (refl, (refl, tt))) (refl, (refl, tt))

abbrev at_node : String → Fixed → CollectorCpuSample Fixed
at_node node cpu = record { node = node; cpu = cpu }

abbrev as_given : List (String × List Fixed) → List (String × List Fixed)
as_given groups = groups

abbrev busy : CollectorCpuSample Fixed
busy = at_node "a" (fixed.milli 4000)

abbrev idle : List (CollectorCpuSample Fixed)
idle = at_node "b" (fixed.milli 1000) ∷ at_node "b" (fixed.milli 500) ∷ []

numbers : no_numbers fixed_math (add_samples nothing_collected (busy ∷ idle)).by_node ≡ 0
unfolding add_samples add_sample append_value quantile sort_floats at_index interpolate ◌+ℤ◌ ◌-ℤ◌
    ◌*ℤ◌ quot_ℕ sort_stable
numbers = refl

-- One node is above 3 percent, although the mean of all samples is not.
overhead_verdict-pass_example :
    let c = add_samples nothing_collected (busy ∷ idle) in
    ((overhead_verdict fixed_math as_given (fixed.milli 3000) c).pass ≡ (
      (exceeding fixed_math (fixed.milli 3000) c.by_node == 0)
      && fle (mean c.all_values) (fixed.milli 3000)))
    × (found_values (lookup "b" c.by_node) ≡ values_of "b" (busy ∷ idle))
overhead_verdict-pass_example =
    overhead_verdict-pass fixed_math fixed-IsIeee as_given (λ test groups. refl) (fixed.milli 3000)
      busy idle "b" (refl, (refl, (refl, tt))) numbers

abbrev cfg : Config Fixed
cfg = record {
  candidate_root = "candidate";
  baseline_root = "baseline";
  baseline_manifest_path = "manifest.json";
  candidate_ref = "main";
  candidate_commit = "abc";
  require_baseline_manifest = true;
  scenarios = "dns_latency" ∷ [];
  max_overhead_pct = fixed.milli 3000;
  max_variance_pct = fixed.milli 10_000;
  min_runs_per_scenario = pos 1;
  regression_pct_limit = fixed.milli 5000;
  significance_alpha = fixed.milli 50;
  bootstrap_iterations = pos 1;
  bootstrap_seed = pos 42;
  min_samples_per_scenario = pos 1;
  min_cliffs_delta_for_failure = fixed.milli 147;
}

abbrev sample_of : String → RawSample Fixed
sample_of line = record {
  timestamp = pos 0;
  cluster = "local";
  namespace = "default";
  workload = "demo";
  service = "chat";
  node = "";
  request_id = "r-1";
  trace_id = "t-1";
  ttft_ms = if str_eq line "slow" then fixed.milli 900_000 else fixed.milli 300_000;
  request_latency_ms = fixed.milli 900_000;
  token_tps = fixed.milli 40_000;
  error_rate = fixed.milli 10;
  fault_label = "dns_latency";
}

abbrev is_candidate : String → Bool
is_candidate path = str_eq path "candidate/dns_latency/raw_samples.jsonl"

-- A scenario's directory is its only run.
abbrev host : Host Fixed
host = record {
  join = λ a b. a <> ("/" <> b);
  trim = λ s. s;
  read_dir = λ path. listed [];
  stat = λ path. exists;
  read_manifest = λ path. manifest (record { source_ref = "main"; source_commit = "abc" });
  read_csv = λ path. rows (("node" ∷ "collector_cpu_pct" ∷ []) ∷ ("a" ∷ "1.0" ∷ []) ∷ []);
  read_lines = λ path. lines ((if is_candidate path then "slow" else "fast") ∷ []) false;
  parse_float = λ text. some one;
  parse_sample = λ line. some (sample_of line);
}

abbrev intn : ℕ → ℕ → ℕ × ℕ
intn s n = (0, s + 1)

abbrev seeded : ℤ → ℕ
seeded seed = 0

variance_ends : (g : VarianceGate Fixed) × (evaluate_variance fixed_math host cfg ≡ ok g)
unfolding evaluate_variance variance_loop scenario_variance collect_figures discover_runs
    load_raw_samples parse_lines extract_ttft extract_tokens extract_error_rates sort_stable
variance_ends = (_, refl)

evaluate_variance-verdict_example :
    (map (λ (r : ScenarioVariance Fixed). r.scenario) variance_ends.0.scenarios ≡ cfg.scenarios)
    × All (IsSteady cfg fixed_math host) variance_ends.0.scenarios
    × (variance_ends.0.pass ≡ all_vary_little variance_ends.0.scenarios)
evaluate_variance-verdict_example =
    evaluate_variance-verdict cfg fixed_math host variance_ends.0 variance_ends.1

evaluation_ends :
    (s : Summary Fixed) × (evaluate fixed_math intn seeded host as_given (pos 0) cfg ≡ ok s)
unfolding evaluate evaluate_gates normalize_config evaluate_baseline evaluate_overhead
    collect_scenarios collect_runs load_collector_cpu_samples read_rows index_of add_samples
    add_sample append_value evaluate_variance variance_loop scenario_variance collect_figures
    extract_tokens extract_error_rates evaluate_significance significance_loop load_distributions
    discover_runs load_samples_from_runs load_raw_samples parse_lines extract_ttft
    scenario_significance start_significance sort_stable
evaluation_ends = (_, refl)

evaluate-passes_example :
    let s = evaluation_ends.0 in
    let used = normalize_config host.join cfg in
    (s.pass ≡ (
      s.baseline.pass
      && (s.overhead.pass
          && (all_vary_little s.variance.scenarios && none_regresses s.significance.scenarios))))
    × (is_nil s.failures ≡ s.pass)
    × (s.baseline.pass
        ≡ not (
            used.require_baseline_manifest
            && not (does_exist (host.stat used.baseline_manifest_path))))
    × (evaluate_significance fixed_math intn host seeded used ≡ ok s.significance)
evaluate-passes_example =
    evaluate-passes fixed_math intn seeded host as_given (pos 0) cfg evaluation_ends.0
      evaluation_ends.1
