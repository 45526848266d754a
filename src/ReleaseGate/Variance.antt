-- ===== src/ReleaseGate/Variance.antt =====
-- The variance gate of pkg/releasegate/gate.go. The texts of the failures are constructors.
pub mod Verdict
use llm_slo_e_bpf_toolkit.Prelude.{
  ℕ, suc, ◌+◌, Bool, true, false, not, ◌&&◌, ◌||◌, String, List, [], ◌∷◌, ◌++◌, map, length, ◌==◌,
  if◌then◌else◌,
}
use llm_slo_e_bpf_toolkit.Prelude.Int.{ℤ, pos, leb_ℤ, ltb_ℤ}
use llm_slo_e_bpf_toolkit.Prelude.Float64.{Float64, fle, flt, fgt, fge}
use llm_slo_e_bpf_toolkit.Prelude.FloatMath.{FloatMath}
use llm_slo_e_bpf_toolkit.Collector.Samples.{RawSample}
use llm_slo_e_bpf_toolkit.ReleaseGate.Config.{Config}
use llm_slo_e_bpf_toolkit.ReleaseGate.Statistics.{
  quantile, mean, stddev, coefficient_of_variance_pct, cliffs_delta, bootstrap_delta_ci,
}
use llm_slo_e_bpf_toolkit.ReleaseGate.Ranks.{mann_whitney_p_value}
use llm_slo_e_bpf_toolkit.ReleaseGate.Results.{
  some_of, Result, ok, err, ◌>>=◌, GateError, no_candidate_runs, no_baseline_runs, no_ttft_values,
  no_token_values, no_error_values, ttft_distributions_empty,
}
use llm_slo_e_bpf_toolkit.ReleaseGate.Inputs.{
  Host, discover_runs, load_raw_samples, load_samples_from_runs, extract_ttft, extract_tokens,
  extract_error_rates,
}

pub data VarianceReason : Type 0 where
  too_few_runs ttft_variance tokens_variance error_rate_variance : VarianceReason

pub record ScenarioVariance (F : Type 0) : Type 0 where
  pub scenario : String
  pub run_count : ℕ
  pub ttft_p95_values : List F
  pub mean_ttft_p95 : F
  pub std_dev_ttft_p95 : F
  pub variance_pct : F
  pub tokens_p50_values : List F
  pub mean_tokens_p50 : F
  pub std_dev_tokens_p50 : F
  pub tokens_variance_pct : F
  pub error_rate_mean_values : List F
  pub mean_error_rate_mean : F
  pub std_dev_error_rate_mean : F
  pub error_rate_variance_pct : F
  pub pass : Bool
  pub failure_reason : List VarianceReason

pub record VarianceGate (F : Type 0) : Type 0 where
  pub pass : Bool
  pub threshold_pct : F
  pub min_runs : ℤ
  pub scenarios : List (ScenarioVariance F)

-- The figures of the runs of one scenario.
pub record RunFigures (F : Type 0) : Type 0 where
  pub ttft_p95 : List F
  pub tokens_p50 : List F
  pub error_rate_mean : List F

abbrev pub reason_if : Bool → VarianceReason → List VarianceReason
reason_if exceeds reason = if exceeds then reason ∷ [] else []

module _ {F : Type 0} ⦃d : Float64 F⦄ where
  -- The result of a scenario with too few runs.
  unfoldable pub short_variance : String → ℕ → ScenarioVariance F
  short_variance scenario run_count =
      let zero_value = d.milli 0 in
      record {
        scenario = scenario;
        run_count = run_count;
        ttft_p95_values = [];
        mean_ttft_p95 = zero_value;
        std_dev_ttft_p95 = zero_value;
        variance_pct = zero_value;
        tokens_p50_values = [];
        mean_tokens_p50 = zero_value;
        std_dev_tokens_p50 = zero_value;
        tokens_variance_pct = zero_value;
        error_rate_mean_values = [];
        mean_error_rate_mean = zero_value;
        std_dev_error_rate_mean = zero_value;
        error_rate_variance_pct = zero_value;
        pass = false;
        failure_reason = too_few_runs ∷ [];
      }

module _ {F : Type 0} ⦃d : Float64 F⦄ (m : FloatMath F) where
  -- The loop over the runs of a scenario.
  unfoldable pub collect_figures : Host F → List String → Result (RunFigures F)
  collect_figures host [] = ok (record { ttft_p95 = []; tokens_p50 = []; error_rate_mean = [] })
  collect_figures host (run_dir ∷ run_dirs) = do
    let path = host.join run_dir "raw_samples.jsonl"
    raw ← load_raw_samples host path
    ttft ← some_of (no_ttft_values path) (extract_ttft raw)
    tokens ← some_of (no_token_values path) (extract_tokens raw)
    errors ← some_of (no_error_values path) (extract_error_rates raw)
    rest ← collect_figures host run_dirs
    ok (record {
      ttft_p95 = quantile m ttft (d.milli 950) ∷ rest.ttft_p95;
      tokens_p50 = quantile m tokens (d.milli 500) ∷ rest.tokens_p50;
      error_rate_mean = mean errors ∷ rest.error_rate_mean;
    })

  unfoldable pub judge_variance : F → String → ℕ → RunFigures F → ScenarioVariance F
  judge_variance limit scenario run_count f =
      let ttft = coefficient_of_variance_pct m f.ttft_p95 in
      let tokens = coefficient_of_variance_pct m f.tokens_p50 in
      let errors = coefficient_of_variance_pct m f.error_rate_mean in
      let pass = fle ttft limit && (fle tokens limit && fle errors limit) in
      record {
        scenario = scenario;
        run_count = run_count;
        ttft_p95_values = f.ttft_p95;
        mean_ttft_p95 = mean f.ttft_p95;
        std_dev_ttft_p95 = stddev m f.ttft_p95;
        variance_pct = ttft;
        tokens_p50_values = f.tokens_p50;
        mean_tokens_p50 = mean f.tokens_p50;
        std_dev_tokens_p50 = stddev m f.tokens_p50;
        tokens_variance_pct = tokens;
        error_rate_mean_values = f.error_rate_mean;
        mean_error_rate_mean = mean f.error_rate_mean;
        std_dev_error_rate_mean = stddev m f.error_rate_mean;
        error_rate_variance_pct = errors;
        pass = pass;
        failure_reason =
            if pass
            then []
            else reason_if (fgt ttft limit) ttft_variance
              ++ (reason_if (fgt tokens limit) tokens_variance
                  ++ reason_if (fgt errors limit) error_rate_variance);
      }

  unfoldable pub scenario_variance :
      Host F → Config F → String → List String → Result (ScenarioVariance F)
  scenario_variance host cfg scenario runs =
      if ltb_ℤ (pos (length runs)) cfg.min_runs_per_scenario
      then ok (short_variance scenario (length runs))
      else (do
        figures ← collect_figures host runs
        ok (judge_variance cfg.max_variance_pct scenario (length runs) figures))

  unfoldable pub variance_loop :
      Host F → Config F → List String → VarianceGate F → Result (VarianceGate F)
  variance_loop host cfg [] gate = ok gate
  variance_loop host cfg (scenario ∷ scenarios) gate = do
    runs ← discover_runs host (host.join cfg.candidate_root scenario)
    result ← scenario_variance host cfg scenario runs
    variance_loop host cfg scenarios (record gate {
      pass = gate.pass && result.pass;
      scenarios = gate.scenarios ++ (result ∷ []);
    })

  unfoldable pub evaluate_variance : Host F → Config F → Result (VarianceGate F)
  evaluate_variance host cfg = variance_loop host cfg cfg.scenarios (record {
    pass = true;
    threshold_pct = cfg.max_variance_pct;
    min_runs = cfg.min_runs_per_scenario;
    scenarios = [];
  })
