-- ===== src/ReleaseGate/Significance.antt =====
-- The significance gate of pkg/releasegate/gate.go. The texts of the failures are constructors.
pub mod Verdict
use llm_slo_e_bpf_toolkit.Prelude.{
  ℕ, suc, ◌+◌, Bool, true, false, not, ◌&&◌, ◌||◌, String, List, [], ◌∷◌, ◌++◌, map, length, ◌==◌,
  if◌then◌else◌,
}
use llm_slo_e_bpf_toolkit.Prelude.Int.{ℤ, pos, leb_ℤ, ltb_ℤ}
use llm_slo_e_bpf_toolkit.Prelude.Float64.{Float64, fle, flt, fgt, fge}
use llm_slo_e_bpf_toolkit.Prelude.FloatMath.{FloatMath}
use llm_slo_e_bpf_toolkit.Collector.Samples.{RawSample}
use llm_slo_e_bpf_toolkit.ReleaseGate.Config.{Config}
use llm_slo_e_bpf_toolkit.ReleaseGate.Statistics.{
  quantile, mean, stddev, coefficient_of_variance_pct, cliffs_delta, bootstrap_delta_ci,
}
use llm_slo_e_bpf_toolkit.ReleaseGate.Ranks.{mann_whitney_p_value}
use llm_slo_e_bpf_toolkit.ReleaseGate.Results.{
  some_of, Result, ok, err, ◌>>=◌, GateError, no_candidate_runs, no_baseline_runs, no_ttft_values,
  no_token_values, no_error_values, ttft_distributions_empty,
}
use llm_slo_e_bpf_toolkit.ReleaseGate.Inputs.{
  Host, discover_runs, load_raw_samples, load_samples_from_runs, extract_ttft, extract_tokens,
  extract_error_rates,
}

pub data SignificanceReason : Type 0 where
  no_significance_reason insufficient_samples below_practical_effect regression : SignificanceReason

pub record ScenarioSignificance (F : Type 0) : Type 0 where
  pub scenario : String
  pub candidate_n : ℕ
  pub baseline_n : ℕ
  pub candidate_ttft_p95 : F
  pub baseline_ttft_p95 : F
  pub ttft_regression_pct : F
  pub candidate_tokens_p50 : F
  pub baseline_tokens_p50 : F
  pub mann_whitney_p_value : F
  pub bootstrap_delta_ci95 : F × F
  pub cliffs_delta : F
  pub practical_effect_pass : Bool
  pub minimum_samples_reached : Bool
  pub pass : Bool
  pub failure_reason : SignificanceReason

pub record SignificanceGate (F : Type 0) : Type 0 where
  pub pass : Bool
  pub regression_pct_limit : F
  pub alpha : F
  pub bootstrap_iterations : ℤ
  pub min_samples_per_scenario : ℤ
  pub min_cliffs_delta_for_failure : F
  pub scenarios : List (ScenarioSignificance F)

-- The samples of one scenario, of the candidate and of the baseline.
pub record Distributions (F : Type 0) : Type 0 where
  pub candidate_ttft : List F
  pub baseline_ttft : List F
  pub candidate_tps : List F
  pub baseline_tps : List F

module _ {F : Type 0} where
  unfoldable pub load_distributions : Host F → Config F → String → Result (Distributions F)
  load_distributions host cfg scenario = do
    candidate_found ← discover_runs host (host.join cfg.candidate_root scenario)
    candidate_runs ← some_of (no_candidate_runs scenario) candidate_found
    baseline_found ← discover_runs host (host.join cfg.baseline_root scenario)
    baseline_runs ← some_of (no_baseline_runs scenario) baseline_found
    candidate ← load_samples_from_runs host candidate_runs
    baseline ← load_samples_from_runs host baseline_runs
    candidate_ttft ← some_of (ttft_distributions_empty scenario) (extract_ttft candidate)
    baseline_ttft ← some_of (ttft_distributions_empty scenario) (extract_ttft baseline)
    ok (record {
      candidate_ttft = candidate_ttft;
      baseline_ttft = baseline_ttft;
      candidate_tps = extract_tokens candidate;
      baseline_tps = extract_tokens baseline;
    })

module _ {F : Type 0} ⦃d : Float64 F⦄ where
  -- The verdict from the results of the tests.
  unfoldable pub judge_regression :
      Config F → ScenarioSignificance F → F → F × F → F → ScenarioSignificance F
  judge_regression cfg r p ci cliffs =
      let practical = fge (d.fabs cliffs) cfg.min_cliffs_delta_for_failure in
      let is_regression =
        fgt r.ttft_regression_pct cfg.regression_pct_limit
        && (flt p cfg.significance_alpha && fgt ci.0 (d.milli 0)) in
      record r {
        mann_whitney_p_value = p;
        bootstrap_delta_ci95 = ci;
        cliffs_delta = cliffs;
        practical_effect_pass = practical;
        pass = not (is_regression && practical);
        failure_reason =
            if is_regression
            then if practical then regression else below_practical_effect
            else no_significance_reason;
      }

module _ {F : Type 0} ⦃d : Float64 F⦄ (m : FloatMath F) where
  -- The result before the tests.
  unfoldable pub start_significance : Config F → String → Distributions F → ScenarioSignificance F
  start_significance cfg scenario x =
      let candidate_p95 = quantile m x.candidate_ttft (d.milli 950) in
      let baseline_p95 = quantile m x.baseline_ttft (d.milli 950) in
      let change = d.fdiv (d.fsub candidate_p95 baseline_p95) baseline_p95 in
      let needed = cfg.min_samples_per_scenario in
      record {
        scenario = scenario;
        candidate_n = length x.candidate_ttft;
        baseline_n = length x.baseline_ttft;
        candidate_ttft_p95 = candidate_p95;
        baseline_ttft_p95 = baseline_p95;
        ttft_regression_pct =
            if fgt baseline_p95 (d.milli 0) then d.fmul change (d.milli 100_000) else d.milli 0;
        candidate_tokens_p50 = quantile m x.candidate_tps (d.milli 500);
        baseline_tokens_p50 = quantile m x.baseline_tps (d.milli 500);
        mann_whitney_p_value = d.milli 1000;
        bootstrap_delta_ci95 = (d.milli 0, d.milli 0);
        cliffs_delta = d.milli 0;
        practical_effect_pass = false;
        minimum_samples_reached =
            leb_ℤ needed (pos (length x.candidate_ttft))
            && leb_ℤ needed (pos (length x.baseline_ttft));
        pass = true;
        failure_reason = no_significance_reason;
      }

module _ {F : Type 0} ⦃d : Float64 F⦄ (m : FloatMath F) {S : Type 0} (intn : S → ℕ → ℕ × S) where
  unfoldable pub scenario_significance :
      Config F → String → Distributions F → S → ScenarioSignificance F × S
  scenario_significance cfg scenario x s =
      let r = start_significance m cfg scenario x in
      let p = mann_whitney_p_value m x.candidate_ttft x.baseline_ttft in
      let (ci, s') =
        bootstrap_delta_ci m intn x.candidate_ttft x.baseline_ttft (d.milli 950)
          cfg.bootstrap_iterations s in
      let cliffs = cliffs_delta x.candidate_ttft x.baseline_ttft in
      if r.minimum_samples_reached
      then (judge_regression cfg r p ci cliffs, s')
      else (record r { pass = false; failure_reason = insufficient_samples }, s)

  unfoldable pub significance_loop :
      Host F → Config F → List String → SignificanceGate F → S → Result (SignificanceGate F)
  significance_loop host cfg [] gate s = ok gate
  significance_loop host cfg (scenario ∷ scenarios) gate s = do
    x ← load_distributions host cfg scenario
    let step = scenario_significance cfg scenario x s
    significance_loop host cfg scenarios
        (record gate {
          pass = gate.pass && step.0.pass;
          scenarios = gate.scenarios ++ (step.0 ∷ []);
        })
        step.1

  -- `seeded` is `rand.New(rand.NewSource(_))`.
  unfoldable pub evaluate_significance : Host F → (ℤ → S) → Config F → Result (SignificanceGate F)
  evaluate_significance host seeded cfg =
      significance_loop host cfg cfg.scenarios
        (record {
          pass = true;
          regression_pct_limit = cfg.regression_pct_limit;
          alpha = cfg.significance_alpha;
          bootstrap_iterations = cfg.bootstrap_iterations;
          min_samples_per_scenario = cfg.min_samples_per_scenario;
          min_cliffs_delta_for_failure = cfg.min_cliffs_delta_for_failure;
          scenarios = [];
        })
        (seeded cfg.bootstrap_seed)
