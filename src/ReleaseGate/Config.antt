-- ===== src/ReleaseGate/Config.antt =====
-- The thresholds of pkg/releasegate/gate.go and their defaults.
use llm_slo_e_bpf_toolkit.Prelude.{
  Bool, ◌||◌, String, str_eq, List, [], ◌∷◌, length, ◌==◌, if◌then◌else◌,
}
use llm_slo_e_bpf_toolkit.Prelude.Int.{ℤ, pos, leb_ℤ, eqb_ℤ}
use llm_slo_e_bpf_toolkit.Prelude.Float64.{Float64, fle, fge}

pub record Config (F : Type 0) : Type 0 where
  pub candidate_root : String
  pub baseline_root : String
  pub baseline_manifest_path : String
  pub candidate_ref : String
  pub candidate_commit : String
  pub require_baseline_manifest : Bool
  pub scenarios : List String
  pub max_overhead_pct : F
  pub max_variance_pct : F
  pub min_runs_per_scenario : ℤ
  pub regression_pct_limit : F
  pub significance_alpha : F
  pub bootstrap_iterations : ℤ
  pub bootstrap_seed : ℤ
  pub min_samples_per_scenario : ℤ
  pub min_cliffs_delta_for_failure : F

abbrev pub default_scenarios : List String
default_scenarios =
    "dns_latency" ∷ "cpu_throttle" ∷ "provider_throttle" ∷ "memory_pressure" ∷ "network_partition"
    ∷ "mixed" ∷ "mixed_multi" ∷ []

abbrev pub or_text : String → String → String
or_text s fallback = if str_eq s "" then fallback else s

abbrev pub or_positive : ℤ → ℤ → ℤ
or_positive n fallback = if leb_ℤ n (pos 0) then fallback else n

module _ {F : Type 0} ⦃d : Float64 F⦄ where
  abbrev pub or_above_zero : F → F → F
  or_above_zero x fallback = if fle x (d.milli 0) then fallback else x

  -- `filepath.Join` is an argument.
  unfoldable pub normalize_config : (String → String → String) → Config F → Config F
  normalize_config join cfg =
      let candidate_root = or_text cfg.candidate_root (join "artifacts" "weekly-benchmark") in
      let baseline_root = or_text cfg.baseline_root (join candidate_root "baseline") in
      let alpha = cfg.significance_alpha in
      record cfg {
        candidate_root = candidate_root;
        baseline_root = baseline_root;
        baseline_manifest_path =
            or_text cfg.baseline_manifest_path (join baseline_root "manifest.json");
        scenarios = if length cfg.scenarios == 0 then default_scenarios else cfg.scenarios;
        max_overhead_pct = or_above_zero cfg.max_overhead_pct (d.milli 3000);
        max_variance_pct = or_above_zero cfg.max_variance_pct (d.milli 10_000);
        min_runs_per_scenario = or_positive cfg.min_runs_per_scenario (pos 3);
        regression_pct_limit = or_above_zero cfg.regression_pct_limit (d.milli 5000);
        significance_alpha =
            if fle alpha (d.milli 0) || fge alpha (d.milli 1000) then d.milli 50 else alpha;
        bootstrap_iterations = or_positive cfg.bootstrap_iterations (pos 1000);
        bootstrap_seed = if eqb_ℤ cfg.bootstrap_seed (pos 0) then pos 42 else cfg.bootstrap_seed;
        min_samples_per_scenario = or_positive cfg.min_samples_per_scenario (pos 30);
        min_cliffs_delta_for_failure = or_above_zero cfg.min_cliffs_delta_for_failure (d.milli 147);
      }
