-- ===== src/ReleaseGate/Evaluate.antt =====
-- `Evaluate` of pkg/releasegate/gate.go: the four gates together.
pub mod Passing
use llm_slo_e_bpf_toolkit.Prelude.{ℕ, Bool, ◌&&◌, String, List, [], ◌∷◌, ◌++◌, if◌then◌else◌}
use llm_slo_e_bpf_toolkit.Prelude.Int.{ℤ}
use llm_slo_e_bpf_toolkit.Prelude.Float64.{Float64}
use llm_slo_e_bpf_toolkit.Prelude.FloatMath.{FloatMath}
use llm_slo_e_bpf_toolkit.Prelude.Time.{Time}
use llm_slo_e_bpf_toolkit.ReleaseGate.Config.{Config, normalize_config}
use llm_slo_e_bpf_toolkit.ReleaseGate.Results.{Result, ok, ◌>>=◌}
use llm_slo_e_bpf_toolkit.ReleaseGate.Inputs.{Host}
use llm_slo_e_bpf_toolkit.ReleaseGate.Overhead.{
  BaselineGate, OverheadGate, evaluate_baseline, evaluate_overhead,
}
use llm_slo_e_bpf_toolkit.ReleaseGate.Variance.{VarianceGate, evaluate_variance}
use llm_slo_e_bpf_toolkit.ReleaseGate.Significance.{SignificanceGate, evaluate_significance}

-- The gate that an entry of `Failures` names.
pub data Failure : Type 0 where
  baseline_failed overhead_failed variance_failed significance_failed : Failure

pub record Summary (F : Type 0) : Type 0 where
  pub generated_at : Time
  pub candidate_root : String
  pub baseline_root : String
  pub scenarios : List String
  pub baseline : BaselineGate
  pub overhead : OverheadGate F
  pub variance : VarianceGate F
  pub significance : SignificanceGate F
  pub pass : Bool
  pub failures : List Failure

abbrev pub failure_unless : Bool → Failure → List Failure
failure_unless pass failure = if pass then [] else failure ∷ []

module _ {F : Type 0} ⦃d : Float64 F⦄ (m : FloatMath F) {S : Type 0} (intn : S → ℕ → ℕ × S)
    (seeded : ℤ → S) (host : Host F) (walk : List (String × List F) → List (String × List F)) where
  unfoldable pub evaluate_gates : Time → Config F → Result (Summary F)
  evaluate_gates now cfg = do
    baseline ← evaluate_baseline host cfg
    overhead ← evaluate_overhead m host walk cfg
    variance ← evaluate_variance m host cfg
    significance ← evaluate_significance m intn host seeded cfg
    ok (record {
      generated_at = now;
      candidate_root = cfg.candidate_root;
      baseline_root = cfg.baseline_root;
      scenarios = cfg.scenarios;
      baseline = baseline;
      overhead = overhead;
      variance = variance;
      significance = significance;
      pass = baseline.pass && (overhead.pass && (variance.pass && significance.pass));
      failures =
          failure_unless baseline.pass baseline_failed
          ++ (failure_unless overhead.pass overhead_failed
              ++ (failure_unless variance.pass variance_failed
                  ++ failure_unless significance.pass significance_failed));
    })

  -- `Evaluate`, with the defaults filled in.
  unfoldable pub evaluate : Time → Config F → Result (Summary F)
  evaluate now cfg = evaluate_gates now (normalize_config host.join cfg)
