-- ===== src/ReleaseGate/Overhead/Baseline.antt =====
-- When the baseline gate of pkg/releasegate/gate.go passes.
use llm_slo_e_bpf_toolkit.Prelude.{◌≡◌, ◌∙◌, true, not, ◌&&◌, arith}
use llm_slo_e_bpf_toolkit.ReleaseGate.Config.{Config}
use llm_slo_e_bpf_toolkit.ReleaseGate.Results.{ok}
use llm_slo_e_bpf_toolkit.ReleaseGate.Inputs.{
  Host, StatAnswer, exists, absent, undecided, does_exist, ManifestAnswer, unreadable, unparsable,
  manifest,
}
use llm_slo_e_bpf_toolkit.ReleaseGate.Overhead.{
  BaselineGate, empty_baseline, compare_sources, with_stat, with_manifest, evaluate_baseline,
}

module _ {F : Type 0} (host : Host F) (cfg : Config F) where
  with_manifest-pass :
      (answer : ManifestAnswer) (b : BaselineGate)
      → with_manifest host cfg answer ≡ ok b
      → b.pass ≡ true
  unfolding with_manifest compare_sources empty_baseline
  with_manifest-pass unreadable b h = cc
  with_manifest-pass unparsable b h = cc
  with_manifest-pass (manifest found) b h = ground arith

  with_stat-pass :
      (answer : StatAnswer) (b : BaselineGate)
      → with_stat host cfg answer ≡ ok b
      → b.pass ≡ not (cfg.require_baseline_manifest && not (does_exist answer))
  unfolding with_stat empty_baseline
  with_stat-pass undecided b h = cc
  with_stat-pass absent b h = ground arith
  with_stat-pass exists b h =
      with_manifest-pass (host.read_manifest cfg.baseline_manifest_path) b h ∙ ground arith

  -- Only a required manifest that is missing fails the gate.
  pub evaluate_baseline-pass :
      (b : BaselineGate)
      → evaluate_baseline host cfg ≡ ok b
      → b.pass
        ≡ not (
            cfg.require_baseline_manifest
            && not (does_exist (host.stat cfg.baseline_manifest_path)))
  unfolding evaluate_baseline
  evaluate_baseline-pass b h = with_stat-pass (host.stat cfg.baseline_manifest_path) b h
