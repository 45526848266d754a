-- ===== src/ReleaseGate/Evaluate/Passing.antt =====
-- What the summary of pkg/releasegate/gate.go says of the four gates.
use llm_slo_e_bpf_toolkit.Prelude.{
  ◌≡◌, ℕ, Bool, true, false, not, ◌&&◌, String, List, [], ◌∷◌, ◌++◌, arith,
}
use mathlib.Core.Path.{subst}
use llm_slo_e_bpf_toolkit.Prelude.Int.{ℤ}
use llm_slo_e_bpf_toolkit.Prelude.Float64.{Float64}
use llm_slo_e_bpf_toolkit.Prelude.FloatMath.{FloatMath}
use llm_slo_e_bpf_toolkit.Prelude.Time.{Time}
use llm_slo_e_bpf_toolkit.ReleaseGate.Config.{Config, normalize_config}
use llm_slo_e_bpf_toolkit.ReleaseGate.Results.{ok}
use llm_slo_e_bpf_toolkit.ReleaseGate.Inputs.{Host, does_exist}
use llm_slo_e_bpf_toolkit.ReleaseGate.Overhead.{evaluate_baseline, evaluate_overhead}
use llm_slo_e_bpf_toolkit.ReleaseGate.Overhead.Baseline.{evaluate_baseline-pass}
use llm_slo_e_bpf_toolkit.ReleaseGate.Variance.{evaluate_variance}
use llm_slo_e_bpf_toolkit.ReleaseGate.Significance.{evaluate_significance}
use llm_slo_e_bpf_toolkit.ReleaseGate.Results.{>>=-eq-ok, ok-injective}
use llm_slo_e_bpf_toolkit.ReleaseGate.Variance.Verdict.{all_vary_little, evaluate_variance-verdict}
use llm_slo_e_bpf_toolkit.ReleaseGate.Significance.Verdict.{
  none_regresses, evaluate_significance-verdict,
}
use llm_slo_e_bpf_toolkit.ReleaseGate.Evaluate.{
  Summary, failure_unless, evaluate_gates, evaluate, baseline_failed, overhead_failed,
  variance_failed, significance_failed,
}

abbrev pub is_nil : {A : Type 0} → List A → Bool
is_nil [] = true
is_nil (x ∷ xs) = false

module _ {F : Type 0} ⦃d : Float64 F⦄ (m : FloatMath F) {S : Type 0} (intn : S → ℕ → ℕ × S)
    (seeded : ℤ → S) (host : Host F) (walk : List (String × List F) → List (String × List F)) where
  -- The facts of the summary that the parts determine.
  abbrev IsSummary : Config F → Summary F → Type 0
  IsSummary cfg s =
      (s.pass ≡ (
        s.baseline.pass
        && (s.overhead.pass
            && (all_vary_little s.variance.scenarios && none_regresses s.significance.scenarios))))
      × (is_nil s.failures ≡ s.pass)
      × (s.baseline.pass
          ≡ not (
              cfg.require_baseline_manifest
              && not (does_exist (host.stat cfg.baseline_manifest_path))))
      × (evaluate_significance m intn host seeded cfg ≡ ok s.significance)

  and_all :
      (b o v v' g g' : Bool) → v ≡ v' → g ≡ g' → (b && (o && (v && g))) ≡ (b && (o && (v' && g')))
  and_all b o v v' g g' e e' = cc

  no_failures :
      (b o v g : Bool)
      → is_nil (
          failure_unless b baseline_failed
          ++ (failure_unless o overhead_failed
              ++ (failure_unless v variance_failed ++ failure_unless g significance_failed)))
        ≡ (b && (o && (v && g)))
  no_failures b o v g = ground arith

  -- For a run without errors the release passes exactly if the four gates do, and then no failure is
  -- listed. The baseline gate fails only for a required manifest that is missing, so also a baseline of
  -- the same source passes; the candidate is still compared with it: the significance gate is that of
  -- the configuration in every case.
  pub evaluate-passes :
      (now : Time) (given : Config F) (s : Summary F)
      → evaluate m intn seeded host walk now given ≡ ok s
      → let cfg = normalize_config host.join given in
        (s.pass ≡ (
          s.baseline.pass
          && (s.overhead.pass
              && (all_vary_little s.variance.scenarios
                  && none_regresses s.significance.scenarios))))
        × (is_nil s.failures ≡ s.pass)
        × (s.baseline.pass
            ≡ not (
                cfg.require_baseline_manifest
                && not (does_exist (host.stat cfg.baseline_manifest_path))))
        × (evaluate_significance m intn host seeded cfg ≡ ok s.significance)
  unfolding evaluate evaluate_gates
  evaluate-passes now given s h =
      let cfg = normalize_config host.join given in
      let (b, eb, h1) = >>=-eq-ok (evaluate_baseline host cfg) _ h in
      let (o, eo, h2) = >>=-eq-ok (evaluate_overhead m host walk cfg) _ h1 in
      let (v, ev, h3) = >>=-eq-ok (evaluate_variance m host cfg) _ h2 in
      let (g, eg, h4) = >>=-eq-ok (evaluate_significance m intn host seeded cfg) _ h3 in
      let steady = (evaluate_variance-verdict cfg m host v ev).2 in
      let judged = (evaluate_significance-verdict cfg m host intn seeded g eg).2 in
      subst (IsSummary cfg) (ok-injective h4) (
        and_all b.pass o.pass v.pass _ g.pass _ steady judged,
        no_failures b.pass o.pass v.pass g.pass,
        evaluate_baseline-pass host cfg b eb,
        eg,
      )
