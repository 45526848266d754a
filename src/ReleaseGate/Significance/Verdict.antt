-- ===== src/ReleaseGate/Significance/Verdict.antt =====
-- When the significance gate of pkg/releasegate/gate.go passes.
use llm_slo_e_bpf_toolkit.Prelude.{
  ◌≡◌, refl, sym, ap, ◌∙◌, ℕ, Bool, true, false, not, ◌&&◌, String, List, [], ◌∷◌, ◌++◌, map, All,
  if◌then◌else◌, arith,
}
use mathlib.Core.Path.{ap₂}
use mathlib.Core.List.{append-nil, append_assoc}
use llm_slo_e_bpf_toolkit.Prelude.Int.{ℤ, pos, leb_ℤ}
use llm_slo_e_bpf_toolkit.Prelude.Float64.{fge, Float64, flt, fgt}
use llm_slo_e_bpf_toolkit.Prelude.FloatMath.{FloatMath}
use llm_slo_e_bpf_toolkit.ReleaseGate.Results.{>>=-eq-ok, ok-injective, and_assoc}
use llm_slo_e_bpf_toolkit.ReleaseGate.Config.{Config}
use llm_slo_e_bpf_toolkit.ReleaseGate.Results.{ok}
use llm_slo_e_bpf_toolkit.ReleaseGate.Inputs.{Host}
use llm_slo_e_bpf_toolkit.ReleaseGate.Significance.{
  ScenarioSignificance, SignificanceGate, insufficient_samples, Distributions, load_distributions,
  start_significance, judge_regression, scenario_significance, significance_loop,
  evaluate_significance,
}

and_true_left : (a b : Bool) → a ≡ true → b ≡ (a && b)
and_true_left a b h = ground arith

and_false_left : (a b : Bool) → a ≡ false → false ≡ (a && b)
and_false_left a b h = ground arith

module _ {F : Type 0} where
  abbrev pub none_regresses : List (ScenarioSignificance F) → Bool
  none_regresses [] = true
  none_regresses (r ∷ rs) = r.pass && none_regresses rs

module _ {F : Type 0} ⦃d : Float64 F⦄ (cfg : Config F) where
  -- There are enough samples on both sides.
  abbrev HasSamples : ScenarioSignificance F → Type 0
  HasSamples r = r.minimum_samples_reached ≡ (
      leb_ℤ cfg.min_samples_per_scenario (pos r.candidate_n)
      && leb_ℤ cfg.min_samples_per_scenario (pos r.baseline_n))

  -- The samples and the effect are measured by their limits, and the scenario passes exactly with
  -- enough samples, unless the regression is above the limit, significant by both tests, and large in
  -- effect.
  abbrev pub IsJudged : ScenarioSignificance F → Type 0
  IsJudged r =
      HasSamples r
      × (r.practical_effect_pass ≡ (
          r.minimum_samples_reached
          && fge (d.fabs r.cliffs_delta) cfg.min_cliffs_delta_for_failure))
      × (r.pass ≡ (
          r.minimum_samples_reached
          && not (
              (fgt r.ttft_regression_pct cfg.regression_pct_limit
                && (flt r.mann_whitney_p_value cfg.significance_alpha
                    && fgt r.bootstrap_delta_ci95.0 (d.milli 0)))
              && r.practical_effect_pass)))

  module _ (m : FloatMath F) (host : Host F) where
    module _ {S : Type 0} (intn : S → ℕ → ℕ × S) where
      chosen-IsJudged :
          (reached : Bool) (r : ScenarioSignificance F) (p : F) (ci : F × F) (cliffs : F) (s s' : S)
          → r.minimum_samples_reached ≡ reached
          → r.practical_effect_pass ≡ false
          → HasSamples r
          → let r' =
              (if◌then◌else◌ {A = ScenarioSignificance F × S} reached
                (judge_regression cfg r p ci cliffs, s')
                (record r { pass = false; failure_reason = insufficient_samples }, s)).0 in
            IsJudged r' × (r'.scenario ≡ r.scenario)
      unfolding judge_regression
      chosen-IsJudged true r p ci cliffs s s' h small enough =
          ((enough, and_true_left _ _ h, and_true_left _ _ h), refl)
      chosen-IsJudged false r p ci cliffs s s' h small enough =
          ((enough, small ∙ and_false_left _ _ h, and_false_left _ _ h), refl)

      start_significance_lem :
          (scenario : String) (x : Distributions F)
          → let r = start_significance m cfg scenario x in
            (r.scenario ≡ scenario) × (r.practical_effect_pass ≡ false) × HasSamples r
      unfolding start_significance
      start_significance_lem scenario x = (refl, refl, refl)

      scenario_significance-IsJudged :
          (scenario : String) (x : Distributions F) (s : S)
          → let r = (scenario_significance m intn cfg scenario x s).0 in
            IsJudged r × (r.scenario ≡ scenario)
      unfolding scenario_significance
      scenario_significance-IsJudged scenario x s =
          let r = start_significance m cfg scenario x in
          let (named, small, enough) = start_significance_lem scenario x in
          let (judged, name) =
            chosen-IsJudged r.minimum_samples_reached r _ _ _ s _ refl small enough in
          (judged, name ∙ named)

      significance_loop_lem :
          (scenarios : List String) (gate g : SignificanceGate F) (s : S)
          → significance_loop m intn host cfg scenarios gate s ≡ ok g
          → (rs : List (ScenarioSignificance F)) × (g.scenarios ≡ gate.scenarios ++ rs)
            × (map (λ (r : ScenarioSignificance F). r.scenario) rs ≡ scenarios)
            × All IsJudged rs
            × (g.pass ≡ (gate.pass && none_regresses rs))
      unfolding significance_loop
      significance_loop_lem [] gate g s h =
          let same = sym (ok-injective h) in
          (
            [],
            ap (λ x. x.scenarios) same ∙ rw append-nil refl,
            refl,
            tt,
            ap (λ x. x.pass) same ∙ ground arith,
          )
      significance_loop_lem (scenario ∷ scenarios) gate g s h =
          let (x, _, h') = >>=-eq-ok (load_distributions host cfg scenario) _ h in
          let step = scenario_significance m intn cfg scenario x s in
          let (judged, name) = scenario_significance-IsJudged scenario x s in
          let (rs, added, names, all_judged, verdict) =
            significance_loop_lem scenarios _ g step.1 h' in
          (
            step.0 ∷ rs,
            added ∙ append_assoc gate.scenarios (step.0 ∷ []) rs,
            ap₂ (λ y ys. y ∷ ys) name names,
            (judged, all_judged),
            verdict ∙ and_assoc gate.pass step.0.pass (none_regresses rs),
          )

      pub evaluate_significance-verdict :
          (seeded : ℤ → S) (g : SignificanceGate F)
          → evaluate_significance m intn host seeded cfg ≡ ok g
          → (map (λ (r : ScenarioSignificance F). r.scenario) g.scenarios ≡ cfg.scenarios)
            × All IsJudged g.scenarios
            × (g.pass ≡ none_regresses g.scenarios)
      unfolding evaluate_significance
      evaluate_significance-verdict seeded g h =
          let (rs, listed, names, judged, verdict) =
            significance_loop_lem cfg.scenarios _ g (seeded cfg.bootstrap_seed) h in
          rw listed (names, judged, verdict)
