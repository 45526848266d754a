-- ===== src/ReleaseGate/Variance/Verdict.antt =====
-- When the variance gate of pkg/releasegate/gate.go passes.
use llm_slo_e_bpf_toolkit.Prelude.{
  ◌≡◌, refl, sym, ap, ◌∙◌, Bool, true, false, ◌&&◌, String, List, [], ◌∷◌, ◌++◌, map, length, All,
  Bool-cases, ◌⊎◌, inl, inr, arith,
}
use mathlib.Core.Path.{subst, ap₂}
use mathlib.Core.List.{append-nil, append_assoc}
use llm_slo_e_bpf_toolkit.Prelude.Int.{pos, ltb_ℤ}
use llm_slo_e_bpf_toolkit.Prelude.Float64.{Float64, fle}
use llm_slo_e_bpf_toolkit.Prelude.FloatMath.{FloatMath}
use llm_slo_e_bpf_toolkit.ReleaseGate.Results.{>>=-eq-ok, ok-injective, and_assoc}
use llm_slo_e_bpf_toolkit.ReleaseGate.Config.{Config}
use llm_slo_e_bpf_toolkit.ReleaseGate.Results.{
  Result, ok, some_of, GateError, no_ttft_values, no_token_values, no_error_values,
}
use llm_slo_e_bpf_toolkit.ReleaseGate.Inputs.{
  Host, discover_runs, load_raw_samples, extract_ttft, extract_tokens, extract_error_rates,
}
use llm_slo_e_bpf_toolkit.ReleaseGate.Statistics.{quantile, mean, coefficient_of_variance_pct}
use llm_slo_e_bpf_toolkit.Collector.Samples.{RawSample}
use llm_slo_e_bpf_toolkit.ReleaseGate.Variance.{
  ScenarioVariance, VarianceGate, RunFigures, collect_figures, short_variance, judge_variance,
  scenario_variance, variance_loop, evaluate_variance,
}

some_of_lem : {A : Type 0} (e : GateError) (xs ys : List A) → some_of e xs ≡ ok ys → ys ≡ xs
some_of_lem e [] ys h = absurd cc
some_of_lem e (x ∷ xs) ys h = sym (ok-injective h)

module _ {F : Type 0} where
  abbrev pub all_vary_little : List (ScenarioVariance F) → Bool
  all_vary_little [] = true
  all_vary_little (r ∷ rs) = r.pass && all_vary_little rs

module _ {F : Type 0} ⦃d : Float64 F⦄ (cfg : Config F) (m : FloatMath F) (host : Host F) where
  -- The samples of a run, and its three figures.
  abbrev samples_at : String → Result (List (RawSample F))
  samples_at run = load_raw_samples host (host.join run "raw_samples.jsonl")

  abbrev ttft_figure : List (RawSample F) → F
  ttft_figure raw = quantile m (extract_ttft raw) (d.milli 950)

  abbrev tokens_figure : List (RawSample F) → F
  tokens_figure raw = quantile m (extract_tokens raw) (d.milli 500)

  abbrev errors_figure : List (RawSample F) → F
  errors_figure raw = mean (extract_error_rates raw)

  abbrev pub few : List String → Bool
  few runs = ltb_ℤ (pos (length runs)) cfg.min_runs_per_scenario

  -- The variances are those of the figures of all runs, and the verdict is that of the variances.
  abbrev pub IsMeasured : List String → ScenarioVariance F → Type 0
  IsMeasured runs r =
      (raws : List (List (RawSample F))) × (map samples_at runs ≡ map ok raws)
      × (r.variance_pct ≡ coefficient_of_variance_pct m (map ttft_figure raws))
      × (r.tokens_variance_pct ≡ coefficient_of_variance_pct m (map tokens_figure raws))
      × (r.error_rate_variance_pct ≡ coefficient_of_variance_pct m (map errors_figure raws))
      × (r.pass ≡ (
          fle r.variance_pct cfg.max_variance_pct
          && (fle r.tokens_variance_pct cfg.max_variance_pct
              && fle r.error_rate_variance_pct cfg.max_variance_pct)))

  -- The scenario fails with too few runs, and with enough it passes exactly when its figures are steady.
  abbrev pub IsSteady : ScenarioVariance F → Type 0
  IsSteady r =
      (runs : List String) × (discover_runs host (host.join cfg.candidate_root r.scenario)
        ≡ ok runs)
      × (r.run_count ≡ length runs)
      × (((few runs ≡ true) × (r.pass ≡ false)) ⊎ ((few runs ≡ false) × IsMeasured runs r))

  collect_figures_lem :
      (runs : List String) (f : RunFigures F)
      → collect_figures m host runs ≡ ok f
      → (raws : List (List (RawSample F))) × (map samples_at runs ≡ map ok raws)
        × (f.ttft_p95 ≡ map ttft_figure raws)
        × (f.tokens_p50 ≡ map tokens_figure raws)
        × (f.error_rate_mean ≡ map errors_figure raws)
  unfolding collect_figures
  collect_figures_lem [] f h =
      let same = sym (ok-injective h) in
      (
        [],
        refl,
        ap (λ x. x.ttft_p95) same,
        ap (λ x. x.tokens_p50) same,
        ap (λ x. x.error_rate_mean) same,
      )
  collect_figures_lem (run ∷ runs) f h =
      let (raw, read, h₁) = >>=-eq-ok (samples_at run) _ h in
      let (ttft, ttft_is, h₂) = >>=-eq-ok (some_of (no_ttft_values _) (extract_ttft raw)) _ h₁ in
      let (tokens, tokens_is, h₃) =
        >>=-eq-ok (some_of (no_token_values _) (extract_tokens raw)) _ h₂ in
      let (errors, errors_is, h₄) =
        >>=-eq-ok (some_of (no_error_values _) (extract_error_rates raw)) _ h₃ in
      let (rest, collected, made) = >>=-eq-ok (collect_figures m host runs) _ h₄ in
      let (raws, reads, ttfts, token_s, error_s) = collect_figures_lem runs rest collected in
      let same = sym (ok-injective made) in
      (
        raw ∷ raws,
        ap₂ (λ x xs. x ∷ xs) read reads,
        ap (λ x. x.ttft_p95) same
            ∙ ap₂ (λ v vs. quantile m v (d.milli 950) ∷ vs) (some_of_lem _ _ _ ttft_is) ttfts,
        ap (λ x. x.tokens_p50) same
            ∙ ap₂ (λ v vs. quantile m v (d.milli 500) ∷ vs) (some_of_lem _ _ _ tokens_is) token_s,
        ap (λ x. x.error_rate_mean) same
            ∙ ap₂ (λ v vs. mean v ∷ vs) (some_of_lem _ _ _ errors_is) error_s,
      )

  judge_variance-IsMeasured :
      (scenario : String) (runs : List String) (f : RunFigures F)
      → collect_figures m host runs ≡ ok f
      → IsMeasured runs (judge_variance m cfg.max_variance_pct scenario (length runs) f)
  unfolding judge_variance
  judge_variance-IsMeasured scenario runs f h =
      let (raws, reads, ttfts, tokens, errors) = collect_figures_lem runs f h in
      let cv = coefficient_of_variance_pct m in
      (raws, reads, ap cv ttfts, ap cv tokens, ap cv errors, refl)

  scenario_variance-IsSteady :
      (scenario : String) (runs : List String) (r : ScenarioVariance F)
      → discover_runs host (host.join cfg.candidate_root scenario) ≡ ok runs
      → scenario_variance m host cfg scenario runs ≡ ok r
      → IsSteady r × (r.scenario ≡ scenario)
  unfolding scenario_variance short_variance judge_variance
  scenario_variance-IsSteady scenario runs r found h = elim (Bool-cases (few runs)) [
    | inl e ↦
        subst (λ x. IsSteady x × (x.scenario ≡ scenario)) (ok-injective (rw e at h))
          ((runs, found, refl, inl (e, refl)), refl)
    | inr e ↦
        let (f, collected, judged) = >>=-eq-ok (collect_figures m host runs) _ (rw e at h) in
        subst (λ x. IsSteady x × (x.scenario ≡ scenario)) (ok-injective judged)
          ((runs, found, refl, inr (e, judge_variance-IsMeasured scenario runs f collected)), refl)
  ]

  -- What the loop adds to the gate for the scenarios that are left.
  variance_loop_lem :
      (scenarios : List String) (gate g : VarianceGate F)
      → variance_loop m host cfg scenarios gate ≡ ok g
      → (rs : List (ScenarioVariance F)) × (g.scenarios ≡ gate.scenarios ++ rs)
        × (map (λ (r : ScenarioVariance F). r.scenario) rs ≡ scenarios)
        × All IsSteady rs
        × (g.pass ≡ (gate.pass && all_vary_little rs))
  unfolding variance_loop
  variance_loop_lem [] gate g h =
      let same = sym (ok-injective h) in
      (
        [],
        ap (λ x. x.scenarios) same ∙ rw append-nil refl,
        refl,
        tt,
        ap (λ x. x.pass) same ∙ ground arith,
      )
  variance_loop_lem (scenario ∷ scenarios) gate g h =
      let (runs, found_runs, h') =
        >>=-eq-ok (discover_runs host (host.join cfg.candidate_root scenario)) _ h in
      let (r, found, h'') = >>=-eq-ok (scenario_variance m host cfg scenario runs) _ h' in
      let (steady, name) = scenario_variance-IsSteady scenario runs r found_runs found in
      let (rs, added, names, all_steady, verdict) = variance_loop_lem scenarios _ g h'' in
      (
        r ∷ rs,
        added ∙ append_assoc gate.scenarios (r ∷ []) rs,
        ap₂ (λ x xs. x ∷ xs) name names,
        (steady, all_steady),
        verdict ∙ and_assoc gate.pass r.pass (all_vary_little rs),
      )

  -- For a run without errors the variance gate has one result for each scenario in their order. A
  -- scenario with too few runs fails; else it passes exactly if three coefficients of variance are
  -- within the limit: those of the runs' 95th percentile of the time to the first token, their median
  -- of the tokens and their mean error rate. The gate passes exactly if all scenarios do.
  pub evaluate_variance-verdict :
      (g : VarianceGate F)
      → evaluate_variance m host cfg ≡ ok g
      → (map (λ (r : ScenarioVariance F). r.scenario) g.scenarios ≡ cfg.scenarios)
        × All IsSteady g.scenarios
        × (g.pass ≡ all_vary_little g.scenarios)
  unfolding evaluate_variance
  evaluate_variance-verdict g h =
      let (rs, listed, names, steady, verdict) = variance_loop_lem cfg.scenarios _ g h in
      rw listed (names, steady, verdict)
