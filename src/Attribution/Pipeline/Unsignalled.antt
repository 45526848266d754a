-- ===== src/Attribution/Pipeline/Unsignalled.antt =====
-- pkg/attribution/pipeline.go for samples without signals, which both modes attribute by the rule.
use llm_slo_e_bpf_toolkit.Prelude.{
  ◌≡◌, refl, String, str_eq, List, [], ◌∷◌, map, Bool-cases, inl, inr, All,
}
use llm_slo_e_bpf_toolkit.Prelude.Float64.{Float64}
use llm_slo_e_bpf_toolkit.Prelude.FloatMath.{FloatMath}
use llm_slo_e_bpf_toolkit.Attribution.Mapper.{FaultSample, build_attribution}
use llm_slo_e_bpf_toolkit.Attribution.Bayesian.{
  BayesianAttributor, new_bayesian_attributor, attribute_sample,
}
use llm_slo_e_bpf_toolkit.Attribution.Bayesian.Ranking.{attribute_sample_no_signals}
use llm_slo_e_bpf_toolkit.Attribution.Pipeline.{
  mode_rule, normalize_attribution_mode, build_attributions, build_attributions_rule,
  build_attributions_bayes,
}

module _ {F : Type 0} ⦃d : Float64 F⦄ (m : FloatMath F) (walk walk' : List F → List F) where
  attribute-All :
      (b : BayesianAttributor F) (ss : List (FaultSample F))
      → All (λ s. s.signals ≡ []) ss
      → map (attribute_sample m walk walk' b) ss ≡ map build_attribution ss
  attribute-All b [] a = refl
  attribute-All b (s ∷ ss) (e, es) =
      rw (attribute_sample_no_signals m walk walk' b s e, attribute-All b ss es) refl

  pub build_attributions_no_signals :
      (clean : String → String) (mode : String) (ss : List (FaultSample F))
      → All (λ s. s.signals ≡ []) ss
      → build_attributions m walk walk' clean ss mode ≡ map build_attribution ss
  unfolding build_attributions build_attributions_rule build_attributions_bayes
  build_attributions_no_signals clean mode ss a =
      elim (Bool-cases (str_eq (normalize_attribution_mode clean mode) mode_rule)) [
        | inl e ↦ rw e refl
        | inr e ↦ rw e (attribute-All new_bayesian_attributor ss a)
      ]
