-- ===== src/Attribution/Pipeline.antt =====
-- pkg/attribution/pipeline.go: attribution of many samples, and how the predictions are scored. The
-- counters are bounded by the samples in memory. `clean` is `strings.ToLower(strings.TrimSpace(_))`.
pub mod Scores
pub mod Unsignalled
use llm_slo_e_bpf_toolkit.Prelude.{
  ℕ, zero, suc, ◌+◌, Bool, true, false, ◌&&◌, String, str_eq, List, [], ◌∷◌, map, filter, Option,
  none, some, contains, length, count_if, ◌==◌, if◌then◌else◌,
}
use llm_slo_e_bpf_toolkit.Prelude.Int.{pos}
use llm_slo_e_bpf_toolkit.Prelude.Float64.{Float64, fge}
use llm_slo_e_bpf_toolkit.Prelude.FloatMath.{FloatMath}
use llm_slo_e_bpf_toolkit.Schema.{IncidentAttribution, FaultHypothesis}
use llm_slo_e_bpf_toolkit.Attribution.Mapper.{FaultSample, map_fault_label, build_attribution}
use llm_slo_e_bpf_toolkit.Attribution.Bayesian.{
  BayesianAttributor, new_bayesian_attributor, attribute_sample,
}

-- `MatrixKey`: the actual and the predicted domain.
abbrev pub MatrixKey : Type 0
MatrixKey = String × String

abbrev pub key_eq : MatrixKey → MatrixKey → Bool
key_eq a b = str_eq a.0 b.0 && str_eq a.1 b.1

-- `matrix[key]++`
unfoldable pub increment : MatrixKey → List (MatrixKey × ℕ) → List (MatrixKey × ℕ)
increment key [] = (key, 1) ∷ []
increment key (e ∷ rest) = if key_eq e.0 key then (e.0, e.1 + 1) ∷ rest else e ∷ increment key rest

-- `matrix[key]`, which is 0 for a key that is not there.
unfoldable pub cell : MatrixKey → List (MatrixKey × ℕ) → ℕ
cell key [] = 0
cell key (e ∷ rest) = if key_eq e.0 key then e.1 else cell key rest

abbrev pub mode_rule : String
mode_rule = "rule"

abbrev pub mode_bayes : String
mode_bayes = "bayes"

unfoldable pub normalize_attribution_mode : (String → String) → String → String
normalize_attribution_mode clean mode =
    if str_eq (clean mode) mode_rule then mode_rule else mode_bayes

module _ {F : Type 0} where
  unfoldable pub actual_domain : FaultSample F → String
  actual_domain sample =
      if str_eq sample.expected_domain ""
      then map_fault_label sample.fault_label
      else sample.expected_domain

  unfoldable pub confusion_from :
      List (MatrixKey × ℕ)
      → List (FaultSample F)
      → List (IncidentAttribution F)
      → List (MatrixKey × ℕ)
  confusion_from matrix samples [] = matrix
  confusion_from matrix [] (p ∷ ps) = matrix
  confusion_from matrix (s ∷ ss) (p ∷ ps) =
      confusion_from (increment (actual_domain s, p.predicted_fault_domain) matrix) ss ps

  unfoldable pub build_confusion_matrix :
      List (FaultSample F) → List (IncidentAttribution F) → List (MatrixKey × ℕ)
  build_confusion_matrix samples predictions = confusion_from [] samples predictions

  -- The loop of `Accuracy`, with the counter `correct`.
  unfoldable pub count_correct : ℕ → List (FaultSample F) → List (IncidentAttribution F) → ℕ
  count_correct correct samples [] = correct
  count_correct correct [] (p ∷ ps) = correct
  count_correct correct (s ∷ ss) (p ∷ ps) =
      count_correct
        (if str_eq (actual_domain s) p.predicted_fault_domain then correct + 1 else correct) ss ps

  -- `expected`, in `PartialAccuracy` and `CoverageAccuracy`.
  unfoldable pub expected_set : FaultSample F → List String
  expected_set sample =
      if length sample.expected_domains == 0
      then actual_domain sample ∷ []
      else sample.expected_domains

  -- The loop of `PartialAccuracy`.
  unfoldable pub count_partial : ℕ → List (FaultSample F) → List (IncidentAttribution F) → ℕ
  count_partial correct samples [] = correct
  count_partial correct [] (p ∷ ps) = correct
  count_partial correct (s ∷ ss) (p ∷ ps) =
      count_partial
        (if contains p.predicted_fault_domain (expected_set s) then correct + 1 else correct) ss ps

module _ {F : Type 0} ⦃d : Float64 F⦄ where
  -- A quotient of two counters, or 0 if there is nothing to count.
  abbrev pub share : ℕ → ℕ → F
  share n total = if total == 0 then d.milli 0 else d.fdiv (d.of_int (pos n)) (d.of_int (pos total))

  unfoldable pub accuracy : List (FaultSample F) → List (IncidentAttribution F) → F
  accuracy samples predictions = share (count_correct 0 samples predictions) (length predictions)

  unfoldable pub partial_accuracy : List (FaultSample F) → List (IncidentAttribution F) → F
  partial_accuracy samples predictions =
      share (count_partial 0 samples predictions) (length predictions)

  -- The keys of `hypothesisDomains`.
  unfoldable pub hypothesis_domains : F → IncidentAttribution F → List String
  hypothesis_domains threshold p =
      p.predicted_fault_domain
      ∷ map (λ (h : FaultHypothesis F). h.domain)
          (filter (λ h. fge h.posterior threshold) p.fault_hypotheses)

  unfoldable pub coverage_of : F → FaultSample F → IncidentAttribution F → F
  coverage_of threshold s p =
      let expected = expected_set s in
      d.fdiv
        (d.of_int
          (pos (count_if (λ name. contains name (hypothesis_domains threshold p)) expected)))
        (d.of_int (pos (length expected)))

  -- The loop of `CoverageAccuracy`, with `total` and `count`.
  unfoldable pub coverage_from :
      F → F → ℕ → List (FaultSample F) → List (IncidentAttribution F) → F × ℕ
  coverage_from threshold total count samples [] = (total, count)
  coverage_from threshold total count [] (p ∷ ps) = (total, count)
  coverage_from threshold total count (s ∷ ss) (p ∷ ps) =
      coverage_from threshold (d.fadd total (coverage_of threshold s p)) (count + 1) ss ps

  unfoldable pub coverage_accuracy : List (FaultSample F) → List (IncidentAttribution F) → F → F
  coverage_accuracy samples predictions threshold =
      let (total, count) = coverage_from threshold (d.milli 0) 0 samples predictions in
      if length predictions == 0
      then d.milli 0
      else if count == 0
      then d.milli 0
      else d.fdiv total (d.of_int (pos count))

  unfoldable pub build_attributions_rule : List (FaultSample F) → List (IncidentAttribution F)
  build_attributions_rule samples = map build_attribution samples

  module _ (m : FloatMath F) (walk walk' : List F → List F) where
    abbrev pub or_default : Option (BayesianAttributor F) → BayesianAttributor F
    or_default none = new_bayesian_attributor
    or_default (some b) = b

    unfoldable pub build_attributions_bayes :
        List (FaultSample F) → Option (BayesianAttributor F) → List (IncidentAttribution F)
    build_attributions_bayes samples attributor =
        map (attribute_sample m walk walk' (or_default attributor)) samples

    unfoldable pub build_attributions :
        (String → String) → List (FaultSample F) → String → List (IncidentAttribution F)
    build_attributions clean samples mode =
        if str_eq (normalize_attribution_mode clean mode) mode_rule
        then build_attributions_rule samples
        else build_attributions_bayes samples none
