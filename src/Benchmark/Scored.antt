-- ===== src/Benchmark/Scored.antt =====
-- How pkg/attribution scores the samples of several faults that pkg/benchmark/harness.go makes.
use llm_slo_e_bpf_toolkit.Prelude.{◌≡◌, refl, ℕ, String, List}
use llm_slo_e_bpf_toolkit.Prelude.Float64.{Float64}
use llm_slo_e_bpf_toolkit.Prelude.FloatMath.{FloatMath}
use llm_slo_e_bpf_toolkit.Prelude.Time.{Time}
use llm_slo_e_bpf_toolkit.Attribution.Mapper.{map_fault_label, build_attribution}
use llm_slo_e_bpf_toolkit.Attribution.Pipeline.{
  actual_domain, expected_set, count_correct, count_partial, build_attributions,
}
use llm_slo_e_bpf_toolkit.Attribution.Pipeline.Unsignalled.{build_attributions_no_signals}
use llm_slo_e_bpf_toolkit.Benchmark.{build_combo, combo_samples, build_mixed_multi_samples}

module _ {F : Type 0} ⦃d : Float64 F⦄ (m : FloatMath F) (walk walk' : List F → List F) where
  -- In either mode `Accuracy` counts all twelve samples of `mixed_multi` as correct, and
  -- `PartialAccuracy` only the five with a single fault: a sample of several faults has the expected
  -- domain "unknown", which is also what it is attributed to.
  pub build_mixed_multi_samples-scores :
      (clean : String → String) (mode : String) (format2 : ℕ → String) (now : ℕ → Time)
      → let ss = build_mixed_multi_samples {F = F} format2 now in
        let predictions = build_attributions m walk walk' clean ss mode in
        (count_correct 0 ss predictions ≡ 12) × (count_partial 0 ss predictions ≡ 5)
  unfolding build_mixed_multi_samples combo_samples build_combo build_attribution map_fault_label
      actual_domain expected_set count_correct count_partial
  build_mixed_multi_samples-scores clean mode format2 now =
      let ss = build_mixed_multi_samples {F = F} format2 now in
      rw
        (build_attributions_no_signals m walk walk' clean mode ss (
          refl,
          (
            refl,
            (refl, (refl, (refl, (refl, (refl, (refl, (refl, (refl, (refl, (refl, tt)))))))))),
          ),
        ))
        (refl, refl)
