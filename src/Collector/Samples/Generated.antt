-- ===== src/Collector/Samples/Generated.antt =====
-- What the synthetic samples of pkg/collector/synthetic.go are, and how pipeline.go judges them.
use llm_slo_e_bpf_toolkit.Prelude.{
  ℕ, zero, suc, ◌+◌, ◌*◌, ◌%◌, ◌<◌, ◌≡◌, refl, ap, ◌∙◌, String, List, [], ◌∷◌, some, arith, length,
  get_elem?,
}
use llm_slo_e_bpf_toolkit.Prelude.Int.{pos}
use llm_slo_e_bpf_toolkit.Prelude.Float64.{Float64}
use llm_slo_e_bpf_toolkit.Prelude.Time.{Time, add, wrap64, second}
use llm_slo_e_bpf_toolkit.Collector.Samples.{
  RawSample, SampleMeta, scenario_sequence, samples, label_at, build_scenario_sample,
  build_synthetic_sample, labelled, prepend, generate_from, generate_synthetic_samples,
}

module _ (F : Type 0) ⦃d : Float64 F⦄ (format4 : ℕ → String) where
  -- The samples that a scenario with the given labels has from an index on.
  abbrev pub sequence : List String → Time → SampleMeta → ℕ → ℕ → List (RawSample F)
  sequence labels start meta idx zero = []
  sequence labels start meta idx (suc n) =
      build_scenario_sample format4 meta (add start (wrap64 (pos (idx * second)))) idx
        (label_at labels (idx % length labels))
      ∷ sequence labels start meta (idx + 1) n

  generate_from_lem :
      (scenario : String) (labels : List String) (start : Time) (meta : SampleMeta) (idx n : ℕ)
      → scenario_sequence scenario ≡ some labels
      → generate_from format4 scenario start meta idx n ≡ samples (sequence labels start meta idx n)
  unfolding generate_from prepend build_synthetic_sample labelled
  generate_from_lem scenario labels start meta idx zero e = refl
  generate_from_lem scenario labels start meta idx (suc n) e =
      rw (e, generate_from_lem scenario labels start meta (idx + 1) n e) refl

  length-sequence :
      (labels : List String) (start : Time) (meta : SampleMeta) (idx n : ℕ)
      → length (sequence labels start meta idx n) ≡ n
  length-sequence labels start meta idx zero = refl
  length-sequence labels start meta idx (suc n) =
      ap suc (length-sequence labels start meta (idx + 1) n)

  get_elem-sequence :
      (labels : List String) (start : Time) (meta : SampleMeta) (idx n i : ℕ)
      → i < n
      → get_elem? (sequence labels start meta idx n) i
        ≡ some (
            build_scenario_sample format4 meta
              (add start (wrap64 (pos ((idx + i) * second))))
              (idx + i)
              (label_at labels ((idx + i) % length labels)))
  get_elem-sequence labels start meta idx zero i h = absurd (omega (arith, h))
  get_elem-sequence labels start meta idx (suc n) zero h =
      ap
        (λ k. some (
          build_scenario_sample format4 meta (add start (wrap64 (pos (k * second)))) k
            (label_at labels (k % length labels))))
        (omega arith)
  get_elem-sequence labels start meta idx (suc n) (suc i) h =
      get_elem-sequence labels start meta (idx + 1) n i (omega (arith, h))
      ∙ ap
          (λ k. some (
            build_scenario_sample format4 meta (add start (wrap64 (pos (k * second)))) k
              (label_at labels (k % length labels))))
          (omega arith)

  -- For a known scenario and a positive count, exactly that many samples are generated, one second
  -- apart from the start, and the sample of each index has the scenario's label at that index, round
  -- and round.
  pub generate_synthetic_samples_lem :
      (scenario : String) (labels : List String) (n : ℕ) (start : Time) (meta : SampleMeta)
      → scenario_sequence scenario ≡ some labels
      → 0 < n
      → (out : List (RawSample F)) × (generate_synthetic_samples format4 scenario (pos n) start meta
          ≡ samples out)
        × (length out ≡ n)
        × ((i : ℕ)
            → i < n
            → get_elem? out i
              ≡ some (
                  build_scenario_sample format4 meta
                    (add start (wrap64 (pos (i * second))))
                    i
                    (label_at labels (i % length labels))))
  unfolding generate_synthetic_samples
  generate_synthetic_samples_lem scenario labels n start meta e h = (
    sequence labels start meta 0 n,
    ground (arith, generate_from_lem scenario labels start meta 0 n e),
    length-sequence labels start meta 0 n,
    λ i k.
        get_elem-sequence labels start meta 0 n i k
        ∙ ap
            (λ j. some (
              build_scenario_sample format4 meta (add start (wrap64 (pos (j * second)))) j
                (label_at labels (j % length labels))))
            (omega arith),
  )
