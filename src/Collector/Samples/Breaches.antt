-- ===== src/Collector/Samples/Breaches.antt =====
-- How pkg/collector/pipeline.go judges the synthetic samples of synthetic.go.
use llm_slo_e_bpf_toolkit.Prelude.{
  ℕ, ◌<◌, ◌^◌, ◌≡◌, refl, sym, ◌∙◌, inl, inr, Bool, false, ◌||◌, leb, String, str_eq, eq_iff, List,
  [], ◌∷◌, arith, Bool-cases,
}
use llm_slo_e_bpf_toolkit.Prelude.Float64.{Float64, IsIeee, fle, fge}
use llm_slo_e_bpf_toolkit.Prelude.Time.{Time}
use llm_slo_e_bpf_toolkit.Collector.Samples.{
  SampleMeta, SloEvent, build_event, threshold_status, inverse_threshold_status, normalize_sample,
  build_scenario_sample,
}

abbrev pub any_breach : {F : Type 0} → List (SloEvent F) → Bool
any_breach [] = false
any_breach (e ∷ es) = let rest = any_breach es in str_eq e.status "breach" || rest

-- The labels whose samples miss an objective. `memory_pressure` is not among them.
abbrev pub is_breaching : String → Bool
is_breaching label =
    str_eq label "provider_throttle"
    || (str_eq label "dns_latency"
        || (str_eq label "cpu_throttle"
            || (str_eq label "network_partition" || str_eq label "mixed_multi")))

module _ (F : Type 0) ⦃d : Float64 F⦄ (laws : IsIeee d) where
  high :
      (m w b : ℕ)
      → m < 10 ^ 15
      → b < 10 ^ 15
      → str_eq (threshold_status (d.milli m) (d.milli w) (d.milli b)) "breach" ≡ leb b m
  unfolding threshold_status
  high m w b hm hb = elim (Bool-cases (fge (d.milli m) (d.milli b))) [
    | inl h ↦ rw h (sym h ∙ laws.le_milli b m hb hm)
    | inr h ↦ elim (Bool-cases (fge (d.milli m) (d.milli w))) [
      | inl k ↦ rw (h, k) (sym h ∙ laws.le_milli b m hb hm)
      | inr k ↦ rw (h, k) (sym h ∙ laws.le_milli b m hb hm)
    ]
  ]

  low :
      (m w b : ℕ)
      → m < 10 ^ 15
      → b < 10 ^ 15
      → str_eq (inverse_threshold_status (d.milli m) (d.milli w) (d.milli b)) "breach" ≡ leb m b
  unfolding inverse_threshold_status
  low m w b hm hb = elim (Bool-cases (fle (d.milli m) (d.milli b))) [
    | inl h ↦ rw h (sym h ∙ laws.le_milli m b hm hb)
    | inr h ↦ elim (Bool-cases (fle (d.milli m) (d.milli w))) [
      | inl k ↦ rw (h, k) (sym h ∙ laws.le_milli m b hm hb)
      | inr k ↦ rw (h, k) (sym h ∙ laws.le_milli m b hm hb)
    ]
  ]

  -- For floats that compare as IEEE 754 says, the events of a synthetic sample hold a breach exactly for
  -- the labels of five faults. Memory pressure breaches no objective.
  pub normalize-breaches :
      (format4 : ℕ → String) (meta : SampleMeta) (timestamp : Time) (idx : ℕ) (label : String)
      → any_breach
          (normalize_sample (build_scenario_sample {F = F} format4 meta timestamp idx label))
        ≡ is_breaching label
  unfolding normalize_sample build_scenario_sample build_event
  normalize-breaches format4 meta timestamp idx label =
      elim (Bool-cases (str_eq label "provider_throttle")) [
        | inl h ↦
            rw
              (
                (eq_iff label "provider_throttle").0 h,
                high 980000 500000 1000000 (omega arith) (omega arith),
                high 2100000 700000 1500000 (omega arith) (omega arith),
              )
              refl
        | inr n0 ↦ elim (Bool-cases (str_eq label "dns_latency")) [
          | inl h ↦
              rw
                (
                  (eq_iff label "dns_latency").0 h,
                  high 820000 500000 1000000 (omega arith) (omega arith),
                  high 1600000 700000 1500000 (omega arith) (omega arith),
                )
                refl
          | inr n1 ↦ elim (Bool-cases (str_eq label "cpu_throttle")) [
            | inl h ↦
                rw
                  (
                    (eq_iff label "cpu_throttle").0 h,
                    high 700000 500000 1000000 (omega arith) (omega arith),
                    high 1350000 700000 1500000 (omega arith) (omega arith),
                    low 11000 30000 10000 (omega arith) (omega arith),
                    high 50 20 50 (omega arith) (omega arith),
                  )
                  refl
            | inr n2 ↦ elim (Bool-cases (str_eq label "memory_pressure")) [
              | inl h ↦
                  rw
                    (
                      (eq_iff label "memory_pressure").0 h,
                      high 650000 500000 1000000 (omega arith) (omega arith),
                      high 1250000 700000 1500000 (omega arith) (omega arith),
                      low 13000 30000 10000 (omega arith) (omega arith),
                      high 40 20 50 (omega arith) (omega arith),
                    )
                    refl
              | inr n3 ↦ elim (Bool-cases (str_eq label "network_partition")) [
                | inl h ↦
                    rw
                      (
                        (eq_iff label "network_partition").0 h,
                        high 1200000 500000 1000000 (omega arith) (omega arith),
                      )
                      refl
                | inr n4 ↦ elim (Bool-cases (str_eq label "mixed_multi")) [
                  | inl h ↦
                      rw
                        (
                          (eq_iff label "mixed_multi").0 h,
                          high 1450000 500000 1000000 (omega arith) (omega arith),
                        )
                        refl
                  | inr n5 ↦
                      rw
                        (
                          n0,
                          n1,
                          n2,
                          n3,
                          n4,
                          n5,
                          high 340000 500000 1000000 (omega arith) (omega arith),
                          high 720000 700000 1500000 (omega arith) (omega arith),
                          low 36000 30000 10000 (omega arith) (omega arith),
                          high 5 20 50 (omega arith) (omega arith),
                        )
                        refl
                ]
              ]
            ]
          ]
        ]
      ]
