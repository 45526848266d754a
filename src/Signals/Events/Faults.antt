-- ===== src/Signals/Events/Faults.antt =====
-- Which fault labels the events of pkg/signals/generator.go report as errors.
use llm_slo_e_bpf_toolkit.Prelude.{
  ℕ, ◌<◌, ◌^◌, ◌≡◌, refl, sym, ◌∙◌, inl, inr, Bool, false, ◌&&◌, ◌||◌, leb, String, str_eq, List,
  [], ◌∷◌, ◌++◌, Option, arith, contains, insert_name, Bool-cases,
}
use llm_slo_e_bpf_toolkit.Prelude.Int.{ℤ}
use llm_slo_e_bpf_toolkit.Prelude.Float64.{Float64, IsIeee, fge}
use llm_slo_e_bpf_toolkit.Prelude.Time.{Time}
use llm_slo_e_bpf_toolkit.Collector.Samples.{RawSample}
use llm_slo_e_bpf_toolkit.Signals.Constants.{core_full, core_signal_set, supported_signals_for_mode}
use llm_slo_e_bpf_toolkit.Signals.Metadata.{Metadata}
use llm_slo_e_bpf_toolkit.Signals.Generator.{new_generator, set_signals, add_names}
use llm_slo_e_bpf_toolkit.Signals.Events.{
  ConnTuple, ProbeEvent, base_profile, threshold, signal_status, new_event, profile_for_fault,
  observations, append_enabled, apply_enricher, generate,
}

-- The labels that `profileForFault` knows.
abbrev pub is_fault : String → Bool
is_fault label =
    str_eq label "dns_latency"
    || (str_eq label "cpu_throttle"
        || (str_eq label "memory_pressure"
            || (str_eq label "provider_throttle" || str_eq label "network_partition")))

abbrev pub any_error : {F : Type 0} → List (ProbeEvent F) → Bool
any_error [] = false
any_error (e ∷ es) = let rest = any_error es in str_eq e.status "error" || rest

module _ (F : Type 0) ⦃d : Float64 F⦄ where
  -- The same of the observations, before the events are made.
  abbrev any_observed : List String → List (String × F × String × Option ConnTuple × ℤ) → Bool
  any_observed enabled [] = false
  any_observed enabled (o ∷ os) =
      let others = any_observed enabled os in
      (contains o.0 enabled && str_eq (signal_status o.0 o.1) "error") || others

  any_error-snoc :
      (es : List (ProbeEvent F)) (e : ProbeEvent F)
      → any_error (es ++ (e ∷ [])) ≡ (any_error es || str_eq e.status "error")
  any_error-snoc [] e = ground arith
  any_error-snoc (x ∷ es) e = ground (arith, any_error-snoc es e)

  any_error-append_enabled :
      (enabled : List String) (ts : Time) (meta : Metadata) (out : List (ProbeEvent F))
      (os : List (String × F × String × Option ConnTuple × ℤ))
      → any_error (append_enabled enabled ts meta out os)
        ≡ (any_error out || any_observed enabled os)
  unfolding append_enabled new_event
  any_error-append_enabled enabled ts meta out [] = ground arith
  any_error-append_enabled enabled ts meta out ((s, v, unit, tuple, errno) ∷ os) =
      let event = new_event ts s v unit meta tuple errno (d.milli 0) in
      elim (Bool-cases (contains s enabled)) [
        | inl h ↦ rw h (
            any_error-append_enabled enabled ts meta (out ++ (event ∷ [])) os
            ∙ ground (arith, any_error-snoc out event))
        | inr h ↦ rw h (any_error-append_enabled enabled ts meta out os)
      ]

  module _ (laws : IsIeee d) where
    judged :
        (m w e : ℕ)
        → m < 10 ^ 15
        → e < 10 ^ 15
        → str_eq (threshold (d.milli m) (d.milli w) (d.milli e)) "error" ≡ leb e m
    unfolding threshold
    judged m w e hm he = elim (Bool-cases (fge (d.milli m) (d.milli e))) [
      | inl h ↦ rw h (sym h ∙ laws.le_milli e m he hm)
      | inr h ↦ elim (Bool-cases (fge (d.milli m) (d.milli w))) [
        | inl k ↦ rw (h, k) (sym h ∙ laws.le_milli e m he hm)
        | inr k ↦ rw (h, k) (sym h ∙ laws.le_milli e m he hm)
      ]
    ]

    none_observed : any_observed core_signal_set (observations base_profile) ≡ false
    unfolding signal_status
    none_observed =
        rw
          (
            judged 12000 40000 120000 (omega arith) (omega arith),
            judged 200 2000 5000 (omega arith) (omega arith),
            judged 4000 10000 25000 (omega arith) (omega arith),
            judged 18000 80000 180000 (omega arith) (omega arith),
            judged 0 1000 3000 (omega arith) (omega arith),
            judged 22000 60000 160000 (omega arith) (omega arith),
            judged 600 2000 8000 (omega arith) (omega arith),
            judged 5000 40000 120000 (omega arith) (omega arith),
            judged 500 5000 20000 (omega arith) (omega arith),
            judged 2000 10000 50000 (omega arith) (omega arith),
            judged 5000 50000 200000 (omega arith) (omega arith),
          )
          refl

    -- With the twelve signals enabled, the observations of a label.
    all_observed :
        (label : String)
        → any_observed core_signal_set (observations (profile_for_fault label)) ≡ is_fault label
    unfolding profile_for_fault signal_status
    all_observed label = elim (Bool-cases (str_eq label "dns_latency")) [
      | inl h ↦ rw (h) (ground (arith, judged 220000 40000 120000 (omega arith) (omega arith)))
      | inr n0 ↦ elim (Bool-cases (str_eq label "cpu_throttle")) [
        | inl h ↦ rw (n0, h) (ground (arith, judged 28000 10000 25000 (omega arith) (omega arith)))
        | inr n1 ↦ elim (Bool-cases (str_eq label "memory_pressure")) [
          | inl h ↦
              rw (n0, n1, h) (ground (arith, judged 25000 5000 20000 (omega arith) (omega arith)))
          | inr n2 ↦ elim (Bool-cases (str_eq label "provider_throttle")) [
            | inl h ↦
                rw
                  (
                    n0,
                    n1,
                    n2,
                    h,
                    judged 12000 40000 120000 (omega arith) (omega arith),
                    judged 200 2000 5000 (omega arith) (omega arith),
                    judged 4000 10000 25000 (omega arith) (omega arith),
                    judged 45000 80000 180000 (omega arith) (omega arith),
                    judged 1000 1000 3000 (omega arith) (omega arith),
                    judged 55000 60000 160000 (omega arith) (omega arith),
                    judged 0 1000 3000 (omega arith) (omega arith),
                    judged 600 2000 8000 (omega arith) (omega arith),
                    judged 5000 40000 120000 (omega arith) (omega arith),
                    judged 500 5000 20000 (omega arith) (omega arith),
                    judged 2000 10000 50000 (omega arith) (omega arith),
                    judged 250000 50000 200000 (omega arith) (omega arith),
                  )
                  refl
            | inr n3 ↦ elim (Bool-cases (str_eq label "network_partition")) [
              | inl h ↦
                  rw (n0, n1, n2, n3, h)
                    (ground (arith, judged 350000 80000 180000 (omega arith) (omega arith)))
              | inr n4 ↦ rw (n0, n1, n2, n3, n4) none_observed
            ]
          ]
        ]
      ]
    ]

    -- For floats that compare as IEEE 754 says, a generator with every signal enabled emits an event of
    -- status "error" exactly when the label of the sample is one of the five faults.
    pub generate-faults :
        (enricher : Option (Metadata → Metadata)) (sample : RawSample F) (meta : Metadata)
        → any_error {F = F} (generate (new_generator core_full [] enricher) sample meta)
          ≡ is_fault sample.fault_label
    unfolding generate new_generator set_signals add_names insert_name supported_signals_for_mode
    generate-faults enricher sample meta =
        any_error-append_enabled (new_generator core_full [] enricher).enabled sample.timestamp
          (apply_enricher enricher meta) [] (observations (profile_for_fault sample.fault_label))
        ∙ all_observed sample.fault_label
