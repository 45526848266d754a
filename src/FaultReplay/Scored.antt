-- ===== src/FaultReplay/Scored.antt =====
-- Replayed samples of pkg/faultreplay/generator.go under the attribution of pkg/attribution.
use llm_slo_e_bpf_toolkit.Prelude.{
  ltb, ℕ, suc, ◌+◌, ◌<◌, ◌≡◌, refl, ap, ◌∙◌, false, String, str_eq, eq_iff, List, [], ◌∷◌, map,
  some, lookup, length, All, ◌&◌, Bool-cases, inl, inr, arith,
}
use mathlib.Core.Path.{subst, ap₂}
use llm_slo_e_bpf_toolkit.Prelude.Int.{pos}
use llm_slo_e_bpf_toolkit.Prelude.Float64.{Float64}
use llm_slo_e_bpf_toolkit.Prelude.FloatMath.{FloatMath}
use llm_slo_e_bpf_toolkit.Prelude.Time.{Time}
use llm_slo_e_bpf_toolkit.Schema.{IncidentAttribution}
use llm_slo_e_bpf_toolkit.Attribution.Mapper.{FaultSample, map_fault_label, build_attribution}
use llm_slo_e_bpf_toolkit.Attribution.Pipeline.{actual_domain, build_attributions}
use llm_slo_e_bpf_toolkit.Attribution.Pipeline.Unsignalled.{build_attributions_no_signals}
use llm_slo_e_bpf_toolkit.FaultReplay.{
  scenario_fault_labels, replay, single_sample, mixed_sample, samples_from,
  generate_mixed_multi_samples, generate_fault_samples,
}
use llm_slo_e_bpf_toolkit.FaultReplay.Cycles.{
  rotate, IsCycle, pair_domains, single_sample-IsCycle, mixed_sample-IsCycle, samples_from-rotate,
}

-- The domains of the faults that each scenario injects, one after the other and round again.
abbrev pub scenario_domains : List (String × List String)
scenario_domains =
    ("provider_throttle", "provider_throttle" ∷ [])
    ∷ ("dns_latency", "network_dns" ∷ [])
    ∷ ("cpu_throttle", "cpu_throttle" ∷ [])
    ∷ ("memory_pressure", "memory_pressure" ∷ [])
    ∷ ("network_partition", "network_egress" ∷ [])
    ∷ (
      "mixed",
      "provider_throttle" ∷ "network_dns" ∷ "cpu_throttle" ∷ "memory_pressure" ∷ "network_egress"
          ∷ [],
    )
    ∷ (
      "mixed_multi",
      "provider_throttle" ∷ "cpu_throttle" ∷ "network_egress" ∷ "provider_throttle" ∷ [],
    )
    ∷ []

lookup-All :
    {V : Type 0} (P : String × V → Type 0) (key : String) (value : V) (entries : List (String × V))
    → All P entries
    → lookup key entries ≡ some value
    → P (key, value)
unfolding lookup
lookup-All P key value [] a h = absurd cc
lookup-All P key value (e ∷ rest) (p, ps) h = elim (Bool-cases (str_eq e.0 key)) [
  | inl here ↦
      let found : some e.1 ≡ some value = rw here at h in
      let same : e.1 ≡ value = cc in subst P (ap₂ (λ k v. (k, v)) ((eq_iff e.0 key).0 here) same) p
  | inr other ↦ lookup-All P key value rest ps (rw other at h)
]

above_zero : (n : ℕ) → ltb (suc n + 0) 1 ≡ false
above_zero n = ground arith

module _ {F : Type 0} ⦃d : Float64 F⦄ (m : FloatMath F) (walk walk' : List F → List F)
    (format4 : ℕ → String) (clean : String → String) (mode : String) (count : ℕ)
    (start : Time) where
  -- The replay of a scenario and its attribution follow the domains of its faults.
  abbrev pub Follows : String × List String → Type 0
  Follows entry =
      (ss : List (FaultSample F)) × (generate_fault_samples format4 entry.0 (pos (suc count)) start
        ≡ replay ss)
      × (length ss ≡ suc count)
      × (map actual_domain ss ≡ rotate entry.1 0 (suc count))
      × (map (λ (p : IncidentAttribution F). p.predicted_fault_domain)
            (build_attributions m walk walk' clean ss mode)
          ≡ rotate entry.1 0 (suc count))

  map-map :
      (ss : List (FaultSample F))
      → map (λ (p : IncidentAttribution F). p.predicted_fault_domain) (map build_attribution ss)
        ≡ map (λ (s : FaultSample F). (build_attribution s).predicted_fault_domain) ss
  map-map [] = refl
  map-map (s ∷ ss) = ap (λ rest. (build_attribution s).predicted_fault_domain ∷ rest) (map-map ss)

  cycle-Follows :
      (scenario : String) (cycle : List String) (make : ℕ → FaultSample F)
      → generate_fault_samples format4 scenario (pos (suc count)) start
        ≡ replay (samples_from make 0 (suc count))
      → IsCycle cycle make
      → Follows (scenario, cycle)
  cycle-Follows scenario cycle make generated made =
      let (unset, size, actuals, predictions) =
        samples_from-rotate F format4 start cycle make made 0 (suc count) in
      let ss = samples_from make 0 (suc count) in
      (
        ss,
        generated,
        size,
        actuals,
        ap (map (λ (p : IncidentAttribution F). p.predicted_fault_domain))
              (build_attributions_no_signals m walk walk' clean mode ss unset)
            ∙ map-map ss
            ∙ predictions,
      )

  single-Follows :
      (scenario : String) (labels : List String)
      → str_eq scenario "mixed_multi" ≡ false
      → scenario_fault_labels scenario ≡ some labels
      → 0 < length labels
      → Follows (scenario, map map_fault_label labels)
  unfolding generate_fault_samples
  single-Follows scenario labels single found h =
      cycle-Follows scenario (map map_fault_label labels) (single_sample format4 labels start)
        (rw (above_zero count, single, found) refl) (single_sample-IsCycle F format4 start labels h)

  every-Follows : All Follows scenario_domains
  unfolding scenario_fault_labels map_fault_label generate_fault_samples
      generate_mixed_multi_samples
  every-Follows =
      single-Follows "provider_throttle" ("provider_throttle" ∷ []) refl refl (omega arith)
      & single-Follows "dns_latency" ("dns_latency" ∷ []) refl refl (omega arith)
      & single-Follows "cpu_throttle" ("cpu_throttle" ∷ []) refl refl (omega arith)
      & single-Follows "memory_pressure" ("memory_pressure" ∷ []) refl refl (omega arith)
      & single-Follows "network_partition" ("network_partition" ∷ []) refl refl (omega arith)
      & single-Follows "mixed"
          ("provider_throttle" ∷ "dns_latency" ∷ "cpu_throttle" ∷ "memory_pressure"
            ∷ "network_partition" ∷ [])
          refl refl (omega arith)
      & cycle-Follows "mixed_multi" pair_domains (mixed_sample format4 start)
          (rw (above_zero count) refl) (mixed_sample-IsCycle F format4 start)
      & tt

  -- For a scenario with known faults and a count above zero exactly that many samples are replayed, and
  -- their expected domains are those of the faults, in turn and round again; in either mode of
  -- attribution the predictions for them are the same domains. Of a pair of faults the first counts.
  pub replay-Follows :
      (scenario : String) (domains : List String)
      → lookup scenario scenario_domains ≡ some domains
      → (ss : List (FaultSample F)) × (generate_fault_samples format4 scenario
            (pos (suc count))
            start
          ≡ replay ss)
        × (length ss ≡ suc count)
        × (map actual_domain ss ≡ rotate domains 0 (suc count))
        × (map
              (λ (p : IncidentAttribution F). p.predicted_fault_domain)
              (build_attributions m walk walk' clean ss mode)
            ≡ rotate domains 0 (suc count))
  replay-Follows scenario domains known =
      lookup-All Follows scenario domains scenario_domains every-Follows known
