-- ===== src/FaultReplay/Tests.antt =====
-- A replay of ten incidents with two faults each.
use llm_slo_e_bpf_toolkit.Prelude.{◌≡◌, refl, ℕ, String, List, [], ◌∷◌, map, lookup, length}
use llm_slo_e_bpf_toolkit.Prelude.Int.{pos}
use llm_slo_e_bpf_toolkit.Prelude.Float64.{Fixed, fixed}
use llm_slo_e_bpf_toolkit.Prelude.FloatMath.{fixed_math}
use llm_slo_e_bpf_toolkit.Schema.{IncidentAttribution}
use llm_slo_e_bpf_toolkit.Attribution.Mapper.{FaultSample}
use llm_slo_e_bpf_toolkit.Attribution.Pipeline.{build_attributions, actual_domain}
use llm_slo_e_bpf_toolkit.FaultReplay.{generate_fault_samples, replay}
use llm_slo_e_bpf_toolkit.FaultReplay.Cycles.{rotate}
use llm_slo_e_bpf_toolkit.FaultReplay.Scored.{replay-Follows}

abbrev as_given : List Fixed → List Fixed
as_given logs = logs

abbrev unchanged : String → String
unchanged s = s

abbrev number : ℕ → String
number n = "0001"

abbrev pair_faults : List String
pair_faults = "provider_throttle" ∷ "cpu_throttle" ∷ "network_egress" ∷ "provider_throttle" ∷ []

replay-Follows_example :
    (ss : List (FaultSample Fixed)) × (generate_fault_samples number "mixed_multi" (pos 10) (pos 0)
      ≡ replay ss)
    × (length ss ≡ 10)
    × (map actual_domain ss ≡ rotate pair_faults 0 10)
    × (map
          (λ (p : IncidentAttribution Fixed). p.predicted_fault_domain)
          (build_attributions fixed_math as_given as_given unchanged ss "bayes")
        ≡ rotate pair_faults 0 10)
unfolding lookup
replay-Follows_example =
    replay-Follows fixed_math as_given as_given number unchanged "bayes" 9 (pos 0) "mixed_multi"
      pair_faults refl
