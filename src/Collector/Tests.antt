-- ===== src/Collector/Tests.antt =====
-- A manager that loses the handles of a probe, samples of a mixed scenario, and each theorem at
-- these runs.
use llm_slo_e_bpf_toolkit.Prelude.Int.{pos}
use llm_slo_e_bpf_toolkit.Prelude.Time.{add, wrap64, second}
use llm_slo_e_bpf_toolkit.Collector.Samples.{
  RawSample, SampleMeta, samples, scenario_sequence, label_at, normalize_sample,
  build_scenario_sample, generate_synthetic_samples,
}
use llm_slo_e_bpf_toolkit.Collector.Samples.Generated.{generate_synthetic_samples_lem}
use llm_slo_e_bpf_toolkit.Collector.Samples.Breaches.{any_breach, is_breaching, normalize-breaches}
use llm_slo_e_bpf_toolkit.Prelude.{
  String, some, ◌*◌, ◌%◌, ◌<◌, length, get_elem?, arith, ℕ, ◌+◌, ◌≡◌, refl, true, List, [], ◌∷◌,
  none, insert, lookup, count_if,
}
use llm_slo_e_bpf_toolkit.Prelude.Float64.{Fixed, fixed, fixed-IsIeee}
use llm_slo_e_bpf_toolkit.Collector.ProbeManager.{
  link, ProbeSpec, ProbeManager, new_probe_manager, register, disable_probe, delete, resources,
  all_resources, drop_probe, close_probe,
}
use llm_slo_e_bpf_toolkit.Collector.ProbeManager.Resources.{
  Call, registers, disables, run, step, all_handed_over, all_replaced, new_probe_manager-accounts,
}

abbrev spec : ℕ → ProbeSpec
spec n = record { signal = "dns_latency_ms"; coll = none; links = n ∷ []; ring_buf = none }

abbrev calls : List Call
calls = registers (spec 1) ∷ registers (spec 2) ∷ disables "dns_latency_ms" ∷ []

abbrev start : ProbeManager Fixed
start = new_probe_manager "core_full" ("dns_latency_ms" ∷ []) [] none

-- The link of the first registration is never closed.
only_second_closed : (run start calls).closed ≡ link 2 ∷ []
unfolding run step register disable_probe new_probe_manager insert lookup delete resources
    all_resources drop_probe close_probe
only_second_closed = refl

new_probe_manager-accounts_example :
    count_if (λ r. true) (run start calls).closed
      + count_if (λ r. true) (all_resources (run start calls).probes)
      + count_if (λ r. true) (all_replaced start calls)
    ≡ count_if (λ r. true) (all_handed_over start calls)
new_probe_manager-accounts_example =
    new_probe_manager-accounts "core_full" ("dns_latency_ms" ∷ []) [] none calls (λ r. true)

abbrev meta : SampleMeta
meta = record {
  cluster = "local";
  namespace = "default";
  workload = "demo";
  service = "chat";
  node = "";
}

abbrev mixed : List String
mixed =
    "provider_throttle" ∷ "dns_latency" ∷ "cpu_throttle" ∷ "memory_pressure" ∷ "network_partition"
    ∷ []

generate_synthetic_samples_lem_example :
    (out : List (RawSample Fixed)) × (generate_synthetic_samples
        (λ n. "0001")
        "mixed"
        (pos 7)
        (pos 0)
        meta
      ≡ samples out)
    × (length out ≡ 7)
    × ((i : ℕ)
        → i < 7
        → get_elem? out i
          ≡ some (
              build_scenario_sample
                (λ n. "0001")
                meta
                (add (pos 0) (wrap64 (pos (i * second))))
                i
                (label_at mixed (i % length mixed))))
unfolding scenario_sequence
generate_synthetic_samples_lem_example =
    generate_synthetic_samples_lem Fixed (λ n. "0001") "mixed" mixed 7 (pos 0) meta refl
      (omega arith)

normalize-breaches_example :
    any_breach (
      normalize_sample
        (build_scenario_sample {F = Fixed} (λ n. "0001") meta (pos 0) 3 "memory_pressure"))
    ≡ is_breaching "memory_pressure"
normalize-breaches_example =
    normalize-breaches Fixed fixed-IsIeee (λ n. "0001") meta (pos 0) 3 "memory_pressure"
