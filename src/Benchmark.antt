-- ===== src/Benchmark.antt =====
-- The samples of pkg/benchmark/harness.go. `format2` is what `fmt.Sprintf("%02d", n)` prints, and
-- `now` what the clock says when the sample of an index is made.
pub mod Scored
use Prim.Native.String.{◌++◌}
use llm_slo_e_bpf_toolkit.Prelude.{
  ℕ, zero, suc, ◌+◌, ◌*◌, String, str_eq, List, [], ◌∷◌, if◌then◌else◌,
}
use llm_slo_e_bpf_toolkit.Prelude.Int.{pos}
use llm_slo_e_bpf_toolkit.Prelude.Float64.{Float64}
use llm_slo_e_bpf_toolkit.Prelude.Time.{Time, add, wrap64, second}
use llm_slo_e_bpf_toolkit.Attribution.Mapper.{FaultSample, map_fault_label}

-- What `LoadSamplesFromJSONL` answers, and what the harness does with a scenario.
pub data Loaded (F : Type 0) : Type 0 where
  loaded : List (FaultSample F) → Loaded F
  not_loaded : String → Loaded F
  unsupported : String → Loaded F

abbrev pub mixed_labels : List String
mixed_labels =
    "provider_throttle" ∷ "dns_latency" ∷ "provider_throttle" ∷ "dns_latency" ∷ "provider_throttle"
    ∷ "dns_latency" ∷ "provider_throttle" ∷ "dns_latency" ∷ "provider_throttle" ∷ "dns_latency"
    ∷ "provider_throttle" ∷ "dns_latency" ∷ []

abbrev pub combos : List (String × List String)
combos =
    ("mixed", "network_dns" ∷ "cpu_throttle" ∷ [])
    ∷ ("mixed", "provider_throttle" ∷ "memory_pressure" ∷ [])
    ∷ ("mixed", "network_egress" ∷ "provider_throttle" ∷ [])
    ∷ ("mixed", "cpu_throttle" ∷ "memory_pressure" ∷ [])
    ∷ ("mixed", "network_dns" ∷ "memory_pressure" ∷ [])
    ∷ ("mixed", "network_dns" ∷ "provider_throttle" ∷ "cpu_throttle" ∷ [])
    ∷ ("dns_latency", "network_dns" ∷ [])
    ∷ ("cpu_throttle", "cpu_throttle" ∷ [])
    ∷ ("provider_throttle", "provider_throttle" ∷ [])
    ∷ ("memory_pressure", "memory_pressure" ∷ [])
    ∷ ("network_partition", "network_egress" ∷ [])
    ∷ ("mixed", "network_dns" ∷ "network_egress" ∷ [])
    ∷ []

abbrev pub only_domain : List String → String
only_domain [] = ""
only_domain (domain ∷ []) = domain
only_domain (domain ∷ other ∷ rest) = ""

abbrev pub sample_time : (ℕ → Time) → ℕ → Time
sample_time now idx = add (now idx) (wrap64 (pos (idx * second)))

module _ {F : Type 0} ⦃d : Float64 F⦄ (format2 : ℕ → String) (now : ℕ → Time) where
  unfoldable pub build_sample : String → String → ℕ → FaultSample F
  build_sample fault_label expected_domain idx = record {
    incident_id = "inc-" ++ format2 (idx + 1);
    timestamp = sample_time now idx;
    cluster = "local";
    namespace = "default";
    service = "chat";
    fault_label = fault_label;
    expected_domain = expected_domain;
    expected_domains = [];
    signals = [];
    confidence = d.milli 900;
    burn_rate = d.milli 2000;
    window_minutes = pos 5;
    request_id = "req-" ++ format2 (idx + 1);
    trace_id = "trace-" ++ format2 (idx + 1);
  }

  unfoldable pub build_combo : String × List String → ℕ → FaultSample F
  build_combo c idx = record {
    incident_id = "mm-" ++ format2 (idx + 1);
    timestamp = sample_time now idx;
    cluster = "local";
    namespace = "default";
    service = "chat";
    fault_label = c.0;
    expected_domain = only_domain c.1;
    expected_domains = c.1;
    signals = [];
    confidence = d.milli 850;
    burn_rate = d.milli 2000;
    window_minutes = pos 5;
    request_id = "req-mm-" ++ format2 (idx + 1);
    trace_id = "trace-mm-" ++ format2 (idx + 1);
  }

  -- The loops over the labels, over the combinations, and up to a count.
  unfoldable pub label_samples : ℕ → List String → List (FaultSample F)
  label_samples idx [] = []
  label_samples idx (label ∷ labels) =
      build_sample label (map_fault_label label) idx ∷ label_samples (idx + 1) labels

  unfoldable pub combo_samples : ℕ → List (String × List String) → List (FaultSample F)
  combo_samples idx [] = []
  combo_samples idx (c ∷ cs) = build_combo c idx ∷ combo_samples (idx + 1) cs

  unfoldable pub same_samples : String → String → ℕ → ℕ → List (FaultSample F)
  same_samples label domain idx zero = []
  same_samples label domain idx (suc n) =
      build_sample label domain idx ∷ same_samples label domain (idx + 1) n

  unfoldable pub build_mixed_fault_samples : List (FaultSample F)
  build_mixed_fault_samples = label_samples 0 mixed_labels

  unfoldable pub build_mixed_multi_samples : List (FaultSample F)
  build_mixed_multi_samples = combo_samples 0 combos

  -- `read_samples` is `LoadSamplesFromJSONL`.
  unfoldable pub load_samples : (String → Loaded F) → String → String → Loaded F
  load_samples read_samples scenario input_path =
      let expected_domain = map_fault_label scenario in
      if str_eq input_path ""
      then (if str_eq scenario "mixed_faults"
          then loaded build_mixed_fault_samples
          else if str_eq scenario "mixed_multi"
          then loaded build_mixed_multi_samples
          else if str_eq expected_domain "unknown"
          then unsupported scenario
          else loaded (same_samples scenario expected_domain 0 12))
      else read_samples input_path
