-- ===== src/FaultReplay.antt =====
-- pkg/faultreplay/generator.go: labelled fault samples for replay. `format4` is what
-- `fmt.Sprintf("%04d", n)` prints.
mod Tests
pub mod Cycles
pub mod Scored
use Prim.Native.String.{◌++◌}
use llm_slo_e_bpf_toolkit.Prelude.{
  ℕ, zero, suc, ◌+◌, ◌*◌, ◌%◌, true, false, ◌||◌, String, str_eq, List, [], ◌∷◌, Option, none, some,
  contains, length, if◌then◌else◌,
}
use llm_slo_e_bpf_toolkit.Prelude.Int.{ℤ, pos, pos_part, ltb_ℤ}
use llm_slo_e_bpf_toolkit.Prelude.Float64.{Float64}
use llm_slo_e_bpf_toolkit.Prelude.Time.{Time, add, wrap64, second}
use llm_slo_e_bpf_toolkit.Attribution.Mapper.{FaultSample, map_fault_label}
use llm_slo_e_bpf_toolkit.Collector.Samples.{label_at}

-- The table `scenarioFaultLabels`; `none` is a missing key.
unfoldable pub scenario_fault_labels : String → Option (List String)
scenario_fault_labels s =
    if str_eq s "provider_throttle"
    then some ("provider_throttle" ∷ [])
    else if str_eq s "dns_latency"
    then some ("dns_latency" ∷ [])
    else if str_eq s "cpu_throttle"
    then some ("cpu_throttle" ∷ [])
    else if str_eq s "memory_pressure"
    then some ("memory_pressure" ∷ [])
    else if str_eq s "network_partition"
    then some ("network_partition" ∷ [])
    else if str_eq s "mixed"
    then some (
        "provider_throttle" ∷ "dns_latency" ∷ "cpu_throttle" ∷ "memory_pressure"
        ∷ "network_partition" ∷ [])
    else none

-- `SupportedScenarios`.
abbrev pub supported_scenarios : List String
supported_scenarios =
    "provider_throttle" ∷ "dns_latency" ∷ "cpu_throttle" ∷ "memory_pressure" ∷ "network_partition"
    ∷ "mixed" ∷ "mixed_multi" ∷ []

abbrev pub mixed_pairs : List (String × String)
mixed_pairs =
    ("provider_throttle", "dns_latency")
    ∷ ("cpu_throttle", "memory_pressure")
    ∷ ("network_partition", "dns_latency")
    ∷ ("provider_throttle", "network_partition")
    ∷ []

-- `pairs[i]`; no index beyond the end is asked for, where the code would panic.
unfoldable pub pair_at : List (String × String) → ℕ → String × String
pair_at [] i = ("", "")
pair_at (p ∷ ps) zero = p
pair_at (p ∷ ps) (suc i) = pair_at ps i

-- The loop of `uniqueDomains`, from the domains seen so far.
unfoldable pub unique_from : List String → List String → List String
unique_from seen [] = []
unique_from seen (domain ∷ domains) =
    elim (str_eq domain "" || (str_eq domain "unknown" || contains domain seen)) [
      | true ↦ unique_from seen domains
      | false ↦ domain ∷ unique_from (domain ∷ seen) domains
    ]

abbrev pub or_unknown : List String → List String
or_unknown [] = "unknown" ∷ []
or_unknown (domain ∷ out) = domain ∷ out

unfoldable pub unique_domains : List String → List String
unfolding unique_from
unique_domains domains = or_unknown (unique_from [] domains)

abbrev pub first_or_unknown : List String → String
first_or_unknown [] = "unknown"
first_or_unknown (domain ∷ rest) = domain

pub data ReplayError : Type 0 where
  count_below_one : ReplayError
  unsupported_scenario : String → ReplayError

-- A list of samples or an error.
pub data Replay (F : Type 0) : Type 0 where
  replay : List (FaultSample F) → Replay F
  refused : ReplayError → Replay F

module _ {F : Type 0} where
  -- A loop that makes the sample of each index, for a number of rounds.
  unfoldable pub samples_from : (ℕ → FaultSample F) → ℕ → ℕ → List (FaultSample F)
  samples_from make idx zero = []
  samples_from make idx (suc n) = make idx ∷ samples_from make (idx + 1) n

module _ {F : Type 0} ⦃d : Float64 F⦄ (format4 : ℕ → String) where
  -- What the samples of both loops share.
  abbrev pub sample_at : Time → ℕ → String → String → List String → F → FaultSample F
  sample_at start idx label expected_domain expected_domains burn_rate = record {
    incident_id = "replay-inc-" ++ format4 (idx + 1);
    timestamp = add start (wrap64 (pos (idx * second)));
    cluster = "local";
    namespace = "default";
    service = "chat";
    fault_label = label;
    expected_domain = expected_domain;
    expected_domains = expected_domains;
    signals = [];
    confidence = d.milli 900;
    burn_rate = burn_rate;
    window_minutes = pos 5;
    request_id = "replay-req-" ++ format4 (idx + 1);
    trace_id = "replay-trace-" ++ format4 (idx + 1);
  }

  unfoldable pub single_sample : List String → Time → ℕ → FaultSample F
  single_sample labels start idx =
      let label = label_at labels (idx % length labels) in
      sample_at start idx label (map_fault_label label) [] (d.milli 2000)

  unfoldable pub mixed_sample : Time → ℕ → FaultSample F
  mixed_sample start idx =
      let pair = pair_at mixed_pairs (idx % length mixed_pairs) in
      let expected = unique_domains (map_fault_label pair.0 ∷ map_fault_label pair.1 ∷ []) in
      sample_at start idx pair.0 (first_or_unknown expected) expected (d.milli 2400)

  -- `generateMixedMultiSamples`.
  unfoldable pub generate_mixed_multi_samples : ℤ → Time → List (FaultSample F)
  generate_mixed_multi_samples count start = samples_from (mixed_sample start) 0 (pos_part count)

  abbrev pub replay_labels : String → ℤ → Time → Option (List String) → Replay F
  replay_labels scenario count start none = refused (unsupported_scenario scenario)
  replay_labels scenario count start (some labels) =
      replay (samples_from (single_sample labels start) 0 (pos_part count))

  unfoldable pub generate_fault_samples : String → ℤ → Time → Replay F
  generate_fault_samples scenario count start =
      if ltb_ℤ count (pos 1)
      then refused count_below_one
      else if str_eq scenario "mixed_multi"
      then replay (generate_mixed_multi_samples count start)
      else replay_labels scenario count start (scenario_fault_labels scenario)
