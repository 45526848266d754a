-- ===== src/Collector/Samples.antt =====
-- pkg/collector/pipeline.go and synthetic.go: samples of a service, and the events made of them.
-- `format4` is what `fmt.Sprintf("%04d", n)` prints.
pub mod Breaches
pub mod Generated
use Prim.Native.String.{◌++◌}
use llm_slo_e_bpf_toolkit.Prelude.{
  ℕ, zero, suc, ◌+◌, ◌*◌, ◌%◌, String, str_eq, List, [], ◌∷◌, Option, none, some, length, insert,
  if◌then◌else◌,
}
use llm_slo_e_bpf_toolkit.Prelude.Int.{ℤ, pos, pos_part, ltb_ℤ}
use llm_slo_e_bpf_toolkit.Prelude.Float64.{Float64, fle, fge}
use llm_slo_e_bpf_toolkit.Prelude.Time.{Time, add, wrap64, second}

pub record RawSample (F : Type 0) : Type 0 where
  pub timestamp : Time
  pub cluster : String
  pub namespace : String
  pub workload : String
  pub service : String
  pub node : String
  pub request_id : String
  pub trace_id : String
  pub ttft_ms : F
  pub request_latency_ms : F
  pub token_tps : F
  pub error_rate : F
  pub fault_label : String

pub record SloEvent (F : Type 0) : Type 0 where
  pub event_id : String
  pub timestamp : Time
  pub cluster : String
  pub namespace : String
  pub workload : String
  pub service : String
  pub request_id : String
  pub trace_id : String
  pub sli_name : String
  pub sli_value : F
  pub unit : String
  pub status : String
  pub labels : List (String × String)

pub record SampleMeta : Type 0 where
  pub cluster : String
  pub namespace : String
  pub workload : String
  pub service : String
  pub node : String

unfoldable pub sample_labels : {F : Type 0} → RawSample F → List (String × String)
sample_labels sample =
    let source : List (String × String) = ("source", "synthetic") ∷ [] in
    let node = if str_eq sample.node "" then source else insert "node" sample.node source in
    if str_eq sample.fault_label "" then node else insert "fault_label" sample.fault_label node

unfoldable pub build_event : {F : Type 0} → RawSample F → String → F → String → String → SloEvent F
build_event sample sli value unit status = record {
  event_id = sample.request_id ++ ("-" ++ sli);
  timestamp = sample.timestamp;
  cluster = sample.cluster;
  namespace = sample.namespace;
  workload = sample.workload;
  service = sample.service;
  request_id = sample.request_id;
  trace_id = sample.trace_id;
  sli_name = sli;
  sli_value = value;
  unit = unit;
  status = status;
  labels = sample_labels sample;
}

-- The table of `syntheticScenarioSequence`; `none` is a missing key.
unfoldable pub scenario_sequence : String → Option (List String)
scenario_sequence s =
    if str_eq s "baseline"
    then some ("baseline" ∷ [])
    else if str_eq s "provider_throttle"
    then some ("provider_throttle" ∷ [])
    else if str_eq s "dns_latency"
    then some ("dns_latency" ∷ [])
    else if str_eq s "cpu_throttle"
    then some ("cpu_throttle" ∷ [])
    else if str_eq s "memory_pressure"
    then some ("memory_pressure" ∷ [])
    else if str_eq s "network_partition"
    then some ("network_partition" ∷ [])
    else if str_eq s "mixed"
    then some (
        "provider_throttle" ∷ "dns_latency" ∷ "cpu_throttle" ∷ "memory_pressure"
        ∷ "network_partition" ∷ [])
    else if str_eq s "mixed_multi"
    then some ("mixed_multi" ∷ [])
    else none

pub data SampleError : Type 0 where
  count_below_one : SampleError
  unsupported_scenario : String → SampleError

-- A list of samples or an error.
pub data Samples (F : Type 0) : Type 0 where
  samples : List (RawSample F) → Samples F
  refused : SampleError → Samples F

-- `labels[i]`; no index beyond the end is asked for, where the code would panic.
unfoldable pub label_at : List String → ℕ → String
label_at [] i = ""
label_at (l ∷ ls) zero = l
label_at (l ∷ ls) (suc i) = label_at ls i

module _ {F : Type 0} ⦃d : Float64 F⦄ where
  unfoldable pub threshold_status : F → F → F → String
  threshold_status value warning breach =
      if fge value breach then "breach" else if fge value warning then "warning" else "ok"

  unfoldable pub inverse_threshold_status : F → F → F → String
  inverse_threshold_status value warning breach =
      if fle value breach then "breach" else if fle value warning then "warning" else "ok"

  unfoldable pub normalize_sample : RawSample F → List (SloEvent F)
  normalize_sample s =
      build_event s "ttft_ms" s.ttft_ms "ms"
        (threshold_status s.ttft_ms (d.milli 500_000) (d.milli 1_000_000))
      ∷ build_event s "request_latency_ms" s.request_latency_ms "ms"
          (threshold_status s.request_latency_ms (d.milli 700_000) (d.milli 1_500_000))
      ∷ build_event s "token_throughput_tps" s.token_tps "tps"
          (inverse_threshold_status s.token_tps (d.milli 30_000) (d.milli 10_000))
      ∷ build_event s "error_rate" s.error_rate "ratio"
          (threshold_status s.error_rate (d.milli 20) (d.milli 50))
      ∷ []

  -- The four figures of a sample: time to first token, latency, throughput and error rate.
  abbrev pub with_figures : RawSample F → ℕ → ℕ → ℕ → ℕ → RawSample F
  with_figures s ttft latency tps errors = record s {
    ttft_ms = d.milli ttft;
    request_latency_ms = d.milli latency;
    token_tps = d.milli tps;
    error_rate = d.milli errors;
  }

  module _ (format4 : ℕ → String) where
    unfoldable pub build_scenario_sample : SampleMeta → Time → ℕ → String → RawSample F
    build_scenario_sample meta timestamp idx fault_label =
        let sample : RawSample F = record {
          timestamp = timestamp;
          cluster = meta.cluster;
          namespace = meta.namespace;
          workload = meta.workload;
          service = meta.service;
          node = meta.node;
          request_id = "collector-req-" ++ format4 (idx + 1);
          trace_id = "collector-trace-" ++ format4 (idx + 1);
          ttft_ms = d.milli 340_000;
          request_latency_ms = d.milli 720_000;
          token_tps = d.milli 36_000;
          error_rate = d.milli 5;
          fault_label = fault_label;
        } in
        if str_eq fault_label "provider_throttle"
        then with_figures sample 980_000 2_100_000 7_000 140
        else if str_eq fault_label "dns_latency"
        then with_figures sample 820_000 1_600_000 18_000 30
        else if str_eq fault_label "cpu_throttle"
        then with_figures sample 700_000 1_350_000 11_000 50
        else if str_eq fault_label "memory_pressure"
        then with_figures sample 650_000 1_250_000 13_000 40
        else if str_eq fault_label "network_partition"
        then with_figures sample 1_200_000 3_500_000 3_000 250
        else if str_eq fault_label "mixed_multi"
        then with_figures sample 1_450_000 4_200_000 2_000 310
        else sample

    labelled : SampleMeta → Time → ℕ → Option (List String) → Option (RawSample F)
    labelled meta timestamp idx none = none
    labelled meta timestamp idx (some labels) =
        some (build_scenario_sample meta timestamp idx (label_at labels (idx % length labels)))

    -- `none` is the error of an unsupported scenario.
    unfoldable pub build_synthetic_sample : String → ℕ → Time → SampleMeta → Option (RawSample F)
    unfolding labelled
    build_synthetic_sample scenario idx timestamp meta =
        labelled meta timestamp idx (scenario_sequence scenario)

    prepend : String → Option (RawSample F) → Samples F → Samples F
    prepend scenario none rest = refused (unsupported_scenario scenario)
    prepend scenario (some s) (samples out) = samples (s ∷ out)
    prepend scenario (some s) (refused e) = refused e

    -- The loop, from an index on, for a number of rounds.
    unfoldable pub generate_from : String → Time → SampleMeta → ℕ → ℕ → Samples F
    unfolding prepend
    generate_from scenario start meta idx zero = samples []
    generate_from scenario start meta idx (suc n) =
        prepend scenario
          (build_synthetic_sample scenario idx (add start (wrap64 (pos (idx * second)))) meta)
          (generate_from scenario start meta (idx + 1) n)

    unfoldable pub generate_synthetic_samples : String → ℤ → Time → SampleMeta → Samples F
    generate_synthetic_samples scenario count start meta =
        if ltb_ℤ count (pos 1)
        then refused count_below_one
        else generate_from scenario start meta 0 (pos_part count)
