-- ===== src/Attribution/Mapper.antt =====
-- pkg/attribution/mapper.go: fault samples and their attribution by rule.
use llm_slo_e_bpf_toolkit.Prelude.{String, str_eq, List, [], ◌∷◌, ◌++◌, if◌then◌else◌}
use llm_slo_e_bpf_toolkit.Prelude.Int.{ℤ}
use llm_slo_e_bpf_toolkit.Prelude.Float64.{Float64}
use llm_slo_e_bpf_toolkit.Prelude.Time.{Time}
use llm_slo_e_bpf_toolkit.Schema.{text, number, Evidence, IncidentAttribution}
use llm_slo_e_bpf_toolkit.Semconv.{attr_correlation_conf, attr_dns_latency_ms}

pub record FaultSample (F : Type 0) : Type 0 where
  pub incident_id : String
  pub timestamp : Time
  pub cluster : String
  pub namespace : String
  pub service : String
  pub fault_label : String
  pub expected_domain : String
  pub expected_domains : List String
  pub signals : List (String × F)
  pub confidence : F
  pub burn_rate : F
  pub window_minutes : ℤ
  pub request_id : String
  pub trace_id : String

unfoldable pub map_fault_label : String → String
map_fault_label label =
    if str_eq label "dns_latency"
    then "network_dns"
    else if str_eq label "egress_drop"
    then "network_egress"
    else if str_eq label "cpu_throttle"
    then "cpu_throttle"
    else if str_eq label "memory_pressure"
    then "memory_pressure"
    else if str_eq label "network_partition"
    then "network_egress"
    else if str_eq label "provider_throttle"
    then "provider_throttle"
    else if str_eq label "provider_error"
    then "provider_error"
    else if str_eq label "retrieval_slowdown"
    then "retrieval_backend"
    else "unknown"

module _ {F : Type 0} ⦃d : Float64 F⦄ where
  unfoldable pub rule_evidence : FaultSample F → String → List (Evidence F)
  rule_evidence sample domain =
      let evidence : List (Evidence F) =
        record { signal = "fault_label"; value = text sample.fault_label; source = "application" }
        ∷ record { signal = "mapped_domain"; value = text domain; source = "ebpf" }
        ∷ record {
          signal = attr_correlation_conf;
          value = number sample.confidence;
          source = "otel";
        }
        ∷ [] in
      if str_eq sample.fault_label "dns_latency"
      then evidence
        ++ (record {
          signal = attr_dns_latency_ms;
          value = number (d.milli 180_000);
          source = "ebpf";
        }
            ∷ [])
      else evidence

  unfoldable pub build_attribution : FaultSample F → IncidentAttribution F
  build_attribution sample =
      let domain = map_fault_label sample.fault_label in
      record {
        incident_id = sample.incident_id;
        timestamp = sample.timestamp;
        cluster = sample.cluster;
        namespace = sample.namespace;
        service = sample.service;
        predicted_fault_domain = domain;
        confidence = sample.confidence;
        evidence = rule_evidence sample domain;
        slo_impact = record {
          sli = "ttft_ms";
          burn_rate = sample.burn_rate;
          window_minutes = sample.window_minutes;
        };
        trace_ids = sample.trace_id ∷ [];
        request_ids = sample.request_id ∷ [];
        fault_hypotheses = [];
      }
