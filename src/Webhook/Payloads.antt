-- ===== src/Webhook/Payloads.antt =====
-- pkg/webhook/pagerduty.go and opsgenie.go: what is sent for an incident. The texts that `fmt` and
-- `time` print are an argument, `Formats`; the JSON encoding is one of the exporter.
use Prim.Native.String.{◌++◌}
use llm_slo_e_bpf_toolkit.Prelude.{String, List, [], ◌∷◌, map, if◌then◌else◌}
use llm_slo_e_bpf_toolkit.Prelude.Float64.{Float64, fge}
use llm_slo_e_bpf_toolkit.Prelude.Time.{Time}
use llm_slo_e_bpf_toolkit.Schema.{IncidentAttribution, Evidence, EvidenceValue}

-- `%.2f`, `%.4f`, `%v` of an evidence, and the layout of PagerDuty's timestamps.
pub record Formats (F : Type 0) : Type 0 where
  pub fixed2 : F → String
  pub fixed4 : F → String
  pub value : EvidenceValue F → String
  pub timestamp : Time → String

pub record PdEventPayload : Type 0 where
  pub summary : String
  pub source : String
  pub severity : String
  pub timestamp : String
  pub component : String
  pub group : String
  pub custom_details : List (String × String)

pub record PagerDutyPayload : Type 0 where
  pub routing_key : String
  pub event_action : String
  pub payload : PdEventPayload

pub record OpsgeniePayload : Type 0 where
  pub message : String
  pub alias : String
  pub description : String
  pub priority : String
  pub source : String
  pub tags : List String
  pub details : List (String × String)
  pub entity : String

-- `strings.Join(parts, "; ")`
abbrev pub join_parts : List String → String
join_parts [] = ""
join_parts (p ∷ []) = p
join_parts (p ∷ q ∷ rest) = p ++ ("; " ++ join_parts (q ∷ rest))

module _ {F : Type 0} ⦃d : Float64 F⦄ (fmt : Formats F) where
  unfoldable pub evidence_text : IncidentAttribution F → String
  evidence_text attr =
      join_parts (map (λ (e : Evidence F). e.signal ++ ("=" ++ fmt.value e.value)) attr.evidence)

  unfoldable pub pager_duty_severity : IncidentAttribution F → String
  pager_duty_severity attr = if fge attr.confidence (d.milli 800) then "critical" else "warning"

  unfoldable pub build_pager_duty_payload : IncidentAttribution F → PagerDutyPayload
  build_pager_duty_payload attr = record {
    routing_key = "";
    event_action = "trigger";
    payload = record {
      summary =
          "["
          ++ (attr.service
              ++ ("] "
                  ++ (attr.predicted_fault_domain
                      ++ (" fault detected (confidence=" ++ (fmt.fixed2 attr.confidence ++ ")")))));
      source = attr.cluster ++ ("/" ++ attr.service);
      severity = pager_duty_severity attr;
      timestamp = fmt.timestamp attr.timestamp;
      component = attr.service;
      group = attr.cluster;
      custom_details =
          ("incident_id", attr.incident_id)
          ∷ ("fault_domain", attr.predicted_fault_domain)
          ∷ ("confidence", fmt.fixed4 attr.confidence)
          ∷ ("evidence", evidence_text attr)
          ∷ ("burn_rate", fmt.fixed2 attr.slo_impact.burn_rate)
          ∷ [];
    };
  }

  unfoldable pub opsgenie_priority : IncidentAttribution F → String
  opsgenie_priority attr =
      if fge attr.slo_impact.burn_rate (d.milli 3000)
      then "P1"
      else if fge attr.confidence (d.milli 800)
      then "P2"
      else "P3"

  unfoldable pub build_opsgenie_payload : IncidentAttribution F → OpsgeniePayload
  build_opsgenie_payload attr = record {
    message = "[" ++ (attr.service ++ ("] " ++ (attr.predicted_fault_domain ++ " fault detected")));
    alias = attr.incident_id;
    description =
        "Fault domain: "
        ++ (attr.predicted_fault_domain
            ++ ("\nConfidence: "
                ++ (fmt.fixed4 attr.confidence
                    ++ ("\nBurn rate: "
                        ++ (fmt.fixed2 attr.slo_impact.burn_rate
                            ++ ("\nEvidence: " ++ evidence_text attr))))));
    priority = opsgenie_priority attr;
    source = "llm-slo-ebpf-toolkit";
    tags = "llm-slo" ∷ attr.predicted_fault_domain ∷ attr.cluster ∷ [];
    details =
        ("incident_id", attr.incident_id)
        ∷ ("cluster", attr.cluster)
        ∷ ("service", attr.service)
        ∷ ("fault_domain", attr.predicted_fault_domain)
        ∷ ("confidence", fmt.fixed4 attr.confidence)
        ∷ ("burn_rate", fmt.fixed2 attr.slo_impact.burn_rate)
        ∷ [];
    entity = attr.cluster ++ ("/" ++ attr.service);
  }
