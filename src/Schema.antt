-- ===== src/Schema.antt =====
-- pkg/schema/types.go: the attribution envelope. The other types of that file stand where the
-- modelled code builds them (Signals/Events, Collector/Samples).
use llm_slo_e_bpf_toolkit.Prelude.{String, List}
use llm_slo_e_bpf_toolkit.Prelude.Int.{ℤ}
use llm_slo_e_bpf_toolkit.Prelude.Time.{Time}

-- The `interface{}` of an evidence: the code stores a string or a `float64` in it.
pub data EvidenceValue (F : Type 0) : Type 0 where
  text : String → EvidenceValue F
  number : F → EvidenceValue F

pub record Evidence (F : Type 0) : Type 0 where
  pub signal : String
  pub value : EvidenceValue F
  pub source : String

pub record SloImpact (F : Type 0) : Type 0 where
  pub sli : String
  pub burn_rate : F
  pub window_minutes : ℤ

pub record FaultHypothesis (F : Type 0) : Type 0 where
  pub domain : String
  pub posterior : F
  pub evidence : List String

pub record IncidentAttribution (F : Type 0) : Type 0 where
  pub incident_id : String
  pub timestamp : Time
  pub cluster : String
  pub namespace : String
  pub service : String
  pub predicted_fault_domain : String
  pub confidence : F
  pub evidence : List (Evidence F)
  pub slo_impact : SloImpact F
  pub trace_ids : List String
  pub request_ids : List String
  pub fault_hypotheses : List (FaultHypothesis F)
