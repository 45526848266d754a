-- ===== src/Webhook/Tests.antt =====
-- A receiver that is down for one attempt, one that stays down, and each theorem at them.
use llm_slo_e_bpf_toolkit.Prelude.{
  ◌≡◌, refl, ℕ, ◌-◌, ◌*◌, ◌^◌, String, [], none, some, All, ◌==◌, if◌then◌else◌, arith,
}
use llm_slo_e_bpf_toolkit.Prelude.Int.{pos}
use llm_slo_e_bpf_toolkit.Prelude.Float64.{Fixed, fixed}
use llm_slo_e_bpf_toolkit.Prelude.Time.{second}
use llm_slo_e_bpf_toolkit.Schema.{IncidentAttribution}
use llm_slo_e_bpf_toolkit.Webhook.Payloads.{Formats}
use llm_slo_e_bpf_toolkit.Webhook.Exporter.{
  Exporter, Message, Encoded, encoded, Request, Response, status, delivered, exhausted,
  server_error, post_error, build_payload, send,
}
use llm_slo_e_bpf_toolkit.Webhook.Exporter.Pauses.{posts, slept}
use llm_slo_e_bpf_toolkit.Webhook.Exporter.Delivery.{IsSigned, send-ends, send-exhausts}

abbrev formats : Formats Fixed
formats = record {
  fixed2 = λ x. "0.95";
  fixed4 = λ x. "0.9500";
  value = λ v. "v";
  timestamp = λ t. "0001-01-01T00:00:00Z";
}

abbrev json : Message Fixed → Encoded
json message = encoded "{}"

abbrev digest : String → String → String
digest secret payload = "00ff"

abbrev exporter : Exporter
exporter = record {
  url = "http://hooks.local";
  secret = "k";
  format = "generic";
  timeout_ms = pos 5000;
  max_retry = pos 3;
}

abbrev incident : IncidentAttribution Fixed
incident = record {
  incident_id = "i-1";
  timestamp = pos 0;
  cluster = "local";
  namespace = "default";
  service = "chat";
  predicted_fault_domain = "network_dns";
  confidence = fixed.milli 950;
  evidence = [];
  slo_impact = record { sli = "ttft_ms"; burn_rate = fixed.milli 2000; window_minutes = pos 5 };
  trace_ids = [];
  request_ids = [];
  fault_hypotheses = [];
}

-- The first answer is 503, the next ones 200.
abbrev recovers : ℕ → Request → Response
recovers attempt request = if attempt == 0 then status 503 else status 200

abbrev down : ℕ → Request → Response
down attempt request = status 503

built : build_payload formats json exporter incident ≡ encoded "{}"
unfolding build_payload
built = refl

send-ends_example :
    let (result, log) = send recovers formats json digest exporter incident in
    (result ≡ delivered)
    × (posts log ≡ 2)
    × (slept log ≡ (2 ^ 1 - 1) * second)
    × All (IsSigned digest "k" "{}") log
unfolding post_error
send-ends_example =
    send-ends recovers formats json digest exporter incident "{}" built 1 none (omega arith)
      (omega arith) refl (refl, refl)

send-exhausts_example :
    let (result, log) = send down formats json digest exporter incident in
    (result ≡ exhausted (pos 3) (some (server_error 503))) × (posts log ≡ 3)
unfolding post_error
send-exhausts_example =
    send-exhausts down formats json digest exporter incident "{}" built (some (server_error 503))
      (refl, (refl, (refl, refl)))
