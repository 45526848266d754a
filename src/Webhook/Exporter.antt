-- ===== src/Webhook/Exporter.antt =====
-- pkg/webhook/exporter.go: the retries of a delivery. What the network answers to each attempt is an
-- argument, as are the JSON encoding and the hex digest of HMAC-SHA256. What the exporter does is
-- a log of its posts and sleeps.
pub mod Pauses
pub mod Delivery
use Prim.Native.String.{◌++◌}
use llm_slo_e_bpf_toolkit.Prelude.{
  ℕ, zero, suc, ◌+◌, ◌-◌, ◌*◌, ◌^◌, Bool, String, str_eq, List, [], ◌∷◌, Option, none, some, ltb,
  leb, ◌==◌, if◌then◌else◌,
}
use llm_slo_e_bpf_toolkit.Prelude.Int.{ℤ, pos, pos_part, ltb_ℤ}
use llm_slo_e_bpf_toolkit.Prelude.Float64.{Float64}
use llm_slo_e_bpf_toolkit.Prelude.Time.{Duration, wrap64, second}
use llm_slo_e_bpf_toolkit.Schema.{IncidentAttribution}
use llm_slo_e_bpf_toolkit.Webhook.Payloads.{
  Formats, PagerDutyPayload, OpsgeniePayload, build_pager_duty_payload, build_opsgenie_payload,
}

pub record Exporter : Type 0 where
  pub url : String
  pub secret : String
  pub format : String
  pub timeout_ms : ℤ
  pub max_retry : ℤ

unfoldable pub new_exporter : String → String → String → ℤ → Exporter
new_exporter url secret format timeout_ms = record {
  url = url;
  secret = secret;
  format = if str_eq format "" then "generic" else format;
  timeout_ms = if ltb_ℤ (pos 0) timeout_ms then timeout_ms else pos 5000;
  max_retry = pos 3;
}

-- What `json.Marshal` is given.
pub data Message (F : Type 0) : Type 0 where
  generic : IncidentAttribution F → Message F
  pager_duty : PagerDutyPayload → Message F
  opsgenie : OpsgeniePayload → Message F

-- The bytes or the error of `json.Marshal`.
pub data Encoded : Type 0 where
  encoded : String → Encoded
  unencodable : String → Encoded

pub record Request : Type 0 where
  pub url : String
  pub body : String
  pub content_type : String
  pub user_agent : String
  pub signature : Option String

-- How an attempt ends in the HTTP library: no request could be made, no response came, its body
-- could not be read, or a response with a status.
pub data Response : Type 0 where
  bad_request : String → Response
  no_response : String → Response
  broken_body : String → Response
  status : ℕ → Response

pub data PostError : Type 0 where
  create_request : String → PostError
  http_post : String → PostError
  drain_body : String → PostError
  server_error : ℕ → PostError
  client_error : ℕ → PostError

pub data SendResult : Type 0 where
  delivered : SendResult
  not_built : String → SendResult
  refused : PostError → SendResult
  exhausted : ℤ → Option PostError → SendResult

pub data Action : Type 0 where
  sleep : Duration → Action
  post : Request → Action

module _ (digest : String → String → String) where
  unfoldable pub compute_hmac : String → String → String
  compute_hmac payload secret = "sha256=" ++ digest secret payload

  unfoldable pub verify_hmac : String → String → String → Bool
  verify_hmac payload secret signature = str_eq (compute_hmac payload secret) signature

  unfoldable pub request_of : Exporter → String → Request
  request_of e payload = record {
    url = e.url;
    body = payload;
    content_type = "application/json";
    user_agent = "llm-slo-ebpf-toolkit/webhook";
    signature = if str_eq e.secret "" then none else some (compute_hmac payload e.secret);
  }

-- The error of `doPost`, if it fails.
unfoldable pub post_error : Response → Option PostError
post_error (bad_request e) = some (create_request e)
post_error (no_response e) = some (http_post e)
post_error (broken_body e) = some (drain_body e)
post_error (status code) =
    if leb 500 code
    then some (server_error code)
    else if leb 400 code
    then some (client_error code)
    else none

-- `time.Duration(1<<uint(attempt-1)) * time.Second`, which wraps at 64 bits.
unfoldable pub backoff : ℕ → Duration
backoff attempt = wrap64 (pos (2 ^ (attempt - 1) * second))

-- The sleep before an attempt that is not the first.
abbrev pub pause : ℕ → List Action → List Action
pause zero log = log
pause (suc n) log = sleep (backoff (suc n)) ∷ log

-- What the loop does with the error of an attempt; `later` are the attempts after it.
abbrev pub conclude : Option PostError → SendResult × List Action → SendResult × List Action
conclude none later = (delivered, [])
conclude (some (client_error code)) later = (refused (client_error code), [])
conclude (some (create_request e)) later = later
conclude (some (http_post e)) later = later
conclude (some (drain_body e)) later = later
conclude (some (server_error code)) later = later

module _ {F : Type 0} ⦃d : Float64 F⦄ (fmt : Formats F) (encode : Message F → Encoded) where
  unfoldable pub build_payload : Exporter → IncidentAttribution F → Encoded
  build_payload e attr = encode (
      if str_eq e.format "pagerduty"
      then pager_duty (build_pager_duty_payload fmt attr)
      else if str_eq e.format "opsgenie"
      then opsgenie (build_opsgenie_payload fmt attr)
      else generic attr)

module _ (answer : ℕ → Request → Response) where
  -- The loop from an attempt on, for the rounds that are left, with the last error.
  unfoldable pub try_from : ℤ → Request → ℕ → ℕ → Option PostError → SendResult × List Action
  try_from max_retry request attempt zero last = (exhausted max_retry last, [])
  try_from max_retry request attempt (suc n) last =
      let error = post_error (answer attempt request) in
      let (result, log) = conclude error (try_from max_retry request (attempt + 1) n error) in
      (result, pause attempt (post request ∷ log))

  module _ {F : Type 0} ⦃d : Float64 F⦄ (fmt : Formats F) (encode : Message F → Encoded)
      (digest : String → String → String) where
    deliver : Exporter → Encoded → SendResult × List Action
    deliver e (unencodable message) = (not_built message, [])
    deliver e (encoded payload) =
        try_from e.max_retry (request_of digest e payload) 0 (pos_part e.max_retry) none

    unfoldable pub send : Exporter → IncidentAttribution F → SendResult × List Action
    unfolding deliver
    send e attr = deliver e (build_payload fmt encode e attr)
