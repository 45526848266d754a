-- ===== src/CdGate.antt =====
-- pkg/cdgate/gate.go and what `runCDGateCheck` of cmd/sloctl/cdgate.go makes of its result. What
-- Prometheus answers is an argument, and so is the clock. An error's text is a constructor with the
-- metric and the message that the code formats into it.
pub mod Verdict
mod Tests
use llm_slo_e_bpf_toolkit.Prelude.{
  ℕ, Bool, true, false, ◌&&◌, String, str_eq, List, [], ◌∷◌, ◌++◌, if◌then◌else◌,
}
use llm_slo_e_bpf_toolkit.Prelude.Float64.{Float64, fgt}
use llm_slo_e_bpf_toolkit.Prelude.Time.{Time}

abbrev pub metric_ttft_p95 : String
metric_ttft_p95 = "ttft_p95_ms"

abbrev pub metric_error_rate : String
metric_error_rate = "error_rate"

abbrev pub metric_burn_rate : String
metric_burn_rate = "burn_rate"

pub record Thresholds (F : Type 0) : Type 0 where
  pub ttft_p95_ms : F
  pub error_rate : F
  pub burn_rate : F

pub record Violation (F : Type 0) : Type 0 where
  pub metric : String
  pub threshold : F
  pub actual : F

pub data GateError : Type 0 where
  no_error : GateError
  query_failed : String → String → GateError
  passed_open : String → String → GateError

pub record Result (F : Type 0) : Type 0 where
  pub pass : Bool
  pub violations : List (Violation F)
  pub timestamp : Time
  pub error : GateError

-- The value and the error of `PrometheusQuerier.Query`.
pub data Answer (F : Type 0) : Type 0 where
  failed : String → Answer F
  answered : F → Answer F

-- `DefaultQueries()[metric]`.
unfoldable pub default_query : String → String
default_query metric =
    if str_eq metric metric_ttft_p95
    then "histogram_quantile(0.95, sum(rate(llm_slo_ttft_ms_bucket[5m])) by (le))"
    else if str_eq metric metric_error_rate
    then "sum(rate(llm_slo_errors_total[5m])) / sum(rate(llm_slo_requests_total[5m]))"
    else if str_eq metric metric_burn_rate
    then "llm_slo_burn_rate"
    else ""

-- The metrics beside their thresholds, in the order of the queries.
abbrev pub checks : {F : Type 0} → Thresholds F → List (String × F)
checks t =
    (metric_ttft_p95, t.ttft_p95_ms)
    ∷ (metric_error_rate, t.error_rate)
    ∷ (metric_burn_rate, t.burn_rate)
    ∷ []

-- What the loop makes of a value.
unfoldable pub note : {F : Type 0} ⦃d : Float64 F⦄ → Result F → String → F → F → Result F
note result metric threshold actual =
    if fgt actual threshold
    then record result {
      pass = false;
      violations =
          result.violations
          ++ (record { metric = metric; threshold = threshold; actual = actual } ∷ []);
    }
    else result

module _ {F : Type 0} ⦃d : Float64 F⦄ (query : String → Answer F) where
  -- What one check does with its answer; `rest` are the checks after it.
  after_answer : Result F → String → F → (Result F → Result F) → Answer F → Result F
  after_answer result metric threshold rest (failed e) = record result {
    pass = false;
    error = query_failed metric e;
  }
  after_answer result metric threshold rest (answered actual) =
      rest (note result metric threshold actual)

  unfoldable pub run_checks : List (String × F) → Result F → Result F
  unfolding after_answer
  run_checks [] result = result
  run_checks (c ∷ cs) result =
      after_answer result c.0 c.1 (run_checks cs) (query (default_query c.0))

  unfoldable pub evaluate_slo_gate : Time → Thresholds F → Result F
  evaluate_slo_gate now thresholds =
      run_checks (checks thresholds)
        (record { pass = true; violations = []; timestamp = now; error = no_error })

abbrev pub open_error : GateError → GateError
open_error no_error = no_error
open_error (query_failed metric e) = passed_open metric e
open_error (passed_open metric e) = passed_open metric e

abbrev pub is_error : GateError → Bool
is_error no_error = false
is_error (query_failed metric e) = true
is_error (passed_open metric e) = true

-- `result.Error != "" && *failOpen` lets the gate pass.
unfoldable pub apply_fail_open : {F : Type 0} → Bool → Result F → Result F
apply_fail_open fail_open result =
    if is_error result.error && fail_open
    then record result { pass = true; error = open_error result.error }
    else result

-- The status that the command exits with after it has printed the result.
unfoldable pub exit_code : {F : Type 0} → Result F → ℕ
exit_code result = if result.pass then 0 else 1
