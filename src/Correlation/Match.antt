-- ===== src/Correlation/Match.antt =====
-- pkg/correlation/dns.go: spans, signals and `Match`. Confidences are `float64` constants.
pub mod Best
use llm_slo_e_bpf_toolkit.Prelude.{
  ℕ, ◌*◌, Bool, true, false, not, ◌&&◌, String, str_eq, if◌then◌else◌,
}
use llm_slo_e_bpf_toolkit.Prelude.Int.{ℤ, pos, leb_ℤ, ltb_ℤ, eqb_ℤ}
use llm_slo_e_bpf_toolkit.Prelude.Float64.{Float64}
use llm_slo_e_bpf_toolkit.Prelude.Time.{Time, Duration, is_zero, sub, millisecond}

abbrev pub default_window : Duration
default_window = pos 2_000_000_000

pub record SpanRef : Type 0 where
  pub trace_id : String
  pub service : String
  pub node : String
  pub pod : String
  pub pid : ℤ
  pub conn_tuple : String
  pub timestamp : Time

pub record SignalRef (F : Type 0) : Type 0 where
  pub signal : String
  pub trace_id : String
  pub service : String
  pub node : String
  pub pod : String
  pub pid : ℤ
  pub conn_tuple : String
  pub timestamp : Time
  pub value : F

pub record Decision (F : Type 0) : Type 0 where
  pub matched : Bool
  pub confidence : F
  pub tier : String

-- `a != "" && a == b`.
abbrev pub same : String → String → Bool
same a b = not (str_eq a "") && str_eq a b

abbrev pub effective_window : Duration → Duration
effective_window window = if leb_ℤ window (pos 0) then default_window else window

-- `math.Abs(float64(a.Sub(b))) <= float64(window)`, for the type `F` of floats.
unfoldable pub within_window : (F : Type 0) ⦃d : Float64 F⦄ → Time → Time → Duration → Bool
within_window F ⦃d⦄ a b window =
    if is_zero a
    then false
    else if is_zero b
    then false
    else d.le (d.fabs (d.of_int (sub a b))) (d.of_int window)

module _ {F : Type 0} ⦃d : Float64 F⦄ where
  abbrev pub unmatched : Decision F
  unmatched = record { matched = false; confidence = d.milli 0; tier = "" }

  abbrev pub decide_tier : ℕ → String → Decision F
  decide_tier confidence tier = record {
    matched = true;
    confidence = d.milli confidence;
    tier = tier;
  }

  unfoldable pub match : SpanRef → SignalRef F → Duration → Decision F
  match span signal window =
      let near = λ (w : Duration). within_window F span.timestamp signal.timestamp w in
      if not (near (effective_window window))
      then unmatched
      else if same span.trace_id signal.trace_id
      then decide_tier 1000 "trace_id_exact"
      else if same span.pod signal.pod
          && (ltb_ℤ (pos 0) span.pid && eqb_ℤ span.pid signal.pid)
          && near (pos (100 * millisecond))
      then decide_tier 900 "pod_pid_100ms"
      else if same span.pod signal.pod
          && same span.conn_tuple signal.conn_tuple
          && near (pos (250 * millisecond))
      then decide_tier 800 "pod_conn_250ms"
      else if same span.service signal.service
          && same span.node signal.node
          && near (pos (500 * millisecond))
      then decide_tier 650 "service_node_500ms"
      else unmatched
