-- ===== src/Enrichment.antt =====
-- pkg/otel/processor/ebpfcorrelator: a batch of spans enriched with the signals that match them.
pub mod Batch
pub mod Conservation
pub mod Ranking
pub mod Values
mod Tests
use llm_slo_e_bpf_toolkit.Prelude.{
  ℕ, ◌+◌, ◌-◌, Bool, true, false, not, String, str_eq, List, [], ◌∷◌, ◌++◌, Option, none, some,
  length, take, ltb, lookup, insert, if◌then◌else◌,
}
use llm_slo_e_bpf_toolkit.Prelude.Int.{ℤ, pos, pos_part, ◌*ℤ◌, leb_ℤ}
use llm_slo_e_bpf_toolkit.Prelude.Float64.{Float64, flt, fgt, feq}
use llm_slo_e_bpf_toolkit.Prelude.Time.{Duration, sub, wrap64, millisecond}
use llm_slo_e_bpf_toolkit.Prelude.Sort.{sort_stable}
use llm_slo_e_bpf_toolkit.Semconv.{
  attr_dns_latency_ms, attr_tcp_retransmits, attr_runqueue_delay_ms, attr_connect_latency_ms,
  attr_tls_handshake_ms, attr_cpu_steal_pct, attr_cfs_throttled_ms, attr_mem_reclaim_latency_ms,
  attr_disk_io_latency_ms, attr_syscall_latency_ms, attr_connect_errors, attr_tls_handshake_fails,
  attr_correlation_conf,
}
use llm_slo_e_bpf_toolkit.Correlation.Match.{SpanRef, SignalRef, Decision, match}
use llm_slo_e_bpf_toolkit.Correlation.EnrichDns.{Attributes, or_empty, effective_threshold}

pub record Correlator (F : Type 0) : Type 0 where
  pub window_ms : ℤ
  pub enrichment_threshold : F
  pub max_join_fanout : ℤ

pub record DebugStats : Type 0 where
  pub unmatched : ℕ
  pub low_confidence : ℕ
  pub fanout_dropped : ℕ
  pub unsupported_type : ℕ

pub record Candidate (F : Type 0) : Type 0 where
  pub signal : SignalRef F
  pub decision : Decision F

pub record EnrichmentResult (F : Type 0) : Type 0 where
  pub attributes : Attributes F
  pub candidates : List (Candidate F)
  pub debug : DebugStats

-- `none` is the result `"", false`.
unfoldable pub signal_attr_key : String → Option String
signal_attr_key s =
    if str_eq s "dns_latency_ms"
    then some attr_dns_latency_ms
    else if str_eq s "tcp_retransmits_total"
    then some attr_tcp_retransmits
    else if str_eq s "runqueue_delay_ms"
    then some attr_runqueue_delay_ms
    else if str_eq s "connect_latency_ms"
    then some attr_connect_latency_ms
    else if str_eq s "tls_handshake_ms"
    then some attr_tls_handshake_ms
    else if str_eq s "cpu_steal_pct"
    then some attr_cpu_steal_pct
    else if str_eq s "cfs_throttled_ms"
    then some attr_cfs_throttled_ms
    else if str_eq s "mem_reclaim_latency_ms"
    then some attr_mem_reclaim_latency_ms
    else if str_eq s "disk_io_latency_ms"
    then some attr_disk_io_latency_ms
    else if str_eq s "syscall_latency_ms"
    then some attr_syscall_latency_ms
    else if str_eq s "connect_errors_total"
    then some attr_connect_errors
    else if str_eq s "tls_handshake_fail_total"
    then some attr_tls_handshake_fails
    else none

abbrev pub is_supported : Option String → Bool
is_supported none = false
is_supported (some a) = true

-- The attribute of a candidate, which `signalAttrKey` gives as "" where there is none.
abbrev pub key_of : Option String → String
key_of none = ""
key_of (some a) = a

abbrev pub no_stats : DebugStats
no_stats = record { unmatched = 0; low_confidence = 0; fanout_dropped = 0; unsupported_type = 0 }

-- `time.Duration(c.WindowMS) * time.Millisecond`.
abbrev pub window_of : ℤ → Duration
window_of ms = wrap64 (ms *ℤ pos millisecond)

abbrev pub effective_fanout : ℤ → ℕ
effective_fanout fanout = if leb_ℤ fanout (pos 0) then 3 else pos_part fanout

module _ {F : Type 0} ⦃d : Float64 F⦄ where
  unfoldable pub new_correlator : Correlator F
  new_correlator = record {
    window_ms = pos 2000;
    enrichment_threshold = d.milli 700;
    max_join_fanout = pos 3;
  }

  -- One round of the first loop of `EnrichAttributes`.
  unfoldable pub collect_one :
      SpanRef
      → Duration
      → F
      → SignalRef F
      → List (Candidate F) × DebugStats
      → List (Candidate F) × DebugStats
  collect_one span window threshold signal (candidates, debug) =
      if not (is_supported (signal_attr_key signal.signal))
      then (candidates, record debug { unsupported_type = debug.unsupported_type + 1 })
      else let r = match span signal window in
        if not r.matched
        then (candidates, record debug { unmatched = debug.unmatched + 1 })
        else if flt r.confidence threshold
        then (candidates, record debug { low_confidence = debug.low_confidence + 1 })
        else (candidates ++ (record { signal = signal; decision = r } ∷ []), debug)

  unfoldable pub collect :
      SpanRef
      → Duration
      → F
      → List (SignalRef F)
      → List (Candidate F) × DebugStats
      → List (Candidate F) × DebugStats
  collect span window threshold [] s = s
  collect span window threshold (g ∷ gs) s =
      collect span window threshold gs (collect_one span window threshold g s)

  abbrev pub time_distance : SpanRef → Candidate F → F
  time_distance span c = d.fabs (d.of_int (sub span.timestamp c.signal.timestamp))

  -- The `less` of the sort: more confident first, then closer in time.
  unfoldable pub ranks_before : SpanRef → Candidate F → Candidate F → Bool
  ranks_before span a b =
      if not (feq a.decision.confidence b.decision.confidence)
      then fgt a.decision.confidence b.decision.confidence
      else flt (time_distance span a) (time_distance span b)

  -- One round of the second loop: the attribute keeps the larger value.
  unfoldable pub raise_attribute : Attributes F → Candidate F → Attributes F
  raise_attribute out c =
      let attr = key_of (signal_attr_key c.signal.signal) in
      elim (lookup attr out) [
        | none ↦ insert attr c.signal.value out
        | some existing ↦
            if fgt c.signal.value existing then insert attr c.signal.value out else out
      ]

  unfoldable pub raise_attributes : Attributes F → List (Candidate F) → Attributes F
  raise_attributes out [] = out
  raise_attributes out (c ∷ cs) = raise_attributes (raise_attribute out c) cs

  unfoldable pub max_confidence : F → List (Candidate F) → F
  max_confidence best [] = best
  max_confidence best (c ∷ cs) =
      max_confidence (if fgt c.decision.confidence best then c.decision.confidence else best) cs

  -- What `EnrichAttributes` does with the sorted and cut candidates.
  unfoldable pub apply_candidates : Attributes F → List (Candidate F) → Attributes F
  apply_candidates base candidates =
      let out = raise_attributes base candidates in
      let best = max_confidence (d.milli 0) candidates in
      if fgt best (d.milli 0) then insert attr_correlation_conf best out else out

  unfoldable pub enrich_attributes :
      Correlator F → Option (Attributes F) → SpanRef → List (SignalRef F) → EnrichmentResult F
  enrich_attributes c base span signals =
      let (found, debug) =
        collect span (window_of c.window_ms) (effective_threshold c.enrichment_threshold) signals
          ([], no_stats) in
      let ranked = sort_stable (ranks_before span) found in
      let fanout = effective_fanout c.max_join_fanout in
      let cut = ltb fanout (length ranked) in
      let kept = if cut then take fanout ranked else ranked in
      record {
        attributes = apply_candidates (or_empty base) kept;
        candidates = kept;
        debug = if cut then record debug { fanout_dropped = length ranked - fanout } else debug;
      }

  abbrev first_decision : List (Candidate F) → Decision F
  first_decision [] = record { matched = false; confidence = d.milli 0; tier = "" }
  first_decision (c ∷ cs) = c.decision

  unfoldable pub enrich_dns_attributes :
      Correlator F → Option (Attributes F) → SpanRef → SignalRef F → Attributes F × Decision F
  enrich_dns_attributes c base span signal =
      let result = enrich_attributes c base span (signal ∷ []) in
      (result.attributes, first_decision result.candidates)
