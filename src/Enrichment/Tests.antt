-- ===== src/Enrichment/Tests.antt =====
-- A batch of the processor of pkg/otel/processor/ebpfcorrelator, and each theorem at a concrete input.
use Prim.Native.Nat.{min}
use llm_slo_e_bpf_toolkit.Prelude.{
  ◌≡◌, ◌+◌, ◌*◌, Bool, List, [], ◌∷◌, ◌++◌, some, none, map, length, lookup, All, count_if, str_eq,
  if◌then◌else◌,
}
use llm_slo_e_bpf_toolkit.Prelude.Int.{pos}
use llm_slo_e_bpf_toolkit.Prelude.Float64.{Fixed, fixed, fixed-IsIeee}
use llm_slo_e_bpf_toolkit.Prelude.Sort.{Sorted}
use llm_slo_e_bpf_toolkit.Semconv.{attr_dns_latency_ms, attr_correlation_conf}
use llm_slo_e_bpf_toolkit.Correlation.Match.{SignalRef}
use llm_slo_e_bpf_toolkit.Correlation.EnrichDns.{or_empty, effective_threshold}
use llm_slo_e_bpf_toolkit.Enrichment.{
  Correlator, Candidate, EnrichmentResult, window_of, effective_fanout, enrich_attributes,
}
use llm_slo_e_bpf_toolkit.Enrichment.Conservation.{
  accounted, unsupported, IsEligible, enrich_attributes-accounts, enrich_attributes-IsEligible,
}
use llm_slo_e_bpf_toolkit.Enrichment.Ranking.{AtLeast, candidates_of, enrich_attributes-ranks}
use llm_slo_e_bpf_toolkit.Enrichment.Values.{raise_by, first_confidence, lookup-enrich_attributes}
use llm_slo_e_bpf_toolkit.Enrichment.Batch.{
  SpanRecord, span_ref, enrich_span, process_batch, joined, process_batch-accounts,
}

abbrev item : SpanRecord Fixed
item = record {
  trace_id = "t1";
  span_id = "s1";
  service = "chat";
  node = "n1";
  pod = "p1";
  pid = pos 7;
  conn_tuple = "";
  timestamp = pos 1_000_000_000;
  attributes = none;
}

abbrev dns : SignalRef Fixed
dns = record {
  signal = "dns_latency_ms";
  trace_id = "";
  service = "chat";
  node = "n1";
  pod = "p1";
  pid = pos 7;
  conn_tuple = "";
  timestamp = pos 1_050_000_000;
  value = some (pos 42_000_000_000_000);
}

-- The same trace, a signal of the same process that no attribute stands for, and a distant one.
abbrev signals : List (SignalRef Fixed)
signals =
    dns
    ∷ record dns { trace_id = "t1"; value = some (pos 40_000_000_000_000) }
    ∷ record dns { signal = "gc_pause_ms" }
    ∷ record dns { timestamp = pos 9_000_000_000 }
    ∷ []

abbrev one : Correlator Fixed
one = record {
  window_ms = pos 2000;
  enrichment_threshold = some (pos 700_000_000_000);
  max_join_fanout = pos 1;
}

abbrev enriched : EnrichmentResult Fixed
enriched = enrich_attributes one none (span_ref item) signals

enrich_attributes-accounts_example :
    (length enriched.candidates + accounted enriched.debug ≡ length signals)
    × (length enriched.candidates
        ≡ min
            (effective_fanout one.max_join_fanout)
            (length enriched.candidates + enriched.debug.fanout_dropped))
    × (enriched.debug.unsupported_type ≡ unsupported signals)
enrich_attributes-accounts_example = enrich_attributes-accounts one none (span_ref item) signals

enrich_attributes-IsEligible_example :
    All
      (IsEligible
        (span_ref item)
        (window_of one.window_ms)
        (effective_threshold one.enrichment_threshold))
      enriched.candidates
enrich_attributes-IsEligible_example = enrich_attributes-IsEligible one none (span_ref item) signals

enrich_attributes-ranks_example :
    let all =
      candidates_of
        (span_ref item)
        (window_of one.window_ms)
        (effective_threshold one.enrichment_threshold)
        signals in
    (dropped : List (Candidate Fixed)) × (length dropped ≡ enriched.debug.fanout_dropped)
    × Sorted AtLeast (enriched.candidates ++ dropped)
    × ((p : Candidate Fixed → Bool) → count_if p (enriched.candidates ++ dropped) ≡ count_if p all)
enrich_attributes-ranks_example =
    enrich_attributes-ranks fixed-IsIeee one none (span_ref item) signals

lookup-enrich_attributes_example : lookup attr_dns_latency_ms enriched.attributes ≡ (
    if str_eq attr_correlation_conf attr_dns_latency_ms
    then first_confidence
        (lookup attr_dns_latency_ms (or_empty {F = Fixed} none))
        enriched.candidates
    else raise_by attr_dns_latency_ms
        (lookup attr_dns_latency_ms (or_empty none))
        enriched.candidates)
lookup-enrich_attributes_example =
    lookup-enrich_attributes fixed-IsIeee one none (span_ref item) signals attr_dns_latency_ms

process_batch-accounts_example :
    let r = process_batch one (item ∷ item ∷ []) signals in
    (r.spans ≡ map (enrich_span one signals) (item ∷ item ∷ []))
    × (joined one signals (item ∷ item ∷ []) + accounted r.debug ≡ 2 * 4)
    × (r.debug.unsupported_type ≡ 2 * unsupported signals)
process_batch-accounts_example = process_batch-accounts one (item ∷ item ∷ []) signals
