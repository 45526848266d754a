-- ===== src/Enrichment/Batch.antt =====
-- pkg/otel/processor/ebpfcorrelator/processor.go, with `DecomposeRetrieval` of correlator.go, which
-- writes into the map that it is given.
use llm_slo_e_bpf_toolkit.Prelude.{
  ℕ, ◌+◌, ◌*◌, ◌≡◌, ◌∙◌, String, List, [], ◌∷◌, ◌++◌, map, Option, none, some, length, lookup,
  insert, if◌then◌else◌, arith,
}
use mathlib.Core.List.{append-nil, append_assoc}
use llm_slo_e_bpf_toolkit.Prelude.Int.{ℤ}
use llm_slo_e_bpf_toolkit.Prelude.Float64.{Float64, fgt}
use llm_slo_e_bpf_toolkit.Prelude.Time.{Time}
use llm_slo_e_bpf_toolkit.Semconv.{
  attr_dns_latency_ms, attr_connect_latency_ms, attr_tls_handshake_ms, attr_retrieval_kernel_ms,
}
use llm_slo_e_bpf_toolkit.Correlation.Match.{SpanRef, SignalRef}
use llm_slo_e_bpf_toolkit.Correlation.EnrichDns.{Attributes}
use llm_slo_e_bpf_toolkit.Enrichment.{Correlator, DebugStats, no_stats, enrich_attributes}
use llm_slo_e_bpf_toolkit.Enrichment.Conservation.{
  accounted, unsupported, enrich_attributes-accounts,
}

pub record SpanRecord (F : Type 0) : Type 0 where
  pub trace_id : String
  pub span_id : String
  pub service : String
  pub node : String
  pub pod : String
  pub pid : ℤ
  pub conn_tuple : String
  pub timestamp : Time
  pub attributes : Option (Attributes F)

pub record ProcessedBatch (F : Type 0) : Type 0 where
  pub spans : List (SpanRecord F)
  pub debug : DebugStats

unfoldable pub merge_debug : DebugStats → DebugStats → DebugStats
merge_debug l r = record {
  unmatched = l.unmatched + r.unmatched;
  low_confidence = l.low_confidence + r.low_confidence;
  fanout_dropped = l.fanout_dropped + r.fanout_dropped;
  unsupported_type = l.unsupported_type + r.unsupported_type;
}

abbrev pub span_ref : {F : Type 0} → SpanRecord F → SpanRef
span_ref item = record {
  trace_id = item.trace_id;
  service = item.service;
  node = item.node;
  pod = item.pod;
  pid = item.pid;
  conn_tuple = item.conn_tuple;
  timestamp = item.timestamp;
}

module _ {F : Type 0} ⦃d : Float64 F⦄ where
  add_present : F → Option F → F
  add_present total none = total
  add_present total (some v) = d.fadd total v

  -- The changed map and the total.
  unfoldable pub decompose_retrieval : Attributes F → Attributes F × F
  unfolding add_present
  decompose_retrieval attrs =
      let dns = add_present (d.milli 0) (lookup attr_dns_latency_ms attrs) in
      let connect = add_present dns (lookup attr_connect_latency_ms attrs) in
      let total = add_present connect (lookup attr_tls_handshake_ms attrs) in
      (if fgt total (d.milli 0) then insert attr_retrieval_kernel_ms total attrs else attrs, total)

  unfoldable pub enrich_span : Correlator F → List (SignalRef F) → SpanRecord F → SpanRecord F
  enrich_span c signals item =
      let enriched = enrich_attributes c item.attributes (span_ref item) signals in
      record item { attributes = some (decompose_retrieval enriched.attributes).0 }

  unfoldable pub process_from :
      Correlator F → List (SignalRef F) → ProcessedBatch F → List (SpanRecord F) → ProcessedBatch F
  process_from c signals result [] = result
  process_from c signals result (item ∷ items) =
      let enriched = enrich_attributes c item.attributes (span_ref item) signals in
      process_from c signals
        (record {
          spans = result.spans ++ (enrich_span c signals item ∷ []);
          debug = merge_debug result.debug enriched.debug;
        })
        items

  unfoldable pub process_batch :
      Correlator F → List (SpanRecord F) → List (SignalRef F) → ProcessedBatch F
  process_batch c spans signals =
      process_from c signals (record { spans = []; debug = no_stats }) spans

  -- How many candidates were joined to the spans of a batch.
  abbrev pub joined : Correlator F → List (SignalRef F) → List (SpanRecord F) → ℕ
  joined c signals [] = 0
  joined c signals (item ∷ items) =
      length (enrich_attributes c item.attributes (span_ref item) signals).candidates
      + joined c signals items

  process_from-spans :
      (c : Correlator F) (gs : List (SignalRef F)) (r : ProcessedBatch F)
      (items : List (SpanRecord F))
      → (process_from c gs r items).spans ≡ r.spans ++ map (enrich_span c gs) items
  unfolding process_from
  process_from-spans c gs r [] = rw append-nil
  process_from-spans c gs r (item ∷ items) =
      let enriched = enrich_attributes c item.attributes (span_ref item) gs in
      process_from-spans c gs
        (record {
          spans = r.spans ++ (enrich_span c gs item ∷ []);
          debug = merge_debug r.debug enriched.debug;
        })
        items
      ∙ append_assoc r.spans (enrich_span c gs item ∷ []) (map (enrich_span c gs) items)

  process_from-accounts :
      (c : Correlator F) (gs : List (SignalRef F)) (r : ProcessedBatch F)
      (items : List (SpanRecord F))
      → let r' = process_from c gs r items in
        (joined c gs items + accounted r'.debug ≡ length items * length gs + accounted r.debug)
        × (r'.debug.unsupported_type ≡ r.debug.unsupported_type + length items * unsupported gs)
  unfolding process_from merge_debug
  process_from-accounts c gs r [] = omega arith
  process_from-accounts c gs r (item ∷ items) =
      let enriched = enrich_attributes c item.attributes (span_ref item) gs in
      let next : ProcessedBatch F = record {
        spans = r.spans ++ (enrich_span c gs item ∷ []);
        debug = merge_debug r.debug enriched.debug;
      } in
      omega (
        arith,
        process_from-accounts c gs next items,
        enrich_attributes-accounts c item.attributes (span_ref item) gs,
      )

  -- A batch keeps its spans in number and order, each enriched by itself. Over the batch every pair
  -- of a span and a signal is counted once, as joined or in one of the four counters, and the
  -- unsupported signals are counted once for each span.
  pub process_batch-accounts :
      (c : Correlator F) (items : List (SpanRecord F)) (gs : List (SignalRef F))
      → let r = process_batch c items gs in
        (r.spans ≡ map (enrich_span c gs) items)
        × (joined c gs items + accounted r.debug ≡ length items * length gs)
        × (r.debug.unsupported_type ≡ length items * unsupported gs)
  unfolding process_batch
  process_batch-accounts c items gs =
      let start : ProcessedBatch F = record { spans = []; debug = no_stats } in
      let (a, b) = process_from-accounts c gs start items in
      (process_from-spans c gs start items, omega arith, omega arith)
