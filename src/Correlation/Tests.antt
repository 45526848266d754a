-- ===== src/Correlation/Tests.antt =====
-- Runs of pkg/correlation, and each theorem at a concrete input.
use llm_slo_e_bpf_toolkit.Prelude.{
  ◌≡◌, ◌+◌, refl, true, List, [], ◌∷◌, ◌++◌, some, none, map, arith, lookup, insert, if◌then◌else◌,
  str_eq,
}
use llm_slo_e_bpf_toolkit.Prelude.Int.{pos, ◌-ℤ◌, ◌+ℤ◌, ◌*ℤ◌, leb_ℤ}
use llm_slo_e_bpf_toolkit.Prelude.Float64.{Fixed, fixed, fixed-IsIeee}
use llm_slo_e_bpf_toolkit.Prelude.Time.{sub, add, neg}
use llm_slo_e_bpf_toolkit.Semconv.{attr_dns_latency_ms, attr_correlation_conf}
use llm_slo_e_bpf_toolkit.Correlation.Match.{
  SpanRef, SignalRef, match, within_window, effective_window,
}
use llm_slo_e_bpf_toolkit.Correlation.Match.Best.{
  IsBest, match-IsBest, match_widen, decision_of, pod_pid,
}
use llm_slo_e_bpf_toolkit.Correlation.EnrichDns.{
  enrich_dns, lookup-enrich_dns, enriches, effective_threshold,
}
use llm_slo_e_bpf_toolkit.Correlation.RetryStorm.{
  Call, records, asks_count, new_retry_storm_detector, run, count, is_storm, record_event,
  prune_old, bucket,
}
use llm_slo_e_bpf_toolkit.Correlation.RetryStorm.Window.{in_window, observe_all}
use llm_slo_e_bpf_toolkit.Correlation.RetryStorm.History.{count-eq-in_window, verdicts-eq-in_window}
use llm_slo_e_bpf_toolkit.Correlation.Evaluator.{LabeledPair, evaluate_labeled_pairs, predict}
use llm_slo_e_bpf_toolkit.Correlation.Evaluator.Confusion.{
  hits, false_alarms, misses, rejections, correct_ones, evaluate_labeled_pairs-counts,
}

abbrev span : SpanRef
span = record {
  trace_id = "t1";
  service = "chat";
  node = "n1";
  pod = "p1";
  pid = pos 7;
  conn_tuple = "";
  timestamp = pos 1_000_000_000;
}

-- The same process in the same pod, 50 ms later, with no trace.
abbrev signal : SignalRef Fixed
signal = record {
  signal = "dns_latency_ms";
  trace_id = "";
  service = "chat";
  node = "n1";
  pod = "p1";
  pid = pos 7;
  conn_tuple = "";
  timestamp = pos 1_050_000_000;
  value = some (pos 42_000_000_000_000);
}

matches_by_pid : match span signal (pos 0) ≡ decision_of pod_pid
unfolding match within_window sub ◌-ℤ◌ ◌*ℤ◌
matches_by_pid = refl

match-IsBest_example : IsBest span signal 2_000_000_000 (match span signal (pos 0))
match-IsBest_example =
    match-IsBest fixed-IsIeee span signal (pos 0) 2_000_000_000 refl (omega arith)

match_widen_example : match span signal (pos 90_000_000) ≡ match span signal (pos 60_000_000)
unfolding match within_window sub ◌-ℤ◌ ◌*ℤ◌
match_widen_example =
    match_widen fixed-IsIeee span signal 60_000_000 90_000_000 (omega arith) (omega arith)
      (omega arith) refl

lookup-enrich_dns_example :
    let r = match span signal (pos 0) in
    lookup "llm.ebpf.dns.latency_ms" (enrich_dns none span signal (pos 0) (some (pos 0))).0 ≡ (
      if enriches signal (some (pos 0)) r
      then if str_eq attr_correlation_conf "llm.ebpf.dns.latency_ms"
        then some r.confidence
        else if str_eq attr_dns_latency_ms "llm.ebpf.dns.latency_ms"
        then some signal.value
        else none
      else none)
unfolding lookup
lookup-enrich_dns_example =
    lookup-enrich_dns none span signal (pos 0) (some (pos 0)) "llm.ebpf.dns.latency_ms"

abbrev calls : List Call
calls =
    records "a" (pos 1)
    ∷ records "b" (pos 2)
    ∷ records "a" (pos 12)
    ∷ asks_count "b" (pos 13)
    ∷ records "a" (pos 14)
    ∷ []

two_left : (count (run (new_retry_storm_detector (pos 10) (pos 2)) calls) "a" (pos 20)).1 ≡ 2
unfolding count run new_retry_storm_detector lookup insert prune_old bucket add neg ◌+ℤ◌ ◌-ℤ◌
two_left = refl

count-eq-in_window_example :
    (count (run (new_retry_storm_detector (pos 10) (pos 2)) calls) "a" (pos 20)).1
    ≡ in_window 10 "a" (pos 20) (observe_all [] calls)
count-eq-in_window_example =
    count-eq-in_window 10 (pos 2) (omega arith) calls "a" (pos 0) (pos 20) (omega arith)

verdicts-eq-in_window_example :
    let s = run (new_retry_storm_detector (pos 10) (pos 2)) calls in
    let log = observe_all [] calls in
    ((is_storm s "a" (pos 20)).1 ≡ leb_ℤ (pos 2) (pos (in_window 10 "a" (pos 20) log)))
    × ((record_event s "a" (pos 20)).1
        ≡ leb_ℤ (pos 2) (pos (in_window 10 "a" (pos 20) (log ++ (("a", pos 20) ∷ [])))))
verdicts-eq-in_window_example =
    verdicts-eq-in_window 10 (pos 2) (omega arith) calls "a" (pos 0) (pos 20) (omega arith)
      (omega arith)

abbrev pair : LabeledPair Fixed
pair = record {
  case_id = "c1";
  span = span;
  signal = signal;
  expected_match = true;
  expected_tier = "";
}

evaluate_labeled_pairs-counts_example :
    let (report, preds) = evaluate_labeled_pairs (pair ∷ []) (pos 0) (some (pos 0)) in
    (preds
      ≡ map (predict (effective_window (pos 0)) (effective_threshold (some (pos 0)))) (pair ∷ []))
    × (report.true_positive ≡ hits preds)
    × (report.false_positive ≡ false_alarms preds)
    × (report.false_negative ≡ misses preds)
    × (report.true_negative ≡ rejections preds)
    × (report.sample_size
        ≡ report.true_positive + report.false_positive + report.false_negative
          + report.true_negative)
    × (correct_ones preds ≡ report.true_positive + report.true_negative)
evaluate_labeled_pairs-counts_example =
    evaluate_labeled_pairs-counts (pair ∷ []) (pos 0) (some (pos 0))
