-- ===== src/Enrichment/Ranking.antt =====
-- Which candidates `EnrichAttributes` of pkg/otel/processor/ebpfcorrelator/correlator.go keeps.
use llm_slo_e_bpf_toolkit.Prelude.{
  ◌≡◌, ap, sym, ◌∙◌, Bool, true, not, ◌&&◌, List, [], ◌∷◌, ◌++◌, length, cut_rest,
  cut-append-cut_rest, length-drop, All, All-map, count_if, if◌then◌else◌, arith, Option,
}
use mathlib.Core.List.{append-nil, append_assoc}
use llm_slo_e_bpf_toolkit.Prelude.Float64.{Float64, IsIeee, fle, flt, fgt}
use llm_slo_e_bpf_toolkit.Prelude.Time.{Duration}
use llm_slo_e_bpf_toolkit.Prelude.Sort.{
  sort_stable, count_if-sort_stable, Sorted, Sorted-append_left, sort_stable-Sorted,
}
use llm_slo_e_bpf_toolkit.Correlation.Match.{SpanRef, SignalRef, Decision, match}
use llm_slo_e_bpf_toolkit.Correlation.EnrichDns.{Attributes, effective_threshold}
use llm_slo_e_bpf_toolkit.Enrichment.{
  Correlator, DebugStats, Candidate, signal_attr_key, is_supported, no_stats, window_of,
  effective_fanout, collect_one, collect, ranks_before, enrich_attributes,
}
use llm_slo_e_bpf_toolkit.Enrichment.Conservation.{IsEligible, collect-IsEligible, collect-counts}

module _ {F : Type 0} ⦃d : Float64 F⦄ where
  -- The candidates of a list of signals, in the order of the signals.
  abbrev pub candidates_of : SpanRef → Duration → F → List (SignalRef F) → List (Candidate F)
  candidates_of span w th [] = []
  candidates_of span w th (g ∷ gs) =
      let r = match span g w in
      let rest = candidates_of span w th gs in
      if is_supported (signal_attr_key g.signal) && (r.matched && not (flt r.confidence th))
      then record { signal = g; decision = r } ∷ rest
      else rest

  collect-candidates_of :
      (span : SpanRef) (w : Duration) (th : F) (gs : List (SignalRef F)) (cs : List (Candidate F))
      (s : DebugStats)
      → (collect span w th gs (cs, s)).0 ≡ cs ++ candidates_of span w th gs
  unfolding collect collect_one
  collect-candidates_of span w th [] cs s = rw append-nil
  collect-candidates_of span w th (g ∷ gs) cs s =
      let next = collect_one span w th g (cs, s) in
      let new : List (Candidate F) = record { signal = g; decision = match span g w } ∷ [] in
      ground (
        arith,
        collect-candidates_of span w th gs next.0 next.1,
        append_assoc cs new (candidates_of span w th gs),
      )

  -- The confidence is a number above zero.
  abbrev pub IsPositive : Candidate F → Type 0
  IsPositive c =
      (fle c.decision.confidence c.decision.confidence ≡ true)
      × (fgt c.decision.confidence (d.milli 0) ≡ true)

  -- In the order of the sort the next one is not more confident.
  abbrev pub AtLeast : Candidate F → Candidate F → Type 0
  AtLeast a b = fle b.decision.confidence a.decision.confidence ≡ true

  module _ (laws : IsIeee d) where
    match-positive :
        (span : SpanRef) (g : SignalRef F) (w : Duration)
        → (match span g w).matched ≡ true
        → (fle (match span g w).confidence (match span g w).confidence ≡ true)
          × (fgt (match span g w).confidence (d.milli 0) ≡ true)
    unfolding match
    match-positive span g w h = ground (
      arith,
      laws.le_milli 1000 1000 (omega arith) (omega arith),
      laws.le_milli 900 900 (omega arith) (omega arith),
      laws.le_milli 800 800 (omega arith) (omega arith),
      laws.le_milli 650 650 (omega arith) (omega arith),
      laws.le_milli 0 1000 (omega arith) (omega arith),
      laws.le_milli 0 900 (omega arith) (omega arith),
      laws.le_milli 0 800 (omega arith) (omega arith),
      laws.le_milli 0 650 (omega arith) (omega arith),
      laws.le_milli 1000 0 (omega arith) (omega arith),
      laws.le_milli 900 0 (omega arith) (omega arith),
      laws.le_milli 800 0 (omega arith) (omega arith),
      laws.le_milli 650 0 (omega arith) (omega arith),
    )

    pub IsEligible-IsPositive :
        (span : SpanRef) (w : Duration) (th : F) (c : Candidate F)
        → IsEligible span w th c
        → IsPositive c
    IsEligible-IsPositive span w th c e =
        let m : (match span c.signal w).matched ≡ true =
          ap (λ (r : Decision F). r.matched) (sym e.decided) ∙ e.matched in
        simp e.decided (match-positive span c.signal w m)

    -- Sorting puts candidates of positive confidence into falling order.
    ranked-Sorted :
        (span : SpanRef) (cs : List (Candidate F))
        → All IsPositive cs
        → Sorted AtLeast (sort_stable (ranks_before span) cs)
    unfolding ranks_before
    ranked-Sorted span cs p =
        sort_stable-Sorted (ranks_before span) IsPositive AtLeast
          (λ a b c h k.
            laws.le_trans c.decision.confidence b.decision.confidence a.decision.confidence k h)
          (λ a b p q h. ground arith)
          (λ a b p q h.
            ground (arith, laws.le_total a.decision.confidence b.decision.confidence p.0 q.0))
          cs p

    -- For floats that compare as IEEE 754 says, the candidates that are left and those that the fanout
    -- dropped, in this order, are all the candidates of the signals, each as often as it occurs there,
    -- and never rise in confidence: what is left is at least as confident as what was dropped.
    pub enrich_attributes-ranks :
        (c : Correlator F) (base : Option (Attributes F)) (span : SpanRef) (gs : List (SignalRef F))
        → let r = enrich_attributes c base span gs in
          let all =
            candidates_of span
              (window_of c.window_ms)
              (effective_threshold c.enrichment_threshold)
              gs in
          (dropped : List (Candidate F)) × (length dropped ≡ r.debug.fanout_dropped)
          × Sorted AtLeast (r.candidates ++ dropped)
          × ((p : Candidate F → Bool) → count_if p (r.candidates ++ dropped) ≡ count_if p all)
    unfolding enrich_attributes
    enrich_attributes-ranks c base span gs =
        let w = window_of c.window_ms in
        let th = effective_threshold c.enrichment_threshold in
        let found = (collect span w th gs ([], no_stats)).0 in
        let ranked = sort_stable (ranks_before span) found in
        let n = effective_fanout c.max_join_fanout in
        let whole = cut-append-cut_rest n ranked in
        let positive =
          All-map (IsEligible span w th) IsPositive (IsEligible-IsPositive span w th) found
            (collect-IsEligible span w th gs [] no_stats tt) in
        (
          cut_rest n ranked,
          ground (arith, collect-counts span w th gs [] no_stats, length-drop n ranked),
          rw whole (ranked-Sorted span found positive),
          λ p. rw whole (
              count_if-sort_stable (ranks_before span) p found
              ∙ ap (count_if p) (collect-candidates_of span w th gs [] no_stats)),
        )

    -- The candidates that are left do not rise in confidence.
    pub candidates-Sorted :
        (c : Correlator F) (base : Option (Attributes F)) (span : SpanRef) (gs : List (SignalRef F))
        → Sorted AtLeast (enrich_attributes c base span gs).candidates
    candidates-Sorted c base span gs =
        let (dropped, length_eq, sorted, counts) = enrich_attributes-ranks c base span gs in
        Sorted-append_left AtLeast (enrich_attributes c base span gs).candidates dropped sorted
