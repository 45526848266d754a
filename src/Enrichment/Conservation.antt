-- ===== src/Enrichment/Conservation.antt =====
-- `EnrichAttributes` of pkg/otel/processor/ebpfcorrelator/correlator.go accounts for every signal.
use Prim.Native.Nat.{min}
use llm_slo_e_bpf_toolkit.Prelude.{
  ℕ, suc, ◌+◌, ◌≡◌, refl, true, false, not, List, [], ◌∷◌, Option, length, length-take,
  length-append, All, All-append, All-take, count_if, ltb, arith, Bool-cases, inl, inr,
}
use llm_slo_e_bpf_toolkit.Prelude.Float64.{Float64, flt}
use llm_slo_e_bpf_toolkit.Prelude.Time.{Duration}
use llm_slo_e_bpf_toolkit.Prelude.Sort.{sort_stable, length-sort_stable, All-sort_stable}
use llm_slo_e_bpf_toolkit.Correlation.Match.{SpanRef, SignalRef, match}
use llm_slo_e_bpf_toolkit.Correlation.EnrichDns.{Attributes, effective_threshold}
use llm_slo_e_bpf_toolkit.Enrichment.{
  Correlator, DebugStats, Candidate, signal_attr_key, is_supported, no_stats, window_of,
  effective_fanout, collect_one, collect, ranks_before, enrich_attributes,
}

abbrev pub accounted : DebugStats → ℕ
accounted s = s.unmatched + s.low_confidence + s.fanout_dropped + s.unsupported_type

module _ {F : Type 0} ⦃d : Float64 F⦄ where
  abbrev pub unsupported : List (SignalRef F) → ℕ
  unsupported = count_if λ g. not (is_supported (signal_attr_key g.signal))

  -- A candidate is a supported signal with its own decision, matched and not below the threshold.
  pub record IsEligible (span : SpanRef) (window : Duration) (threshold : F) (c : Candidate F)
      : Type 0 where
    pub supported : is_supported (signal_attr_key c.signal.signal) ≡ true
    pub decided : c.decision ≡ match span c.signal window
    pub matched : c.decision.matched ≡ true
    pub confident : flt c.decision.confidence threshold ≡ false

  collect_one-counts :
      (span : SpanRef) (w : Duration) (th : F) (g : SignalRef F) (cs : List (Candidate F))
      (s : DebugStats)
      → let (cs', s') = collect_one span w th g (cs, s) in
        (length cs' + accounted s' ≡ suc (length cs + accounted s))
        × (s'.fanout_dropped ≡ s.fanout_dropped)
        × (s'.unsupported_type ≡ s.unsupported_type + unsupported (g ∷ []))
  unfolding collect_one
  collect_one-counts span w th g cs s =
      ground (arith, length-append cs (record { signal = g; decision = match span g w } ∷ []))

  pub collect-counts :
      (span : SpanRef) (w : Duration) (th : F) (gs : List (SignalRef F)) (cs : List (Candidate F))
      (s : DebugStats)
      → let (cs', s') = collect span w th gs (cs, s) in
        (length cs' + accounted s' ≡ length gs + (length cs + accounted s))
        × (s'.fanout_dropped ≡ s.fanout_dropped)
        × (s'.unsupported_type ≡ s.unsupported_type + unsupported gs)
  unfolding collect
  collect-counts span w th [] cs s = omega arith
  collect-counts span w th (g ∷ gs) cs s =
      let next = collect_one span w th g (cs, s) in
      ground (arith, collect-counts span w th gs next.0 next.1, collect_one-counts span w th g cs s)

  collect_one-IsEligible :
      (span : SpanRef) (w : Duration) (th : F) (g : SignalRef F) (cs : List (Candidate F))
      (s : DebugStats)
      → All (IsEligible span w th) cs
      → All (IsEligible span w th) (collect_one span w th g (cs, s)).0
  unfolding collect_one
  collect_one-IsEligible span w th g cs s a =
      let r = match span g w in
      elim (Bool-cases (is_supported (signal_attr_key g.signal))) [
        | inr n ↦ rw n a
        | inl supported ↦ elim (Bool-cases r.matched) [
          | inr n ↦ rw (supported, n) a
          | inl matched ↦ elim (Bool-cases (flt r.confidence th)) [
            | inl low ↦ rw (supported, matched, low) a
            | inr confident ↦
                simp (supported, matched, confident)
                  (All-append _ cs _ a (
                    record {
                      supported = supported;
                      decided = refl;
                      matched = matched;
                      confident = confident;
                    },
                    tt,
                  ))
          ]
        ]
      ]

  pub collect-IsEligible :
      (span : SpanRef) (w : Duration) (th : F) (gs : List (SignalRef F)) (cs : List (Candidate F))
      (s : DebugStats)
      → All (IsEligible span w th) cs
      → All (IsEligible span w th) (collect span w th gs (cs, s)).0
  unfolding collect
  collect-IsEligible span w th [] cs s a = a
  collect-IsEligible span w th (g ∷ gs) cs s a =
      let next = collect_one span w th g (cs, s) in
      collect-IsEligible span w th gs next.0 next.1 (collect_one-IsEligible span w th g cs s a)

  -- Every signal is counted once: as a candidate, or as unsupported, unmatched, of low confidence or
  -- dropped by the fanout. At most `fanout` candidates are left, as many as there are, and the
  -- unsupported ones are just those whose name has no attribute.
  pub enrich_attributes-accounts :
      (c : Correlator F) (base : Option (Attributes F)) (span : SpanRef) (gs : List (SignalRef F))
      → let r = enrich_attributes c base span gs in
        (length r.candidates + accounted r.debug ≡ length gs)
        × (length r.candidates
            ≡ min
                (effective_fanout c.max_join_fanout)
                (length r.candidates + r.debug.fanout_dropped))
        × (r.debug.unsupported_type ≡ unsupported gs)
  unfolding enrich_attributes
  enrich_attributes-accounts c base span gs =
      let th = effective_threshold c.enrichment_threshold in
      let found = collect span (window_of c.window_ms) th gs ([], no_stats) in
      let ranked = sort_stable (ranks_before span) found.0 in
      ground (
        arith,
        collect-counts span (window_of c.window_ms) th gs [] no_stats,
        length-sort_stable (ranks_before span) found.0,
        length-take (effective_fanout c.max_join_fanout) ranked,
      )

  -- Every candidate that is left is a supported signal with its own decision, which matched within
  -- the configured window with a confidence that is not below the threshold.
  pub enrich_attributes-IsEligible :
      (c : Correlator F) (base : Option (Attributes F)) (span : SpanRef) (gs : List (SignalRef F))
      → All
          (IsEligible span (window_of c.window_ms) (effective_threshold c.enrichment_threshold))
          (enrich_attributes c base span gs).candidates
  unfolding enrich_attributes
  enrich_attributes-IsEligible c base span gs =
      let th = effective_threshold c.enrichment_threshold in
      let P = IsEligible span (window_of c.window_ms) th in
      let found = collect span (window_of c.window_ms) th gs ([], no_stats) in
      let ranked = sort_stable (ranks_before span) found.0 in
      let all =
        All-sort_stable (ranks_before span) P found.0
          (collect-IsEligible span (window_of c.window_ms) th gs [] no_stats tt) in
      elim (Bool-cases (ltb (effective_fanout c.max_join_fanout) (length ranked))) [
        | inl cut ↦ rw cut (All-take P (effective_fanout c.max_join_fanout) ranked all)
        | inr whole ↦ rw whole all
      ]
