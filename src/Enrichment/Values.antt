-- ===== src/Enrichment/Values.antt =====
-- The attributes that `EnrichAttributes` of pkg/otel/processor/ebpfcorrelator/correlator.go writes.
use llm_slo_e_bpf_toolkit.Prelude.{
  ◌≡◌, refl, ap, ◌∙◌, true, String, str_eq, eq_iff, List, [], ◌∷◌, Option, none, some, All, All-map,
  lookup, lookup-insert, if◌then◌else◌, arith,
}
use llm_slo_e_bpf_toolkit.Prelude.Float64.{Float64, IsIeee, fle, fgt}
use llm_slo_e_bpf_toolkit.Semconv.{attr_correlation_conf}
use llm_slo_e_bpf_toolkit.Correlation.Match.{SpanRef, SignalRef}
use llm_slo_e_bpf_toolkit.Correlation.EnrichDns.{Attributes, or_empty, effective_threshold}
use llm_slo_e_bpf_toolkit.Enrichment.{
  Correlator, Candidate, signal_attr_key, key_of, window_of, raise_attribute, raise_attributes,
  max_confidence, apply_candidates, enrich_attributes,
}
use llm_slo_e_bpf_toolkit.Enrichment.Conservation.{IsEligible, enrich_attributes-IsEligible}
use llm_slo_e_bpf_toolkit.Enrichment.Ranking.{
  IsPositive, IsEligible-IsPositive, AtLeast, candidates-Sorted,
}
use llm_slo_e_bpf_toolkit.Prelude.Sort.{Sorted}

module _ {F : Type 0} ⦃d : Float64 F⦄ where
  -- The larger of a value that may be there and a new one, as the code compares them.
  abbrev pub raise : Option F → F → Option F
  raise none v = some v
  raise (some e) v = if fgt v e then some v else some e

  -- One attribute, raised by the candidates whose signal it belongs to.
  abbrev pub raise_by : String → Option F → List (Candidate F) → Option F
  raise_by k o [] = o
  raise_by k o (c ∷ cs) =
      raise_by k
        (if str_eq (key_of (signal_attr_key c.signal.signal)) k then raise o c.signal.value else o)
        cs

  abbrev pub first_confidence : Option F → List (Candidate F) → Option F
  first_confidence o [] = o
  first_confidence o (c ∷ cs) = some c.decision.confidence

  lookup-raise_attribute :
      (out : Attributes F) (c : Candidate F) (k : String)
      → lookup k (raise_attribute out c) ≡ (
          if str_eq (key_of (signal_attr_key c.signal.signal)) k
          then raise (lookup k out) c.signal.value
          else lookup k out)
  unfolding raise_attribute
  lookup-raise_attribute out c k =
      let key = key_of (signal_attr_key c.signal.signal) in
      ground (
        arith,
        lookup-insert key k c.signal.value out,
        eq_iff key k,
        ap (λ j. lookup j out) {x = key} {y = k},
      )

  lookup-raise_attributes :
      (out : Attributes F) (cs : List (Candidate F)) (k : String)
      → lookup k (raise_attributes out cs) ≡ raise_by k (lookup k out) cs
  unfolding raise_attributes
  lookup-raise_attributes out [] k = refl
  lookup-raise_attributes out (c ∷ cs) k =
      lookup-raise_attributes (raise_attribute out c) cs k
      ∙ ap (λ o. raise_by k o cs) (lookup-raise_attribute out c k)

  max_confidence_best :
      (best : F) (cs : List (Candidate F))
      → All (λ c. fle c.decision.confidence best ≡ true) cs
      → max_confidence best cs ≡ best
  unfolding max_confidence
  max_confidence_best best [] a = refl
  max_confidence_best best (c ∷ cs) (a, as') = ground (arith, max_confidence_best best cs as')

  apply_first :
      (base : Attributes F) (cs : List (Candidate F)) (k : String)
      → All IsPositive cs
      → Sorted AtLeast cs
      → lookup k (apply_candidates base cs) ≡ (
          if str_eq attr_correlation_conf k
          then first_confidence (lookup k base) cs
          else raise_by k (lookup k base) cs)
  unfolding apply_candidates max_confidence
  apply_first base [] k p s = ground (arith, lookup-raise_attributes base [] k)
  apply_first base (c ∷ cs) k (p, ps) (s, ss) =
      let out = raise_attributes base (c ∷ cs) in
      rw (p.1, max_confidence_best c.decision.confidence cs s, p.1)
        (lookup-insert attr_correlation_conf k c.decision.confidence out
          ∙ ap (λ o. if str_eq attr_correlation_conf k then some c.decision.confidence else o)
              (lookup-raise_attributes base (c ∷ cs) k))

  attributes_lem :
      (c : Correlator F) (base : Option (Attributes F)) (span : SpanRef) (gs : List (SignalRef F))
      → (enrich_attributes c base span gs).attributes
        ≡ apply_candidates (or_empty base) (enrich_attributes c base span gs).candidates
  unfolding enrich_attributes
  attributes_lem c base span gs = refl

  module _ (laws : IsIeee d) where
    -- For floats that compare as IEEE 754 says, after `EnrichAttributes` the confidence attribute is
    -- that of the first candidate, if one is left, and every other attribute is what the base map has,
    -- raised by the values of the candidates whose signal it belongs to.
    pub lookup-enrich_attributes :
        (c : Correlator F) (base : Option (Attributes F)) (span : SpanRef) (gs : List (SignalRef F))
        (k : String)
        → let r = enrich_attributes c base span gs in
          lookup k r.attributes ≡ (
            if str_eq attr_correlation_conf k
            then first_confidence (lookup k (or_empty base)) r.candidates
            else raise_by k (lookup k (or_empty base)) r.candidates)
    lookup-enrich_attributes c base span gs k =
        let cs = (enrich_attributes c base span gs).candidates in
        let w = window_of c.window_ms in
        let th = effective_threshold c.enrichment_threshold in
        let positive =
          All-map (IsEligible span w th) IsPositive (IsEligible-IsPositive laws span w th) cs
            (enrich_attributes-IsEligible c base span gs) in
        ap (λ m. lookup k m) (attributes_lem c base span gs)
        ∙ apply_first (or_empty base) cs k positive (candidates-Sorted laws c base span gs)
