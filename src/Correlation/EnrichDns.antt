-- ===== src/Correlation/EnrichDns.antt =====
-- pkg/correlation/dns.go: `EnrichDNS`. A map of attributes is a list of pairs, and `none` is the
-- nil map.
use llm_slo_e_bpf_toolkit.Prelude.{
  ◌≡◌, Bool, not, ◌&&◌, ◌||◌, String, List, [], Option, none, some, arith, str_eq, lookup, insert,
  lookup-insert, if◌then◌else◌,
}
use llm_slo_e_bpf_toolkit.Prelude.Float64.{Float64, fle, flt}
use llm_slo_e_bpf_toolkit.Prelude.Time.{Duration}
use llm_slo_e_bpf_toolkit.Semconv.{attr_dns_latency_ms, attr_correlation_conf}
use llm_slo_e_bpf_toolkit.Correlation.Match.{SpanRef, SignalRef, Decision, unmatched, match}

abbrev pub Attributes : Type 0 → Type 0
Attributes F = List (String × F)

abbrev pub or_empty : {F : Type 0} → Option (Attributes F) → Attributes F
or_empty none = []
or_empty (some m) = m

module _ {F : Type 0} ⦃d : Float64 F⦄ where
  -- `DefaultEnrichmentThreshold` takes the place of a threshold that is not positive.
  abbrev pub effective_threshold : F → F
  effective_threshold threshold = if fle threshold (d.milli 0) then d.milli 700 else threshold

  -- The signal is written to the span.
  abbrev pub enriches : SignalRef F → F → Decision F → Bool
  enriches signal threshold r =
      r.matched
      && not (flt r.confidence (effective_threshold threshold))
      && str_eq signal.signal "dns_latency_ms"

  unfoldable pub enrich_dns :
      Option (Attributes F) → SpanRef → SignalRef F → Duration → F → Attributes F × Decision F
  enrich_dns base span signal window threshold =
      let r = match span signal window in
      if not r.matched || flt r.confidence (effective_threshold threshold)
      then (or_empty base, r)
      else if not (str_eq signal.signal "dns_latency_ms")
      then (or_empty base, unmatched)
      else (
        insert attr_correlation_conf r.confidence
            (insert attr_dns_latency_ms signal.value (or_empty base)),
        r,
      )

  -- After `EnrichDNS` every attribute reads as before, except that a matched DNS signal whose
  -- confidence is not below the threshold sets the latency and the confidence attribute.
  pub lookup-enrich_dns :
      (base : Option (Attributes F)) (s : SpanRef) (g : SignalRef F) (w : Duration) (t : F)
      (k : String)
      → let r = match s g w in
        lookup k (enrich_dns base s g w t).0 ≡ (
          if enriches g t r
          then if str_eq attr_correlation_conf k
            then some r.confidence
            else if str_eq attr_dns_latency_ms k
            then some g.value
            else lookup k (or_empty base)
          else lookup k (or_empty base))
  unfolding enrich_dns
  lookup-enrich_dns base s g w t k = ground (
    arith,
    lookup-insert attr_correlation_conf k (match s g w).confidence
        (insert attr_dns_latency_ms g.value (or_empty base)),
    lookup-insert attr_dns_latency_ms k g.value (or_empty base),
  )
