-- ===== src/Attribution/Bayesian.antt =====
-- pkg/attribution/bayesian.go: posteriors over fault domains by naive Bayes. A Go map is a list of
-- pairs with distinct keys. Where a sum runs over a map, Go does not fix the order: the likelihoods
-- are a list in any order, and `walk` and `walk'` are the orders in which the two loops visit
-- the log posteriors.
pub mod Ranking
pub mod Support
pub mod Elevated
use Prim.Native.String.{compare}
use Prim.Native.Nat.{Ordering}
use llm_slo_e_bpf_toolkit.Prelude.{
  ℕ, Bool, true, false, not, String, List, [], ◌∷◌, map, filter, Option, none, some, contains,
  lookup, if◌then◌else◌,
}
use llm_slo_e_bpf_toolkit.Prelude.Int.{pos}
use llm_slo_e_bpf_toolkit.Prelude.Float64.{Float64, fle, flt, fgt, fge}
use llm_slo_e_bpf_toolkit.Prelude.FloatMath.{FloatMath}
use llm_slo_e_bpf_toolkit.Prelude.Sort.{sort_stable}
use llm_slo_e_bpf_toolkit.Schema.{FaultHypothesis, IncidentAttribution}
use llm_slo_e_bpf_toolkit.Attribution.Mapper.{FaultSample, build_attribution}

-- `AllDomains`.
abbrev pub all_domains : List String
all_domains =
    "network_dns" ∷ "network_egress" ∷ "cpu_throttle" ∷ "memory_pressure" ∷ "provider_throttle"
    ∷ "provider_error" ∷ "retrieval_backend" ∷ "unknown" ∷ []

-- signal -> domain -> P(signal_elevated | domain)
abbrev pub Likelihoods : Type 0 → Type 0
Likelihoods F = List (String × List (String × F))

pub record BayesianAttributor (F : Type 0) : Type 0 where
  pub priors : List (String × F)
  pub likelihoods : Likelihoods F

pub record Posterior (F : Type 0) : Type 0 where
  pub domain : String
  pub posterior : F
  pub evidence : List String

-- The order of `sort.Strings`, by bytes.
abbrev pub str_less : String → String → Bool
str_less a b = elim (compare a b) [ Ordering.lt ↦ true | _ ↦ false ]

module _ {F : Type 0} ⦃d : Float64 F⦄ where
  unfoldable pub default_priors : List (String × F)
  default_priors = map (λ name. (name, d.fdiv (d.milli 1000) (d.of_int (pos 8)))) all_domains

  -- One row of the table, in the order of `all_domains`, in thousandths.
  abbrev pub likelihood_row : ℕ → ℕ → ℕ → ℕ → ℕ → ℕ → ℕ → ℕ → List (String × F)
  likelihood_row dns egress cpu memory throttle error retrieval unknown =
      ("network_dns", d.milli dns)
      ∷ ("network_egress", d.milli egress)
      ∷ ("cpu_throttle", d.milli cpu)
      ∷ ("memory_pressure", d.milli memory)
      ∷ ("provider_throttle", d.milli throttle)
      ∷ ("provider_error", d.milli error)
      ∷ ("retrieval_backend", d.milli retrieval)
      ∷ ("unknown", d.milli unknown)
      ∷ []

  unfoldable pub default_likelihoods : Likelihoods F
  default_likelihoods =
      ("dns_latency_ms", likelihood_row 950 700 100 100 100 100 150 100)
      ∷ ("tcp_retransmits_total", likelihood_row 150 900 100 100 100 150 100 100)
      ∷ ("runqueue_delay_ms", likelihood_row 100 100 900 600 100 100 100 100)
      ∷ ("connect_latency_ms", likelihood_row 500 850 100 100 750 400 300 100)
      ∷ ("tls_handshake_ms", likelihood_row 100 300 100 100 800 500 200 100)
      ∷ ("cpu_steal_pct", likelihood_row 100 100 900 200 100 100 100 100)
      ∷ ("cfs_throttled_ms", likelihood_row 100 100 850 750 100 100 100 100)
      ∷ ("mem_reclaim_latency_ms", likelihood_row 50 50 150 950 50 50 50 50)
      ∷ ("disk_io_latency_ms", likelihood_row 50 50 100 850 50 50 300 50)
      ∷ ("syscall_latency_ms", likelihood_row 100 200 150 100 900 600 400 100)
      ∷ ("connect_errors_total", likelihood_row 100 800 50 50 600 850 150 100)
      ∷ ("tls_handshake_fail_total", likelihood_row 50 700 50 50 300 600 100 50)
      ∷ []

  unfoldable pub new_bayesian_attributor : BayesianAttributor F
  unfolding default_priors default_likelihoods
  new_bayesian_attributor = record { priors = default_priors; likelihoods = default_likelihoods }

  -- `signalThresholds`.
  unfoldable pub signal_thresholds : List (String × F)
  signal_thresholds =
      ("dns_latency_ms", d.milli 40_000)
      ∷ ("tcp_retransmits_total", d.milli 2000)
      ∷ ("runqueue_delay_ms", d.milli 10_000)
      ∷ ("connect_latency_ms", d.milli 80_000)
      ∷ ("tls_handshake_ms", d.milli 60_000)
      ∷ ("cpu_steal_pct", d.milli 2000)
      ∷ ("cfs_throttled_ms", d.milli 40_000)
      ∷ ("mem_reclaim_latency_ms", d.milli 5000)
      ∷ ("disk_io_latency_ms", d.milli 10_000)
      ∷ ("syscall_latency_ms", d.milli 50_000)
      ∷ ("connect_errors_total", d.milli 1000)
      ∷ ("tls_handshake_fail_total", d.milli 1000)
      ∷ []

  abbrev pub reaches : F → Option F → Bool
  reaches value none = false
  reaches value (some limit) = fge value limit

  unfoldable pub is_elevated : String × F → Bool
  is_elevated s = reaches s.1 (lookup s.0 signal_thresholds)

  -- The keys of the map `elevated`.
  unfoldable pub elevated_signals : List (String × F) → List String
  elevated_signals signals = map (λ s. s.0) (filter is_elevated signals)

  unfoldable pub clamp_likelihood : F → F
  clamp_likelihood p =
      if flt p (d.milli 10) then d.milli 10 else if fgt p (d.milli 990) then d.milli 990 else p

  of_entry : Bool → Option F → F
  of_entry elevated none = d.milli 500
  of_entry elevated (some p) =
      if elevated then clamp_likelihood p else clamp_likelihood (d.fsub (d.milli 1000) p)

  of_row : String → Bool → Option (List (String × F)) → F
  of_row domain elevated none = d.milli 500
  of_row domain elevated (some row) = of_entry elevated (lookup domain row)

  unfoldable pub likelihood_for : Likelihoods F → String → String → Bool → F
  unfolding of_row of_entry clamp_likelihood
  likelihood_for ls signal domain elevated = of_row domain elevated (lookup signal ls)

  abbrev pub or_zero : Option F → F
  or_zero none = d.milli 0
  or_zero (some p) = p

  -- `ll, ok := b.Likelihoods[signal]` and `ll[domain] >= 0.5`, where a missing entry reads as 0.
  abbrev pub row_supports : String → Option (List (String × F)) → Bool
  row_supports domain none = false
  row_supports domain (some row) = fge (or_zero (lookup domain row)) (d.milli 500)

  unfoldable pub evidence_for : Likelihoods F → List String → String → List String
  evidence_for ls elevated domain =
      sort_stable str_less (filter (λ s. row_supports domain (lookup s ls)) elevated)

  -- The order of the sort, by falling probability.
  abbrev pub more_probable : Posterior F → Posterior F → Bool
  more_probable p q = fgt p.posterior q.posterior

  abbrev pub as_hypothesis : Posterior F → FaultHypothesis F
  as_hypothesis p = record { domain = p.domain; posterior = p.posterior; evidence = p.evidence }

  unfoldable pub hypotheses : List (Posterior F) → List (FaultHypothesis F)
  hypotheses ps = map as_hypothesis (filter (λ p. not (flt p.posterior (d.milli 10))) ps)

  override_top : IncidentAttribution F → List (Posterior F) → IncidentAttribution F
  override_top base [] = base
  override_top base (p ∷ rest) = record base {
    predicted_fault_domain = p.domain;
    confidence = p.posterior;
  }

  abbrev pub max_log : F → List F → F
  max_log best [] = best
  max_log best (lp ∷ rest) = max_log (if fgt lp best then lp else best) rest

  module _ (m : FloatMath F) (walk walk' : List F → List F) where
    -- The sum of the logarithms over the likelihoods that are left.
    add_logs : Likelihoods F → Likelihoods F → List String → String → F → F
    add_logs ls [] elevated domain log_p = log_p
    add_logs ls (row ∷ rest) elevated domain log_p =
        add_logs ls rest elevated domain
          (d.fadd log_p (m.flog (likelihood_for ls row.0 domain (contains row.0 elevated))))

    unfoldable pub log_posterior : BayesianAttributor F → List String → String → F
    unfolding add_logs
    log_posterior b elevated domain =
        let given = or_zero (lookup domain b.priors) in
        let prior = if fle given (d.milli 0) then m.decimal 1 10 else given in
        add_logs b.likelihoods b.likelihoods elevated domain (m.flog prior)

    abbrev pub sum_exp : F → F → List F → F
    sum_exp best sum [] = sum
    sum_exp best sum (lp ∷ rest) = sum_exp best (d.fadd sum (m.fexp (d.fsub lp best))) rest

    -- `logZ`, by log-sum-exp.
    unfoldable pub log_normalizer : List F → F
    log_normalizer logs =
        let best = max_log m.neg_inf (walk logs) in
        d.fadd best (m.flog (sum_exp best (d.milli 0) (walk' logs)))

    -- One posterior for each domain, in the order of `all_domains`.
    unfoldable pub posteriors : BayesianAttributor F → List (String × F) → List (Posterior F)
    posteriors b signals =
        let elevated = elevated_signals signals in
        let log_z = log_normalizer (map (log_posterior b elevated) all_domains) in
        map
          (λ name. record {
            domain = name;
            posterior = m.fexp (d.fsub (log_posterior b elevated name) log_z);
            evidence = evidence_for b.likelihoods elevated name;
          })
          all_domains

    unfoldable pub attribute : BayesianAttributor F → List (String × F) → List (Posterior F)
    attribute b signals = sort_stable more_probable (posteriors b signals)

    attribute_signals :
        BayesianAttributor F → IncidentAttribution F → List (String × F) → IncidentAttribution F
    attribute_signals b base [] = base
    attribute_signals b base (s ∷ rest) =
        let ps = attribute b (s ∷ rest) in
        override_top (record base { fault_hypotheses = hypotheses ps }) ps

    unfoldable pub attribute_sample : BayesianAttributor F → FaultSample F → IncidentAttribution F
    unfolding attribute_signals override_top
    attribute_sample b sample = attribute_signals b (build_attribution sample) sample.signals
