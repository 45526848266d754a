-- ===== src/Attribution/Tests.antt =====
-- A slow resolver: its attribution by a small table, its evidence and its score, and each theorem at
-- them.
use Prim.Native.Nat.{min}
use llm_slo_e_bpf_toolkit.Prelude.{
  ◌≡◌, refl, not, ◌&&◌, str_eq, List, [], ◌∷◌, count_if, lookup, All, length, ◌≢◌,
}
use llm_slo_e_bpf_toolkit.Prelude.Int.{pos, ◌+ℤ◌, ◌-ℤ◌, ◌*ℤ◌, quot_ℕ}
use llm_slo_e_bpf_toolkit.Prelude.Float64.{Fixed, fixed, fixed-IsIeee, flt}
use llm_slo_e_bpf_toolkit.Prelude.FloatMath.{fixed_math}
use llm_slo_e_bpf_toolkit.Schema.{IncidentAttribution}
use llm_slo_e_bpf_toolkit.Attribution.Mapper.{FaultSample, build_attribution}
use llm_slo_e_bpf_toolkit.Attribution.Bayesian.{
  BayesianAttributor, Posterior, likelihood_row, posteriors, attribute, attribute_sample,
  log_posterior, log_normalizer, likelihood_for, clamp_likelihood, elevated_signals, is_elevated,
  signal_thresholds,
}
use llm_slo_e_bpf_toolkit.Attribution.Bayesian.Ranking.{
  IsNumber, AtLeast, attribute_sample-IsMostProbable,
}
use llm_slo_e_bpf_toolkit.Attribution.Bayesian.Support.{IsSupported, attribute-evidence}
use llm_slo_e_bpf_toolkit.Signals.Constants.{core_signal_set}
use llm_slo_e_bpf_toolkit.Attribution.Bayesian.Elevated.{IsGraded, signal_status-is_elevated}
use llm_slo_e_bpf_toolkit.Attribution.Pipeline.{
  MatrixKey, key_eq, cell, build_confusion_matrix, count_correct,
}
use llm_slo_e_bpf_toolkit.Attribution.Pipeline.Scores.{
  pairs, total, diagonal, build_confusion_matrix-counts,
}

abbrev as_given : List Fixed → List Fixed
as_given logs = logs

abbrev table : BayesianAttributor Fixed
table = record {
  priors = [];
  likelihoods = ("dns_latency_ms", likelihood_row 950 700 100 100 100 100 150 100) ∷ [];
}

-- A resolver that answers after 180 ms.
abbrev slow_dns : FaultSample Fixed
slow_dns = record {
  incident_id = "i-1";
  timestamp = pos 0;
  cluster = "local";
  namespace = "default";
  service = "chat";
  fault_label = "unlabelled";
  expected_domain = "network_dns";
  expected_domains = [];
  signals = ("dns_latency_ms", fixed.milli 180_000) ∷ [];
  confidence = fixed.milli 900;
  burn_rate = fixed.milli 2000;
  window_minutes = pos 5;
  request_id = "r-1";
  trace_id = "t-1";
}

some_signals : slow_dns.signals ≢ []
some_signals h = cc

numbers : All IsNumber (posteriors fixed_math as_given as_given table slow_dns.signals)
unfolding posteriors log_posterior log_normalizer likelihood_for clamp_likelihood elevated_signals
    is_elevated signal_thresholds lookup ◌+ℤ◌ ◌-ℤ◌ ◌*ℤ◌ quot_ℕ
numbers = (refl, (refl, (refl, (refl, (refl, (refl, (refl, (refl, tt))))))))

attribute_sample-IsMostProbable_example :
    let r = attribute_sample fixed_math as_given as_given table slow_dns in
    ((p : Posterior Fixed) × (rest : List (Posterior Fixed)) × (attribute fixed_math as_given
          as_given table slow_dns.signals
        ≡ p ∷ rest)
      × (r.predicted_fault_domain ≡ p.domain)
      × (r.confidence ≡ p.posterior)
      × All (AtLeast p) (p ∷ rest))
    × (count_if (λ h. str_eq h.domain "network_dns") r.fault_hypotheses
        ≡ count_if
            (λ p. not (flt p.posterior (fixed.milli 10)) && str_eq p.domain "network_dns")
            (posteriors fixed_math as_given as_given table slow_dns.signals))
    × (r.incident_id ≡ slow_dns.incident_id)
    × (r.evidence ≡ (build_attribution slow_dns).evidence)
attribute_sample-IsMostProbable_example =
    attribute_sample-IsMostProbable fixed-IsIeee fixed_math as_given as_given table slow_dns
      some_signals numbers "network_dns"

attribute-evidence_example :
    All
      (IsSupported fixed_math as_given as_given table slow_dns.signals "dns_latency_ms")
      (attribute fixed_math as_given as_given table slow_dns.signals)
attribute-evidence_example =
    attribute-evidence fixed_math as_given as_given table slow_dns.signals "dns_latency_ms"
      (refl, tt)

abbrev samples : List (FaultSample Fixed)
samples = slow_dns ∷ slow_dns ∷ []

abbrev predictions : List (IncidentAttribution Fixed)
predictions =
    attribute_sample fixed_math as_given as_given table slow_dns ∷ build_attribution slow_dns ∷ []

build_confusion_matrix-counts_example :
    let matrix = build_confusion_matrix samples predictions in
    let key : MatrixKey = ("network_dns", "unknown") in
    (cell key matrix ≡ count_if (λ e. key_eq e key) (pairs samples predictions))
    × (total matrix ≡ min (length samples) (length predictions))
    × (diagonal matrix ≡ count_correct 0 samples predictions)
build_confusion_matrix-counts_example =
    build_confusion_matrix-counts samples predictions ("network_dns", "unknown")

signal_status-is_elevated_example : All (IsGraded (fixed.milli 180_000)) core_signal_set
signal_status-is_elevated_example = signal_status-is_elevated fixed-IsIeee (fixed.milli 180_000)
