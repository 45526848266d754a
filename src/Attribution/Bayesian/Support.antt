-- ===== src/Attribution/Bayesian/Support.antt =====
-- The evidence that pkg/attribution/bayesian.go lists for a domain.
use llm_slo_e_bpf_toolkit.Prelude.{
  ◌≡◌, refl, ap, ◌∙◌, Bool, false, ◌&&◌, String, str_eq, eq_iff, List, [], ◌∷◌, map, filter, Option,
  none, some, contains, lookup, Distinct, All, Bool-cases, inl, inr, arith,
}
use llm_slo_e_bpf_toolkit.Prelude.Float64.{Float64}
use llm_slo_e_bpf_toolkit.Prelude.FloatMath.{FloatMath}
use llm_slo_e_bpf_toolkit.Prelude.Sort.{All-sort_stable, contains-sort_stable}
use llm_slo_e_bpf_toolkit.Attribution.Bayesian.{
  BayesianAttributor, Likelihoods, Posterior, signal_thresholds, reaches, is_elevated,
  elevated_signals, row_supports, evidence_for, posteriors, more_probable, attribute, str_less,
}

contains-filter :
    (f : String → Bool) (k : String) (xs : List String)
    → contains k (filter f xs) ≡ (contains k xs && f k)
contains-filter f k [] = refl
contains-filter f k (x ∷ xs) = ground (arith, contains-filter f k xs, eq_iff x k, same_image x)
  where
    same_image : (x : String) → x ≡ k → f x ≡ f k
    same_image x e = ap f e

module _ {F : Type 0} ⦃d : Float64 F⦄ where
  abbrev names : List (String × F) → List String
  names signals = map (λ s. s.0) signals

  absent :
      (k : String) (signals : List (String × F))
      → contains k (names signals) ≡ false
      → contains k (elevated_signals signals) ≡ false
  unfolding elevated_signals
  absent k [] h = refl
  absent k (s ∷ rest) h = ground (arith, absent k rest)

  -- The signal was observed with a value that reaches its threshold.
  abbrev pub is_observed : String → Option F → Bool
  is_observed k none = false
  is_observed k (some v) = reaches v (lookup k signal_thresholds)

  contains-elevated_signals :
      (k : String) (signals : List (String × F))
      → Distinct (map (λ s. s.0) signals)
      → contains k (elevated_signals signals) ≡ is_observed k (lookup k signals)
  unfolding elevated_signals is_elevated lookup
  contains-elevated_signals k [] h = refl
  contains-elevated_signals k (s ∷ rest) (h, hs) = elim (Bool-cases (str_eq s.0 k)) [
    | inl e ↦
        let same = (eq_iff s.0 k).0 e in
        ground (arith, absent k rest, ap (λ a. contains a (names rest)) same, same)
    | inr e ↦ ground (arith, contains-elevated_signals k rest hs)
  ]

  -- The evidence is what is elevated and speaks for the domain.
  contains-evidence_for :
      (ls : Likelihoods F) (elevated : List String) (name k : String)
      → contains k (evidence_for ls elevated name)
        ≡ (contains k elevated && row_supports name (lookup k ls))
  unfolding evidence_for
  contains-evidence_for ls elevated name k =
      contains-sort_stable str_less k (filter (λ s. row_supports name (lookup s ls)) elevated)
      ∙ contains-filter (λ s. row_supports name (lookup s ls)) k elevated

  module _ (m : FloatMath F) (walk walk' : List F → List F) (b : BayesianAttributor F)
      (signals : List (String × F)) (k : String) where
    -- The posterior lists a signal exactly if it was observed at its threshold or above and speaks
    -- for the domain.
    abbrev pub IsSupported : Posterior F → Type 0
    IsSupported p =
        contains k p.evidence
        ≡ (is_observed k (lookup k signals) && row_supports p.domain (lookup k b.likelihoods))

    -- For signals with distinct names, as in a map, `Attribute` lists as evidence of each domain
    -- exactly those whose value reaches their threshold and whose likelihood in that domain is at
    -- least one half.
    pub attribute-evidence :
        Distinct (names signals) → All IsSupported (attribute m walk walk' b signals)
    unfolding attribute posteriors
    attribute-evidence distinct =
        let listed = λ (name : String).
          contains-evidence_for b.likelihoods (elevated_signals signals) name k
          ∙ ap (λ x. x && row_supports name (lookup k b.likelihoods))
              (contains-elevated_signals k signals distinct) in
        All-sort_stable more_probable IsSupported (posteriors m walk walk' b signals) (
          listed "network_dns",
          (
            listed "network_egress",
            (
              listed "cpu_throttle",
              (
                listed "memory_pressure",
                (
                  listed "provider_throttle",
                  (listed "provider_error", (listed "retrieval_backend", (listed "unknown", tt))),
                ),
              ),
            ),
          ),
        )
