-- ===== src/Attribution/Bayesian/Ranking.antt =====
-- The order of the posteriors of pkg/attribution/bayesian.go, and what an attribution takes of them.
use llm_slo_e_bpf_toolkit.Prelude.{
  ◌≡◌, ◌≢◌, refl, sym, ap, ◌∙◌, ℕ, Bool, true, not, ◌&&◌, String, str_eq, List, [], ◌∷◌, length,
  suc, count_if, All, arith,
}
use mathlib.Core.Path.{subst}
use llm_slo_e_bpf_toolkit.Prelude.Float64.{Float64, IsIeee, fle, flt}
use llm_slo_e_bpf_toolkit.Prelude.FloatMath.{FloatMath}
use llm_slo_e_bpf_toolkit.Prelude.Sort.{
  count_if-sort_stable, length-sort_stable, Sorted, sort_stable-Sorted, All-sort_stable,
}
use llm_slo_e_bpf_toolkit.Schema.{IncidentAttribution}
use llm_slo_e_bpf_toolkit.Attribution.Mapper.{FaultSample, build_attribution}
use llm_slo_e_bpf_toolkit.Attribution.Bayesian.{
  all_domains, BayesianAttributor, Posterior, posteriors, more_probable, attribute, hypotheses,
  override_top, attribute_signals, attribute_sample,
}

module _ {F : Type 0} ⦃d : Float64 F⦄ where
  -- The probability is a number, not NaN.
  abbrev pub IsNumber : Posterior F → Type 0
  IsNumber p = fle p.posterior p.posterior ≡ true

  -- The second is not more probable than the first.
  abbrev pub AtLeast : Posterior F → Posterior F → Type 0
  AtLeast p q = fle q.posterior p.posterior ≡ true

  module _ (laws : IsIeee d) (m : FloatMath F) (walk walk' : List F → List F)
      (b : BayesianAttributor F) (signals : List (String × F)) where
    attribute-Sorted :
        All IsNumber (posteriors m walk walk' b signals)
        → Sorted AtLeast (attribute m walk walk' b signals)
    unfolding attribute
    attribute-Sorted numbers =
        sort_stable-Sorted more_probable IsNumber AtLeast
          (λ x y z p q. laws.le_trans z.posterior y.posterior x.posterior q p)
          (λ x y p q e. ground arith)
          (λ x y p q e. ground (arith, laws.le_total x.posterior y.posterior p q))
          (posteriors m walk walk' b signals) numbers

    domains_counted :
        (test : String → Bool)
        → count_if (λ p. test p.domain) (attribute m walk walk' b signals)
          ≡ count_if test all_domains
    unfolding attribute posteriors
    domains_counted test =
        count_if-sort_stable more_probable (λ p. test p.domain) (posteriors m walk walk' b signals)

    -- Each domain has one posterior, and if the posteriors are numbers they never rise along the
    -- list, for floats that compare as IEEE 754 says and whatever order Go walks its maps in.
    pub attribute-ranks :
        All IsNumber (posteriors m walk walk' b signals)
        → (name : String)
        → (count_if (λ p. str_eq p.domain name) (attribute m walk walk' b signals)
            ≡ count_if (λ n. str_eq n name) all_domains)
          × Sorted AtLeast (attribute m walk walk' b signals)
    attribute-ranks numbers name = (domains_counted (λ n. str_eq n name), attribute-Sorted numbers)

first_of_many :
    {A : Type 0} (xs : List A) (n : ℕ)
    → length xs ≡ suc n
    → (x : A) × (rest : List A) × (xs ≡ x ∷ rest)
first_of_many [] n h = absurd (omega (arith, h))
first_of_many (x ∷ rest) n h = (x, rest, refl)

module _ {F : Type 0} ⦃d : Float64 F⦄ where
  count_if-hypotheses :
      (name : String) (ps : List (Posterior F))
      → count_if (λ h. str_eq h.domain name) (hypotheses ps)
        ≡ count_if (λ p. not (flt p.posterior (d.milli 10)) && str_eq p.domain name) ps
  unfolding hypotheses
  count_if-hypotheses name [] = refl
  count_if-hypotheses name (p ∷ ps) = ground (arith, count_if-hypotheses name ps)

  All-AtLeast :
      (p : Posterior F) (rest : List (Posterior F))
      → IsNumber p
      → Sorted AtLeast (p ∷ rest)
      → All (AtLeast p) (p ∷ rest)
  All-AtLeast p rest n s = (n, s.0)

  module _ (laws : IsIeee d) (m : FloatMath F) (walk walk' : List F → List F)
      (b : BayesianAttributor F) (sample : FaultSample F) where
    abbrev ranking : List (Posterior F)
    ranking = attribute m walk walk' b sample.signals

    attribute_signals_lem :
        (base : IncidentAttribution F) (signals : List (String × F))
        → signals ≢ []
        → attribute_signals m walk walk' b base signals ≡ (
            let ps = attribute m walk walk' b signals in
            override_top (record base { fault_hypotheses = hypotheses ps }) ps)
    unfolding attribute_signals
    attribute_signals_lem base [] h = absurd (h refl)
    attribute_signals_lem base (s ∷ rest) h = refl

    ranking_first : (p : Posterior F) × (rest : List (Posterior F)) × (ranking ≡ p ∷ rest)
    unfolding attribute posteriors
    ranking_first =
        first_of_many ranking 7
          (length-sort_stable more_probable (posteriors m walk walk' b sample.signals))

    counted :
        (name : String)
        → count_if (λ h. str_eq h.domain name) (hypotheses ranking)
          ≡ count_if
              (λ p. not (flt p.posterior (d.milli 10)) && str_eq p.domain name)
              (posteriors m walk walk' b sample.signals)
    unfolding attribute
    counted name =
        count_if-hypotheses name ranking
        ∙ count_if-sort_stable more_probable
            (λ q. not (flt q.posterior (d.milli 10)) && str_eq q.domain name)
            (posteriors m walk walk' b sample.signals)

    ranking-numbers : All IsNumber (posteriors m walk walk' b sample.signals) → All IsNumber ranking
    unfolding attribute
    ranking-numbers =
        All-sort_stable more_probable IsNumber (posteriors m walk walk' b sample.signals)

    top-AtLeast :
        (p : Posterior F) (rest : List (Posterior F))
        → All IsNumber (posteriors m walk walk' b sample.signals)
        → ranking ≡ p ∷ rest
        → All (AtLeast p) (p ∷ rest)
    top-AtLeast p rest numbers first =
        All-AtLeast p rest (subst (All IsNumber) first (ranking-numbers numbers)).0 (
          subst (Sorted AtLeast) first
            (attribute-Sorted laws m walk walk' b sample.signals numbers))

    -- For a sample with signals whose posteriors are numbers, the prediction and its confidence are
    -- those of one entry of the ranking, and no domain has a larger posterior. The hypotheses are
    -- the domains whose posterior is not below 0.01, each as often as it is among the posteriors, and
    -- incident, evidence and impact are those of the rule.
    pub attribute_sample-IsMostProbable :
        sample.signals ≢ []
        → All IsNumber (posteriors m walk walk' b sample.signals)
        → (name : String)
        → let r = attribute_sample m walk walk' b sample in
          ((p : Posterior F) × (rest : List (Posterior F)) × (attribute m walk walk' b
                sample.signals
              ≡ p ∷ rest)
            × (r.predicted_fault_domain ≡ p.domain)
            × (r.confidence ≡ p.posterior)
            × All (AtLeast p) (p ∷ rest))
          × (count_if (λ h. str_eq h.domain name) r.fault_hypotheses
              ≡ count_if
                  (λ p. not (flt p.posterior (d.milli 10)) && str_eq p.domain name)
                  (posteriors m walk walk' b sample.signals))
          × (r.incident_id ≡ sample.incident_id)
          × (r.evidence ≡ (build_attribution sample).evidence)
    unfolding attribute_sample override_top build_attribution
    attribute_sample-IsMostProbable some_signals numbers name =
        let (p, rest, first) = ranking_first in
        let base = build_attribution sample in
        let most = top-AtLeast p rest numbers first in
        let count =
          sym (ap (λ l. count_if (λ h. str_eq h.domain name) (hypotheses l)) first)
          ∙ counted name in
        rw (attribute_signals_lem base sample.signals some_signals, first)
          ((p, rest, refl, refl, refl, most), count, refl, refl)

module _ {F : Type 0} ⦃d : Float64 F⦄ (m : FloatMath F) (walk walk' : List F → List F) where
  pub attribute_sample_no_signals :
      (b : BayesianAttributor F) (s : FaultSample F)
      → s.signals ≡ []
      → attribute_sample m walk walk' b s ≡ build_attribution s
  unfolding attribute_sample attribute_signals
  attribute_sample_no_signals b s e = ap (attribute_signals m walk walk' b (build_attribution s)) e
