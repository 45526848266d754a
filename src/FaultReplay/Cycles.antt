-- ===== src/FaultReplay/Cycles.antt =====
-- The samples of pkg/faultreplay/generator.go, whose faults go round in a cycle.
use native.Mathlib.Nat.{mod-lt}
use llm_slo_e_bpf_toolkit.Prelude.{
  ℕ, zero, suc, ◌+◌, ◌%◌, ◌<◌, ◌≡◌, refl, sym, ap, ◌∙◌, String, List, [], ◌∷◌, map, length, All,
  arith,
}
use mathlib.Core.Path.{ap₂}
use llm_slo_e_bpf_toolkit.Prelude.Float64.{Float64}
use llm_slo_e_bpf_toolkit.Prelude.Time.{Time}
use llm_slo_e_bpf_toolkit.Collector.Samples.{label_at}
use llm_slo_e_bpf_toolkit.Attribution.Mapper.{FaultSample, map_fault_label, build_attribution}
use llm_slo_e_bpf_toolkit.Attribution.Pipeline.{actual_domain}
use llm_slo_e_bpf_toolkit.FaultReplay.{
  mixed_pairs, pair_at, unique_domains, first_or_unknown, single_sample, mixed_sample, samples_from,
}

-- As many domains from an index on, round and round.
abbrev pub rotate : List String → ℕ → ℕ → List String
rotate cycle idx zero = []
rotate cycle idx (suc n) = label_at cycle (idx % length cycle) ∷ rotate cycle (idx + 1) n

label_at-map :
    (labels : List String) (i : ℕ)
    → i < length labels
    → map_fault_label (label_at labels i) ≡ label_at (map map_fault_label labels) i
unfolding label_at
label_at-map [] i h = absurd (omega (arith, h))
label_at-map (l ∷ ls) zero h = refl
label_at-map (l ∷ ls) (suc i) h = label_at-map ls i (omega (arith, h))

module _ {F : Type 0} ⦃d : Float64 F⦄ where
  -- The sample has no signals, and its label and its expected domain both mean the domain.
  abbrev IsOf : String → FaultSample F → Type 0
  IsOf domain s =
      (s.signals ≡ []) × (map_fault_label s.fault_label ≡ domain) × (actual_domain s ≡ domain)

  abbrev pub IsCycle : List String → (ℕ → FaultSample F) → Type 0
  IsCycle cycle make = (i : ℕ) → IsOf (label_at cycle (i % length cycle)) (make i)

length-map : {A B : Type 0} (f : A → B) (xs : List A) → length (map f xs) ≡ length xs
length-map f [] = refl
length-map f (x ∷ xs) = ap suc (length-map f xs)

-- The domains of the first faults of the pairs.
abbrev pub pair_domains : List String
pair_domains = "provider_throttle" ∷ "cpu_throttle" ∷ "network_egress" ∷ "provider_throttle" ∷ []

pair_at-mixed_pairs :
    (k : ℕ)
    → k < 4
    → let pair = pair_at mixed_pairs k in
      let both = map_fault_label pair.0 ∷ map_fault_label pair.1 ∷ [] in
      (map_fault_label pair.0 ≡ label_at pair_domains k)
      × (first_or_unknown (unique_domains both) ≡ label_at pair_domains k)
unfolding pair_at label_at map_fault_label unique_domains
pair_at-mixed_pairs zero h = (refl, refl)
pair_at-mixed_pairs (suc zero) h = (refl, refl)
pair_at-mixed_pairs (suc (suc zero)) h = (refl, refl)
pair_at-mixed_pairs (suc (suc (suc zero))) h = (refl, refl)
pair_at-mixed_pairs (suc (suc (suc (suc k)))) h = absurd (omega (arith, h))

module _ (F : Type 0) ⦃d : Float64 F⦄ (format4 : ℕ → String) (start : Time) where
  single_sample_lem :
      (labels : List String) (i : ℕ)
      → let s = single_sample {F = F} format4 labels start i in
        (s.fault_label ≡ label_at labels (i % length labels))
        × (actual_domain s ≡ map_fault_label s.fault_label)
  unfolding single_sample actual_domain
  single_sample_lem labels i = (refl, ground arith)

  pub single_sample-IsCycle :
      (labels : List String)
      → 0 < length labels
      → IsCycle (map map_fault_label labels) (single_sample {F = F} format4 labels start)
  unfolding single_sample
  single_sample-IsCycle labels h i =
      let (label, actual) = single_sample_lem labels i in
      let meant =
        ap map_fault_label label
        ∙ label_at-map labels (i % length labels) (mod-lt i h)
        ∙ ap (λ n. label_at (map map_fault_label labels) (i % n))
            (sym (length-map map_fault_label labels)) in
      (refl, meant, actual ∙ meant)

  mixed_sample_lem :
      (i : ℕ)
      → let s = mixed_sample {F = F} format4 start i in
        let pair = pair_at mixed_pairs (i % 4) in
        let both = map_fault_label pair.0 ∷ map_fault_label pair.1 ∷ [] in
        (s.fault_label ≡ pair.0) × (s.expected_domain ≡ first_or_unknown (unique_domains both))
  unfolding mixed_sample
  mixed_sample_lem i = (refl, refl)

  pub mixed_sample-IsCycle : IsCycle pair_domains (mixed_sample {F = F} format4 start)
  unfolding mixed_sample actual_domain
  mixed_sample-IsCycle i =
      let (meant, first) = pair_at-mixed_pairs (i % 4) (mod-lt i (omega arith)) in
      (refl, meant, ground (arith, meant, first))

  -- What the loop makes of a cycle.
  pub samples_from-rotate :
      (cycle : List String) (make : ℕ → FaultSample F)
      → IsCycle cycle make
      → (idx n : ℕ)
      → let ss = samples_from make idx n in
        All (λ s. s.signals ≡ []) ss
        × (length ss ≡ n)
        × (map actual_domain ss ≡ rotate cycle idx n)
        × (map (λ (s : FaultSample F). (build_attribution s).predicted_fault_domain) ss
            ≡ rotate cycle idx n)
  unfolding samples_from build_attribution
  samples_from-rotate cycle make made idx zero = (tt, refl, refl, refl)
  samples_from-rotate cycle make made idx (suc n) =
      let (none_set, meant, actual) = made idx in
      let (all_unset, size, actuals, predicted) = samples_from-rotate cycle make made (idx + 1) n in
      (
        (none_set, all_unset),
        ap suc size,
        ap₂ (λ x xs. x ∷ xs) actual actuals,
        ap₂ (λ x xs. x ∷ xs) meant predicted,
      )
