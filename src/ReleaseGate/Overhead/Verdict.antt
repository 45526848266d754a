-- ===== src/ReleaseGate/Overhead/Verdict.antt =====
-- When the overhead gate of pkg/releasegate/gate.go passes.
use llm_slo_e_bpf_toolkit.Prelude.{
  ◌≡◌, refl, ap, ◌∙◌, Bool, true, false, not, ◌&&◌, String, str_eq, eq_iff, List, [], ◌∷◌, ◌++◌,
  map, filter, Option, none, some, lookup, All, count_if, length, suc, ◌==◌, ◌≤◌, ◌<◌, ℕ,
  Bool-cases, inl, inr, if◌then◌else◌, arith,
}
use mathlib.Core.List.{append-nil, append_assoc}
use llm_slo_e_bpf_toolkit.Prelude.Float64.{Float64, IsIeee, fle, fgt}
use llm_slo_e_bpf_toolkit.Prelude.FloatMath.{FloatMath}
use llm_slo_e_bpf_toolkit.ReleaseGate.Statistics.{mean}
use llm_slo_e_bpf_toolkit.ReleaseGate.Inputs.{CollectorCpuSample}
use llm_slo_e_bpf_toolkit.ReleaseGate.Overhead.{
  Collected, nothing_collected, append_value, add_sample, add_samples, node_p95, worst_node,
  overhead_verdict,
}

module _ {F : Type 0} where
  abbrev is_at : String → CollectorCpuSample F → Bool
  is_at node s = str_eq s.node node

  -- The values of one node among the samples, in their order.
  abbrev pub values_of : String → List (CollectorCpuSample F) → List F
  values_of node samples = map (λ (s : CollectorCpuSample F). s.cpu) (filter (is_at node) samples)

  abbrev pub found_values : Option (List F) → List F
  found_values none = []
  found_values (some values) = values

  lookup-append_value :
      (node key : String) (cpu : F) (groups : List (String × List F))
      → found_values (lookup key (append_value node cpu groups)) ≡ (
          if str_eq node key
          then found_values (lookup key groups) ++ (cpu ∷ [])
          else found_values (lookup key groups))
  unfolding append_value lookup
  lookup-append_value node key cpu [] = ground arith
  lookup-append_value node key cpu (g ∷ groups) = ground (
    arith,
    lookup-append_value node key cpu groups,
    eq_iff g.0 node,
    eq_iff g.0 key,
    eq_iff node key,
  )

  add_samples-values :
      (key : String) (c : Collected F) (samples : List (CollectorCpuSample F))
      → found_values (lookup key (add_samples c samples).by_node)
        ≡ found_values (lookup key c.by_node) ++ values_of key samples
  unfolding add_samples add_sample
  add_samples-values key c [] = rw append-nil
  add_samples-values key c (s ∷ rest) = elim (Bool-cases (str_eq s.node key)) [
    | inl here ↦ rw here (
        add_samples-values key (add_sample c s) rest
        ∙ ap (λ l. l ++ values_of key rest)
            (lookup-append_value s.node key s.cpu c.by_node ∙ rw here refl)
        ∙ append_assoc (found_values (lookup key c.by_node)) (s.cpu ∷ []) (values_of key rest))
    | inr other ↦ rw other (
        add_samples-values key (add_sample c s) rest
        ∙ ap (λ l. l ++ values_of key rest)
            (lookup-append_value s.node key s.cpu c.by_node ∙ rw other refl))
  ]

  -- Groups without a name.
  abbrev unnamed : List (String × List F) → ℕ
  unnamed = count_if λ g. str_eq g.0 ""

  append_value-named :
      (node : String) (cpu : F) (groups : List (String × List F))
      → str_eq node "" ≡ false
      → unnamed groups ≡ 0
      → unnamed (append_value node cpu groups) ≡ 0
  unfolding append_value
  append_value-named node cpu [] n u = ground arith
  append_value-named node cpu (g ∷ groups) n u =
      ground (arith, append_value-named node cpu groups n)

  abbrev pub IsNamed : CollectorCpuSample F → Type 0
  IsNamed s = str_eq s.node "" ≡ false

  add_samples-named :
      (c : Collected F) (samples : List (CollectorCpuSample F))
      → All IsNamed samples
      → unnamed c.by_node ≡ 0
      → unnamed (add_samples c samples).by_node ≡ 0
  unfolding add_samples add_sample
  add_samples-named c [] a u = u
  add_samples-named c (s ∷ rest) (n, ns) u =
      add_samples-named (add_sample c s) rest ns (append_value-named s.node s.cpu c.by_node n u)

  -- The groups keep at least one member.
  append_value-some :
      (node : String) (cpu : F) (groups : List (String × List F))
      → 0 < length (append_value node cpu groups)
  unfolding append_value
  append_value-some node cpu [] = omega arith
  append_value-some node cpu (g ∷ groups) = ground arith

  append_value-more :
      (node : String) (cpu : F) (groups : List (String × List F))
      → length groups ≤ length (append_value node cpu groups)
  unfolding append_value
  append_value-more node cpu [] = omega arith
  append_value-more node cpu (g ∷ groups) = ground (arith, append_value-more node cpu groups)

  add_samples-more :
      (c : Collected F) (samples : List (CollectorCpuSample F))
      → length c.by_node ≤ length (add_samples c samples).by_node
  unfolding add_samples add_sample
  add_samples-more c [] = omega arith
  add_samples-more c (s ∷ rest) =
      omega
        (arith, add_samples-more (add_sample c s) rest, append_value-more s.node s.cpu c.by_node)

module _ {F : Type 0} ⦃d : Float64 F⦄ (m : FloatMath F) where
  -- The nodes whose 95th percentile is above the limit, and those where it is no number.
  abbrev pub exceeding : F → List (String × List F) → ℕ
  exceeding limit = count_if λ g. not (fle (node_p95 m g) limit)

  abbrev pub no_numbers : List (String × List F) → ℕ
  no_numbers = count_if λ g. not (fle (node_p95 m g) (node_p95 m g))

module _ {F : Type 0} ⦃d : Float64 F⦄ (m : FloatMath F) (laws : IsIeee d) (limit : F) where
  larger :
      (w p : F)
      → fle w w ≡ true
      → fle p p ≡ true
      → fle (if fgt p w then p else w) limit ≡ (fle w limit && fle p limit)
  larger w p nw np =
      ground (arith, laws.le_total w p nw np, laws.le_trans w p limit, laws.le_trans p w limit)

  worst_node_lem :
      (n : String) (w : F) (groups : List (String × List F))
      → str_eq n "" ≡ false
      → fle w w ≡ true
      → unnamed groups ≡ 0
      → no_numbers m groups ≡ 0
      → fle (worst_node m (n, w) groups).1 limit ≡ (fle w limit && (exceeding m limit groups == 0))
  unfolding worst_node
  worst_node_lem n w [] named number u x = ground arith
  worst_node_lem n w (g ∷ groups) named number u x =
      let p = node_p95 m g in
      let valid : fle p p ≡ true = ground arith in
      let named' : str_eq g.0 "" ≡ false = ground arith in
      elim (Bool-cases (fgt p w)) [
        | inl more ↦
            rw (named, more, worst_node)
              (ground (arith, worst_node_lem g.0 p groups named' valid, larger w p number valid))
        | inr less ↦
            rw (named, less, worst_node)
              (ground (arith, worst_node_lem n w groups named number, larger w p number valid))
      ]

  worst_node_first :
      (groups : List (String × List F))
      → 0 < length groups
      → unnamed groups ≡ 0
      → no_numbers m groups ≡ 0
      → fle (worst_node m ("", d.milli 0) groups).1 limit ≡ (exceeding m limit groups == 0)
  unfolding worst_node
  worst_node_first [] h u x = absurd (omega (arith, h))
  worst_node_first (g ∷ groups) h u x =
      let p = node_p95 m g in ground (arith, worst_node_lem g.0 p groups)

length-count_if : {A : Type 0} (xs : List A) → count_if (λ _. true) xs ≡ length xs
length-count_if [] = refl
length-count_if (x ∷ xs) = ap suc (length-count_if xs)

module _ {F : Type 0} ⦃d : Float64 F⦄ (m : FloatMath F) (laws : IsIeee d)
    (walk : List (String × List F) → List (String × List F))
    (reorders : (test : String × List F → Bool) (groups : List (String × List F))
      → count_if test (walk groups) ≡ count_if test groups) where
  some_groups :
      (s : CollectorCpuSample F) (samples : List (CollectorCpuSample F))
      → 0 < length (walk (add_samples nothing_collected (s ∷ samples)).by_node)
  unfolding add_samples add_sample
  some_groups s samples =
      let c : Collected F = nothing_collected in
      let groups = (add_samples (add_sample c s) samples).by_node in
      omega (
        arith,
        length-count_if groups,
        length-count_if (walk groups),
        reorders (λ _. true) groups,
        add_samples-more (add_sample c s) samples,
        append_value-some s.node s.cpu c.by_node,
      )

  -- For floats that compare as IEEE 754 says, samples with named nodes, and percentiles that are
  -- numbers, the gate passes exactly when no node has a 95th percentile above the limit and the mean of
  -- all samples is not above it, in whatever order Go walks the nodes. The values of a node are those
  -- of its samples in their order.
  pub overhead_verdict-pass :
      (limit : F) (s : CollectorCpuSample F) (samples : List (CollectorCpuSample F)) (key : String)
      → All IsNamed (s ∷ samples)
      → let c = add_samples nothing_collected (s ∷ samples) in
        no_numbers m c.by_node ≡ 0
        → ((overhead_verdict m walk limit c).pass
            ≡ ((exceeding m limit c.by_node == 0) && fle (mean c.all_values) limit))
          × (found_values (lookup key c.by_node) ≡ values_of key (s ∷ samples))
  unfolding overhead_verdict lookup
  overhead_verdict-pass limit s samples key named numbers =
      let start : Collected F = nothing_collected in
      let c = add_samples start (s ∷ samples) in
      let first =
        worst_node_first m laws limit (walk c.by_node) (some_groups s samples)
          (reorders (λ g. str_eq g.0 "") c.by_node
            ∙ add_samples-named start (s ∷ samples) named refl)
          (reorders (λ g. not (fle (node_p95 m g) (node_p95 m g))) c.by_node ∙ numbers) in
      (
        ap (λ b. b && fle (mean c.all_values) limit)
            (first ∙ ap (λ n. n == 0) (reorders (λ g. not (fle (node_p95 m g) limit)) c.by_node)),
        add_samples-values key start (s ∷ samples),
      )
