-- ===== src/ReleaseGate/Ranks/MidRanks.antt =====
-- The ranks that the Mann-Whitney test of pkg/releasegate/gate.go gives out, against counts of the two
-- samples.
use llm_slo_e_bpf_toolkit.Prelude.{
  ℕ, zero, suc, ◌+◌, ◌-◌, ◌≤◌, ◌≡◌, refl, sym, ap, ◌∙◌, Bool, List, [], ◌∷◌, ◌++◌, length, take,
  drop, map, true, false, All, All-map, count_if, count_if-append, take-append-drop, length-take,
  length-drop, All-drop, All-append, arith,
}
use mathlib.Core.Path.{ap₂}
use mathlib.Core.List.{map-append}
use llm_slo_e_bpf_toolkit.Prelude.Int.{pos}
use llm_slo_e_bpf_toolkit.Prelude.Float64.{Float64, IsIeee, fle, flt}
use llm_slo_e_bpf_toolkit.Prelude.Sort.{
  Sorted, sort_stable-Sorted, All-sort_stable, count_if-sort_stable,
}
use llm_slo_e_bpf_toolkit.ReleaseGate.Ranks.{
  Point, replicate, run_length, tie_runs, ranks_of, average_rank, sorted_points,
}
use llm_slo_e_bpf_toolkit.ReleaseGate.Ranks.Ties.{
  map-replicate, map-All, count_if-map, lower, upto, IsNumber, IsUpto, IsTied, IsAbove,
  run_length-le, run_length_lem, tied_counts, above_counts,
}

module _ {F : Type 0} ⦃d : Float64 F⦄ where
  -- The mean of the first and the last rank of those that share one, `lo` ranks being below them.
  abbrev pub mean_rank : ℕ → ℕ → F
  mean_rank lo hi = d.fdiv (d.fadd (d.of_int (pos (lo + 1))) (d.of_int (pos hi))) (d.milli 2000)

  -- The values lower than one, or not greater, in both samples.
  abbrev pub lower_values : List F → List F → F → ℕ
  lower_values xs ys v = count_if (λ w. flt w v) xs + count_if (λ w. flt w v) ys

  abbrev pub upto_values : List F → List F → F → ℕ
  upto_values xs ys v = count_if (λ w. fle w v) xs + count_if (λ w. fle w v) ys

  module _ (laws : IsIeee d) where
    -- The rank of a value among points of which `i` more are lower.
    abbrev rank_from : ℕ → List (Point F) → F → F
    rank_from i ps v = mean_rank (i + lower v ps) (i + upto v ps)

    -- A run of ties and what follows it.
    run_ranks :
        (i : ℕ) (v : F) (ties above : List (Point F))
        → All (IsTied v) ties
        → All (IsAbove v) above
        → map (λ q. rank_from i (ties ++ above) q.value) (ties ++ above)
          ≡ replicate (length ties) (mean_rank i (i + length ties))
            ++ map (λ q. rank_from (i + length ties) above q.value) above
    run_ranks i v ties above ts as' =
        let f : Point F → F = λ q. rank_from i (ties ++ above) q.value in
        let g : Point F → F = λ q. rank_from (i + length ties) above q.value in
        let same_tied : (q : Point F) → IsTied v q → f q ≡ mean_rank i (i + length ties) = λ q t.
          let (none_lower, all_upto) = tied_counts laws v ties above q ts as' t in
          ap₂ mean_rank (omega (arith, none_lower)) (ap (λ n. i + n) all_upto) in
        let same_above : (q : Point F) → IsAbove v q → f q ≡ g q = λ q t.
          let (all_lower, all_upto) = above_counts laws v ties above q ts t in
          ap₂ mean_rank (omega (arith, all_lower)) (omega (arith, all_upto)) in
        map-append f ties above
        ∙ ap₂ (λ xs ys. xs ++ ys)
            (map-replicate f (mean_rank i (i + length ties)) ties
              (All-map (IsTied v) _ same_tied ties ts))
            (map-All f g above (All-map (IsAbove v) _ same_above above as'))

    Sorted-drop : (n : ℕ) (ps : List (Point F)) → Sorted IsUpto ps → Sorted IsUpto (drop n ps)
    Sorted-drop zero ps s = s
    Sorted-drop (suc n) [] s = tt
    Sorted-drop (suc n) (p ∷ ps) s = Sorted-drop n ps s.1

    tie_runs-ranks :
        (fuel i : ℕ) (ps : List (Point F))
        → length ps ≤ fuel
        → All IsNumber ps
        → Sorted IsUpto ps
        → ranks_of (tie_runs fuel i ps) ≡ map (λ q. rank_from i ps q.value) ps
    unfolding tie_runs ranks_of average_rank
    tie_runs-ranks fuel i [] h ns s = refl
    tie_runs-ranks zero i (p ∷ ps) h ns s = absurd (omega (arith, h))
    tie_runs-ranks (suc fuel) i (p ∷ ps) h (n, ns) (a, s) =
        let k = run_length p.value ps in
        let ties = p ∷ take k ps in
        let above = drop k ps in
        let whole : ties ++ above ≡ p ∷ ps = ap (λ l. p ∷ l) (take-append-drop k ps) in
        let (tied, apart) = run_length_lem laws p.value ps a s in
        let own : IsTied p.value p = ground arith in
        let size : length ties ≡ k + 1 =
          omega (arith, length-take k ps, run_length-le p.value ps) in
        let later =
          tie_runs-ranks fuel (i + 1 + k) above (omega (arith, h, length-drop k ps))
            (All-drop IsNumber k ps ns) (Sorted-drop k ps s) in
        let span : i + 1 + k - i ≡ length ties = omega (arith, size) in
        let stop : i + 1 + k ≡ i + length ties = omega (arith, size) in
        ap₂ (λ xs ys. xs ++ ys) (ap₂ replicate span (ap (mean_rank i) stop))
          (later ∙ ap (λ j. map (λ q. rank_from j above q.value) above) stop)
        ∙ sym (run_ranks i p.value ties above (own, tied) apart)
        ∙ ap (λ l. map (λ q. rank_from i l q.value) l) whole

    All-point :
        (b : Bool) (vs : List F)
        → All (λ v. fle v v ≡ true) vs
        → All IsNumber (map (λ v. record { value = v; in_x = b }) vs)
    All-point b [] ns = tt
    All-point b (v ∷ vs) (n, ns) = (n, All-point b vs ns)

    counted :
        (xs ys : List F) (t : F → Bool)
        → count_if (λ p. t p.value) (sorted_points xs ys) ≡ count_if t xs + count_if t ys
    unfolding sorted_points
    counted xs ys t =
        let px : F → Point F = λ v. record { value = v; in_x = true } in
        let py : F → Point F = λ v. record { value = v; in_x = false } in
        let test : Point F → Bool = λ p. t p.value in
        count_if-sort_stable _ test (map px xs ++ map py ys)
        ∙ omega (
          arith,
          count_if-append test (map px xs) (map py ys),
          count_if-map px test xs,
          count_if-map py test ys,
        )

    sorted_points-Sorted :
        (xs ys : List F)
        → All (λ v. fle v v ≡ true) xs
        → All (λ v. fle v v ≡ true) ys
        → All IsNumber (sorted_points xs ys) × Sorted IsUpto (sorted_points xs ys)
    unfolding sorted_points
    sorted_points-Sorted xs ys nx ny =
        let px : F → Point F = λ v. record { value = v; in_x = true } in
        let py : F → Point F = λ v. record { value = v; in_x = false } in
        let points = map px xs ++ map py ys in
        let numbers : All IsNumber points =
          All-append IsNumber (map px xs) (map py ys) (All-point true xs nx)
            (All-point false ys ny) in
        (
          All-sort_stable _ IsNumber points numbers,
          sort_stable-Sorted (λ p q. flt p.value q.value) IsNumber IsUpto
              (λ p q r u w. laws.le_trans p.value q.value r.value u w) (λ p q n k e. ground arith)
              (λ p q n k e. ground (arith, laws.le_total p.value q.value n k)) points numbers,
        )

    -- For floats that compare as IEEE 754 says and samples of numbers, the loop over the runs of equal
    -- values ends with the fuel that it has and gives every point of the two samples its rank: the mean
    -- of one more than the number of lower values and the number of values that are not greater.
    pub ranks_of-counts :
        (xs ys : List F)
        → All (λ v. fle v v ≡ true) xs
        → All (λ v. fle v v ≡ true) ys
        → let points = sorted_points xs ys in
          ranks_of (tie_runs (length points) 0 points)
          ≡ map (λ p. mean_rank (lower_values xs ys p.value) (upto_values xs ys p.value)) points
    ranks_of-counts xs ys nx ny =
        let points = sorted_points xs ys in
        let (numbers, sorted) = sorted_points-Sorted xs ys nx ny in
        let f : Point F → F = λ p. rank_from 0 points p.value in
        let g : Point F → F =
          λ p. mean_rank (lower_values xs ys p.value) (upto_values xs ys p.value) in
        let same : (p : Point F) → IsNumber p → f p ≡ g p = λ p n.
          ap₂ mean_rank (omega (arith, counted xs ys (λ w. flt w p.value)))
            (omega (arith, counted xs ys (λ w. fle w p.value))) in
        tie_runs-ranks (length points) 0 points (omega arith) numbers sorted
        ∙ map-All f g points (All-map IsNumber _ same points numbers)
