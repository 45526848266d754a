-- ===== src/ReleaseGate/Ranks.antt =====
-- The Mann-Whitney test of pkg/releasegate/gate.go. `sort.Slice` may order points of equal value in
-- any way; they share their rank, so the stable order stands for all if no value is NaN. The loop
-- over the runs of equal values takes fuel: each run has a point, so as much as there are points is
-- enough.
pub mod MidRanks
pub mod Ties
use llm_slo_e_bpf_toolkit.Prelude.{
  ℕ, zero, suc, ◌+◌, ◌-◌, ◌*◌, Bool, true, false, ◌||◌, List, [], ◌∷◌, ◌++◌, map, length, drop,
  ◌==◌, if◌then◌else◌,
}
use llm_slo_e_bpf_toolkit.Prelude.Int.{pos}
use llm_slo_e_bpf_toolkit.Prelude.Float64.{Float64, fle, flt, fgt, feq}
use llm_slo_e_bpf_toolkit.Prelude.FloatMath.{FloatMath}
use llm_slo_e_bpf_toolkit.Prelude.Sort.{sort_stable}
use llm_slo_e_bpf_toolkit.ReleaseGate.Statistics.{normal_cdf}

-- The group is that of `x` or of `y`.
pub record Point (F : Type 0) : Type 0 where
  pub value : F
  pub in_x : Bool

-- The points from `start` up to but not including `stop`.
pub record Run : Type 0 where
  pub start : ℕ
  pub stop : ℕ

abbrev pub replicate {ℓ} : {A : Type ℓ} → ℕ → A → List A
replicate zero x = []
replicate (suc n) x = x ∷ replicate n x

module _ {F : Type 0} ⦃d : Float64 F⦄ where
  unfoldable pub sorted_points : List F → List F → List (Point F)
  sorted_points xs ys =
      sort_stable (λ p q. flt p.value q.value)
        (map (λ v. record { value = v; in_x = true }) xs
          ++ map (λ v. record { value = v; in_x = false }) ys)

  -- How many points at the front have a value.
  unfoldable pub run_length : F → List (Point F) → ℕ
  run_length v [] = 0
  run_length v (p ∷ ps) = let more = suc (run_length v ps) in if feq p.value v then more else 0

  -- The runs of equal values, from an index on.
  unfoldable pub tie_runs : ℕ → ℕ → List (Point F) → List Run
  tie_runs fuel i [] = []
  tie_runs zero i (p ∷ ps) = []
  tie_runs (suc fuel) i (p ∷ ps) =
      let n = run_length p.value ps in
      record { start = i; stop = i + 1 + n } ∷ tie_runs fuel (i + 1 + n) (drop n ps)

  unfoldable pub average_rank : Run → F
  average_rank r =
      d.fdiv (d.fadd (d.of_int (pos (r.start + 1))) (d.of_int (pos r.stop))) (d.milli 2000)

  unfoldable pub ranks_of : List Run → List F
  ranks_of [] = []
  ranks_of (r ∷ rs) = replicate (r.stop - r.start) (average_rank r) ++ ranks_of rs

  unfoldable pub tie_sum : F → List Run → F
  tie_sum sum [] = sum
  tie_sum sum (r ∷ rs) =
      let t = d.of_int (pos (r.stop - r.start)) in
      tie_sum (if fgt t (d.milli 1000) then d.fadd sum (d.fsub (d.fmul (d.fmul t t) t) t) else sum)
        rs

  -- The sum of the ranks of the points of `x`.
  unfoldable pub rank_sum : F → List (Point F) → List F → F
  rank_sum sum [] ranks = sum
  rank_sum sum (p ∷ ps) [] = sum
  rank_sum sum (p ∷ ps) (r ∷ ranks) = rank_sum (if p.in_x then d.fadd sum r else sum) ps ranks

  abbrev pub min_float : F → F → F
  min_float x y = if flt x y then x else if fle x x then y else x

  module _ (m : FloatMath F) where
    -- The p-value from the sum of the ranks, the tie correction and the sizes.
    unfoldable pub p_value : F → F → F → F → F
    p_value rank_x ties nx ny =
        let one = d.milli 1000 in
        let two = d.milli 2000 in
        let u1 = d.fsub rank_x (d.fdiv (d.fmul nx (d.fadd nx one)) two) in
        let u2 = d.fsub (d.fmul nx ny) u1 in
        let n = d.fadd nx ny in
        let mean_u = d.fdiv (d.fmul nx ny) two in
        let variance_u =
          d.fmul (d.fdiv (d.fmul nx ny) (d.milli 12_000))
            (d.fsub (d.fadd n one) (d.fdiv ties (d.fmul n (d.fsub n one)))) in
        let z = d.fsub (min_float u1 u2) mean_u in
        let shifted =
          if fgt z (d.milli 0) then d.fsub z (d.milli 500) else d.fadd z (d.milli 500) in
        let score = d.fdiv shifted (m.fsqrt variance_u) in
        let p = d.fmul two (d.fsub one (normal_cdf m (d.fabs score))) in
        if fle variance_u (d.milli 0)
        then one
        else if flt p (d.milli 0)
        then d.milli 0
        else if fgt p one
        then one
        else p

    unfoldable pub mann_whitney_p_value : List F → List F → F
    mann_whitney_p_value xs ys =
        let points = sorted_points xs ys in
        let runs = tie_runs (length points) 0 points in
        if length xs == 0 || length ys == 0
        then d.milli 1000
        else p_value (rank_sum (d.milli 0) points (ranks_of runs)) (tie_sum (d.milli 0) runs)
            (d.of_int (pos (length xs))) (d.of_int (pos (length ys)))
