-- ===== src/ReleaseGate/Statistics.antt =====
-- The statistics of pkg/releasegate/gate.go: quantiles, means, variances, Cliff's delta, bootstrap.
pub mod Dominance
use llm_slo_e_bpf_toolkit.Prelude.{
  ℕ, zero, suc, ◌+◌, ◌-◌, ◌*◌, Bool, not, ◌&&◌, ◌||◌, List, [], ◌∷◌, ◌++◌, map, length, ltb, ◌==◌,
  if◌then◌else◌,
}
use llm_slo_e_bpf_toolkit.Prelude.Int.{ℤ, pos, negsuc, eqb_ℤ, ltb_ℤ, leb_ℤ}
use llm_slo_e_bpf_toolkit.Prelude.Float64.{Float64, fle, flt, fgt, fge, feq}
use llm_slo_e_bpf_toolkit.Prelude.FloatMath.{FloatMath}
use llm_slo_e_bpf_toolkit.Prelude.Sort.{sort_stable}

-- The verdicts of one comparison of two samples: how often the first is the greater or the lower.
pub record Tally : Type 0 where
  pub greater : ℕ
  pub lower : ℕ

abbrev pub no_tally : Tally
no_tally = record { greater = 0; lower = 0 }

module _ {F : Type 0} ⦃d : Float64 F⦄ where
  -- The order of `sort.Float64s`, in which NaN comes first.
  abbrev pub before_float : F → F → Bool
  before_float x y = flt x y || (not (fle x x) && fle y y)

  unfoldable pub sort_floats : List F → List F
  sort_floats values = sort_stable before_float values

  -- `values[i]`; the code panics where this reads 0 beyond the ends.
  unfoldable pub at_index : List F → ℤ → F
  at_index values (negsuc n) = d.milli 0
  at_index [] (pos n) = d.milli 0
  at_index (v ∷ values) (pos zero) = v
  at_index (v ∷ values) (pos (suc n)) = at_index values (pos n)

  unfoldable pub sum_values : F → List F → F
  sum_values sum [] = sum
  sum_values sum (v ∷ values) = sum_values (d.fadd sum v) values

  unfoldable pub mean : List F → F
  unfolding sum_values
  mean values =
      if length values == 0
      then d.milli 0
      else d.fdiv (sum_values (d.milli 0) values) (d.of_int (pos (length values)))

  unfoldable pub sum_squares : F → F → List F → F
  sum_squares m acc [] = acc
  sum_squares m acc (v ∷ values) =
      let delta = d.fsub v m in sum_squares m (d.fadd acc (d.fmul delta delta)) values

  unfoldable pub larger_of : F → List F → F
  larger_of best [] = best
  larger_of best (v ∷ values) = larger_of (if fgt v best then v else best) values

  unfoldable pub max_float : List F → F
  unfolding larger_of
  max_float [] = d.milli 0
  max_float (v ∷ values) = larger_of v values

  unfoldable pub compare_one : F → F → Tally → Tally
  compare_one x y t =
      if fgt x y
      then record t { greater = t.greater + 1 }
      else if flt x y
      then record t { lower = t.lower + 1 }
      else t

  -- The inner loop of `cliffsDelta`, for one `xv`.
  unfoldable pub compare_all : F → List F → Tally → Tally
  compare_all x [] t = t
  compare_all x (y ∷ ys) t = compare_all x ys (compare_one x y t)

  -- The outer loop.
  unfoldable pub dominance : List F → List F → Tally → Tally
  dominance [] ys t = t
  dominance (x ∷ xs) ys t = dominance xs ys (compare_all x ys t)

  unfoldable pub cliffs_delta : List F → List F → F
  cliffs_delta xs ys =
      let t = dominance xs ys no_tally in
      if length xs == 0 || length ys == 0
      then d.milli 0
      else d.fdiv (d.fsub (d.of_int (pos t.greater)) (d.of_int (pos t.lower)))
          (d.of_int (pos (length xs * length ys)))

  module _ (m : FloatMath F) where
    -- Between two neighbours of the sorted values.
    unfoldable pub interpolate : List F → F → F
    interpolate sorted position =
        let lo = m.floor position in
        let hi = m.ceil position in
        let frac = d.fsub position (d.of_int lo) in
        if eqb_ℤ lo hi
        then at_index sorted lo
        else d.fadd (d.fmul (at_index sorted lo) (d.fsub (d.milli 1000) frac))
            (d.fmul (at_index sorted hi) frac)

    abbrev pub clamp_unit : F → F
    clamp_unit q =
        let low = if fle q (d.milli 0) then d.milli 0 else q in
        if fge low (d.milli 1000) then d.milli 1000 else low

    unfoldable pub quantile : List F → F → F
    quantile values q =
        let sorted = sort_floats values in
        if length values == 0
        then d.milli 0
        else if length sorted == 1
        then at_index sorted (pos 0)
        else interpolate sorted (d.fmul (clamp_unit q) (d.of_int (pos (length sorted - 1))))

    unfoldable pub stddev : List F → F
    stddev values =
        if ltb 1 (length values)
        then m.fsqrt (
            d.fdiv (sum_squares (mean values) (d.milli 0) values)
              (d.of_int (pos (length values - 1))))
        else d.milli 0

    unfoldable pub coefficient_of_variance_pct : List F → F
    coefficient_of_variance_pct values =
        let average = mean values in
        if feq average (d.milli 0)
        then d.milli 0
        else d.fmul (d.fdiv (stddev values) average) (d.milli 100_000)

    -- `0.5 * (1 + math.Erf(z/math.Sqrt2))`, where the constant is the square root of 2.
    unfoldable pub normal_cdf : F → F
    normal_cdf z =
        d.fmul (d.milli 500) (d.fadd (d.milli 1000) (m.ferf (d.fdiv z (m.fsqrt (d.milli 2000)))))

    -- A generator of random numbers: `intn s n` is `rng.Intn(n)` and the generator after it.
    module _ {S : Type 0} (intn : S → ℕ → ℕ × S) where
      -- As many draws with replacement as there are slots.
      unfoldable pub resample : List F → List F → S → List F × S
      resample values [] s = ([], s)
      resample values (slot ∷ slots) s =
          let (i, s') = intn s (length values) in
          let (rest, s'') = resample values slots s' in (at_index values (pos i) ∷ rest, s'')

      unfoldable pub bootstrap_deltas : List F → List F → F → ℕ → S → List F × S
      bootstrap_deltas candidate baseline quant zero s = ([], s)
      bootstrap_deltas candidate baseline quant (suc n) s =
          let (cand, s') = resample candidate candidate s in
          let (base, s'') = resample baseline baseline s' in
          let (rest, s''') = bootstrap_deltas candidate baseline quant n s'' in
          (d.fsub (quantile cand quant) (quantile base quant) ∷ rest, s''')

      -- The ends of the middle 95 percent of the sorted deltas.
      unfoldable pub interval : List F → F × F
      interval deltas =
          let sorted = sort_floats deltas in
          let last = pos (length sorted - 1) in
          let low = m.floor (d.fmul (d.milli 25) (d.of_int last)) in
          let high = m.ceil (d.fmul (d.milli 975) (d.of_int last)) in
          (
            at_index sorted (if ltb_ℤ low (pos 0) then pos 0 else low),
            at_index sorted (if leb_ℤ (pos (length sorted)) high then last else high),
          )

      unfoldable pub bootstrap_delta_ci : List F → List F → F → ℤ → S → (F × F) × S
      bootstrap_delta_ci candidate baseline quant (negsuc n) s = ((d.milli 0, d.milli 0), s)
      bootstrap_delta_ci candidate baseline quant (pos n) s =
          let (deltas, s') = bootstrap_deltas candidate baseline quant n s in
          if length candidate == 0 || (length baseline == 0 || ltb n 10)
          then ((d.milli 0, d.milli 0), s)
          else (interval deltas, s')
