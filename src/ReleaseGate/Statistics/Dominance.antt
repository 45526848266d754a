-- ===== src/ReleaseGate/Statistics/Dominance.antt =====
-- Cliff's delta in pkg/releasegate/gate.go, against the pairs of the two samples.
use llm_slo_e_bpf_toolkit.Prelude.{
  suc, ◌+◌, ◌*◌, ◌≤◌, ◌≡◌, refl, ap, Bool, ◌||◌, List, [], ◌∷◌, ◌++◌, length, length-append,
  count_if, count_if-append, ◌==◌, if◌then◌else◌, arith,
}
use llm_slo_e_bpf_toolkit.Prelude.Int.{pos}
use llm_slo_e_bpf_toolkit.Prelude.Float64.{Float64, flt, fgt}
use llm_slo_e_bpf_toolkit.ReleaseGate.Statistics.{
  Tally, no_tally, compare_one, compare_all, dominance, cliffs_delta,
}

-- A value with each of a list, and each value of the first list with each of the second.
abbrev pub with_each : {A : Type 0} → A → List A → List (A × A)
with_each x [] = []
with_each x (y ∷ ys) = (x, y) ∷ with_each x ys

abbrev pub pairs : {A : Type 0} → List A → List A → List (A × A)
pairs [] ys = []
pairs (x ∷ xs) ys = with_each x ys ++ pairs xs ys

length-with_each : {A : Type 0} (x : A) (ys : List A) → length (with_each x ys) ≡ length ys
length-with_each x [] = refl
length-with_each x (y ∷ ys) = ap suc (length-with_each x ys)

count_if-with_each :
    {A : Type 0} (p : A × A → Bool) (x : A) (ys : List A)
    → count_if p (with_each x ys) ≡ count_if (λ y. p (x, y)) ys
count_if-with_each p x [] = refl
count_if-with_each p x (y ∷ ys) = ground (arith, count_if-with_each p x ys)

length-pairs : {A : Type 0} (xs ys : List A) → length (pairs xs ys) ≡ length xs * length ys
length-pairs [] ys = omega arith
length-pairs (x ∷ xs) ys =
    omega (
      arith,
      length-append (with_each x ys) (pairs xs ys),
      length-with_each x ys,
      length-pairs xs ys,
    )

some_empty :
    {A : Type 0} (xs ys : List A) → (length xs == 0 || length ys == 0) ≡ (length (pairs xs ys) == 0)
some_empty [] ys = refl
some_empty (x ∷ xs) [] = ground (arith, length-pairs (x ∷ xs) [])
some_empty (x ∷ xs) (y ∷ ys) = ground arith

module _ {F : Type 0} ⦃d : Float64 F⦄ where
  -- The first value of a pair is the greater, or the lower.
  abbrev pub is_greater : F × F → Bool
  is_greater p = fgt p.0 p.1

  abbrev pub is_lower : F × F → Bool
  is_lower p = flt p.0 p.1

  compare_all_lem :
      (x : F) (ys : List F) (t : Tally)
      → let t' = compare_all x ys t in
        (t'.greater ≡ t.greater + count_if (λ y. fgt x y) ys)
        × (t'.lower ≡ t.lower + count_if (λ y. flt x y) ys)
  unfolding compare_all compare_one
  compare_all_lem x [] t = omega arith
  compare_all_lem x (y ∷ ys) t = ground (arith, compare_all_lem x ys (compare_one x y t))

  dominance_lem :
      (xs ys : List F) (t : Tally)
      → let t' = dominance xs ys t in
        (t'.greater ≡ t.greater + count_if is_greater (pairs xs ys))
        × (t'.lower ≡ t.lower + count_if is_lower (pairs xs ys))
  unfolding dominance
  dominance_lem [] ys t = omega arith
  dominance_lem (x ∷ xs) ys t = omega (
    arith,
    dominance_lem xs ys (compare_all x ys t),
    compare_all_lem x ys t,
    count_if-append is_greater (with_each x ys) (pairs xs ys),
    count_if-append is_lower (with_each x ys) (pairs xs ys),
    count_if-with_each is_greater x ys,
    count_if-with_each is_lower x ys,
  )

  exclusive : (ps : List (F × F)) → count_if is_greater ps + count_if is_lower ps ≤ length ps
  exclusive [] = omega arith
  exclusive (p ∷ ps) = ground (arith, exclusive ps)

  -- Cliff's delta is the number of pairs in which the value of the first sample is the greater, less
  -- the number of those in which it is the lower, over the number of pairs, or 0 if there is none. The
  -- two numbers, which the loops count, are together at most that of the pairs.
  pub cliffs_delta-counts :
      (xs ys : List F)
      → let ps = pairs xs ys in
        let greater = count_if is_greater ps in
        let lower = count_if is_lower ps in
        (cliffs_delta xs ys ≡ (
          if length ps == 0
          then d.milli 0
          else d.fdiv
              (d.fsub (d.of_int (pos greater)) (d.of_int (pos lower)))
              (d.of_int (pos (length ps)))))
        × ((dominance xs ys no_tally).greater ≡ greater)
        × ((dominance xs ys no_tally).lower ≡ lower)
        × (greater + lower ≤ length ps)
  unfolding cliffs_delta
  cliffs_delta-counts xs ys =
      let t = dominance xs ys no_tally in
      let ps = pairs xs ys in
      let greater : t.greater ≡ count_if is_greater ps =
        omega (arith, dominance_lem xs ys no_tally) in
      let lower : t.lower ≡ count_if is_lower ps = omega (arith, dominance_lem xs ys no_tally) in
      (
        rw (greater, lower, ← length-pairs xs ys, some_empty xs ys) refl,
        greater,
        lower,
        exclusive ps,
      )
