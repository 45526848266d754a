-- ===== src/ReleaseGate/Ranks/Ties.antt =====
-- Runs of equal values among the sorted points of the Mann-Whitney test in pkg/releasegate/gate.go.
use llm_slo_e_bpf_toolkit.Prelude.{
  ℕ, ◌+◌, ◌≤◌, ◌≡◌, refl, Bool, Bool-cases, inl, inr, List, [], ◌∷◌, ◌++◌, length, take, drop, map,
  true, false, All, All-map, count_if, count_if-append, arith,
}
use mathlib.Core.Path.{ap₂}
use llm_slo_e_bpf_toolkit.Prelude.Float64.{Float64, IsIeee, fle, flt, feq}
use llm_slo_e_bpf_toolkit.Prelude.Sort.{Sorted}
use llm_slo_e_bpf_toolkit.ReleaseGate.Ranks.{Point, replicate, run_length}

module _ {A : Type 0} where
  count_if_every :
      (t : A → Bool) (xs : List A) → All (λ x. t x ≡ true) xs → count_if t xs ≡ length xs
  count_if_every t [] a = refl
  count_if_every t (x ∷ xs) (h, a) = rw (h, count_if_every t xs a) refl

  count_if_none : (t : A → Bool) (xs : List A) → All (λ x. t x ≡ false) xs → count_if t xs ≡ 0
  count_if_none t [] a = refl
  count_if_none t (x ∷ xs) (h, a) = rw (h, count_if_none t xs a) refl

  module _ {B : Type 0} (f : A → B) where
    pub map-replicate :
        (y : B) (xs : List A) → All (λ x. f x ≡ y) xs → map f xs ≡ replicate (length xs) y
    map-replicate y [] a = refl
    map-replicate y (x ∷ xs) (h, a) = ap₂ (λ z zs. z ∷ zs) h (map-replicate y xs a)

    pub map-All : (g : A → B) (xs : List A) → All (λ x. f x ≡ g x) xs → map f xs ≡ map g xs
    map-All g [] a = refl
    map-All g (x ∷ xs) (h, a) = ap₂ (λ z zs. z ∷ zs) h (map-All g xs a)

    pub count_if-map :
        (t : B → Bool) (xs : List A) → count_if t (map f xs) ≡ count_if (λ x. t (f x)) xs
    count_if-map t [] = refl
    count_if-map t (x ∷ xs) = ground (arith, count_if-map t xs)

module _ {F : Type 0} ⦃d : Float64 F⦄ where
  -- How many points are lower than a value, and how many are not greater.
  abbrev pub lower : F → List (Point F) → ℕ
  lower v = count_if λ q. flt q.value v

  abbrev pub upto : F → List (Point F) → ℕ
  upto v = count_if λ q. fle q.value v

  abbrev pub IsNumber : Point F → Type 0
  IsNumber p = fle p.value p.value ≡ true

  abbrev pub IsUpto : Point F → Point F → Type 0
  IsUpto p q = fle p.value q.value ≡ true

  abbrev pub IsTied : F → Point F → Type 0
  IsTied v q = feq q.value v ≡ true

  abbrev pub IsAbove : F → Point F → Type 0
  IsAbove v q = flt v q.value ≡ true

  pub run_length-le : (v : F) (ps : List (Point F)) → run_length v ps ≤ length ps
  unfolding run_length
  run_length-le v [] = omega arith
  run_length-le v (p ∷ ps) = ground (arith, run_length-le v ps)

  module _ (laws : IsIeee d) where
    All-IsAbove :
        (v : F) (q : Point F) (qs : List (Point F))
        → IsAbove v q
        → All (IsUpto q) qs
        → All (IsAbove v) qs
    All-IsAbove v q [] h a = tt
    All-IsAbove v q (r ∷ rs) h (u, us) = (
      ground (arith, laws.le_trans v q.value r.value, laws.le_trans q.value r.value v),
      All-IsAbove v q rs h us,
    )

    -- In sorted points a run of ties ends before the first greater value.
    pub run_length_lem :
        (v : F) (ps : List (Point F))
        → All (λ q. fle v q.value ≡ true) ps
        → Sorted IsUpto ps
        → let n = run_length v ps in All (IsTied v) (take n ps) × All (IsAbove v) (drop n ps)
    unfolding run_length
    run_length_lem v [] above s = (tt, tt)
    run_length_lem v (q ∷ qs) (u, us) (a, s) = elim (Bool-cases (feq q.value v)) [
      | inl tied ↦ let (ties, rest) = run_length_lem v qs us s in rw tied ((tied, ties), rest)
      | inr apart ↦
          let above : IsAbove v q = ground arith in
          rw apart (tt, (above, All-IsAbove v q qs above a))
    ]

    -- Points tied with a value count as the value does, and those above it count the tied ones in.
    pub tied_counts :
        (v : F) (ties above : List (Point F)) (q : Point F)
        → All (IsTied v) ties
        → All (IsAbove v) above
        → IsTied v q
        → (lower q.value (ties ++ above) ≡ 0) × (upto q.value (ties ++ above) ≡ length ties)
    tied_counts v ties above q ts as' t =
        let none_lower =
          count_if_none (λ r. flt r.value q.value) ties
            (All-map (IsTied v) _ (λ r e. ground (arith, laws.le_trans q.value v r.value)) ties
              ts) in
        let all_upto =
          count_if_every (λ r. fle r.value q.value) ties
            (All-map (IsTied v) _ (λ r e. ground (arith, laws.le_trans r.value v q.value)) ties
              ts) in
        let none_above =
          count_if_none (λ r. flt r.value q.value) above
            (All-map (IsAbove v) _ (λ r e. ground (arith, laws.le_trans r.value q.value v)) above
              as') in
        let none_upto =
          count_if_none (λ r. fle r.value q.value) above
            (All-map (IsAbove v) _ (λ r e. ground (arith, laws.le_trans r.value q.value v)) above
              as') in
        omega (
          arith,
          none_lower,
          all_upto,
          none_above,
          none_upto,
          count_if-append (λ r. flt r.value q.value) ties above,
          count_if-append (λ r. fle r.value q.value) ties above,
        )

    pub above_counts :
        (v : F) (ties above : List (Point F)) (q : Point F)
        → All (IsTied v) ties
        → IsAbove v q
        → (lower q.value (ties ++ above) ≡ length ties + lower q.value above)
          × (upto q.value (ties ++ above) ≡ length ties + upto q.value above)
    above_counts v ties above q ts t =
        let all_lower =
          count_if_every (λ r. flt r.value q.value) ties
            (All-map (IsTied v) _
              (λ r e.
                ground (arith, laws.le_trans r.value v q.value, laws.le_trans q.value r.value v))
              ties ts) in
        let all_upto =
          count_if_every (λ r. fle r.value q.value) ties
            (All-map (IsTied v) _ (λ r e. ground (arith, laws.le_trans r.value v q.value)) ties
              ts) in
        omega (
          arith,
          all_lower,
          all_upto,
          count_if-append (λ r. flt r.value q.value) ties above,
          count_if-append (λ r. fle r.value q.value) ties above,
        )
