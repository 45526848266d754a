-- ===== src/Slo/Figures.antt =====
-- When pkg/slo/calculator.go gives figures for a request.
use llm_slo_e_bpf_toolkit.Prelude.{◌≡◌, refl, ◌∙◌, Bool, true, false, not, ◌&&◌, arith}
use llm_slo_e_bpf_toolkit.Prelude.Int.{ℤ, pos, ltb_ℤ}
use llm_slo_e_bpf_toolkit.Prelude.Float64.{Float64}
use llm_slo_e_bpf_toolkit.Prelude.Time.{Time, is_zero, before}
use llm_slo_e_bpf_toolkit.Slo.{
  Timing, Snapshot, RetrievalBreakdown, Outcome, calculated, invalid, ttft_ms, tokens_per_second,
  calculate, ◌>>=◌,
}

abbrev pub is_calculated : {A : Type 0} → Outcome A → Bool
is_calculated (calculated a) = true
is_calculated (invalid e) = false

is_calculated->>= :
    {A B : Type 0} (x : Outcome A) (f : A → Outcome B) (b : Bool)
    → ((a : A) → is_calculated (f a) ≡ b)
    → is_calculated (x >>= f) ≡ (is_calculated x && b)
is_calculated->>= (calculated a) f b h = h a
is_calculated->>= (invalid e) f b h = refl

and_true : (b : Bool) → (b && true) ≡ b
and_true b = ground arith

module _ (F : Type 0) ⦃d : Float64 F⦄ where
  is_calculated-ttft_ms :
      (start first : Time)
      → is_calculated (ttft_ms {F = F} start first)
        ≡ (not (is_zero start) && (not (is_zero first) && not (before first start)))
  unfolding ttft_ms
  is_calculated-ttft_ms start first = ground arith

  is_calculated-tokens_per_second :
      (first last : Time) (count : ℤ)
      → is_calculated (tokens_per_second {F = F} first last count) ≡ (
          not (is_zero first)
          && (not (is_zero last) && (not (ltb_ℤ count (pos 1)) && not (before last first))))
  unfolding tokens_per_second
  is_calculated-tokens_per_second first last count = ground arith

module _ {F : Type 0} ⦃d : Float64 F⦄ where
  -- `Calculate` gives figures exactly for three instants that are set and do not go backwards, and at
  -- least one token.
  pub calculate_iff :
      (t : Timing) (retrieval : RetrievalBreakdown F)
      → is_calculated (calculate t retrieval) ≡ (
          (not (is_zero t.request_start)
            && (not (is_zero t.first_token_at) && not (before t.first_token_at t.request_start)))
          && (not (is_zero t.first_token_at)
              && (not (is_zero t.last_token_at)
                  && (not (ltb_ℤ t.token_count (pos 1))
                      && not (before t.last_token_at t.first_token_at)))))
  unfolding calculate
  calculate_iff t retrieval =
      let tps = tokens_per_second {F = F} t.first_token_at t.last_token_at t.token_count in
      let figures : F → F → Outcome (Snapshot F) =
        λ x y. calculated (record { ttft_ms = x; tokens_per_s = y; retrieval = retrieval }) in
      let step : (x : F) → is_calculated (tps >>= figures x) ≡ is_calculated tps =
        λ x. is_calculated->>= tps (figures x) true (λ y. refl) ∙ and_true (is_calculated tps) in
      is_calculated->>= (ttft_ms t.request_start t.first_token_at) (λ x. tps >>= figures x)
        (is_calculated tps) step
      ∙ rw
          (
            is_calculated-ttft_ms F t.request_start t.first_token_at,
            is_calculated-tokens_per_second F t.first_token_at t.last_token_at t.token_count,
          )
          refl
