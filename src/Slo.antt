-- ===== src/Slo.antt =====
-- pkg/slo/calculator.go: figures of one request, and percentiles over many. The function `quantile` of
-- that file is, statement for statement, the one of pkg/releasegate, and is taken from there.
pub mod Figures
use llm_slo_e_bpf_toolkit.Prelude.{
  ℕ, ◌-◌, ◌*◌, ◌/◌, ◌%◌, Bool, ◌||◌, List, [], ◌∷◌, map, length, ◌==◌, if◌then◌else◌,
}
use llm_slo_e_bpf_toolkit.Prelude.Int.{ℤ, pos, negsuc, ◌-ℤ◌, quot_ℕ, eqb_ℤ, ltb_ℤ, ◌*ℤ◌}
use llm_slo_e_bpf_toolkit.Prelude.Float64.{Float64, flt, feq}
use llm_slo_e_bpf_toolkit.Prelude.FloatMath.{FloatMath}
use llm_slo_e_bpf_toolkit.Prelude.Time.{Time, Duration, is_zero, before, sub, second, millisecond}
use llm_slo_e_bpf_toolkit.ReleaseGate.Statistics.{quantile}

pub record Timing : Type 0 where
  pub request_start : Time
  pub first_token_at : Time
  pub last_token_at : Time
  pub token_count : ℤ

pub record RetrievalBreakdown (F : Type 0) : Type 0 where
  pub vector_db_ms : F
  pub network_ms : F
  pub dns_ms : F

pub record Snapshot (F : Type 0) : Type 0 where
  pub ttft_ms : F
  pub tokens_per_s : F
  pub retrieval : RetrievalBreakdown F

pub record Percentiles (F : Type 0) : Type 0 where
  pub ttft_p50 : F
  pub ttft_p95 : F
  pub ttft_p99 : F
  pub tokens_per_s_p50 : F
  pub tokens_per_s_p95 : F
  pub retrieval_p95_ms : F

pub data SloError : Type 0 where
  start_required first_before_start tokens_required no_tokens last_before_first : SloError

pub data Outcome {ℓ} (A : Type ℓ) : Type ℓ where
  calculated : A → Outcome A
  invalid : SloError → Outcome A

infixl 5 ◌>>=◌
abbrev pub ◌>>=◌ {ℓ κ} : {A : Type ℓ} {B : Type κ} → Outcome A → (A → Outcome B) → Outcome B
calculated a >>= f = f a
invalid e >>= f = invalid e

-- `d.Milliseconds()`.
abbrev pub milliseconds : Duration → ℤ
milliseconds t = quot_ℕ t millisecond

module _ {F : Type 0} ⦃d : Float64 F⦄ where
  -- `d.Seconds()`.
  abbrev pub seconds : Duration → F
  seconds t =
      let whole = quot_ℕ t second in
      d.fadd (d.of_int whole)
        (d.fdiv (d.of_int (t -ℤ whole *ℤ pos second)) (d.milli 1_000_000_000_000))

  unfoldable pub ttft_ms : Time → Time → Outcome F
  ttft_ms request_start first_token_at =
      if is_zero request_start || is_zero first_token_at
      then invalid start_required
      else if before first_token_at request_start
      then invalid first_before_start
      else calculated (d.of_int (milliseconds (sub first_token_at request_start)))

  unfoldable pub tokens_per_second : Time → Time → ℤ → Outcome F
  tokens_per_second first_token_at last_token_at token_count =
      let window_seconds = seconds (sub last_token_at first_token_at) in
      if is_zero first_token_at || is_zero last_token_at
      then invalid tokens_required
      else if ltb_ℤ token_count (pos 1)
      then invalid no_tokens
      else if before last_token_at first_token_at
      then invalid last_before_first
      else if feq window_seconds (d.milli 0)
      then calculated (d.of_int token_count)
      else calculated (d.fdiv (d.of_int token_count) window_seconds)

  unfoldable pub calculate : Timing → RetrievalBreakdown F → Outcome (Snapshot F)
  calculate t retrieval = do
    ttft ← ttft_ms t.request_start t.first_token_at
    tps ← tokens_per_second t.first_token_at t.last_token_at t.token_count
    calculated (record { ttft_ms = ttft; tokens_per_s = tps; retrieval = retrieval })

  unfoldable pub non_negative : F → F
  non_negative v = if flt v (d.milli 0) then d.milli 0 else v

  unfoldable pub total_retrieval_ms : RetrievalBreakdown F → F
  total_retrieval_ms b =
      d.fadd (d.fadd (non_negative b.vector_db_ms) (non_negative b.network_ms))
        (non_negative b.dns_ms)

  unfoldable pub aggregate : FloatMath F → List (Snapshot F) → Percentiles F
  aggregate m items =
      let ttft = map (λ (i : Snapshot F). non_negative i.ttft_ms) items in
      let tps = map (λ (i : Snapshot F). non_negative i.tokens_per_s) items in
      let retrieval = map (λ (i : Snapshot F). total_retrieval_ms i.retrieval) items in
      if length items == 0
      then (record {
        ttft_p50 = d.milli 0;
        ttft_p95 = d.milli 0;
        ttft_p99 = d.milli 0;
        tokens_per_s_p50 = d.milli 0;
        tokens_per_s_p95 = d.milli 0;
        retrieval_p95_ms = d.milli 0;
      })
      else (record {
        ttft_p50 = quantile m ttft (d.milli 500);
        ttft_p95 = quantile m ttft (d.milli 950);
        ttft_p99 = quantile m ttft (d.milli 990);
        tokens_per_s_p50 = quantile m tps (d.milli 500);
        tokens_per_s_p95 = quantile m tps (d.milli 950);
        retrieval_p95_ms = quantile m retrieval (d.milli 950);
      })
