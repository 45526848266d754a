-- ===== src/Safety/Tests.antt =====
-- Runs of the limiter and the guard of pkg/safety, and each theorem at a concrete input.
use Prim.Native.Nat.{min, max}
use llm_slo_e_bpf_toolkit.Prelude.{◌≡◌, ◌↔◌, refl, true, false, List, [], ◌∷◌, some, map, arith}
use llm_slo_e_bpf_toolkit.Prelude.Int.{pos, negsuc, pos_part, ◌-ℤ◌, ◌*ℤ◌, quot_ℕ}
use llm_slo_e_bpf_toolkit.Prelude.Float64.{Fixed, fixed}
use llm_slo_e_bpf_toolkit.Prelude.Time.{Time, unix}
use llm_slo_e_bpf_toolkit.Safety.RateLimiter.{new_rate_limiter, allow, allow_all}
use llm_slo_e_bpf_toolkit.Safety.RateLimiter.Budget.{allowed_in, calls_in, allowed_in_new}
use llm_slo_e_bpf_toolkit.Safety.OverheadGuard.{
  OverheadGuard, CpuSample, read, evaluate, overhead_pct, IsExcess, evaluate-exceeded_iff,
  last_sample,
}

-- 1970-01-01 and a second later, in nanoseconds since the zero time.
abbrev epoch : Time
epoch = pos 62_135_596_800_000_000_000

abbrev burst : List Time
burst =
    epoch
    ∷ pos 62_135_596_800_500_000_000
    ∷ pos 62_135_596_800_900_000_000
    ∷ pos 62_135_596_801_000_000_000
    ∷ []

burst_verdicts :
    map (λ (e : Time × _). e.1) (allow_all (new_rate_limiter (pos 2)) burst)
    ≡ true ∷ true ∷ false ∷ true ∷ []
unfolding allow_all allow new_rate_limiter unix ◌-ℤ◌
burst_verdicts = refl

zero_limit : (new_rate_limiter (negsuc 4)).limit ≡ 1
unfolding new_rate_limiter
zero_limit = refl

allowed_in_new_example :
    allowed_in (pos 0) (allow_all (new_rate_limiter (pos 2)) burst)
    ≡ min (max 1 (pos_part (pos 2))) (calls_in (pos 0) burst)
unfolding unix ◌-ℤ◌
allowed_in_new_example = allowed_in_new (pos 2) (pos 0) burst (omega arith)

abbrev earlier : CpuSample
earlier = record { process_ticks = 100; total_ticks = 1000 }

abbrev later : CpuSample
later = record { process_ticks = 150; total_ticks = 2000 }

abbrev guard : OverheadGuard Fixed
guard = record { max_pct = some (pos 5_000_000_000_000); prev = some earlier }

-- 50 of 1000 ticks on 4 processors are 20 per cent.
guard_trips : (evaluate 4 (some (read later)) guard).1.exceeded ≡ true
unfolding evaluate overhead_pct ◌*ℤ◌ ◌-ℤ◌ quot_ℕ
guard_trips = refl

evaluate-exceeded_iff_example :
    (((evaluate 4 (some (read later)) guard).1.exceeded ≡ true)
      ↔ IsExcess 4 (some (read later)) guard)
    × ((evaluate 4 (some (read later)) guard).0
        ≡ record { max_pct = guard.max_pct; prev = last_sample (some (read later)) guard.prev })
evaluate-exceeded_iff_example = evaluate-exceeded_iff 4 (some (read later)) guard (omega arith)
