-- ===== src/Safety/RateLimiter.antt =====
-- pkg/safety/rate_limiter.go. A call that mutates `*RateLimiter` returns the new record; each call
-- holds the mutex from its first to its last access, so calls are atomic. `limit` and `count` are
-- never negative and `count` stays at most `limit`, so neither wraps.
pub mod Budget
use llm_slo_e_bpf_toolkit.Prelude.{ℕ, ◌+◌, Bool, true, false, List, [], ◌∷◌, leb, if◌then◌else◌}
use llm_slo_e_bpf_toolkit.Prelude.Int.{ℤ, pos, pos_part, ltb_ℤ, eqb_ℤ}
use llm_slo_e_bpf_toolkit.Prelude.Time.{Time, unix}

pub record RateLimiter : Type 0 where
  pub limit : ℕ
  pub window_sec : ℤ
  pub count : ℕ

unfoldable pub new_rate_limiter : ℤ → RateLimiter
new_rate_limiter limit = record {
  limit = if ltb_ℤ limit (pos 1) then 1 else pos_part limit;
  window_sec = pos 0;
  count = 0;
}

-- The new second forgets the old count.
roll : RateLimiter → ℤ → RateLimiter
roll l sec = if eqb_ℤ l.window_sec sec then l else record l { window_sec = sec; count = 0 }

-- The part of `Allow` after the window is up to date.
charge : RateLimiter → RateLimiter × Bool
charge l = if leb l.limit l.count then (l, false) else (record l { count = l.count + 1 }, true)

unfoldable pub allow : RateLimiter → Time → RateLimiter × Bool
unfolding roll charge
allow l now = charge (roll l (unix now))

-- A sequence of calls: the verdict of each beside its instant.
unfoldable pub allow_all : RateLimiter → List Time → List (Time × Bool)
allow_all l [] = []
allow_all l (t ∷ ts) = let (l', verdict) = allow l t in (t, verdict) ∷ allow_all l' ts
