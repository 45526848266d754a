-- ===== src/Safety/RateLimiter/Budget.antt =====
-- How many events the limiter of pkg/safety/rate_limiter.go lets through in each second.
use Prim.Native.Nat.{min, max}
use llm_slo_e_bpf_toolkit.Prelude.{
  ℕ, ◌-◌, ◌≡◌, refl, Bool, true, false, ◌&&◌, List, [], ◌∷◌, arith, leb, count_if, if◌then◌else◌,
  Bool-cases, inl, inr, ◌∙◌,
}
use llm_slo_e_bpf_toolkit.Prelude.Int.{ℤ, pos, pos_part, ◌≤ℤ◌, ltb_ℤ, eqb_ℤ, eqb_ℤ→eq}
use llm_slo_e_bpf_toolkit.Prelude.Time.{Time, unix}
use llm_slo_e_bpf_toolkit.Safety.RateLimiter.{RateLimiter, new_rate_limiter, allow, allow_all}

-- The calls in a given second, and those of them that were let through.
abbrev pub calls_in : ℤ → List Time → ℕ
calls_in s = count_if (λ t. eqb_ℤ (unix t) s)

abbrev pub allowed_in : ℤ → List (Time × Bool) → ℕ
allowed_in s = count_if (λ e. eqb_ℤ (unix e.0) s && e.1)

-- The clock never steps back by a whole second, from second `s` on.
abbrev pub NonDecreasing : ℤ → List Time → Type 0
NonDecreasing s [] = Unit {0}
NonDecreasing s (t ∷ ts) = (s ≤ℤ unix t) × NonDecreasing (unix t) ts

-- What is left of the budget of second `s`.
abbrev left : RateLimiter → ℤ → ℕ
left l s = if eqb_ℤ l.window_sec s then l.limit - l.count else l.limit

allow_limit : (l : RateLimiter) (t : Time) → (allow l t).0.limit ≡ l.limit
unfolding allow
allow_limit l t = ground arith

allow_window : (l : RateLimiter) (t : Time) → (allow l t).0.window_sec ≡ unix t
unfolding allow
allow_window l t = ground (arith, eqb_ℤ→eq l.window_sec (unix t))

-- A call in second `s` takes one from its budget, if there is one.
allow_takes :
    (l : RateLimiter) (t : Time) (s : ℤ)
    → eqb_ℤ (unix t) s ≡ true
    → ((allow l t).1 ≡ leb 1 (left l s)) × (left (allow l t).0 s ≡ left l s - 1)
unfolding allow
allow_takes l t s e =
    ground (arith, eqb_ℤ→eq (unix t) s e, eqb_ℤ→eq l.window_sec s, eqb_ℤ→eq l.window_sec (unix t))

-- A call in another second leaves the whole budget of `s`.
allow_renews :
    (l : RateLimiter) (t : Time) (s : ℤ) → eqb_ℤ (unix t) s ≡ false → left (allow l t).0 s ≡ l.limit
allow_renews l t s e = rw (allow_window l t, allow_limit l t) (rw e)

calls_in_past :
    (s u : ℤ) (ts : List Time) → ltb_ℤ s u ≡ true → NonDecreasing u ts → calls_in s ts ≡ 0
calls_in_past s u [] h m = refl
calls_in_past s u (t ∷ ts) h m = ground (arith, calls_in_past s (unix t) ts)

-- While the clock does not step back, a limiter lets through in second `s` just the first calls of
-- that second, as many as are left of the budget.
pub allowed_in-allow_all :
    (l : RateLimiter) (s : ℤ) (ts : List Time)
    → NonDecreasing l.window_sec ts
    → allowed_in s (allow_all l ts) ≡ min (left l s) (calls_in s ts)
unfolding allow_all
allowed_in-allow_all l s [] m = omega arith
allowed_in-allow_all l s (t ∷ ts) (m, ms) =
    let later : NonDecreasing (allow l t).0.window_sec ts = rw (allow_window l t) ms in
    let ih = allowed_in-allow_all (allow l t).0 s ts later in
    elim (Bool-cases (eqb_ℤ (unix t) s)) [
      | inl now ↦ rw (now, ih, (allow_takes l t s now).0, (allow_takes l t s now).1) (ground arith)
      | inr other ↦
          rw (other, ih, allow_renews l t s other)
            (ground (arith, calls_in_past s (unix t) ts, eqb_ℤ→eq l.window_sec s))
    ]

-- While the clock is never before 1970 and does not step back by a second, a new limiter lets
-- through in each second as many of its calls as the limit says, or all of them if they are fewer.
-- A limit below 1 counts as 1.
pub allowed_in_new :
    (limit : ℤ) (s : ℤ) (ts : List Time)
    → NonDecreasing (pos 0) ts
    → allowed_in s (allow_all (new_rate_limiter limit) ts)
      ≡ min (max 1 (pos_part limit)) (calls_in s ts)
unfolding new_rate_limiter
allowed_in_new limit s ts m = allowed_in-allow_all (new_rate_limiter limit) s ts m ∙ ground arith
