-- ===== src/Webhook/Exporter/Pauses.antt =====
-- The posts and sleeps in a log of pkg/webhook/exporter.go, and the back-off between attempts.
use llm_slo_e_bpf_toolkit.Prelude.{
  ℕ, zero, suc, ◌+◌, ◌-◌, ◌*◌, ◌^◌, ◌≤◌, ◌≡◌, refl, List, [], ◌∷◌, arith,
}
use native.Mathlib.Nat.{pow-le-pow_right, pow-suc, two-pow-succ}
use native.Mathlib.Numerals.{add-one}
use llm_slo_e_bpf_toolkit.Prelude.Int.{pos, pos_part}
use llm_slo_e_bpf_toolkit.Prelude.Time.{wrap64, second}
use llm_slo_e_bpf_toolkit.Webhook.Exporter.{Action, sleep, post, backoff, pause}

abbrev pub posts : List Action → ℕ
posts [] = 0
posts (sleep t ∷ log) = posts log
posts (post r ∷ log) = suc (posts log)

-- The nanoseconds slept in all.
abbrev pub slept : List Action → ℕ
slept [] = 0
slept (sleep t ∷ log) = pos_part t + slept log
slept (post r ∷ log) = slept log

pub pow_pos : (n : ℕ) → 1 ≤ 2 ^ n
pow_pos zero = omega arith
pow_pos (suc n) = omega (arith, pow_pos n, pow-suc 2 n)

wrap_small : (p : ℕ) → p ≤ 2 ^ 33 → pos_part (wrap64 (pos (p * second))) ≡ p * second
unfolding wrap64
wrap_small p h = ground arith

-- The sleep before a further attempt doubles from 1 s on, and does not wrap before 34 of them.
backoff_lem : (n : ℕ) → n ≤ 33 → pos_part (backoff (suc n)) ≡ 2 ^ n * second
unfolding backoff
backoff_lem n h = rw (less_one n) (wrap_small (2 ^ n) (pow-le-pow_right {n = 2} (omega arith) h))
  where
    less_one : (n : ℕ) → suc n - 1 ≡ n
    less_one n = omega arith

-- Seconds slept before and in the pause of an attempt, if each earlier one was followed by one.
abbrev pub waited : ℕ → ℕ
waited zero = 0
waited (suc n) = 2 ^ n - 1

pub slept-pause :
    (a : ℕ) (log : List Action)
    → a ≤ 34
    → slept (pause a log) + waited a * second ≡ slept log + (2 ^ a - 1) * second
slept-pause zero log h = omega arith
slept-pause (suc n) log h = omega (arith, backoff_lem n (omega arith), pow_pos n, two-pow-succ n)

pub posts-pause : (a : ℕ) (log : List Action) → posts (pause a log) ≡ posts log
posts-pause zero log = refl
posts-pause (suc n) log = refl

pub waited_next : (a : ℕ) → waited (a + 1) ≡ 2 ^ a - 1
waited_next a = rw add-one refl
