-- ===== src/Prelude/Time.antt =====
-- Go's package `time`, as far as the code uses it. An instant is its distance in nanoseconds from
-- the zero `time.Time`, a `time.Duration` is an `int64` of nanoseconds. Monotonic clock readings
-- are left out.
use Prim.Native.Nat.{◌%◌, ◌^◌, ◌-◌, ◌/◌, ℕ, ◌≤◌, ◌<◌}
use mathlib.Core.Path.{◌≡◌}
use mathlib.Core.Bool.{Bool}
use native.Mathlib.Omega.{arith}
use llm_slo_e_bpf_toolkit.Prelude.Tests.{ltb, leb, if◌then◌else◌}
use llm_slo_e_bpf_toolkit.Prelude.Int.{ℤ, pos, negsuc, nat_abs, ◌+ℤ◌, ◌-ℤ◌, ltb_ℤ, eqb_ℤ}

abbrev pub Time : Type 0
Time = ℤ

abbrev pub Duration : Type 0
Duration = ℤ

abbrev pub millisecond : ℕ
millisecond = 1_000_000

abbrev pub second : ℕ
second = 1_000_000_000

abbrev pub max_duration : ℤ
max_duration = pos 9223372036854775807

abbrev pub min_duration : ℤ
min_duration = negsuc 9223372036854775807

abbrev pub is_zero : Time → Bool
is_zero t = eqb_ℤ t (pos 0)

abbrev pub before : Time → Time → Bool
before a b = ltb_ℤ a b

unfoldable pub add : Time → Duration → Time
add t d = t +ℤ d

-- `Sub` saturates at the ends of `int64`.
abbrev pub saturate : ℤ → Duration
saturate d =
    if ltb_ℤ max_duration d then max_duration else if ltb_ℤ d min_duration then min_duration else d

-- The value of an integer in `int64`, where it wraps around.
abbrev pub residue : ℤ → ℕ
residue (pos n) = n % 2 ^ 64
residue (negsuc n) = 2 ^ 64 - 1 - n % 2 ^ 64

unfoldable pub wrap64 : ℤ → ℤ
wrap64 z = let r = residue z in if ltb r (2 ^ 63) then pos r else negsuc (2 ^ 64 - 1 - r)

unfoldable pub sub : Time → Time → Duration
sub a b = saturate (a -ℤ b)

-- `-d` in `int64`, where the least value is its own negative.
unfoldable pub neg : Duration → Duration
neg d = if eqb_ℤ d min_duration then d else pos 0 -ℤ d

-- `t.Unix()`: whole seconds since 1970, rounded down.
abbrev pub floor_div : ℤ → ℕ → ℤ
floor_div (pos n) k = pos (n / k)
floor_div (negsuc n) k = negsuc (n / k)

unfoldable pub unix : Time → ℤ
unix t = floor_div t second -ℤ pos 62_135_596_800

saturate_distance :
    (d : ℤ) (w : ℕ) → w < 9223372036854775807 → leb (nat_abs (saturate d)) w ≡ leb (nat_abs d) w
saturate_distance (pos n) w h = ground arith
saturate_distance (negsuc n) w h = ground arith

-- Two instants that are at most `w` apart stay so through `Sub`.
pub sub_distance :
    (a b : Time) (w : ℕ)
    → w < 9223372036854775807
    → leb (nat_abs (sub a b)) w ≡ leb (nat_abs (a -ℤ b)) w
unfolding sub
sub_distance a b w h = saturate_distance (a -ℤ b) w h

-- Adding the negative of a duration of at least 0 moves an instant back by it.
pub add-neg : (t : Time) (w : ℕ) → w ≤ 9223372036854775807 → add t (neg (pos w)) ≡ t -ℤ pos w
unfolding add neg ◌+ℤ◌ ◌-ℤ◌
add-neg t w h = ground arith
