-- ===== src/Prelude/FloatMath.antt =====
-- The functions of Go's package `math` that the code calls on a `float64`, and the literals that
-- are no thousandths. `decimal m k` is the literal of the decimal number m / 10^k.
use Prim.Native.Nat.{ℕ, ◌*◌, ◌/◌, ◌^◌}
use mathlib.Core.Option.{none, some}
use llm_slo_e_bpf_toolkit.Prelude.Int.{ℤ, pos, negsuc, ◌-ℤ◌}
use llm_slo_e_bpf_toolkit.Prelude.Float64.{Fixed, fixed}
use llm_slo_e_bpf_toolkit.Prelude.Time.{floor_div}

pub record FloatMath (F : Type 0) : Type 0 where
  pub decimal : ℕ → ℕ → F
  pub neg_inf : F
  pub flog : F → F
  pub fexp : F → F
  pub fsqrt : F → F
  pub ferf : F → F
  pub floor : F → ℤ
  pub ceil : F → ℤ

-- For the fixed-point numbers: the decimals exact, the other functions to first order around the
-- point where they are 0 or 1.
abbrev pub one : Fixed
one = some (pos 1_000_000_000_000)

abbrev pub floor_fixed : Fixed → ℤ
floor_fixed (some n) = floor_div n 1_000_000_000_000
floor_fixed none = pos 0

abbrev pub ceil_fixed : Fixed → ℤ
ceil_fixed (some n) = pos 0 -ℤ floor_div (pos 0 -ℤ n) 1_000_000_000_000
ceil_fixed none = pos 0

abbrev pub fixed_math : FloatMath Fixed
fixed_math = record {
  decimal = λ m k. some (pos (m * 10 ^ 12 / 10 ^ k));
  neg_inf = some (negsuc (10 ^ 30));
  flog = λ x. fixed.fsub x one;
  fexp = λ x. fixed.fadd x one;
  fsqrt = λ x. fixed.fdiv (fixed.fadd x one) (fixed.fadd one one);
  ferf = λ x. x;
  floor = floor_fixed;
  ceil = ceil_fixed;
}
