-- ===== src/Prelude/Float64.antt =====
-- Go's `float64`, as an interface: the operations that the code uses, and the facts of IEEE 754
-- that the theorems rely on. `milli m` is the literal of the decimal number m / 1000.
use Prim.Native.Nat.{ℕ, ◌+◌, ◌*◌, ◌^◌, ◌<◌}
use mathlib.Core.Path.{◌≡◌}
use mathlib.Core.Bool.{Bool, true, false, not, ◌&&◌, ◌||◌}
use mathlib.Core.Option.{Option, none, some}
use native.Mathlib.Omega.{arith}
use llm_slo_e_bpf_toolkit.Prelude.Tests.{leb, ◌==◌, if◌then◌else◌}
use llm_slo_e_bpf_toolkit.Prelude.Int.{ℤ, pos, negsuc, nat_abs, ◌+ℤ◌, ◌-ℤ◌, ◌*ℤ◌, quot_ℕ, leb_ℤ}

pub record Float64 (F : Type 0) : Type 0 where
  pub milli : ℕ → F
  pub of_int : ℤ → F
  pub le : F → F → Bool
  pub fadd : F → F → F
  pub fsub : F → F → F
  pub fmul : F → F → F
  pub fdiv : F → F → F
  pub fabs : F → F

-- `<`, `>`, `>=` and `==` follow from `<=`, also at NaN, which is not `<=` itself.
module _ {F : Type 0} ⦃d : Float64 F⦄ where
  abbrev pub fle : F → F → Bool
  fle x y = d.le x y

  abbrev pub flt : F → F → Bool
  flt x y = d.le x y && not (d.le y x)

  abbrev pub fgt : F → F → Bool
  fgt x y = flt y x

  abbrev pub fge : F → F → Bool
  fge x y = d.le y x

  abbrev pub feq : F → F → Bool
  feq x y = d.le x y && d.le y x

-- A conversion or a literal rounds to the nearest value, so: decimals of at most 15 digits keep
-- their order, and a distance compares with an integer below 2^53 as the integers do.
pub record IsIeee {F : Type 0} (d : Float64 F) : Type 0 where
  pub le_milli : (m n : ℕ) → m < 10 ^ 15 → n < 10 ^ 15 → d.le (d.milli m) (d.milli n) ≡ leb m n
  pub le_abs_of_int :
      (n : ℤ) (m : ℕ)
      → m < 2 ^ 53
      → d.le (d.fabs (d.of_int n)) (d.of_int (pos m)) ≡ leb (nat_abs n) m
  pub refl_of_le : (x y : F) → d.le x y ≡ true → (d.le x x ≡ true) × (d.le y y ≡ true)
  pub le_trans : (x y z : F) → d.le x y ≡ true → d.le y z ≡ true → d.le x z ≡ true
  pub le_total : (x y : F) → d.le x x ≡ true → d.le y y ≡ true → (d.le x y || d.le y x) ≡ true
  pub of_int_number : (n : ℤ) → d.le (d.fabs (d.of_int n)) (d.fabs (d.of_int n)) ≡ true

-- Fixed-point numbers of 12 decimal places, with `none` for NaN: the facts can be met together.
abbrev pub Fixed : Type 0
Fixed = Option ℤ

abbrev pub on_numbers : (ℤ → ℤ → Fixed) → Fixed → Fixed → Fixed
on_numbers f (some a) (some b) = f a b
on_numbers f _ _ = none

abbrev pub le_fixed : Fixed → Fixed → Bool
le_fixed (some a) (some b) = leb_ℤ a b
le_fixed _ _ = false

abbrev pub abs_fixed : Fixed → Fixed
abs_fixed (some a) = some (pos (nat_abs a))
abs_fixed none = none

abbrev pub div_ℤ : ℤ → ℤ → Fixed
div_ℤ a (pos n) = if n == 0 then none else some (quot_ℕ (a *ℤ pos 1_000_000_000_000) n)
div_ℤ a (negsuc n) = some (quot_ℕ (a *ℤ negsuc 999_999_999_999) (n + 1))

instance abbrev pub fixed : Float64 Fixed
fixed = record {
  milli = λ m. some (pos (m * 1_000_000_000));
  of_int = λ n. some (n *ℤ pos 1_000_000_000_000);
  le = le_fixed;
  fadd = on_numbers λ a b. some (a +ℤ b);
  fsub = on_numbers λ a b. some (a -ℤ b);
  fmul = on_numbers λ a b. some (quot_ℕ (a *ℤ b) 1_000_000_000_000);
  fdiv = on_numbers div_ℤ;
  fabs = abs_fixed;
}

pub fixed-IsIeee : IsIeee fixed
unfolding ◌*ℤ◌
fixed-IsIeee = ground arith
