-- ===== src/Prelude/Sort.antt =====
-- `sort.SliceStable` and the other sorts, as the stable insertion sort by "comes before".
-- With a `less` that is a strict weak order every stable sort returns this list.
use Prim.Native.Nat.{suc}
use mathlib.Core.Path.{◌≡◌, refl, ap, ◌∙◌}
use mathlib.Core.Bool.{Bool, true, false, ◌||◌}
use Prim.Native.String.{String}
use mathlib.Core.List.{◌++◌, List, [], ◌∷◌}
use native.Mathlib.Omega.{arith}
use llm_slo_e_bpf_toolkit.Prelude.Tests.{if◌then◌else◌, Bool-cases}
use mathlib.Core.Logic.{inl, inr}
use llm_slo_e_bpf_toolkit.Prelude.Lists.{length, All, count_if}
use llm_slo_e_bpf_toolkit.Prelude.Names.{str_eq, contains}

module _ {ℓ} {A : Type ℓ} (less : A → A → Bool) where
  -- `x` came before all of `ys`, so it goes in front of those that are not less than it.
  pub place : A → List A → List A
  place x [] = x ∷ []
  place x (y ∷ ys) = let rest = place x ys in if less y x then y ∷ rest else x ∷ y ∷ ys

  unfoldable pub sort_stable : List A → List A
  unfolding place
  sort_stable [] = []
  sort_stable (x ∷ xs) = place x (sort_stable xs)

  length-place : (x : A) (ys : List A) → length (place x ys) ≡ suc (length ys)
  unfolding place
  length-place x [] = refl
  length-place x (y ∷ ys) = ground (arith, length-place x ys)

  pub length-sort_stable : (xs : List A) → length (sort_stable xs) ≡ length xs
  unfolding sort_stable
  length-sort_stable [] = refl
  length-sort_stable (x ∷ xs) = length-place x (sort_stable xs) ∙ ap suc (length-sort_stable xs)

  count_if-place :
      (p : A → Bool) (x : A) (ys : List A) → count_if p (place x ys) ≡ count_if p (x ∷ ys)
  unfolding place
  count_if-place p x [] = refl
  count_if-place p x (y ∷ ys) = ground (arith, count_if-place p x ys)

  -- The sort keeps how often each test passes: it is a rearrangement.
  pub count_if-sort_stable :
      (p : A → Bool) (xs : List A) → count_if p (sort_stable xs) ≡ count_if p xs
  unfolding sort_stable
  count_if-sort_stable p [] = refl
  count_if-sort_stable p (x ∷ xs) =
      ground (arith, count_if-place p x (sort_stable xs), count_if-sort_stable p xs)

  All-place : (P : A → Type 0) (x : A) (ys : List A) → P x → All P ys → All P (place x ys)
  unfolding place
  All-place P x [] p ps = (p, tt)
  All-place P x (y ∷ ys) p (q, qs) = ground (arith, All-place P x ys p qs)

  pub All-sort_stable : (P : A → Type 0) (xs : List A) → All P xs → All P (sort_stable xs)
  unfolding sort_stable
  All-sort_stable P [] ps = tt
  All-sort_stable P (x ∷ xs) (p, ps) = All-place P x (sort_stable xs) p (All-sort_stable P xs ps)

contains-place :
    (less : String → String → Bool) (k x : String) (ys : List String)
    → contains k (place less x ys) ≡ (str_eq x k || contains k ys)
unfolding place
contains-place less k x [] = refl
contains-place less k x (y ∷ ys) = ground (arith, contains-place less k x ys)

pub contains-sort_stable :
    (less : String → String → Bool) (k : String) (xs : List String)
    → contains k (sort_stable less xs) ≡ contains k xs
unfolding sort_stable
contains-sort_stable less k [] = refl
contains-sort_stable less k (x ∷ xs) =
    ground (arith, contains-place less k x (sort_stable less xs), contains-sort_stable less k xs)

-- Each element is related to all that follow.
abbrev pub Sorted {ℓ κ} : {A : Type ℓ} → (A → A → Type κ) → List A → Type κ
Sorted R [] = Unit
Sorted R (x ∷ xs) = All (R x) xs × Sorted R xs

module _ {ℓ} {A : Type ℓ} (less : A → A → Bool) (P : A → Type 0) (R : A → A → Type 0)
    (trans : (x y z : A) → R x y → R y z → R x z)
    (swapped : (x y : A) → P x → P y → less y x ≡ true → R y x)
    (kept : (x y : A) → P x → P y → less y x ≡ false → R x y) where
  All-trans : (x y : A) (zs : List A) → R x y → All (R y) zs → All (R x) zs
  All-trans x y [] r a = tt
  All-trans x y (z ∷ zs) r (a, as') = (trans x y z r a, All-trans x y zs r as')

  place-Sorted : (x : A) (ys : List A) → P x → All P ys → Sorted R ys → Sorted R (place less x ys)
  unfolding place
  place-Sorted x [] p ps s = (tt, tt)
  place-Sorted x (y ∷ ys) p (q, qs) (a, s) = elim (Bool-cases (less y x)) [
    | inl later ↦
        rw later (All-place less (R y) x ys (swapped x y p q later) a, place-Sorted x ys p qs s)
    | inr first ↦ let r = kept x y p q first in rw first ((r, All-trans x y ys r a), (a, s))
  ]

  -- A sort by `less` is in the order `R`, where `less` decides `R` on the elements at hand.
  pub sort_stable-Sorted : (xs : List A) → All P xs → Sorted R (sort_stable less xs)
  unfolding sort_stable
  sort_stable-Sorted [] ps = tt
  sort_stable-Sorted (x ∷ xs) (p, ps) =
      place-Sorted x (sort_stable less xs) p (All-sort_stable less P xs ps)
        (sort_stable-Sorted xs ps)

module _ {ℓ} {A : Type ℓ} (R : A → A → Type 0) where
  All-append_left : (x : A) (xs ys : List A) → All (R x) (xs ++ ys) → All (R x) xs
  All-append_left x [] ys a = tt
  All-append_left x (z ∷ xs) ys (a, as') = (a, All-append_left x xs ys as')

  pub Sorted-append_left : (xs ys : List A) → Sorted R (xs ++ ys) → Sorted R xs
  Sorted-append_left [] ys s = tt
  Sorted-append_left (x ∷ xs) ys (a, s) = (All-append_left x xs ys a, Sorted-append_left xs ys s)
