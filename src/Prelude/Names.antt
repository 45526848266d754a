-- ===== src/Prelude/Names.antt =====
-- Go strings as keys: `map[string]struct{}` as a list of names, `map[string]V` as a list of pairs.
-- A Go map has no order, so nothing outside this module depends on the order of these lists
-- except through a sort.
use Prim.Native.Nat.{suc}
use Prim.Native.String.{String}
use mathlib.Core.Path.{◌≡◌, refl, ap}
use mathlib.Core.Bool.{Bool, true, false, not, ◌&&◌, ◌||◌}
use mathlib.Core.List.{List, [], ◌∷◌}
use mathlib.Core.Option.{Option, none, some}
use native.Mathlib.Omega.{arith}
use text.Mathlib.Text.{◌==◌}
use text.Mathlib.TextEquality.{eq_iff}
use llm_slo_e_bpf_toolkit.Prelude.Tests.{if◌then◌else◌}
use llm_slo_e_bpf_toolkit.Prelude.Lists.{length}

-- `a == b` on Go strings.
abbrev pub str_eq : String → String → Bool
str_eq a b = a == b

pub str_eq_refl : (a : String) → str_eq a a ≡ true
str_eq_refl a = (eq_iff a a).1 refl

abbrev pub contains : String → List String → Bool
contains k [] = false
contains k (x ∷ xs) = str_eq x k || contains k xs

-- `set[k] = struct{}{}`.
unfoldable pub insert_name : String → List String → List String
insert_name k s = if contains k s then s else k ∷ s

-- `delete(set, k)`.
unfoldable pub remove_name : String → List String → List String
remove_name k [] = []
remove_name k (x ∷ xs) = let rest = remove_name k xs in if str_eq x k then rest else x ∷ rest

-- No name stands twice.
abbrev pub Distinct : List String → Type 0
Distinct [] = Unit
Distinct (x ∷ xs) = (contains x xs ≡ false) × Distinct xs

pub contains-insert_name :
    (k j : String) (s : List String) → contains j (insert_name k s) ≡ (str_eq k j || contains j s)
unfolding insert_name
contains-insert_name k j s = ground (arith, member s, eq_iff k j)
  where
    member : (s : List String) → k ≡ j → contains k s ≡ contains j s
    member s e = ap (λ a. contains a s) e

pub contains-remove_name :
    (k j : String) (s : List String)
    → contains j (remove_name k s) ≡ (not (str_eq k j) && contains j s)
unfolding remove_name
contains-remove_name k j [] = ground arith
contains-remove_name k j (x ∷ xs) =
    ground (arith, contains-remove_name k j xs, eq_iff k j, eq_iff x k, eq_iff x j)

pub insert_name-Distinct : (k : String) (s : List String) → Distinct s → Distinct (insert_name k s)
unfolding insert_name
insert_name-Distinct k s d = ground arith

pub remove_name-Distinct : (k : String) (s : List String) → Distinct s → Distinct (remove_name k s)
unfolding remove_name
remove_name-Distinct k [] d = tt
remove_name-Distinct k (x ∷ xs) d =
    ground (arith, remove_name-Distinct k xs d.1, contains-remove_name k x xs)

remove_name_absent : (k : String) (s : List String) → contains k s ≡ false → remove_name k s ≡ s
unfolding remove_name
remove_name_absent k [] h = refl
remove_name_absent k (x ∷ xs) h = ground (arith, remove_name_absent k xs)

-- Deleting a member of a set takes exactly one name away.
pub length-remove_name :
    (k : String) (s : List String)
    → Distinct s
    → contains k s ≡ true
    → suc (length (remove_name k s)) ≡ length s
unfolding remove_name
length-remove_name k [] d h = cc
length-remove_name k (x ∷ xs) d h = ground (
  arith,
  length-remove_name k xs d.1,
  remove_name_absent k xs,
  eq_iff x k,
  ap (λ a. contains a xs) {x = x} {y = k},
)

-- A map reads the first pair of a key, and a store replaces it or adds the pair at the end.
module _ {ℓ} {V : Type ℓ} where
  unfoldable pub lookup : (key : String) → List (String × V) → Option V
  lookup key [] = none
  lookup key (e ∷ rest) = if str_eq e.0 key then some e.1 else lookup key rest

  unfoldable pub insert : (key : String) → (new : V) → List (String × V) → List (String × V)
  insert key new [] = (key, new) ∷ []
  insert key new (e ∷ rest) = if str_eq e.0 key then (key, new) ∷ rest else e ∷ insert key new rest

  -- A store changes what its own key reads, and no other.
  pub lookup-insert :
      (key other : String) (new : V) (entries : List (String × V))
      → lookup other (insert key new entries)
        ≡ (if str_eq key other then some new else lookup other entries)
  unfolding insert lookup
  lookup-insert key other new [] = refl
  lookup-insert key other new (e ∷ rest) =
      let same = eq_iff key other in
      ground (lookup-insert key other new rest, same, eq_iff e.0 key, eq_iff e.0 other, arith)
