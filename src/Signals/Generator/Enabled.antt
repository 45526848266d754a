-- ===== src/Signals/Generator/Enabled.antt =====
-- Which signals a generator of pkg/signals/generator.go has enabled after any sequence of calls.
use llm_slo_e_bpf_toolkit.Prelude.{
  eq_iff, str_eq_refl, ℕ, zero, suc, ◌-◌, ◌≡◌, refl, ap, ◌∙◌, inl, inr, Bool, true, false, not,
  ◌&&◌, ◌||◌, String, str_eq, List, [], ◌∷◌, Option, some, arith, contains, insert_name,
  remove_name, contains-insert_name, contains-remove_name, Distinct, insert_name-Distinct,
  remove_name-Distinct, length, length-remove_name, Bool-cases, if◌then◌else◌,
}
use llm_slo_e_bpf_toolkit.Signals.Constants.{supported_signals_for_mode, disable_order}
use llm_slo_e_bpf_toolkit.Signals.Metadata.{Metadata}
use llm_slo_e_bpf_toolkit.Signals.Generator.{
  Generator, add_names, add_allowed, is_empty, set_signals, new_generator, disable, disable_first,
  disable_highest_cost,
}

contains-add_names :
    (j : String) (set names : List String)
    → contains j (add_names set names) ≡ (contains j set || contains j names)
unfolding add_names
contains-add_names j set [] = ground arith
contains-add_names j set (s ∷ names) =
    ground (arith, contains-add_names j (insert_name s set) names, contains-insert_name s j set)

add_names-Distinct : (set names : List String) → Distinct set → Distinct (add_names set names)
unfolding add_names
add_names-Distinct set [] d = d
add_names-Distinct set (s ∷ names) d =
    add_names-Distinct (insert_name s set) names (insert_name-Distinct s set d)

contains-add_allowed :
    (j : String) (allowed set names : List String)
    → contains j (add_allowed allowed set names)
      ≡ (contains j set || (contains j names && contains j allowed))
unfolding add_allowed
contains-add_allowed j allowed set [] = ground arith
contains-add_allowed j allowed set (s ∷ names) =
    let next = if contains s allowed then insert_name s set else set in
    ground (
      arith,
      contains-add_allowed j allowed next names,
      contains-insert_name s j set,
      eq_iff s j,
      ap (λ a. contains a allowed) {x = s} {y = j},
    )

add_allowed-Distinct :
    (allowed set names : List String) → Distinct set → Distinct (add_allowed allowed set names)
unfolding add_allowed
add_allowed-Distinct allowed set [] d = d
add_allowed-Distinct allowed set (s ∷ names) d =
    add_allowed-Distinct allowed (if contains s allowed then insert_name s set else set) names
      (elim (Bool-cases (contains s allowed)) [
        | inl h ↦ rw h (insert_name-Distinct s set d)
        | inr h ↦ rw h d
      ])

-- After `SetSignals` a signal is enabled exactly when the mode supports it and the given set names it
-- or is empty.
pub contains-set_signals :
    (g : Generator) (signal_set : List String) (j : String)
    → contains j (set_signals g signal_set).enabled ≡ (
        contains j (supported_signals_for_mode g.mode)
        && (is_empty signal_set || contains j signal_set))
unfolding set_signals
contains-set_signals g [] j =
    let allowed = add_names [] (supported_signals_for_mode g.mode) in
    ground (
      arith,
      contains-add_names j [] allowed,
      contains-add_names j [] (supported_signals_for_mode g.mode),
    )
contains-set_signals g (s ∷ names) j =
    let allowed = add_names [] (supported_signals_for_mode g.mode) in
    ground (
      arith,
      contains-add_allowed j allowed [] (s ∷ names),
      contains-add_names j [] (supported_signals_for_mode g.mode),
    )

set_signals-Distinct :
    (g : Generator) (signal_set : List String) → Distinct (set_signals g signal_set).enabled
unfolding set_signals
set_signals-Distinct g [] = add_names-Distinct [] _ tt
set_signals-Distinct g (s ∷ names) = add_allowed-Distinct _ [] (s ∷ names) tt

-- No signal stands twice, and each is one of the mode's.
pub record IsWellFormed (g : Generator) : Type 0 where
  pub distinct : Distinct g.enabled
  pub supported :
      (j : String)
      → contains j g.enabled ≡ true
      → contains j (supported_signals_for_mode g.mode) ≡ true

set_signals-IsWellFormed :
    (g : Generator) (signal_set : List String) → IsWellFormed (set_signals g signal_set)
unfolding set_signals
set_signals-IsWellFormed g signal_set = record {
  distinct = set_signals-Distinct g signal_set;
  supported = λ j h. ground (arith, contains-set_signals g signal_set j);
}

-- Taking a name away keeps a generator well formed.
remove-IsWellFormed :
    (g : Generator) (s : String)
    → IsWellFormed g
    → IsWellFormed (record g { enabled = remove_name s g.enabled })
remove-IsWellFormed g s f = record {
  distinct = remove_name-Distinct s g.enabled f.distinct;
  supported = λ j h. ground (arith, contains-remove_name s j g.enabled, f.supported j);
}

disable_first-IsWellFormed :
    (g : Generator) (order : List String) → IsWellFormed g → IsWellFormed (disable_first g order).0
unfolding disable_first
disable_first-IsWellFormed g [] f = f
disable_first-IsWellFormed g (s ∷ order) f = elim (Bool-cases (contains s g.enabled)) [
  | inl h ↦ rw h (remove-IsWellFormed g s f)
  | inr h ↦ rw h (disable_first-IsWellFormed g order f)
]

-- The calls that change a generator.
pub data Call : Type 0 where
  sets : List String → Call
  disables : String → Call
  sheds : Call

unfoldable pub step : Generator → Call → Generator
step g (sets signal_set) = set_signals g signal_set
step g (disables s) = (disable g s).0
step g sheds = (disable_highest_cost g).0

unfoldable pub run : Generator → List Call → Generator
run g [] = g
run g (c ∷ cs) = run (step g c) cs

disable-IsWellFormed : (g : Generator) (s : String) → IsWellFormed g → IsWellFormed (disable g s).0
unfolding disable
disable-IsWellFormed g s f = elim (Bool-cases (contains s g.enabled)) [
  | inl h ↦ rw h (remove-IsWellFormed g s f)
  | inr h ↦ rw h f
]

step-IsWellFormed : (g : Generator) (c : Call) → IsWellFormed g → IsWellFormed (step g c)
unfolding step disable_highest_cost
step-IsWellFormed g (sets signal_set) f = set_signals-IsWellFormed g signal_set
step-IsWellFormed g (disables s) f = disable-IsWellFormed g s f
step-IsWellFormed g sheds f = disable_first-IsWellFormed g disable_order f

run-IsWellFormed : (g : Generator) (cs : List Call) → IsWellFormed g → IsWellFormed (run g cs)
unfolding run
run-IsWellFormed g [] f = f
run-IsWellFormed g (c ∷ cs) f = run-IsWellFormed (step g c) cs (step-IsWellFormed g c f)

-- Whatever is called on a new generator, no signal is enabled twice and none that the mode does not
-- support.
pub new_generator-IsWellFormed :
    (mode : String) (signal_set : List String) (enricher : Option (Metadata → Metadata))
    (cs : List Call)
    → IsWellFormed (run (new_generator mode signal_set enricher) cs)
unfolding new_generator
new_generator-IsWellFormed mode signal_set enricher cs =
    run-IsWellFormed _ cs (set_signals-IsWellFormed _ signal_set)

-- Every signal has a place in the order in which signals are given up.
supported→ordered :
    (mode j : String)
    → contains j (supported_signals_for_mode mode) ≡ true
    → contains j disable_order ≡ true
unfolding supported_signals_for_mode
supported→ordered mode j h = ground arith

length-disable_first :
    (g : Generator) (order : List String)
    → Distinct g.enabled
    → ((j : String) → contains j g.enabled ≡ true → contains j order ≡ true)
    → length (disable_first g order).0.enabled ≡ length g.enabled - 1
unfolding disable_first
length-disable_first g [] d h = nothing_left g.enabled h
  where
    nothing_left :
        (xs : List String)
        → ((j : String) → contains j xs ≡ true → contains j [] ≡ true)
        → length xs ≡ length xs - 1
    nothing_left [] k = refl
    nothing_left (x ∷ xs) k = cc (k x (rw (str_eq_refl x) refl))
length-disable_first g (s ∷ order) d h = elim (Bool-cases (contains s g.enabled)) [
  | inl m ↦ rw m (omega (arith, length-remove_name s g.enabled d m))
  | inr m ↦ rw m (
      length-disable_first g order d
        (λ j k. ground (arith, h j k, eq_iff s j, ap (λ a. contains a g.enabled) {x = s} {y = j})))
]

-- The overhead guard's reaction, `n` times in a row.
unfoldable pub shed : ℕ → Generator → Generator
shed zero g = g
shed (suc n) g = shed n (disable_highest_cost g).0

length-shed :
    (n : ℕ) (g : Generator) → IsWellFormed g → length (shed n g).enabled ≡ length g.enabled - n
unfolding shed disable_highest_cost
length-shed zero g f = omega arith
length-shed (suc n) g f = omega (
  arith,
  length-shed n (disable_first g disable_order).0 (disable_first-IsWellFormed g disable_order f),
  length-disable_first g disable_order f.distinct
      (λ j h. supported→ordered g.mode j (f.supported j h)),
)

-- Whatever was called before, each call of `DisableHighestCost` takes exactly one signal away while
-- one is enabled: `n` calls leave `n` fewer, and as many calls as signals leave none.
pub shed_new :
    (mode : String) (signal_set : List String) (enricher : Option (Metadata → Metadata))
    (cs : List Call) (n : ℕ)
    → let g = run (new_generator mode signal_set enricher) cs in
      length (shed n g).enabled ≡ length g.enabled - n
shed_new mode signal_set enricher cs n =
    length-shed n _ (new_generator-IsWellFormed mode signal_set enricher cs)

-- The names that stand before a signal in an order.
abbrev pub before_in : List String → String → String → Bool
before_in [] s j = false
before_in (o ∷ order) s j =
    let rest = before_in order s j in if str_eq o s then false else str_eq o j || rest

disable_first_lem :
    (g : Generator) (order : List String) (s : String)
    → (disable_first g order).1 ≡ some s
    → (contains s g.enabled ≡ true)
      × ((j : String) → before_in order s j ≡ true → contains j g.enabled ≡ false)
      × ((j : String)
          → contains j (disable_first g order).0.enabled
            ≡ (not (str_eq s j) && contains j g.enabled))
unfolding disable_first
disable_first_lem g [] s h = cc h
disable_first_lem g (o ∷ order) s h = elim (Bool-cases (contains o g.enabled)) [
  | inl m ↦
      let same : o ≡ s = cc (rw m at h) in
      rw m (
        cc (m, same),
        λ j b. ground (arith, eq_iff o s, b),
        λ j.
            contains-remove_name o j g.enabled
            ∙ ap (λ a. not (str_eq a j) && contains j g.enabled) same,
      )
  | inr m ↦
      let (a, b, c) = disable_first_lem g order s (rw m at h) in
      rw m (
        a,
        λ j k. ground (arith, b j, m, eq_iff o j, ap (λ a. contains a g.enabled) {x = o} {y = j}),
        c,
      )
]

-- The signal that `DisableHighestCost` names was enabled, no signal that stands before it in the
-- order of cost was, and it alone is disabled by the call.
pub disable_highest_cost_lem :
    (g : Generator) (s : String)
    → (disable_highest_cost g).1 ≡ some s
    → (contains s g.enabled ≡ true)
      × ((j : String) → before_in disable_order s j ≡ true → contains j g.enabled ≡ false)
      × ((j : String)
          → contains j (disable_highest_cost g).0.enabled
            ≡ (not (str_eq s j) && contains j g.enabled))
unfolding disable_highest_cost
disable_highest_cost_lem g s h = disable_first_lem g disable_order s h
