-- ===== src/Signals/Generator.antt =====
-- pkg/signals/generator.go: the set of enabled signals and the operations on it. Every method holds
-- the mutex, so a history is a sequence of calls. The set is a list of names without repetition.
pub mod Enabled
use Prim.Native.Nat.{Ordering}
use Prim.Native.String.{compare}
use llm_slo_e_bpf_toolkit.Prelude.{
  Bool, true, false, String, List, [], ◌∷◌, Option, none, some, contains, insert_name, remove_name,
  if◌then◌else◌,
}
use llm_slo_e_bpf_toolkit.Prelude.Sort.{sort_stable}
use llm_slo_e_bpf_toolkit.Signals.Constants.{supported_signals_for_mode, disable_order}
use llm_slo_e_bpf_toolkit.Signals.Metadata.{Metadata}

pub record Generator : Type 0 where
  pub mode : String
  pub enabled : List String
  pub enricher : Option (Metadata → Metadata)

-- `for _, s := range names { set[s] = struct{}{} }`.
unfoldable pub add_names : List String → List String → List String
add_names set [] = set
add_names set (s ∷ names) = add_names (insert_name s set) names

-- The loop of `SetSignals` over a given set.
unfoldable pub add_allowed : List String → List String → List String → List String
add_allowed allowed set [] = set
add_allowed allowed set (s ∷ names) =
    add_allowed allowed (if contains s allowed then insert_name s set else set) names

abbrev pub is_empty : List String → Bool
is_empty [] = true
is_empty (s ∷ names) = false

unfoldable pub set_signals : Generator → List String → Generator
set_signals g signal_set =
    let allowed = add_names [] (supported_signals_for_mode g.mode) in
    record g {
      enabled =
          if is_empty signal_set then add_names [] allowed else add_allowed allowed [] signal_set;
    }

unfoldable pub new_generator : String → List String → Option (Metadata → Metadata) → Generator
new_generator mode signal_set enricher =
    set_signals (record { mode = mode; enabled = []; enricher = enricher }) signal_set

-- `sort.Strings`: the bytes of UTF-8 order strings as their code points do.
abbrev string_less : String → String → Bool
string_less a b = elim (compare a b) [ Ordering.lt ↦ true | _ ↦ false ]

unfoldable pub enabled_signals : Generator → List String
enabled_signals g = sort_stable string_less g.enabled

-- `Mode`.
unfoldable pub mode_of : Generator → String
mode_of g = g.mode

unfoldable pub disable : Generator → String → Generator × Bool
disable g signal =
    if contains signal g.enabled
    then (record g { enabled = remove_name signal g.enabled }, true)
    else (g, false)

-- The loop of `DisableHighestCost`; `none` is the result `"", false`.
unfoldable pub disable_first : Generator → List String → Generator × Option String
disable_first g [] = (g, none)
disable_first g (signal ∷ order) =
    if contains signal g.enabled
    then (record g { enabled = remove_name signal g.enabled }, some signal)
    else disable_first g order

unfoldable pub disable_highest_cost : Generator → Generator × Option String
disable_highest_cost g = disable_first g disable_order
