-- ===== src/Signals/Events/Emitted.antt =====
-- Which events `Generate` of pkg/signals/generator.go emits, and how severe they are.
use llm_slo_e_bpf_toolkit.Prelude.{
  suc, ◌+◌, ◌≡◌, refl, sym, ap, ◌∙◌, inl, inr, Bool, true, false, String, str_eq, str_eq_refl,
  eq_iff, List, [], ◌∷◌, ◌++◌, map, Option, arith, contains, Distinct, length, count_if, filter,
  Bool-cases, if◌then◌else◌,
}
use mathlib.Core.List.{append-nil, append_assoc}
use llm_slo_e_bpf_toolkit.Prelude.Int.{ℤ}
use llm_slo_e_bpf_toolkit.Prelude.Float64.{Float64}
use llm_slo_e_bpf_toolkit.Prelude.Time.{Time}
use llm_slo_e_bpf_toolkit.Collector.Samples.{RawSample}
use llm_slo_e_bpf_toolkit.Signals.Constants.{core_signal_set, supported_signals_for_mode}
use llm_slo_e_bpf_toolkit.Signals.Metadata.{Metadata}
use llm_slo_e_bpf_toolkit.Signals.Generator.{Generator, new_generator}
use llm_slo_e_bpf_toolkit.Signals.Generator.Enabled.{Call, run, new_generator-IsWellFormed}
use llm_slo_e_bpf_toolkit.Signals.Events.{
  ConnTuple, ProbeEvent, new_event, profile_for_fault, observations, append_enabled, apply_enricher,
  generate,
}

-- How often a name stands in a list without repetition.
count_once :
    (x : String) (ys : List String)
    → Distinct ys
    → count_if (λ y. str_eq x y) ys ≡ (if contains x ys then 1 else 0)
count_once x [] d = refl
count_once x (y ∷ ys) d =
    ground
      (arith, count_once x ys d.1, eq_iff x y, eq_iff y x, ap (λ a. contains a ys) {x = x} {y = y})

count_split :
    (x : String) (xs ys : List String)
    → contains x xs ≡ false
    → count_if (λ y. contains y (x ∷ xs)) ys
      ≡ count_if (λ y. str_eq x y) ys + count_if (λ y. contains y xs) ys
count_split x xs [] n = refl
count_split x xs (y ∷ ys) n =
    ground (arith, count_split x xs ys n, eq_iff x y, ap (λ a. contains a xs) {x = x} {y = y})

-- The members of one list that stand in another one are as many as the other's, if it has no more.
count_members :
    (xs ys : List String)
    → Distinct xs
    → Distinct ys
    → ((j : String) → contains j xs ≡ true → contains j ys ≡ true)
    → count_if (λ y. contains y xs) ys ≡ length xs
count_members [] ys d e h = nothing ys
  where
    nothing : (ys : List String) → count_if (λ y. contains y []) ys ≡ 0
    nothing [] = refl
    nothing (y ∷ ys) = nothing ys
count_members (x ∷ xs) ys d e h =
    let here : contains x ys ≡ true = h x (rw (str_eq_refl x) refl) in
    ground (
      arith,
      count_split x xs ys,
      count_once x ys e,
      count_members xs ys d.1 e (λ j k. h j (ground arith)),
    )

length-filter : {A : Type 0} (p : A → Bool) (xs : List A) → length (filter p xs) ≡ count_if p xs
length-filter p [] = refl
length-filter p (x ∷ xs) = ground (arith, length-filter p xs)

length-map : {A B : Type 0} (f : A → B) (xs : List A) → length (map f xs) ≡ length xs
length-map f [] = refl
length-map f (x ∷ xs) = ap suc (length-map f xs)

map-append : {A B : Type 0} (f : A → B) (xs ys : List A) → map f (xs ++ ys) ≡ map f xs ++ map f ys
map-append f [] ys = refl
map-append f (x ∷ xs) ys = ap (λ t. f x ∷ t) (map-append f xs ys)

supported→core :
    (mode j : String)
    → contains j (supported_signals_for_mode mode) ≡ true
    → contains j core_signal_set ≡ true
unfolding supported_signals_for_mode
supported→core mode j h = ground arith

abbrev pub signal_of : (F : Type 0) → ProbeEvent F → String
signal_of F e = e.signal

module _ (F : Type 0) ⦃d : Float64 F⦄ where
  -- Which names a list of observations gives the events.
  append_enabled-signals :
      (enabled : List String) (ts : Time) (meta : Metadata) (out : List (ProbeEvent F))
      (os : List (String × F × String × Option ConnTuple × ℤ))
      → map (signal_of F) (append_enabled enabled ts meta out os)
        ≡ map (signal_of F) out ++ filter (λ s. contains s enabled) (map (λ o. o.0) os)
  unfolding append_enabled new_event
  append_enabled-signals enabled ts meta out [] = rw append-nil
  append_enabled-signals enabled ts meta out ((s, value, unit, tuple, errno) ∷ os) =
      let event = new_event ts s value unit meta tuple errno (d.milli 0) in
      elim (Bool-cases (contains s enabled)) [
        | inl h ↦ rw h (
            append_enabled-signals enabled ts meta (out ++ (event ∷ [])) os
            ∙ ap (λ l. l ++ filter (λ s. contains s enabled) (map (λ o. o.0) os))
                (map-append (signal_of F) out (event ∷ []))
            ∙ append_assoc (map (signal_of F) out) (s ∷ []) _)
        | inr h ↦ rw h (append_enabled-signals enabled ts meta out os)
      ]

  generate_all :
      (g : Generator) (sample : RawSample F) (meta : Metadata)
      → map (signal_of F) (generate g sample meta)
        ≡ filter (λ s. contains s g.enabled) core_signal_set
  unfolding generate
  generate_all g sample meta = by_enabled g.enabled
    where
      by_enabled :
          (enabled : List String)
          → map (signal_of F) (generate (record g { enabled = enabled }) sample meta)
            ≡ filter (λ s. contains s enabled) core_signal_set
      by_enabled [] = refl
      by_enabled (s ∷ names) =
          append_enabled-signals (s ∷ names) sample.timestamp (apply_enricher g.enricher meta) []
            (observations (profile_for_fault sample.fault_label))

  -- After any calls on a new generator, `Generate` emits one event for each enabled signal, in the fixed
  -- order of the signals, and no other.
  pub generate-signals :
      (mode : String) (signal_set : List String) (enricher : Option (Metadata → Metadata))
      (cs : List Call) (sample : RawSample F) (meta : Metadata)
      → let g = run (new_generator mode signal_set enricher) cs in
        let events : List (ProbeEvent F) = generate g sample meta in
        (map (signal_of F) events ≡ filter (λ s. contains s g.enabled) core_signal_set)
        × (length events ≡ length g.enabled)
  generate-signals mode signal_set enricher cs sample meta =
      let g = run (new_generator mode signal_set enricher) cs in
      let f = new_generator-IsWellFormed mode signal_set enricher cs in
      let core =
        count_members g.enabled core_signal_set f.distinct (ground arith)
          (λ j h. supported→core g.mode j (f.supported j h)) in
      (
        generate_all g sample meta,
        sym (length-map (signal_of F) (generate g sample meta))
            ∙ ap length (generate_all g sample meta)
            ∙ length-filter (λ s. contains s g.enabled) core_signal_set
            ∙ core,
      )
