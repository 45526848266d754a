-- ===== src/CdGate/Verdict.antt =====
-- When the gate of pkg/cdgate/gate.go passes, and what cmd/sloctl/cdgate.go lets through.
use llm_slo_e_bpf_toolkit.Prelude.{
  ◌≡◌, ◌∙◌, ◌⊎◌, refl, ap, inl, inr, Bool, true, false, not, ◌&&◌, ◌||◌, String, List, [], ◌∷◌,
  ◌++◌, arith, Bool-cases, if◌then◌else◌,
}
use mathlib.Core.List.{append-nil, append_assoc}
use llm_slo_e_bpf_toolkit.Prelude.Float64.{Float64, fgt}
use llm_slo_e_bpf_toolkit.Prelude.Time.{Time}
use llm_slo_e_bpf_toolkit.CdGate.{
  Thresholds, Violation, Result, Answer, failed, answered, no_error, default_query, checks, note,
  run_checks, evaluate_slo_gate, is_error, apply_fail_open, exit_code,
}

abbrev pub is_answered : {F : Type 0} → Answer F → Bool
is_answered (failed e) = false
is_answered (answered v) = true

answer_cases :
    {F : Type 0} (a : Answer F) → ((e : String) × (a ≡ failed e)) ⊎ ((v : F) × (a ≡ answered v))
answer_cases (failed e) = inl (e, refl)
answer_cases (answered v) = inr (v, refl)

module _ {F : Type 0} ⦃d : Float64 F⦄ where
  -- The answer is a value that does not exceed the threshold.
  abbrev pub is_within : F → Answer F → Bool
  is_within threshold (failed e) = false
  is_within threshold (answered v) = not (fgt v threshold)

  -- The violation of one check, if its answer is above the threshold.
  abbrev pub breach : String → F → Answer F → List (Violation F)
  breach metric threshold (failed e) = []
  breach metric threshold (answered v) =
      if fgt v threshold
      then record { metric = metric; threshold = threshold; actual = v } ∷ []
      else []

  module _ (query : String → Answer F) where
    abbrev pub all_within : List (String × F) → Bool
    all_within [] = true
    all_within (c ∷ cs) =
        let rest = all_within cs in is_within c.1 (query (default_query c.0)) && rest

    abbrev pub all_answered : List (String × F) → Bool
    all_answered [] = true
    all_answered (c ∷ cs) =
        let rest = all_answered cs in is_answered (query (default_query c.0)) && rest

    -- The violations of the checks before the first query that fails.
    abbrev pub breaches : List (String × F) → List (Violation F)
    breaches [] = []
    breaches (c ∷ cs) =
        let rest = breaches cs in
        let a = query (default_query c.0) in if is_answered a then breach c.0 c.1 a ++ rest else []

    -- What a value adds to a result.
    note_lem :
        (r : Result F) (metric : String) (threshold v : F)
        → let r' = note r metric threshold v in
          (r'.pass ≡ (r.pass && is_within threshold (answered v)))
          × (r'.error ≡ r.error)
          × (r'.violations ≡ r.violations ++ breach metric threshold (answered v))
    unfolding note
    note_lem r metric threshold v = elim (Bool-cases (fgt v threshold)) [
      | inl over ↦ rw over (ground arith, refl, refl)
      | inr under ↦ rw under (ground arith, refl, rw append-nil refl)
    ]

    run_checks_lem :
        (cs : List (String × F)) (r : Result F)
        → let r' = run_checks query cs r in
          (r'.pass ≡ (r.pass && all_within cs))
          × (is_error r'.error ≡ (if all_answered cs then is_error r.error else true))
          × (r'.violations ≡ r.violations ++ breaches cs)
    unfolding run_checks
    run_checks_lem [] r = (ground arith, refl, rw append-nil refl)
    run_checks_lem (c ∷ cs) r = elim (answer_cases (query (default_query c.0))) [
      | inl (m, e) ↦ rw e (ground arith, refl, rw append-nil refl)
      | inr (v, e) ↦
          let (p, q, w) = note_lem r c.0 c.1 v in
          let (a, b, z) = run_checks_lem cs (note r c.0 c.1 v) in
          rw e (
            a ∙ ground (arith, p),
            b ∙ ap (λ x. if all_answered cs then is_error x else true) q,
            z
                ∙ ap (λ l. l ++ breaches cs) w
                ∙ append_assoc r.violations (breach c.0 c.1 (answered v)) (breaches cs),
          )
    ]

    -- The gate passes exactly when Prometheus answers all three queries and no value exceeds its
    -- threshold, it reports an error exactly when a query fails, and its violations are the values over
    -- their thresholds that came before the first failure, in the order of the queries.
    pub evaluate_slo_gate_lem :
        (now : Time) (t : Thresholds F)
        → let r = evaluate_slo_gate query now t in
          (r.pass ≡ all_within (checks t))
          × (is_error r.error ≡ not (all_answered (checks t)))
          × (r.violations ≡ breaches (checks t))
    unfolding evaluate_slo_gate
    evaluate_slo_gate_lem now t =
        let (a, b, w) =
          run_checks_lem (checks t)
            (record { pass = true; violations = []; timestamp = now; error = no_error }) in
        (a, b ∙ ground arith, w)

    -- In a supported output mode the command exits with 0 exactly when all values are within their
    -- thresholds, or when a query failed and the flag
    -- `fail-open` is set, and else with 1.
    pub exit_code-apply_fail_open :
        (fail_open : Bool) (now : Time) (t : Thresholds F)
        → exit_code (apply_fail_open fail_open (evaluate_slo_gate query now t))
          ≡ (if all_within (checks t) || (not (all_answered (checks t)) && fail_open) then 0 else 1)
    unfolding exit_code apply_fail_open
    exit_code-apply_fail_open fail_open now t = ground (arith, evaluate_slo_gate_lem now t)
