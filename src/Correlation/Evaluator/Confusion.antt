-- ===== src/Correlation/Evaluator/Confusion.antt =====
-- The report of pkg/correlation/evaluator.go against the list of predictions.
use llm_slo_e_bpf_toolkit.Prelude.{
  ℕ, ◌+◌, ◌≡◌, ◌∙◌, not, ◌&&◌, List, [], ◌∷◌, ◌++◌, map, length, count_if, arith,
}
use llm_slo_e_bpf_toolkit.Prelude.Float64.{Float64}
use llm_slo_e_bpf_toolkit.Prelude.Time.{Duration}
use llm_slo_e_bpf_toolkit.Correlation.Match.{effective_window}
use llm_slo_e_bpf_toolkit.Correlation.EnrichDns.{effective_threshold}
use mathlib.Core.List.{append-nil, append_assoc}
use llm_slo_e_bpf_toolkit.Correlation.Evaluator.{
  LabeledPair, Prediction, Tally, predict, tally_one, evaluate_from, empty_tally, summarize,
  evaluate_labeled_pairs,
}

module _ {F : Type 0} where
  abbrev pub hits : List (Prediction F) → ℕ
  hits = count_if λ p. p.expected && p.predicted

  abbrev pub false_alarms : List (Prediction F) → ℕ
  false_alarms = count_if λ p. not p.expected && p.predicted

  abbrev pub misses : List (Prediction F) → ℕ
  misses = count_if λ p. p.expected && not p.predicted

  abbrev pub rejections : List (Prediction F) → ℕ
  rejections = count_if λ p. not p.expected && not p.predicted

  abbrev pub correct_ones : List (Prediction F) → ℕ
  correct_ones = count_if λ p. p.correct

module _ {F : Type 0} ⦃d : Float64 F⦄ where
  evaluate_from-predictions :
      (w : Duration) (th : F) (t : Tally F) (done : List (Prediction F)) (ps : List (LabeledPair F))
      → (evaluate_from w th t done ps).1 ≡ done ++ map (predict w th) ps
  unfolding evaluate_from
  evaluate_from-predictions w th t done [] = rw append-nil
  evaluate_from-predictions w th t done (p ∷ ps) =
      evaluate_from-predictions w th (tally_one t (predict w th p)) (done ++ (predict w th p ∷ []))
        ps
      ∙ append_assoc done (predict w th p ∷ []) (map (predict w th) ps)

  evaluate_from-counts :
      (w : Duration) (th : F) (t : Tally F) (done : List (Prediction F)) (ps : List (LabeledPair F))
      → let t' = (evaluate_from w th t done ps).0 in
        let preds = map (predict w th) ps in
        (t'.tp ≡ t.tp + hits preds)
        × (t'.fp ≡ t.fp + false_alarms preds)
        × (t'.fn ≡ t.fn + misses preds)
        × (t'.tn ≡ t.tn + rejections preds)
  unfolding evaluate_from tally_one
  evaluate_from-counts w th t done [] = omega arith
  evaluate_from-counts w th t done (p ∷ ps) = ground (
    arith,
    evaluate_from-counts w th (tally_one t (predict w th p)) (done ++ (predict w th p ∷ [])) ps,
  )

  correct_ones-predict :
      (w : Duration) (th : F) (ps : List (LabeledPair F))
      → let preds = map (predict w th) ps in
        (correct_ones preds ≡ hits preds + rejections preds)
        × (length ps ≡ hits preds + false_alarms preds + misses preds + rejections preds)
  unfolding predict
  correct_ones-predict w th [] = omega arith
  correct_ones-predict w th (p ∷ ps) = ground (arith, correct_ones-predict w th ps)

  -- The predictions are those of the single pairs in their order, the four counters of the report are
  -- the numbers of hits, false alarms, misses and rejections among them, they add up to the sample
  -- size, and the correct predictions are the hits and the rejections.
  pub evaluate_labeled_pairs-counts :
      (ps : List (LabeledPair F)) (window : Duration) (threshold : F)
      → let (report, preds) = evaluate_labeled_pairs ps window threshold in
        (preds ≡ map (predict (effective_window window) (effective_threshold threshold)) ps)
        × (report.true_positive ≡ hits preds)
        × (report.false_positive ≡ false_alarms preds)
        × (report.false_negative ≡ misses preds)
        × (report.true_negative ≡ rejections preds)
        × (report.sample_size
            ≡ report.true_positive + report.false_positive + report.false_negative
              + report.true_negative)
        × (correct_ones preds ≡ report.true_positive + report.true_negative)
  unfolding evaluate_labeled_pairs summarize
  evaluate_labeled_pairs-counts ps window threshold =
      let w = effective_window window in
      let th = effective_threshold threshold in
      let preds = evaluate_from-predictions w th empty_tally [] ps in
      let (a, b, c, e) = evaluate_from-counts w th empty_tally [] ps in
      let (right, total) = correct_ones-predict w th ps in
      (
        preds,
        rw (preds, a) (omega arith),
        rw (preds, b) (omega arith),
        rw (preds, c) (omega arith),
        rw (preds, e) (omega arith),
        rw (a, b, c, e, total) (omega arith),
        rw (preds, a, e, right) (omega arith),
      )
