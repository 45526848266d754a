-- ===== src/Correlation/Evaluator.antt =====
-- pkg/correlation/evaluator.go, without the loading of JSON lines and the clock. The counters are
-- bounded by the number of pairs, so they do not wrap. A gate's message is a constructor.
pub mod Confusion
use llm_slo_e_bpf_toolkit.Prelude.{
  ℕ, ◌+◌, Bool, true, false, not, ◌&&◌, String, str_eq, List, [], ◌∷◌, ◌++◌, length, ltb, ◌==◌,
  if◌then◌else◌,
}
use llm_slo_e_bpf_toolkit.Prelude.Int.{ℤ, pos, quot_ℕ}
use llm_slo_e_bpf_toolkit.Prelude.Float64.{Float64, flt, fgt, fge}
use llm_slo_e_bpf_toolkit.Prelude.Time.{Duration, millisecond}
use llm_slo_e_bpf_toolkit.Correlation.Match.{SpanRef, SignalRef, match, effective_window}
use llm_slo_e_bpf_toolkit.Correlation.EnrichDns.{effective_threshold}

pub record LabeledPair (F : Type 0) : Type 0 where
  pub case_id : String
  pub span : SpanRef
  pub signal : SignalRef F
  pub expected_match : Bool
  pub expected_tier : String

pub record Prediction (F : Type 0) : Type 0 where
  pub case_id : String
  pub expected : Bool
  pub predicted : Bool
  pub confidence : F
  pub tier : String
  pub correct : Bool
  pub signal : String
  pub expected_tier : String

pub record EvalReport (F : Type 0) : Type 0 where
  pub sample_size : ℕ
  pub true_positive : ℕ
  pub false_positive : ℕ
  pub false_negative : ℕ
  pub true_negative : ℕ
  pub precision : F
  pub recall : F
  pub f1 : F
  pub tier_accuracy : F
  pub mean_confidence : F
  pub window_ms : ℤ
  pub threshold : F

-- The variables of the loop.
pub record Tally (F : Type 0) : Type 0 where
  pub tp : ℕ
  pub fp : ℕ
  pub fn : ℕ
  pub tn : ℕ
  pub tier_correct : ℕ
  pub tier_comparable : ℕ
  pub conf_sum : F
  pub conf_count : ℕ

abbrev pub bool_eq : Bool → Bool → Bool
bool_eq true b = b
bool_eq false b = not b

module _ {F : Type 0} ⦃d : Float64 F⦄ where
  unfoldable pub safe_div : ℕ → ℕ → F
  safe_div num den =
      if den == 0 then d.milli 0 else d.fdiv (d.of_int (pos num)) (d.of_int (pos den))

  unfoldable pub predict : Duration → F → LabeledPair F → Prediction F
  predict window threshold pair =
      let r = match pair.span pair.signal window in
      let predicted = r.matched && fge r.confidence threshold in
      record {
        case_id = pair.case_id;
        expected = pair.expected_match;
        predicted = predicted;
        confidence = r.confidence;
        tier = r.tier;
        correct = bool_eq predicted pair.expected_match;
        signal = pair.signal.signal;
        expected_tier = pair.expected_tier;
      }

  -- What one pair adds to the sums, from the prediction for it.
  unfoldable pub tally_one : Tally F → Prediction F → Tally F
  tally_one t p =
      let scored = p.predicted in
      let comparable = p.expected && (not (str_eq p.expected_tier "") && scored) in
      record {
        tp = if p.expected && scored then t.tp + 1 else t.tp;
        fp = if not p.expected && scored then t.fp + 1 else t.fp;
        fn = if p.expected && not scored then t.fn + 1 else t.fn;
        tn = if not p.expected && not scored then t.tn + 1 else t.tn;
        tier_correct =
            if comparable && str_eq p.expected_tier p.tier
            then t.tier_correct + 1
            else t.tier_correct;
        tier_comparable = if comparable then t.tier_comparable + 1 else t.tier_comparable;
        conf_sum = if scored then d.fadd t.conf_sum p.confidence else t.conf_sum;
        conf_count = if scored then t.conf_count + 1 else t.conf_count;
      }

  -- The loop: the sums and the predictions so far.
  unfoldable pub evaluate_from :
      Duration
      → F
      → Tally F
      → List (Prediction F)
      → List (LabeledPair F)
      → Tally F × List (Prediction F)
  evaluate_from window threshold t done [] = (t, done)
  evaluate_from window threshold t done (pair ∷ pairs) =
      let p = predict window threshold pair in
      evaluate_from window threshold (tally_one t p) (done ++ (p ∷ [])) pairs

  abbrev pub empty_tally : Tally F
  empty_tally = record {
    tp = 0;
    fp = 0;
    fn = 0;
    tn = 0;
    tier_correct = 0;
    tier_comparable = 0;
    conf_sum = d.milli 0;
    conf_count = 0;
  }

  -- The ratios of the report, from the sums.
  unfoldable pub summarize : ℕ → Duration → F → Tally F → EvalReport F
  summarize sample_size window threshold t =
      let precision = safe_div t.tp (t.tp + t.fp) in
      let recall = safe_div t.tp (t.tp + t.fn) in
      let ratio = d.fdiv (d.fmul precision recall) (d.fadd precision recall) in
      record {
        sample_size = sample_size;
        true_positive = t.tp;
        false_positive = t.fp;
        false_negative = t.fn;
        true_negative = t.tn;
        precision = precision;
        recall = recall;
        f1 =
            if fgt (d.fadd precision recall) (d.milli 0)
            then d.fmul (d.milli 2000) ratio
            else d.milli 0;
        tier_accuracy =
            if ltb 0 t.tier_comparable
            then d.fdiv (d.of_int (pos t.tier_correct)) (d.of_int (pos t.tier_comparable))
            else d.milli 0;
        mean_confidence =
            if ltb 0 t.conf_count
            then d.fdiv t.conf_sum (d.of_int (pos t.conf_count))
            else d.milli 0;
        window_ms = quot_ℕ window millisecond;
        threshold = threshold;
      }

  unfoldable pub evaluate_labeled_pairs :
      List (LabeledPair F) → Duration → F → EvalReport F × List (Prediction F)
  evaluate_labeled_pairs pairs window threshold =
      let w = effective_window window in
      let th = effective_threshold threshold in
      let (t, predictions) = evaluate_from w th empty_tally [] pairs in
      (summarize (length pairs) w th t, predictions)

pub data GateMessage : Type 0 where
  precision_gate_failed recall_gate_failed correlation_gate_passed : GateMessage

pub record GateResult : Type 0 where
  pub pass : Bool
  pub message : GateMessage

unfoldable pub evaluate_gate : {F : Type 0} ⦃d : Float64 F⦄ → EvalReport F → F → F → GateResult
evaluate_gate report min_precision min_recall =
    if flt report.precision min_precision
    then record { pass = false; message = precision_gate_failed }
    else if flt report.recall min_recall
    then record { pass = false; message = recall_gate_failed }
    else record { pass = true; message = correlation_gate_passed }
