-- ===== src/ReleaseGate/Overhead.antt =====
-- The baseline gate and the overhead gate of pkg/releasegate/gate.go. `walk` is the order in which Go
-- visits the map of nodes.
pub mod Verdict
pub mod Baseline
use llm_slo_e_bpf_toolkit.Prelude.{
  ℕ, zero, suc, ◌+◌, Bool, true, false, not, ◌&&◌, ◌||◌, String, str_eq, List, [], ◌∷◌, ◌++◌, map,
  length, if◌then◌else◌,
}
use llm_slo_e_bpf_toolkit.Prelude.Float64.{Float64, fle, fgt}
use llm_slo_e_bpf_toolkit.Prelude.FloatMath.{FloatMath}
use llm_slo_e_bpf_toolkit.ReleaseGate.Config.{Config}
use llm_slo_e_bpf_toolkit.ReleaseGate.Statistics.{quantile, mean, max_float}
use llm_slo_e_bpf_toolkit.ReleaseGate.Results.{
  Result, ok, err, ◌>>=◌, GateError, manifest_not_found_out, manifest_unreadable,
  manifest_unparsable, no_run_directories, no_overhead_values,
}
use llm_slo_e_bpf_toolkit.ReleaseGate.Inputs.{
  StatAnswer, exists, absent, undecided, BaselineManifest, ManifestAnswer, unreadable, unparsable,
  manifest, Host, CollectorCpuSample, discover_runs, load_collector_cpu_samples,
}

pub data BaselineReason : Type 0 where
  no_baseline_reason manifest_missing same_commit_skipped same_ref_skipped : BaselineReason

pub record BaselineGate : Type 0 where
  pub pass : Bool
  pub manifest_required : Bool
  pub manifest_path : String
  pub source_ref : String
  pub source_commit : String
  pub candidate_ref : String
  pub candidate_commit : String
  pub same_source : Bool
  pub failure_reason : BaselineReason

abbrev pub same_name : String → String → Bool
same_name a b = not (str_eq a "") && (not (str_eq b "") && str_eq a b)

module _ {F : Type 0} (host : Host F) (cfg : Config F) where
  unfoldable pub empty_baseline : BaselineGate
  empty_baseline = record {
    pass = true;
    manifest_required = cfg.require_baseline_manifest;
    manifest_path = cfg.baseline_manifest_path;
    source_ref = "";
    source_commit = "";
    candidate_ref = cfg.candidate_ref;
    candidate_commit = cfg.candidate_commit;
    same_source = false;
    failure_reason = no_baseline_reason;
  }

  -- The comparison of the sources, after the manifest has been read.
  unfoldable pub compare_sources : BaselineManifest → BaselineGate
  unfolding empty_baseline
  compare_sources found =
      let source_ref = host.trim found.source_ref in
      let source_commit = host.trim found.source_commit in
      let same_commit = same_name source_commit cfg.candidate_commit in
      let same_ref = same_name source_ref cfg.candidate_ref in
      record empty_baseline {
        source_ref = source_ref;
        source_commit = source_commit;
        same_source = same_commit || same_ref;
        failure_reason =
            if same_commit
            then same_commit_skipped
            else if same_ref
            then same_ref_skipped
            else no_baseline_reason;
      }

  with_manifest : ManifestAnswer → Result BaselineGate
  with_manifest unreadable = err (manifest_unreadable cfg.baseline_manifest_path)
  with_manifest unparsable = err (manifest_unparsable cfg.baseline_manifest_path)
  with_manifest (manifest found) = ok (compare_sources found)

  with_stat : StatAnswer → Result BaselineGate
  with_stat undecided = err (manifest_not_found_out cfg.baseline_manifest_path)
  with_stat absent = ok (
      if cfg.require_baseline_manifest
      then record empty_baseline { pass = false; failure_reason = manifest_missing }
      else empty_baseline)
  with_stat exists = with_manifest (host.read_manifest cfg.baseline_manifest_path)

  unfoldable pub evaluate_baseline : Result BaselineGate
  unfolding with_stat with_manifest empty_baseline compare_sources
  evaluate_baseline = with_stat (host.stat cfg.baseline_manifest_path)

pub data OverheadReason : Type 0 where
  no_overhead_reason node_exceeds mean_exceeds : OverheadReason

pub record OverheadGate (F : Type 0) : Type 0 where
  pub pass : Bool
  pub threshold_pct : F
  pub max_observed_pct : F
  pub mean_observed_pct : F
  pub sample_count : ℕ
  pub files_checked : ℕ
  pub node_p95_observed : List (String × F)
  pub max_node_p95_pct : F
  pub max_node_p95_node : String
  pub failure_reason : OverheadReason

-- The variables of the loops: all values, those of each node, and the files.
pub record Collected (F : Type 0) : Type 0 where
  pub all_values : List F
  pub by_node : List (String × List F)
  pub files : ℕ

abbrev pub nothing_collected : {F : Type 0} → Collected F
nothing_collected = record { all_values = []; by_node = []; files = 0 }

module _ {F : Type 0} where
  -- `valuesByNode[node] = append(valuesByNode[node], cpu)`
  unfoldable pub append_value : String → F → List (String × List F) → List (String × List F)
  append_value node cpu [] = (node, cpu ∷ []) ∷ []
  append_value node cpu (g ∷ groups) =
      if str_eq g.0 node
      then (g.0, g.1 ++ (cpu ∷ [])) ∷ groups
      else g ∷ append_value node cpu groups

  unfoldable pub add_sample : Collected F → CollectorCpuSample F → Collected F
  unfolding append_value
  add_sample c s = record c {
    all_values = c.all_values ++ (s.cpu ∷ []);
    by_node = append_value s.node s.cpu c.by_node;
  }

  unfoldable pub add_samples : Collected F → List (CollectorCpuSample F) → Collected F
  add_samples c [] = c
  add_samples c (s ∷ rest) = add_samples (add_sample c s) rest

  module _ (host : Host F) where
    unfoldable pub collect_runs : List String → Collected F → Result (Collected F)
    collect_runs [] c = ok c
    collect_runs (run_dir ∷ run_dirs) c = do
      samples ← load_collector_cpu_samples host (host.join run_dir "collector_overhead.csv")
      collect_runs run_dirs (add_samples (record c { files = c.files + 1 }) samples)

    collect_found : String → Collected F → List String → Result (Collected F)
    collect_found scenario c [] = err (no_run_directories scenario)
    collect_found scenario c (run_dir ∷ run_dirs) = collect_runs (run_dir ∷ run_dirs) c

    unfoldable pub collect_scenarios : String → List String → Collected F → Result (Collected F)
    unfolding collect_found
    collect_scenarios root [] c = ok c
    collect_scenarios root (scenario ∷ scenarios) c = do
      runs ← discover_runs host (host.join root scenario)
      c' ← collect_found scenario c runs
      collect_scenarios root scenarios c'

module _ {F : Type 0} ⦃d : Float64 F⦄ (m : FloatMath F) where
  abbrev pub node_p95 : String × List F → F
  node_p95 g = quantile m g.1 (d.milli 950)

  -- The loop for the worst node, with `maxNode` and `maxNodeP95`.
  unfoldable pub worst_node : String × F → List (String × List F) → String × F
  worst_node worst [] = worst
  worst_node worst (g ∷ groups) =
      worst_node
        (if str_eq worst.0 "" || fgt (node_p95 g) worst.1 then (g.0, node_p95 g) else worst) groups

  unfoldable pub overhead_verdict :
      (List (String × List F) → List (String × List F)) → F → Collected F → OverheadGate F
  overhead_verdict walk limit c =
      let worst = worst_node ("", d.milli 0) (walk c.by_node) in
      let average = mean c.all_values in
      let pass = fle worst.1 limit && fle average limit in
      record {
        pass = pass;
        threshold_pct = limit;
        max_observed_pct = max_float c.all_values;
        mean_observed_pct = average;
        sample_count = length c.all_values;
        files_checked = c.files;
        node_p95_observed = map (λ g. (g.0, node_p95 g)) c.by_node;
        max_node_p95_pct = worst.1;
        max_node_p95_node = worst.0;
        failure_reason =
            if pass
            then no_overhead_reason
            else if fgt worst.1 limit
            then node_exceeds
            else if fgt average limit
            then mean_exceeds
            else no_overhead_reason;
      }

  judge_collected :
      (List (String × List F) → List (String × List F))
      → Config F
      → Collected F
      → Result (OverheadGate F)
  judge_collected walk cfg c = elim c.all_values [
    | [] ↦ err (no_overhead_values cfg.candidate_root)
    | _ ↦ ok (overhead_verdict walk cfg.max_overhead_pct c)
  ]

  unfoldable pub evaluate_overhead :
      Host F
      → (List (String × List F) → List (String × List F))
      → Config F
      → Result (OverheadGate F)
  unfolding judge_collected
  evaluate_overhead host walk cfg = do
    c ← collect_scenarios host cfg.candidate_root cfg.scenarios nothing_collected
    judge_collected walk cfg c
