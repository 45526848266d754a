-- ===== src/ReleaseGate/Inputs.antt =====
-- What pkg/releasegate/gate.go reads: run directories, overhead tables and raw samples. The files and
-- the libraries that parse them are an argument, `Host`.
use text.Mathlib.Text.{starts_with}
use llm_slo_e_bpf_toolkit.Prelude.{
  ℕ, suc, Bool, true, false, ◌&&◌, String, str_eq, List, [], ◌∷◌, ◌++◌, map, filter, Option, none,
  some, length, get_elem?, ltb, if◌then◌else◌,
}
use llm_slo_e_bpf_toolkit.Prelude.Sort.{sort_stable}
use llm_slo_e_bpf_toolkit.ReleaseGate.Results.{
  Result, ok, err, ◌>>=◌, directory_unreadable, overhead_not_opened, overhead_not_read,
  no_data_rows, cpu_column_missing, cpu_not_parsed, no_cpu_values, samples_not_opened,
  sample_not_parsed, scan_failed, no_raw_samples,
}
use llm_slo_e_bpf_toolkit.Collector.Samples.{RawSample}
use llm_slo_e_bpf_toolkit.Attribution.Bayesian.{str_less}

pub record Entry : Type 0 where
  pub name : String
  pub is_dir : Bool

pub data DirAnswer : Type 0 where
  no_directory not_listed : DirAnswer
  listed : List Entry → DirAnswer

pub data StatAnswer : Type 0 where
  exists absent undecided : StatAnswer

pub record BaselineManifest : Type 0 where
  pub source_ref : String
  pub source_commit : String

pub data ManifestAnswer : Type 0 where
  unreadable unparsable : ManifestAnswer
  manifest : BaselineManifest → ManifestAnswer

pub data CsvAnswer : Type 0 where
  csv_not_opened csv_not_read : CsvAnswer
  rows : List (List String) → CsvAnswer

-- The lines of a file, and whether the scanner stopped with an error.
pub data LinesAnswer : Type 0 where
  lines_not_opened : LinesAnswer
  lines : List String → Bool → LinesAnswer

pub record Host (F : Type 0) : Type 0 where
  pub join : String → String → String
  pub trim : String → String
  pub read_dir : String → DirAnswer
  pub stat : String → StatAnswer
  pub read_manifest : String → ManifestAnswer
  pub read_csv : String → CsvAnswer
  pub read_lines : String → LinesAnswer
  pub parse_float : String → Option F
  pub parse_sample : String → Option (RawSample F)

pub record CollectorCpuSample (F : Type 0) : Type 0 where
  pub node : String
  pub cpu : F

-- `indexOf`, with `none` for -1.
unfoldable pub index_of : List String → String → Option ℕ
index_of [] target = none
index_of (item ∷ items) target =
    if str_eq item target
    then some 0
    else elim (index_of items target) [ none ↦ none | some i ↦ some (suc i) ]

abbrev pub is_run : Entry → Bool
is_run entry = entry.is_dir && starts_with entry.name "run-"

abbrev pub does_exist : StatAnswer → Bool
does_exist exists = true
does_exist absent = false
does_exist undecided = false

module _ {F : Type 0} (host : Host F) where
  runs_listed : String → DirAnswer → Result (List String)
  runs_listed root no_directory = ok []
  runs_listed root not_listed = err (directory_unreadable root)
  runs_listed root (listed entries) =
      let runs = sort_stable str_less (map (λ e. host.join root e.name) (filter is_run entries)) in
      if ltb 0 (length runs)
      then ok runs
      else if does_exist (host.stat (host.join root "raw_samples.jsonl"))
      then ok (root ∷ [])
      else ok []

  unfoldable pub discover_runs : String → Result (List String)
  unfolding runs_listed
  discover_runs root = runs_listed root (host.read_dir root)

  abbrev pub or_unknown : String → String
  or_unknown node = if str_eq node "" then "unknown" else node

  abbrev pub node_of : Option String → String
  node_of none = "unknown"
  node_of (some node) = or_unknown (host.trim node)

  abbrev pub node_cell : Option ℕ → List String → Option String
  node_cell none row = none
  node_cell (some i) row = get_elem? row i

  parsed_row :
      String
      → Option ℕ
      → List String
      → Result (List (CollectorCpuSample F))
      → Option F
      → Result (List (CollectorCpuSample F))
  parsed_row path node_idx row rest none = err (cpu_not_parsed path)
  parsed_row path node_idx row rest (some value) = do
    out ← rest
    ok (record { node = node_of (node_cell node_idx row); cpu = value } ∷ out)

  read_row :
      String
      → Option ℕ
      → List String
      → Result (List (CollectorCpuSample F))
      → Option String
      → Result (List (CollectorCpuSample F))
  read_row path node_idx row rest none = rest
  read_row path node_idx row rest (some text) =
      parsed_row path node_idx row rest (host.parse_float (host.trim text))

  -- The loop over the rows below the header.
  unfoldable pub read_rows :
      String → ℕ → Option ℕ → List (List String) → Result (List (CollectorCpuSample F))
  unfolding read_row parsed_row
  read_rows path cpu_idx node_idx [] = ok []
  read_rows path cpu_idx node_idx (row ∷ rest) =
      read_row path node_idx row (read_rows path cpu_idx node_idx rest) (get_elem? row cpu_idx)

  some_samples : String → List (CollectorCpuSample F) → Result (List (CollectorCpuSample F))
  some_samples path [] = err (no_cpu_values path)
  some_samples path (s ∷ out) = ok (s ∷ out)

  with_column :
      String → List String → List (List String) → Option ℕ → Result (List (CollectorCpuSample F))
  with_column path header body none = err (cpu_column_missing path)
  with_column path header body (some cpu_idx) = do
    out ← read_rows path cpu_idx (index_of header "node") body
    some_samples path out

  read_table : String → CsvAnswer → Result (List (CollectorCpuSample F))
  read_table path csv_not_opened = err (overhead_not_opened path)
  read_table path csv_not_read = err (overhead_not_read path)
  read_table path (rows []) = err (no_data_rows path)
  read_table path (rows (header ∷ [])) = err (no_data_rows path)
  read_table path (rows (header ∷ row ∷ rest)) =
      with_column path header (row ∷ rest) (index_of header "collector_cpu_pct")

  unfoldable pub load_collector_cpu_samples : String → Result (List (CollectorCpuSample F))
  unfolding read_table with_column some_samples
  load_collector_cpu_samples path = read_table path (host.read_csv path)

  add_parsed :
      String → Result (List (RawSample F)) → Option (RawSample F) → Result (List (RawSample F))
  add_parsed path rest none = err (sample_not_parsed path)
  add_parsed path rest (some s) = do out ← rest; ok (s ∷ out)

  -- The loop over the lines; empty ones are passed over.
  unfoldable pub parse_lines : String → List String → Result (List (RawSample F))
  unfolding add_parsed
  parse_lines path [] = ok []
  parse_lines path (line ∷ rest) =
      let text = host.trim line in
      let later = parse_lines path rest in
      if str_eq text "" then later else add_parsed path later (host.parse_sample text)

  some_raw : String → Bool → List (RawSample F) → Result (List (RawSample F))
  some_raw path true out = err (scan_failed path)
  some_raw path false [] = err (no_raw_samples path)
  some_raw path false (s ∷ out) = ok (s ∷ out)

  read_samples : String → LinesAnswer → Result (List (RawSample F))
  read_samples path lines_not_opened = err (samples_not_opened path)
  read_samples path (lines texts failed) = do out ← parse_lines path texts; some_raw path failed out

  unfoldable pub load_raw_samples : String → Result (List (RawSample F))
  unfolding read_samples some_raw
  load_raw_samples path = read_samples path (host.read_lines path)

  unfoldable pub load_samples_from_runs : List String → Result (List (RawSample F))
  load_samples_from_runs [] = ok []
  load_samples_from_runs (run_dir ∷ run_dirs) = do
    samples ← load_raw_samples (host.join run_dir "raw_samples.jsonl")
    rest ← load_samples_from_runs run_dirs
    ok (samples ++ rest)

module _ {F : Type 0} where
  unfoldable pub extract_ttft : List (RawSample F) → List F
  extract_ttft samples = map (λ (s : RawSample F). s.ttft_ms) samples

  unfoldable pub extract_tokens : List (RawSample F) → List F
  extract_tokens samples = map (λ (s : RawSample F). s.token_tps) samples

  unfoldable pub extract_error_rates : List (RawSample F) → List F
  extract_error_rates samples = map (λ (s : RawSample F). s.error_rate) samples
