-- ===== src/Safety/OverheadGuard.antt =====
-- pkg/safety/overhead_guard.go. The sampler is whatever the operating system returns: a pair of
-- counters or an error. Counters are `uint64`, and their difference wraps.
use llm_slo_e_bpf_toolkit.Prelude.{
  ℕ, ◌+◌, ◌-◌, ◌%◌, ◌^◌, ◌<◌, ◌≡◌, refl, Bool, true, false, List, [], ◌∷◌, Option, none, some,
  String, arith, ltb, leb, ◌==◌, if◌then◌else◌, ◌↔◌, str_eq, length, get_elem?, Option-cases, inl,
  inr,
}
use llm_slo_e_bpf_toolkit.Prelude.Int.{pos}
use llm_slo_e_bpf_toolkit.Prelude.Float64.{Float64, flt, fgt}

pub record CpuSample : Type 0 where
  pub process_ticks : ℕ
  pub total_ticks : ℕ

pub data GuardError : Type 0 where
  sampler_is_nil : GuardError
  sample_failed : String → GuardError

-- What a call of `Sample` returns.
pub data Reading : Type 0 where
  read : CpuSample → Reading
  failed : String → Reading

pub record OverheadGuard (F : Type 0) : Type 0 where
  pub max_pct : F
  pub prev : Option CpuSample

-- A difference of `uint64` values.
abbrev pub sub64 : ℕ → ℕ → ℕ
sub64 a b = (a + 2 ^ 64 - b) % 2 ^ 64

pub record Verdict (F : Type 0) : Type 0 where
  pub pct : F
  pub exceeded : Bool
  pub error : Option GuardError

module _ {F : Type 0} ⦃d : Float64 F⦄ where
  unfoldable pub new_overhead_guard : F → OverheadGuard F
  new_overhead_guard max_pct = record { max_pct = max_pct; prev = none }

  abbrev quiet : Option GuardError → Verdict F
  quiet e = record { pct = d.milli 0; exceeded = false; error = e }

  -- The estimate of `Evaluate`, from two samples whose total has grown.
  unfoldable pub overhead_pct : ℕ → CpuSample → CpuSample → F
  overhead_pct num_cpu prev sample =
      let delta_proc = sub64 sample.process_ticks prev.process_ticks in
      let delta_total = sub64 sample.total_ticks prev.total_ticks in
      let pct =
        d.fmul
          (d.fmul (d.fdiv (d.of_int (pos delta_proc)) (d.of_int (pos delta_total)))
            (d.milli 100_000))
          (d.of_int (pos num_cpu)) in
      if flt pct (d.milli 0) then d.milli 0 else pct

  judge : ℕ → F → CpuSample → CpuSample → Verdict F
  judge num_cpu max_pct prev sample =
      if leb sample.total_ticks prev.total_ticks
      then quiet none
      else if sub64 sample.total_ticks prev.total_ticks == 0
      then quiet none
      else let pct = overhead_pct num_cpu prev sample in
        record { pct = pct; exceeded = fgt pct max_pct; error = none }

  judge_sample : ℕ → F → Option CpuSample → CpuSample → Verdict F
  judge_sample num_cpu max_pct none sample = quiet none
  judge_sample num_cpu max_pct (some prev) sample = judge num_cpu max_pct prev sample

  -- `Evaluate`, given what the sampler returns if there is one.
  unfoldable pub evaluate : ℕ → Option Reading → OverheadGuard F → OverheadGuard F × Verdict F
  unfolding judge judge_sample
  evaluate num_cpu none g = (g, quiet (some sampler_is_nil))
  evaluate num_cpu (some (failed e)) g = (g, quiet (some (sample_failed e)))
  evaluate num_cpu (some (read sample)) g =
      (record g { prev = some sample }, judge_sample num_cpu g.max_pct g.prev sample)

-- `readProcessTicks` and `readTotalTicks`, from the fields of the file's first line. `parse_uint` is
-- `strconv.ParseUint` to base 10 and 64 bits; it returns nothing on an error.
module _ (parse_uint : String → Option ℕ) where
  abbrev or_nothing : {A B : Type 0} → Option A → (A → Option B) → Option B
  or_nothing none f = none
  or_nothing (some a) f = f a

  unfoldable pub read_process_ticks : List String → Option ℕ
  read_process_ticks parts =
      if ltb (length parts) 15
      then none
      else or_nothing (get_elem? parts 13) λ u. or_nothing (parse_uint u) λ utime.
        or_nothing (get_elem? parts 14)
          λ s. or_nothing (parse_uint s) λ stime. some ((utime + stime) % 2 ^ 64)

  sum_fields : ℕ → List String → Option ℕ
  sum_fields total [] = some total
  sum_fields total (f ∷ fs) = elim (parse_uint f) [
    | none ↦ none
    | some v ↦ sum_fields ((total + v) % 2 ^ 64) fs
  ]

  unfoldable pub read_total_ticks : List String → Option ℕ
  unfolding sum_fields
  read_total_ticks [] = none
  read_total_ticks (h ∷ fields) =
      if ltb (length (h ∷ fields)) 5
      then none
      else if str_eq h "cpu"
      then sum_fields 0 fields
      else none

-- `ProcCPUSampler.Sample` on Linux: both counters, or the first error.
unfoldable pub proc_sample : Option ℕ → Option ℕ → Reading
proc_sample none total = failed "process ticks"
proc_sample (some p) none = failed "total ticks"
proc_sample (some p) (some t) = read (record { process_ticks = p; total_ticks = t })

-- The total of a sample fits `uint64`.
abbrev pub Fits : Option Reading → Type 0
Fits none = Unit
Fits (some (failed e)) = Unit
Fits (some (read s)) = s.total_ticks < 2 ^ 64

-- What a reading leaves in the guard: the last sample that was read.
abbrev pub last_sample : Option Reading → Option CpuSample → Option CpuSample
last_sample none old = old
last_sample (some (failed e)) old = old
last_sample (some (read s)) old = some s

module _ {F : Type 0} ⦃d : Float64 F⦄ where
  -- A sample was read, an earlier one is held, the host's counter has grown since, and the estimate
  -- from the two is above the limit.
  abbrev pub IsExcess : ℕ → Option Reading → OverheadGuard F → Type 0
  IsExcess n r g =
      (p : CpuSample) × (s : CpuSample) × (g.prev ≡ some p)
      × (r ≡ some (read s))
      × (p.total_ticks < s.total_ticks)
      × (fgt (overhead_pct n p s) g.max_pct ≡ true)

  evaluate→IsExcess :
      (n : ℕ) (r : Option Reading) (g : OverheadGuard F)
      → (evaluate n r g).1.exceeded ≡ true
      → IsExcess n r g
  unfolding evaluate
  evaluate→IsExcess n none g h = cc
  evaluate→IsExcess n (some (failed e)) g h = cc
  evaluate→IsExcess n (some (read s)) g h = elim (Option-cases g.prev) [
    | inl e ↦ cc (rw e at h)
    | inr (p, e) ↦
        let judged : (judge n g.max_pct p s).exceeded ≡ true = rw e at h in
        (p, s, e, refl, ground arith, ground arith)
  ]

  IsExcess→evaluate :
      (n : ℕ) (r : Option Reading) (g : OverheadGuard F)
      → Fits r
      → IsExcess n r g
      → (evaluate n r g).1.exceeded ≡ true
  unfolding evaluate
  IsExcess→evaluate n none g f x = cc x.3
  IsExcess→evaluate n (some (failed e)) g f x = cc x.3
  IsExcess→evaluate n (some (read s)) g f (p, s', hp, hr, lt, gt) = rw hp (ground arith)

  -- For a total in `uint64`, `Evaluate` reports an excess exactly when a sample was read, an earlier
  -- one is held, the host's counter has grown since then, and the estimate from the two is above the
  -- limit. It holds the last sample that was read, also after an error, and the limit stays.
  pub evaluate-exceeded_iff :
      (n : ℕ) (r : Option Reading) (g : OverheadGuard F)
      → Fits r
      → (((evaluate n r g).1.exceeded ≡ true) ↔ IsExcess n r g)
        × ((evaluate n r g).0 ≡ record { max_pct = g.max_pct; prev = last_sample r g.prev })
  unfolding evaluate
  evaluate-exceeded_iff n r g f =
      ((evaluate→IsExcess n r g, IsExcess→evaluate n r g f), ground arith)
