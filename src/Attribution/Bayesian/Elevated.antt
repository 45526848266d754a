-- ===== src/Attribution/Bayesian/Elevated.antt =====
-- The statuses that pkg/signals/generator.go gives, against the table by which pkg/attribution/bayesian.go
-- counts a signal as elevated.
use llm_slo_e_bpf_toolkit.Prelude.{
  ℕ, ◌<◌, ◌^◌, ◌≡◌, refl, true, not, String, str_eq, List, [], ◌∷◌, lookup, All, ◌&◌, Bool-cases,
  inl, inr, arith,
}
use llm_slo_e_bpf_toolkit.Prelude.Float64.{Float64, IsIeee, fge}
use llm_slo_e_bpf_toolkit.Signals.Constants.{core_signal_set}
use llm_slo_e_bpf_toolkit.Signals.Events.{threshold, signal_status}
use llm_slo_e_bpf_toolkit.Attribution.Bayesian.{signal_thresholds, reaches, is_elevated}

module _ {F : Type 0} ⦃d : Float64 F⦄ where
  -- From where on a signal is an error, in the units of its events: milliseconds, counts or percent.
  abbrev pub error_cutoffs : List (String × F)
  error_cutoffs =
      ("dns_latency_ms", d.milli 120_000)
      ∷ ("tcp_retransmits_total", d.milli 5000)
      ∷ ("runqueue_delay_ms", d.milli 25_000)
      ∷ ("connect_latency_ms", d.milli 180_000)
      ∷ ("connect_errors_total", d.milli 3000)
      ∷ ("tls_handshake_ms", d.milli 160_000)
      ∷ ("tls_handshake_fail_total", d.milli 3000)
      ∷ ("cpu_steal_pct", d.milli 8000)
      ∷ ("cfs_throttled_ms", d.milli 120_000)
      ∷ ("mem_reclaim_latency_ms", d.milli 20_000)
      ∷ ("disk_io_latency_ms", d.milli 50_000)
      ∷ ("syscall_latency_ms", d.milli 200_000)
      ∷ []

  -- The status of a value of the signal, in two tests.
  abbrev pub IsGraded : F → String → Type 0
  IsGraded v s =
      (not (str_eq (signal_status s v) "ok") ≡ is_elevated (s, v))
      × (str_eq (signal_status s v) "error" ≡ reaches v (lookup s error_cutoffs))

  module _ (laws : IsIeee d) where
    -- The two tests of a status, for a warning below the error.
    threshold_lem :
        (v : F) (w e : ℕ)
        → w < e
        → e < 10 ^ 15
        → let status = threshold v (d.milli w) (d.milli e) in
          (not (str_eq status "ok") ≡ fge v (d.milli w))
          × (str_eq status "error" ≡ fge v (d.milli e))
    unfolding threshold
    threshold_lem v w e w<e small = elim (Bool-cases (fge v (d.milli e))) [
      | inl h ↦
          let below : d.le (d.milli w) (d.milli e) ≡ true =
            ground (arith, laws.le_milli w e (omega arith) small) in
          rw (h, laws.le_trans (d.milli w) (d.milli e) v below h) (refl, refl)
      | inr h ↦ elim (Bool-cases (fge v (d.milli w))) [
        | inl k ↦ rw (h, k) (refl, refl)
        | inr k ↦ rw (h, k) (refl, refl)
      ]
    ]

    -- For floats that compare as IEEE 754 says, the generator gives a value of one of the twelve
    -- signals a status other than "ok" exactly when the Bayesian attribution counts the signal as
    -- elevated at that value, and the status "error" exactly when the value reaches the signal's error
    -- cut-off.
    pub signal_status-is_elevated : (v : F) → All (IsGraded v) core_signal_set
    unfolding signal_status is_elevated signal_thresholds lookup
    signal_status-is_elevated v =
        let at = λ (w e : ℕ) (p : w < e) (q : e < 10 ^ 15). threshold_lem v w e p q in
        at 40_000 120_000 (omega arith) (omega arith)
        & at 2000 5000 (omega arith) (omega arith)
        & at 10_000 25_000 (omega arith) (omega arith)
        & at 80_000 180_000 (omega arith) (omega arith)
        & at 1000 3000 (omega arith) (omega arith)
        & at 60_000 160_000 (omega arith) (omega arith)
        & at 1000 3000 (omega arith) (omega arith)
        & at 2000 8000 (omega arith) (omega arith)
        & at 40_000 120_000 (omega arith) (omega arith)
        & at 5000 20_000 (omega arith) (omega arith)
        & at 10_000 50_000 (omega arith) (omega arith)
        & at 50_000 200_000 (omega arith) (omega arith)
        & tt
