-- ===== src/Collector/RingBuf/Delivery.antt =====
-- Which events the loop of pkg/collector/ringbuf.go hands on, and when it ends.
use llm_slo_e_bpf_toolkit.Prelude.{
  ◌≡◌, refl, sym, ap, Bool, true, false, not, ◌&&◌, ◌||◌, ℕ, String, List, [], ◌∷◌, ◌++◌, Option,
  none, some, length, leb, Bool-cases, Option-cases, inl, inr, if◌then◌else◌, arith,
}
use llm_slo_e_bpf_toolkit.Prelude.Float64.{Float64}
use llm_slo_e_bpf_toolkit.Prelude.Time.{Time}
use llm_slo_e_bpf_toolkit.Signals.Events.{ProbeEvent}
use llm_slo_e_bpf_toolkit.Collector.RingBuf.{
  EventMetadata, BpfEvent, decode_bpf_event, event_size, to_probe_event, Round, read_round,
  read_loop, after_read, hand_on,
}

abbrev is_some : {A : Type 0} → Option A → Bool
is_some none = false
is_some (some a) = true

-- Decoding succeeds exactly for records that are as long as the struct.
decode_bpf_event_iff :
    (bytes : List ℕ) → is_some (decode_bpf_event bytes) ≡ leb event_size (length bytes)
unfolding decode_bpf_event
decode_bpf_event_iff bytes = ground arith

-- The loop sees in a round that the context is done: when it starts, after a failed read, or when
-- it has a decoded event to hand on.
abbrev cancels_read : Round → Option (List ℕ) → Bool
cancels_read r none = r.done_at_error
cancels_read r (some bytes) = leb event_size (length bytes) && not r.taken

abbrev pub is_cancelled : Round → Bool
is_cancelled r = r.done_at_start || cancels_read r r.raw

abbrev pub before_cancel : List Round → List Round
before_cancel [] = []
before_cancel (r ∷ rs) = let rest = before_cancel rs in if is_cancelled r then [] else r ∷ rest

abbrev pub any_cancelled : List Round → Bool
any_cancelled [] = false
any_cancelled (r ∷ rs) = is_cancelled r || any_cancelled rs

module _ {F : Type 0} ⦃d : Float64 F⦄ (print : ℕ → String) (meta : EventMetadata) where
  abbrev pub converted_event : Time → Option BpfEvent → List (ProbeEvent F)
  converted_event now none = []
  converted_event now (some e) = to_probe_event print meta now e ∷ []

  abbrev pub converted_raw : Time → Option (List ℕ) → List (ProbeEvent F)
  converted_raw now none = []
  converted_raw now (some bytes) = converted_event now (decode_bpf_event bytes)

  -- The events of all records that can be decoded, in their order.
  abbrev pub converted : List Round → List (ProbeEvent F)
  converted [] = []
  converted (r ∷ rs) = converted_raw r.now r.raw ++ converted rs

  after_read_lem :
      (r : Round) (raw : Option (List ℕ))
      → ((after_read {F = F} print meta r raw).1 ≡ not (cancels_read r raw))
        × ((after_read {F = F} print meta r raw).0
            ≡ (if cancels_read r raw then [] else converted_raw r.now raw))
  unfolding after_read hand_on
  after_read_lem r none = ground arith
  after_read_lem r (some bytes) =
      let size = decode_bpf_event_iff bytes in
      elim (Option-cases (decode_bpf_event bytes)) [
        | inl short ↦ rw (sym size, short) (refl, refl)
        | inr (e, whole) ↦ rw (sym size, whole) (ground arith)
      ]

  read_round_lem :
      (r : Round)
      → ((read_round {F = F} print meta r).1 ≡ not (is_cancelled r))
        × ((read_round {F = F} print meta r).0
            ≡ (if is_cancelled r then [] else converted_raw r.now r.raw))
  unfolding read_round
  read_round_lem r = ground (arith, after_read_lem r r.raw)

  -- The loop hands on the events of just the records that can be decoded, in their order, up to the
  -- first round in which it sees that the context is done, and it goes on running exactly while there
  -- was no such round: failed reads and records that are too short do not end it.
  pub read_loop_lem :
      (rounds : List Round)
      → let (events, running) = read_loop {F = F} print meta rounds in
        (events ≡ converted (before_cancel rounds)) × (running ≡ not (any_cancelled rounds))
  unfolding read_loop
  read_loop_lem [] = (refl, refl)
  read_loop_lem (r ∷ rs) =
      let (events, running) = read_loop_lem rs in
      let (goes_on, handed) = read_round_lem r in
      elim (Bool-cases (is_cancelled r)) [
        | inl stop ↦ rw (goes_on, handed, stop) (refl, refl)
        | inr more ↦
            rw (goes_on, handed, more) (ap (λ l. converted_raw r.now r.raw ++ l) events, running)
      ]
