-- ===== src/Collector/RingBuf/RoundTrip.antt =====
-- What pkg/collector/ringbuf.go reads of a record that a probe has written.
use llm_slo_e_bpf_toolkit.Prelude.{
  ℕ, zero, suc, ◌/◌, ◌^◌, ◌≤◌, ◌<◌, ◌≡◌, refl, ap, List, ◌++◌, some, length, length-append, drop,
  ltb, false, arith,
}
use mathlib.Core.List.{append_assoc}
use llm_slo_e_bpf_toolkit.Prelude.Int.{ℤ, pos, negsuc}
use llm_slo_e_bpf_toolkit.Collector.RingBuf.{
  BpfEvent, le_bytes, le_value, to_bits32, of_bits32, encode_event, event_size, decode_bpf_event,
}

-- The number fits that many bytes.
abbrev IsWord : ℕ → ℕ → Type 0
IsWord zero v = v ≡ 0
IsWord (suc n) v = IsWord n (v / 256)

le_value-bytes : (n v : ℕ) (rest : List ℕ) → IsWord n v → le_value n (le_bytes n v ++ rest) ≡ v
unfolding le_value le_bytes
le_value-bytes zero v rest h = omega (arith, h)
le_value-bytes (suc n) v rest h = rw (le_value-bytes n (v / 256) rest h) (omega arith)

drop-le_bytes : (n v : ℕ) (rest : List ℕ) → drop n (le_bytes n v ++ rest) ≡ rest
unfolding le_bytes
drop-le_bytes zero v rest = refl
drop-le_bytes (suc n) v rest = drop-le_bytes n (v / 256) rest

length-le_bytes : (n v : ℕ) → length (le_bytes n v) ≡ n
unfolding le_bytes
length-le_bytes zero v = refl
length-le_bytes (suc n) v = ap suc (length-le_bytes n (v / 256))

abbrev IsInt32 : ℤ → Type 0
IsInt32 (pos n) = n < 2 ^ 31
IsInt32 (negsuc n) = n < 2 ^ 31

bits32_bounds : (z : ℤ) → IsInt32 z → (of_bits32 (to_bits32 z) ≡ z) × (to_bits32 z < 2 ^ 32)
unfolding of_bits32 to_bits32
bits32_bounds (pos n) h = ground arith
bits32_bounds (negsuc n) h = ground arith

-- Every field is in the range of its C type.
pub record InRange (e : BpfEvent) : Type 0 where
  pub pid : e.pid < 2 ^ 32
  pub tid : e.tid < 2 ^ 32
  pub timestamp_ns : e.timestamp_ns < 2 ^ 64
  pub signal_type : e.signal_type < 2 ^ 32
  pub value_ns : e.value_ns < 2 ^ 64
  pub conn_src_port : e.conn_src_port < 2 ^ 16
  pub conn_dst_port : e.conn_dst_port < 2 ^ 16
  pub conn_dst_ip : e.conn_dst_ip < 2 ^ 32
  pub errno_val : IsInt32 e.errno_val

word2 : (v : ℕ) → v < 2 ^ 16 → IsWord 2 v
word2 v h = omega arith

word4 : (v : ℕ) → v < 2 ^ 32 → IsWord 4 v
word4 v h = omega arith

word8 : (v : ℕ) → v < 2 ^ 64 → IsWord 8 v
word8 v h = omega arith

length-encode_event : (e : BpfEvent) (rest : List ℕ) → event_size ≤ length (encode_event e ++ rest)
unfolding encode_event
length-encode_event e rest = omega (arith, length-append {0}, length-le_bytes)

not-short :
    (e : BpfEvent) (rest : List ℕ) → ltb (length (encode_event e ++ rest)) event_size ≡ false
not-short e rest = ground (arith, length-encode_event e rest)

-- A record that a probe has written is decoded to the event that the probe wrote, also if more
-- bytes follow, for an event whose fields are in the ranges of their C types.
pub decode-encode :
    (e : BpfEvent) (rest : List ℕ) → InRange e → decode_bpf_event (encode_event e ++ rest) ≡ some e
unfolding decode_bpf_event encode_event
decode-encode e rest r = rw (not-short e rest) (
    simp (
      append_assoc,
      drop-le_bytes,
      λ (t : List ℕ). le_value-bytes 4 e.pid t (word4 e.pid r.pid),
      λ (t : List ℕ). le_value-bytes 4 e.tid t (word4 e.tid r.tid),
      λ (t : List ℕ). le_value-bytes 8 e.timestamp_ns t (word8 e.timestamp_ns r.timestamp_ns),
      λ (t : List ℕ). le_value-bytes 4 e.signal_type t (word4 e.signal_type r.signal_type),
      λ (t : List ℕ). le_value-bytes 8 e.value_ns t (word8 e.value_ns r.value_ns),
      λ (t : List ℕ). le_value-bytes 2 e.conn_src_port t (word2 e.conn_src_port r.conn_src_port),
      λ (t : List ℕ). le_value-bytes 2 e.conn_dst_port t (word2 e.conn_dst_port r.conn_dst_port),
      λ (t : List ℕ). le_value-bytes 4 e.conn_dst_ip t (word4 e.conn_dst_ip r.conn_dst_ip),
      λ (t : List ℕ).
          le_value-bytes 4 (to_bits32 e.errno_val) t
            (word4 (to_bits32 e.errno_val) (bits32_bounds e.errno_val r.errno_val).1),
      (bits32_bounds e.errno_val r.errno_val).0,
    ))
