-- ===== src/Collector/RingBuf.antt =====
-- pkg/collector/ringbuf.go: decoding of the records that the probes write to their ring buffers, and
-- the loop that reads them. `print` is what `fmt.Sprintf("%d", n)` prints. A record is a list of
-- bytes; `encode_event` is the packed C struct of ebpf/c/llm_slo_event.h on a little-endian machine.
mod Tests
pub mod RoundTrip
pub mod Delivery
use Prim.Native.String.{◌++◌ as ◌<>◌}
use llm_slo_e_bpf_toolkit.Prelude.{
  ℕ, zero, suc, ◌+◌, ◌-◌, ◌*◌, ◌/◌, ◌%◌, ◌^◌, Bool, true, false, not, ◌&&◌, String, List, [], ◌∷◌,
  ◌++◌, Option, none, some, length, drop, ltb, ◌==◌, if◌then◌else◌,
}
use llm_slo_e_bpf_toolkit.Prelude.Int.{ℤ, pos, negsuc}
use llm_slo_e_bpf_toolkit.Prelude.Float64.{Float64}
use llm_slo_e_bpf_toolkit.Prelude.Time.{Time}
use llm_slo_e_bpf_toolkit.Signals.Events.{ProbeEvent, ConnTuple, unix_nano}

pub record EventMetadata : Type 0 where
  pub node : String
  pub namespace : String
  pub pod : String
  pub container : String
  pub trace_id : String
  pub span_id : String

pub record BpfEvent : Type 0 where
  pub pid : ℕ
  pub tid : ℕ
  pub timestamp_ns : ℕ
  pub signal_type : ℕ
  pub value_ns : ℕ
  pub conn_src_port : ℕ
  pub conn_dst_port : ℕ
  pub conn_dst_ip : ℕ
  pub errno_val : ℤ

-- The bytes of a number, least significant first.
pub le_bytes : ℕ → ℕ → List ℕ
le_bytes zero v = []
le_bytes (suc n) v = v % 256 ∷ le_bytes n (v / 256)

-- The number that the first bytes stand for.
pub le_value : ℕ → List ℕ → ℕ
le_value zero bytes = 0
le_value (suc n) [] = 0
le_value (suc n) (b ∷ bytes) = b + 256 * le_value n bytes

-- An `int32` and its 32 bits.
unfoldable pub to_bits32 : ℤ → ℕ
to_bits32 (pos n) = n % 2 ^ 32
to_bits32 (negsuc n) = 2 ^ 32 - 1 - n % 2 ^ 32

unfoldable pub of_bits32 : ℕ → ℤ
of_bits32 n = if ltb n (2 ^ 31) then pos n else negsuc (2 ^ 32 - 1 - n)

-- `struct llm_slo_event`.
unfoldable pub encode_event : BpfEvent → List ℕ
encode_event e =
    le_bytes 4 e.pid
    ++ (le_bytes 4 e.tid
        ++ (le_bytes 8 e.timestamp_ns
            ++ (le_bytes 4 e.signal_type
                ++ (le_bytes 8 e.value_ns
                    ++ (le_bytes 2 e.conn_src_port
                        ++ (le_bytes 2 e.conn_dst_port
                            ++ (le_bytes 4 e.conn_dst_ip
                                ++ le_bytes 4 (to_bits32 e.errno_val))))))))

-- The size of the struct, which `binary.Read` must find.
abbrev pub event_size : ℕ
event_size = 40

-- `binary.Read` with `none` for its error: the fields follow one another without padding, and bytes
-- after the last one are left alone.
unfoldable pub decode_bpf_event : List ℕ → Option BpfEvent
decode_bpf_event data_bytes =
    let at_tid = drop 4 data_bytes in
    let at_timestamp = drop 4 at_tid in
    let at_type = drop 8 at_timestamp in
    let at_value = drop 4 at_type in
    let at_src_port = drop 8 at_value in
    let at_dst_port = drop 2 at_src_port in
    let at_dst_ip = drop 2 at_dst_port in
    let at_errno = drop 4 at_dst_ip in
    if ltb (length data_bytes) event_size
    then none
    else some (record {
      pid = le_value 4 data_bytes;
      tid = le_value 4 at_tid;
      timestamp_ns = le_value 8 at_timestamp;
      signal_type = le_value 4 at_type;
      value_ns = le_value 8 at_value;
      conn_src_port = le_value 2 at_src_port;
      conn_dst_port = le_value 2 at_dst_port;
      conn_dst_ip = le_value 4 at_dst_ip;
      errno_val = of_bits32 (le_value 4 at_errno);
    })

-- The signal and the unit of a type.
unfoldable pub signal_from_type : ℕ → String × String
signal_from_type st =
    if st == 1
    then ("dns_latency_ms", "ms")
    else if st == 2
    then ("tcp_retransmits_total", "count")
    else if st == 3
    then ("runqueue_delay_ms", "ms")
    else if st == 4
    then ("connect_latency_ms", "ms")
    else if st == 5
    then ("tls_handshake_ms", "ms")
    else if st == 6
    then ("cpu_steal_pct", "ns")
    else if st == 7
    then ("mem_reclaim_latency_ms", "ms")
    else if st == 8
    then ("disk_io_latency_ms", "ms")
    else if st == 9
    then ("syscall_latency_ms", "ms")
    else ("unknown", "unknown")

module _ (print : ℕ → String) where
  unfoldable pub ip_from_u32 : ℕ → String
  ip_from_u32 ip =
      print (ip % 256)
      <> ("."
          <> (print (ip / 2 ^ 8 % 256)
              <> ("." <> (print (ip / 2 ^ 16 % 256) <> ("." <> print (ip / 2 ^ 24 % 256))))))

  unfoldable pub conn_tuple_of : BpfEvent → Option ConnTuple
  conn_tuple_of e =
      if e.conn_src_port == 0 && e.conn_dst_port == 0
      then none
      else some (record {
        src_ip = "0.0.0.0";
        dst_ip = ip_from_u32 e.conn_dst_ip;
        src_port = pos e.conn_src_port;
        dst_port = pos e.conn_dst_port;
        protocol = "tcp";
      })

abbrev pub errno_of : ℤ → Option ℤ
errno_of (pos zero) = none
errno_of (pos (suc n)) = some (pos (suc n))
errno_of (negsuc n) = some (negsuc n)

module _ {F : Type 0} ⦃d : Float64 F⦄ where
  unfoldable pub convert_value : ℕ → ℕ → F
  convert_value signal_type value_ns =
      if signal_type == 2
      then d.of_int (pos value_ns)
      else if signal_type == 6
      then d.of_int (pos value_ns)
      else d.fdiv (d.of_int (pos value_ns)) (d.milli 1_000_000_000)

  module _ (print : ℕ → String) (meta : EventMetadata) where
    unfoldable pub to_probe_event : Time → BpfEvent → ProbeEvent F
    to_probe_event now e = record {
      ts_unix_nano = unix_nano now;
      signal = (signal_from_type e.signal_type).0;
      node = meta.node;
      namespace = meta.namespace;
      pod = meta.pod;
      container = meta.container;
      pid = pos e.pid;
      tid = pos e.tid;
      conn_tuple = conn_tuple_of print e;
      value = convert_value e.signal_type e.value_ns;
      unit = (signal_from_type e.signal_type).1;
      status = "ok";
      trace_id = meta.trace_id;
      span_id = meta.span_id;
      errno = errno_of e.errno_val;
      confidence = none;
    }

-- What one round of the loop meets: whether the context is done when it starts, what `Read`
-- returns, whether the context is done when `Read` has failed, the clock, and whether the channel
-- takes the event before the context is done.
pub record Round : Type 0 where
  pub done_at_start : Bool
  pub raw : Option (List ℕ)
  pub done_at_error : Bool
  pub now : Time
  pub taken : Bool

module _ {F : Type 0} ⦃d : Float64 F⦄ (print : ℕ → String) (meta : EventMetadata) where
  -- What a round hands on, given what it decoded, and whether the loop goes on after it.
  hand_on : Round → Option BpfEvent → List (ProbeEvent F) × Bool
  hand_on round none = ([], true)
  hand_on round (some e) =
      if round.taken then (to_probe_event print meta round.now e ∷ [], true) else ([], false)

  after_read : Round → Option (List ℕ) → List (ProbeEvent F) × Bool
  after_read round none = ([], not round.done_at_error)
  after_read round (some bytes) = hand_on round (decode_bpf_event bytes)

  unfoldable pub read_round : Round → List (ProbeEvent F) × Bool
  unfolding after_read hand_on
  read_round round = if round.done_at_start then ([], false) else after_read round round.raw

  -- The events that the loop hands on in these rounds, and whether it is still running.
  unfoldable pub read_loop : List Round → List (ProbeEvent F) × Bool
  read_loop [] = ([], true)
  read_loop (round ∷ rounds) =
      let rest = read_loop rounds in
      let step = read_round round in if step.1 then (step.0 ++ rest.0, rest.1) else step
