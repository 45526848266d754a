-- ===== src/Collector/RingBuf/Tests.antt =====
-- A record of a refused connection, and a reader that meets it between a failed read and the end of
-- the context.
use llm_slo_e_bpf_toolkit.Prelude.{
  ◌≡◌, ℕ, not, String, List, [], ◌∷◌, ◌++◌, none, some, true, false, arith,
}
use llm_slo_e_bpf_toolkit.Prelude.Int.{pos, negsuc}
use llm_slo_e_bpf_toolkit.Prelude.Float64.{Fixed, fixed}
use llm_slo_e_bpf_toolkit.Collector.RingBuf.{
  EventMetadata, BpfEvent, encode_event, decode_bpf_event, Round, read_loop,
}
use llm_slo_e_bpf_toolkit.Collector.RingBuf.RoundTrip.{InRange, decode-encode}
use llm_slo_e_bpf_toolkit.Collector.RingBuf.Delivery.{
  before_cancel, any_cancelled, converted, read_loop_lem,
}

-- ECONNREFUSED is -111 in the kernel.
abbrev refused_connect : BpfEvent
refused_connect = record {
  pid = 4242;
  tid = 4243;
  timestamp_ns = 1_700_000_000_000_000_000;
  signal_type = 4;
  value_ns = 12_500_000;
  conn_src_port = 50_123;
  conn_dst_port = 443;
  conn_dst_ip = 16_777_343;
  errno_val = negsuc 110;
}

refused_connect-InRange : InRange refused_connect
refused_connect-InRange = record {
  pid = omega arith;
  tid = omega arith;
  timestamp_ns = omega arith;
  signal_type = omega arith;
  value_ns = omega arith;
  conn_src_port = omega arith;
  conn_dst_port = omega arith;
  conn_dst_ip = omega arith;
  errno_val = omega arith;
}

decode-encode_example :
    decode_bpf_event (encode_event refused_connect ++ (7 ∷ [])) ≡ some refused_connect
decode-encode_example = decode-encode refused_connect (7 ∷ []) refused_connect-InRange

abbrev meta : EventMetadata
meta = record {
  node = "n";
  namespace = "default";
  pod = "p";
  container = "c";
  trace_id = "";
  span_id = "";
}

abbrev number : ℕ → String
number n = "1"

abbrev quiet : Round
quiet = record {
  done_at_start = false;
  raw = none;
  done_at_error = false;
  now = pos 0;
  taken = true;
}

abbrev rounds : List Round
rounds =
    quiet
    ∷ record quiet { raw = some (encode_event refused_connect) }
    ∷ record quiet { done_at_start = true }
    ∷ quiet
    ∷ []

read_loop_lem_example :
    let (events, running) = read_loop {F = Fixed} number meta rounds in
    (events ≡ converted number meta (before_cancel rounds)) × (running ≡ not (any_cancelled rounds))
read_loop_lem_example = read_loop_lem number meta rounds
