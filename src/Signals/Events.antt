-- ===== src/Signals/Events.antt =====
-- pkg/signals/generator.go: the probe events of one sample. `time.Time.UnixNano` wraps at 64 bits.
pub mod Emitted
pub mod Faults
pub mod Identity
use llm_slo_e_bpf_toolkit.Prelude.{
  Bool, true, false, not, String, str_eq, List, [], ◌∷◌, ◌++◌, Option, none, some, contains,
  if◌then◌else◌,
}
use llm_slo_e_bpf_toolkit.Prelude.Int.{ℤ, pos, ◌-ℤ◌, eqb_ℤ}
use llm_slo_e_bpf_toolkit.Prelude.Float64.{Float64, fge, fgt}
use llm_slo_e_bpf_toolkit.Prelude.Time.{Time, wrap64}
use llm_slo_e_bpf_toolkit.Collector.Samples.{RawSample}
use llm_slo_e_bpf_toolkit.Signals.Constants.{
  dns_latency_ms, tcp_retransmits, runqueue_delay_ms, connect_latency_ms, connect_errors,
  tls_handshake_ms, tls_handshake_fails, cpu_steal_pct, cfs_throttled_ms, mem_reclaim_latency_ms,
  disk_io_latency_ms, syscall_latency_ms,
}
use llm_slo_e_bpf_toolkit.Signals.Metadata.{Metadata}
use llm_slo_e_bpf_toolkit.Signals.Generator.{Generator}

pub record SignalProfile (F : Type 0) : Type 0 where
  pub dns_latency : F
  pub retransmits : F
  pub runqueue_delay : F
  pub connect_latency : F
  pub connect_error_count : F
  pub connect_errno : ℤ
  pub tls_handshake : F
  pub tls_fails : F
  pub cpu_steal : F
  pub cfs_throttled : F
  pub mem_reclaim_latency : F
  pub disk_io_latency : F
  pub syscall_latency : F

pub record ConnTuple : Type 0 where
  pub src_ip : String
  pub dst_ip : String
  pub src_port : ℤ
  pub dst_port : ℤ
  pub protocol : String

pub record ProbeEvent (F : Type 0) : Type 0 where
  pub ts_unix_nano : ℤ
  pub signal : String
  pub node : String
  pub namespace : String
  pub pod : String
  pub container : String
  pub pid : ℤ
  pub tid : ℤ
  pub conn_tuple : Option ConnTuple
  pub value : F
  pub unit : String
  pub status : String
  pub trace_id : String
  pub span_id : String
  pub errno : Option ℤ
  pub confidence : Option F

abbrev pub unix_nano : Time → ℤ
unix_nano t = wrap64 (t -ℤ pos 62_135_596_800_000_000_000)

abbrev pub default_conn_tuple : ConnTuple
default_conn_tuple = record {
  src_ip = "10.244.0.10";
  dst_ip = "10.244.0.53";
  src_port = pos 42424;
  dst_port = pos 443;
  protocol = "tcp";
}

abbrev pub apply_enricher : Option (Metadata → Metadata) → Metadata → Metadata
apply_enricher none meta = meta
apply_enricher (some enrich) meta = enrich meta

abbrev pub is_none_enabled : List String → Bool
is_none_enabled [] = true
is_none_enabled (s ∷ names) = false

module _ {F : Type 0} ⦃d : Float64 F⦄ where
  -- Values are in thousandths.
  abbrev base_profile : SignalProfile F
  base_profile = record {
    dns_latency = d.milli 12000;
    retransmits = d.milli 200;
    runqueue_delay = d.milli 4000;
    connect_latency = d.milli 18000;
    connect_error_count = d.milli 0;
    connect_errno = pos 0;
    tls_handshake = d.milli 22000;
    tls_fails = d.milli 0;
    cpu_steal = d.milli 600;
    cfs_throttled = d.milli 5000;
    mem_reclaim_latency = d.milli 500;
    disk_io_latency = d.milli 2000;
    syscall_latency = d.milli 5000;
  }

  unfoldable pub profile_for_fault : String → SignalProfile F
  profile_for_fault label =
      if str_eq label "dns_latency"
      then record base_profile { dns_latency = d.milli 220000; connect_latency = d.milli 130000 }
      else if str_eq label "cpu_throttle"
      then record base_profile {
        runqueue_delay = d.milli 28000;
        cpu_steal = d.milli 9000;
        cfs_throttled = d.milli 170000;
      }
      else if str_eq label "memory_pressure"
      then record base_profile {
        runqueue_delay = d.milli 14000;
        cfs_throttled = d.milli 90000;
        mem_reclaim_latency = d.milli 25000;
        disk_io_latency = d.milli 60000;
      }
      else if str_eq label "provider_throttle"
      then record base_profile {
        connect_latency = d.milli 45000;
        tls_handshake = d.milli 55000;
        connect_error_count = d.milli 1000;
        connect_errno = pos 110;
        syscall_latency = d.milli 250000;
      }
      else if str_eq label "network_partition"
      then record base_profile {
        connect_latency = d.milli 350000;
        connect_error_count = d.milli 3000;
        connect_errno = pos 113;
        retransmits = d.milli 12000;
        dns_latency = d.milli 180000;
        tls_fails = d.milli 2000;
      }
      else base_profile

  unfoldable pub threshold : F → F → F → String
  threshold value warning error_cutoff =
      if fge value error_cutoff then "error" else if fge value warning then "warning" else "ok"

  unfoldable pub signal_status : String → F → String
  signal_status s value =
      if str_eq s dns_latency_ms
      then threshold value (d.milli 40000) (d.milli 120000)
      else if str_eq s tcp_retransmits
      then threshold value (d.milli 2000) (d.milli 5000)
      else if str_eq s runqueue_delay_ms
      then threshold value (d.milli 10000) (d.milli 25000)
      else if str_eq s connect_latency_ms
      then threshold value (d.milli 80000) (d.milli 180000)
      else if str_eq s connect_errors
      then threshold value (d.milli 1000) (d.milli 3000)
      else if str_eq s tls_handshake_ms
      then threshold value (d.milli 60000) (d.milli 160000)
      else if str_eq s tls_handshake_fails
      then threshold value (d.milli 1000) (d.milli 3000)
      else if str_eq s cpu_steal_pct
      then threshold value (d.milli 2000) (d.milli 8000)
      else if str_eq s cfs_throttled_ms
      then threshold value (d.milli 40000) (d.milli 120000)
      else if str_eq s mem_reclaim_latency_ms
      then threshold value (d.milli 5000) (d.milli 20000)
      else if str_eq s disk_io_latency_ms
      then threshold value (d.milli 10000) (d.milli 50000)
      else if str_eq s syscall_latency_ms
      then threshold value (d.milli 50000) (d.milli 200000)
      else "ok"

  unfoldable pub new_event :
      Time → String → F → String → Metadata → Option ConnTuple → ℤ → F → ProbeEvent F
  new_event ts signal value unit meta tuple errno confidence = record {
    ts_unix_nano = unix_nano ts;
    signal = signal;
    node = meta.node;
    namespace = meta.namespace;
    pod = meta.pod;
    container = meta.container;
    pid = meta.pid;
    tid = meta.tid;
    conn_tuple = tuple;
    value = value;
    unit = unit;
    status = signal_status signal value;
    trace_id = meta.trace_id;
    span_id = meta.span_id;
    errno = if not (eqb_ℤ errno (pos 0)) then some errno else none;
    confidence = if fgt confidence (d.milli 0) then some confidence else none;
  }

  -- The arguments of the calls of `appendIfEnabled`, in their order: signal, value, unit, connection
  -- tuple and error number.
  abbrev pub observations : SignalProfile F → List (String × F × String × Option ConnTuple × ℤ)
  observations p =
      let tuple = some default_conn_tuple in
      (dns_latency_ms, p.dns_latency, "ms", tuple, pos 0)
      ∷ (tcp_retransmits, p.retransmits, "count", tuple, pos 0)
      ∷ (runqueue_delay_ms, p.runqueue_delay, "ms", none, pos 0)
      ∷ (connect_latency_ms, p.connect_latency, "ms", tuple, p.connect_errno)
      ∷ (connect_errors, p.connect_error_count, "count", tuple, p.connect_errno)
      ∷ (tls_handshake_ms, p.tls_handshake, "ms", tuple, pos 0)
      ∷ (tls_handshake_fails, p.tls_fails, "count", tuple, pos 0)
      ∷ (cpu_steal_pct, p.cpu_steal, "pct", none, pos 0)
      ∷ (cfs_throttled_ms, p.cfs_throttled, "ms", none, pos 0)
      ∷ (mem_reclaim_latency_ms, p.mem_reclaim_latency, "ms", none, pos 0)
      ∷ (disk_io_latency_ms, p.disk_io_latency, "ms", none, pos 0)
      ∷ (syscall_latency_ms, p.syscall_latency, "ms", none, pos 0)
      ∷ []

  -- The calls of `appendIfEnabled`.
  unfoldable pub append_enabled :
      List String
      → Time
      → Metadata
      → List (ProbeEvent F)
      → List (String × F × String × Option ConnTuple × ℤ)
      → List (ProbeEvent F)
  append_enabled enabled ts meta out [] = out
  append_enabled enabled ts meta out ((signal, value, unit, tuple, errno) ∷ rest) =
      let event = new_event ts signal value unit meta tuple errno (d.milli 0) in
      append_enabled enabled ts meta (if contains signal enabled then out ++ (event ∷ []) else out)
        rest

  unfoldable pub generate : Generator → RawSample F → Metadata → List (ProbeEvent F)
  generate g sample meta =
      if is_none_enabled g.enabled
      then []
      else append_enabled g.enabled sample.timestamp (apply_enricher g.enricher meta) []
          (observations (profile_for_fault sample.fault_label))
