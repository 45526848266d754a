-- ===== src/Signals/Constants.antt =====
-- pkg/signals/constants.go and the parsing of mode.go. A mode is a string, as in the code.
use llm_slo_e_bpf_toolkit.Prelude.{String, str_eq, List, [], ◌∷◌, if◌then◌else◌}

abbrev pub dns_latency_ms : String
dns_latency_ms = "dns_latency_ms"

abbrev pub tcp_retransmits : String
tcp_retransmits = "tcp_retransmits_total"

abbrev pub runqueue_delay_ms : String
runqueue_delay_ms = "runqueue_delay_ms"

abbrev pub connect_latency_ms : String
connect_latency_ms = "connect_latency_ms"

abbrev pub connect_errors : String
connect_errors = "connect_errors_total"

abbrev pub tls_handshake_ms : String
tls_handshake_ms = "tls_handshake_ms"

abbrev pub tls_handshake_fails : String
tls_handshake_fails = "tls_handshake_fail_total"

abbrev pub cpu_steal_pct : String
cpu_steal_pct = "cpu_steal_pct"

abbrev pub cfs_throttled_ms : String
cfs_throttled_ms = "cfs_throttled_ms"

abbrev pub mem_reclaim_latency_ms : String
mem_reclaim_latency_ms = "mem_reclaim_latency_ms"

abbrev pub disk_io_latency_ms : String
disk_io_latency_ms = "disk_io_latency_ms"

abbrev pub syscall_latency_ms : String
syscall_latency_ms = "syscall_latency_ms"

abbrev pub core_full : String
core_full = "core_full"

abbrev pub bcc_degraded : String
bcc_degraded = "bcc_degraded"

abbrev pub core_signal_set : List String
core_signal_set =
    dns_latency_ms ∷ tcp_retransmits ∷ runqueue_delay_ms ∷ connect_latency_ms ∷ connect_errors
    ∷ tls_handshake_ms ∷ tls_handshake_fails ∷ cpu_steal_pct ∷ cfs_throttled_ms
    ∷ mem_reclaim_latency_ms ∷ disk_io_latency_ms ∷ syscall_latency_ms ∷ []

abbrev pub bcc_signal_set : List String
bcc_signal_set = dns_latency_ms ∷ tcp_retransmits ∷ []

-- `RequiredMinimumSignals`.
abbrev pub required_minimum_signals : List String
required_minimum_signals =
    dns_latency_ms ∷ tcp_retransmits ∷ runqueue_delay_ms ∷ connect_latency_ms ∷ tls_handshake_ms
    ∷ cpu_steal_pct ∷ []

-- `DisableOrder`, most expensive first.
abbrev pub disable_order : List String
disable_order =
    tls_handshake_ms ∷ syscall_latency_ms ∷ runqueue_delay_ms ∷ disk_io_latency_ms
    ∷ connect_latency_ms ∷ mem_reclaim_latency_ms ∷ cpu_steal_pct ∷ dns_latency_ms ∷ tcp_retransmits
    ∷ cfs_throttled_ms ∷ connect_errors ∷ tls_handshake_fails ∷ []

unfoldable pub supported_signals_for_mode : String → List String
supported_signals_for_mode mode =
    if str_eq mode bcc_degraded then bcc_signal_set else core_signal_set

-- `ParseCapabilityMode`, given what `DetectCapabilityMode` finds on the host.
unfoldable pub parse_capability_mode : String → String → String
parse_capability_mode detected v =
    if str_eq v core_full
    then core_full
    else if str_eq v bcc_degraded
    then bcc_degraded
    else detected
