-- ===== src/Semconv.antt =====
-- pkg/semconv/llm_ebpf.go: the names of the span attributes.
use llm_slo_e_bpf_toolkit.Prelude.{String}

abbrev pub attr_dns_latency_ms : String
attr_dns_latency_ms = "llm.ebpf.dns.latency_ms"

abbrev pub attr_tcp_retransmits : String
attr_tcp_retransmits = "llm.ebpf.tcp.retransmits"

abbrev pub attr_runqueue_delay_ms : String
attr_runqueue_delay_ms = "llm.ebpf.sched.runqueue_delay_ms"

abbrev pub attr_cpu_steal_pct : String
attr_cpu_steal_pct = "llm.ebpf.cpu.steal_pct"

abbrev pub attr_connect_latency_ms : String
attr_connect_latency_ms = "llm.ebpf.net.connect_latency_ms"

abbrev pub attr_tls_handshake_ms : String
attr_tls_handshake_ms = "llm.ebpf.tls.handshake_ms"

abbrev pub attr_correlation_conf : String
attr_correlation_conf = "llm.ebpf.correlation_confidence"

abbrev pub attr_cfs_throttled_ms : String
attr_cfs_throttled_ms = "llm.ebpf.cpu.cfs_throttled_ms"

abbrev pub attr_retrieval_kernel_ms : String
attr_retrieval_kernel_ms = "llm.ebpf.retrieval.kernel_attributed_ms"

abbrev pub attr_mem_reclaim_latency_ms : String
attr_mem_reclaim_latency_ms = "llm.ebpf.mm.reclaim_latency_ms"

abbrev pub attr_disk_io_latency_ms : String
attr_disk_io_latency_ms = "llm.ebpf.blk.io_latency_ms"

abbrev pub attr_syscall_latency_ms : String
attr_syscall_latency_ms = "llm.ebpf.syscall.latency_ms"

abbrev pub attr_connect_errors : String
attr_connect_errors = "llm.ebpf.net.connect_errors_total"

abbrev pub attr_tls_handshake_fails : String
attr_tls_handshake_fails = "llm.ebpf.tls.handshake_fail_total"
