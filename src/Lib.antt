-- ===== src/Lib.antt =====
-- LLM SLO eBPF Toolkit: a model of the Go code that correlates kernel signals with the spans of an
-- LLM service and keeps the collection of those signals within a budget.
--
-- An agent turns samples into probe events for the signals that are enabled (pkg/signals), limits
-- how many it emits (pkg/safety), and gives up signals while its own processor use is above a limit
-- (pkg/safety, pkg/collector). On the other side, spans and signals are matched by identity and
-- distance in time (pkg/correlation), matched signals are written to the spans' attributes
-- (pkg/otel/processor/ebpfcorrelator), and pods with too many retransmissions are detected. Incidents
-- are attributed to fault domains (pkg/attribution), delivered to webhooks (pkg/webhook), and
-- replayed to score the attribution (pkg/faultreplay). A release is gated by the statistics of its
-- benchmark runs (pkg/releasegate).
--
-- Files and code
--   Prelude: lists, sets of names, maps, sorting, integers, floats and instants.
--   Safety: pkg/safety/rate_limiter.go (`RateLimiter.Allow` is `allow`) and overhead_guard.go
--     (`OverheadGuard.Evaluate` is `evaluate`; the sampler's answer is an argument).
--   Signals: pkg/signals/constants.go, generator.go and metadata.go (`Generator.SetSignals` is
--     `set_signals`, `Disable` is `disable`, `Generate` is `generate`).
--   Collector: pkg/collector/probe_manager.go (`ProbeManager.CheckOverhead` is `check_overhead`),
--     pipeline.go (`NormalizeSample` is `normalize_sample`) and synthetic.go
--     (`GenerateSyntheticSamples` is `generate_synthetic_samples`), and ringbuf.go (`decodeBPFEvent`
--     is `decode_bpf_event`, `readLoop` is `read_loop`; ebpf/c/llm_slo_event.h is `encode_event`).
--   CdGate: pkg/cdgate/gate.go (`EvaluateSLOGate` is `evaluate_slo_gate`; what Prometheus answers is an
--     argument) and the exit code of cmd/sloctl/cdgate.go.
--   Semconv: pkg/semconv/llm_ebpf.go.
--   Correlation: pkg/correlation/dns.go (`Match`, `EnrichDNS`), retry_storm.go
--     (`RetryStormDetector`) and evaluator.go (`EvaluateLabeledPairs`).
--   Enrichment: pkg/otel/processor/ebpfcorrelator/correlator.go (`EnrichAttributes`) and processor.go
--     (`ProcessBatch`).
--   Schema: the attribution envelope of pkg/schema/types.go.
--   Attribution: pkg/attribution/mapper.go (`BuildAttribution`), bayesian.go (`Attribute` is
--     `attribute`, `AttributeSample` is `attribute_sample`) and pipeline.go (`BuildAttributions`,
--     `BuildConfusionMatrix` and the three scores).
--   FaultReplay: pkg/faultreplay/generator.go (`GenerateFaultSamples`), whose samples Attribution
--     scores.
--   Webhook: pkg/webhook/pagerduty.go, opsgenie.go and exporter.go (`Send` is `send`, whose result
--     comes with the log of what it posts and sleeps).
--   ReleaseGate: pkg/releasegate/gate.go (`Evaluate` is `evaluate`), with a module for each gate,
--     for the statistics and for the inputs.
--   Benchmark: the samples of pkg/benchmark/harness.go (`loadSamples` is `load_samples`).
--   Prereq: pkg/prereq/checker.go (`Evaluate` is `evaluate`, of the facts that were collected).
--   Slo: pkg/slo/calculator.go (`Calculate`, `Aggregate`).
--   ToolkitConfig: the defaults of pkg/toolkitcfg/config.go and their normalization.
--
-- State and time
--   A method that changes its receiver returns the new record. The methods of one object hold its
--   mutex throughout, so a history of an object is a sequence of calls. `time.Now` is an argument.
--   A `time.Time` is an integer of nanoseconds since the zero time and a `time.Duration` one of
--   nanoseconds; `Sub` saturates and a product wraps at 64 bits as in Go.
--
-- Outside of the code
--   What a library or the system answers is an argument: the files and parsers of the release gate
--   (`Host`), its random generator (`intn`), the texts that `fmt` and `time` print (`Formats`), the
--   JSON encoding, the hash of a signature, the answers of an HTTP server, the functions of `math`
--   (Prelude/FloatMath), and what the read loop meets in each round. Where Go walks a map whose
--   order matters, the order is an argument too.
--
-- Numbers
--   The float type is an argument with its operations (Prelude/Float64). What a theorem needs of it
--   is named in `IsIeee`: constants and distances below 2^53 compare as their integers do, and the
--   order is that of IEEE 754, in which NaN compares with nothing. Fixed-point numbers with a NaN
--   show that these facts can hold together. Counters are bounded by the length of a list in memory
--   and are natural numbers; the processor counters, which the kernel chooses, wrap at 64 bits.
--
-- Loops are over a list or up to a count, but for one: the loop over runs of equal values in the
-- Mann-Whitney test takes as much fuel as there are points, and each run takes at least one. The
-- read loop of a ring buffer is a function of the rounds that it meets.
--
-- Not modelled: reading and writing of files, HTTP and the wire formats, the eBPF programs in
-- ebpf/c but for the layout of their records, the OTLP exporters, the commands, the reports of the
-- benchmarks and the demo service.
pub mod Prelude
pub mod Safety
pub mod Signals
pub mod Collector
pub mod CdGate
pub mod Semconv
pub mod Correlation
pub mod Schema
pub mod Attribution
pub mod FaultReplay
pub mod Webhook
pub mod ReleaseGate
pub mod Benchmark
pub mod Prereq
pub mod Slo
pub mod ToolkitConfig
pub mod Enrichment
