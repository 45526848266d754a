-- ===== src/ToolkitConfig.antt =====
-- pkg/toolkitcfg/config.go: the defaults of the toolkit's configuration. Reading the file and its YAML
-- are not modelled.
pub mod Normal
use llm_slo_e_bpf_toolkit.Prelude.{
  Bool, true, false, String, str_eq, List, [], ◌∷◌, length, ◌==◌, if◌then◌else◌,
}
use llm_slo_e_bpf_toolkit.Prelude.Int.{ℤ, pos, leb_ℤ}
use llm_slo_e_bpf_toolkit.Prelude.Float64.{Float64, fle}

pub record SamplingConfig : Type 0 where
  pub events_per_second_limit : ℤ
  pub burst_limit : ℤ

pub record CorrelationConfig : Type 0 where
  pub window_ms : ℤ

pub record OtlpConfig : Type 0 where
  pub endpoint : String

pub record SafetyConfig (F : Type 0) : Type 0 where
  pub max_overhead_pct : F

pub record WebhookConfig : Type 0 where
  pub enabled : Bool
  pub url : String
  pub secret : String
  pub format : String
  pub timeout_ms : ℤ

pub record CdGateConfig (F : Type 0) : Type 0 where
  pub enabled : Bool
  pub prometheus_url : String
  pub ttft_p95_ms : F
  pub error_rate : F
  pub burn_rate : F
  pub fail_open : Bool

pub record ToolkitConfig (F : Type 0) : Type 0 where
  pub api_version : String
  pub kind : String
  pub signal_set : List String
  pub sampling : SamplingConfig
  pub correlation : CorrelationConfig
  pub otlp : OtlpConfig
  pub safety : SafetyConfig F
  pub webhook : WebhookConfig
  pub cd_gate : CdGateConfig F

-- A value, or a default for one that is missing: empty, or not above zero.
abbrev pub or_names : List String → List String → List String
or_names names fallback = if length names == 0 then fallback else names

abbrev pub or_text : String → String → String
or_text s fallback = if str_eq s "" then fallback else s

abbrev pub or_count : ℤ → ℤ → ℤ
or_count n fallback = if leb_ℤ n (pos 0) then fallback else n

module _ {F : Type 0} ⦃d : Float64 F⦄ where
  abbrev pub or_number : F → F → F
  or_number x fallback = if fle x (d.milli 0) then fallback else x

  -- `Default`.
  unfoldable pub default_config : ToolkitConfig F
  default_config = record {
    api_version = "toolkit.llm-slo.dev/v1alpha1";
    kind = "ToolkitConfig";
    signal_set =
        "dns_latency_ms" ∷ "tcp_retransmits_total" ∷ "runqueue_delay_ms" ∷ "connect_latency_ms"
        ∷ "tls_handshake_ms" ∷ "cpu_steal_pct" ∷ "mem_reclaim_latency_ms" ∷ "disk_io_latency_ms"
        ∷ "syscall_latency_ms" ∷ [];
    sampling = record { events_per_second_limit = pos 10_000; burst_limit = pos 20_000 };
    correlation = record { window_ms = pos 2000 };
    otlp = record { endpoint = "http://otel-collector:4317" };
    safety = record { max_overhead_pct = d.milli 5000 };
    webhook = record {
      enabled = false;
      url = "";
      secret = "";
      format = "generic";
      timeout_ms = pos 5000;
    };
    cd_gate = record {
      enabled = false;
      prometheus_url = "http://prometheus:9090";
      ttft_p95_ms = d.milli 800_000;
      error_rate = d.milli 50;
      burn_rate = d.milli 2000;
      fail_open = true;
    };
  }

  unfoldable pub normalize : ToolkitConfig F → ToolkitConfig F
  unfolding default_config
  normalize cfg =
      let s = default_config in
      record {
        api_version = or_text cfg.api_version s.api_version;
        kind = or_text cfg.kind s.kind;
        signal_set = or_names cfg.signal_set s.signal_set;
        sampling = record {
          events_per_second_limit =
              or_count cfg.sampling.events_per_second_limit s.sampling.events_per_second_limit;
          burst_limit = or_count cfg.sampling.burst_limit s.sampling.burst_limit;
        };
        correlation = record {
          window_ms = or_count cfg.correlation.window_ms s.correlation.window_ms;
        };
        otlp = record { endpoint = or_text cfg.otlp.endpoint s.otlp.endpoint };
        safety = record {
          max_overhead_pct = or_number cfg.safety.max_overhead_pct s.safety.max_overhead_pct;
        };
        webhook = record cfg.webhook {
          format = or_text cfg.webhook.format s.webhook.format;
          timeout_ms = or_count cfg.webhook.timeout_ms s.webhook.timeout_ms;
        };
        cd_gate = record cfg.cd_gate {
          prometheus_url = or_text cfg.cd_gate.prometheus_url s.cd_gate.prometheus_url;
          ttft_p95_ms = or_number cfg.cd_gate.ttft_p95_ms s.cd_gate.ttft_p95_ms;
          error_rate = or_number cfg.cd_gate.error_rate s.cd_gate.error_rate;
          burn_rate = or_number cfg.cd_gate.burn_rate s.cd_gate.burn_rate;
        };
      }
