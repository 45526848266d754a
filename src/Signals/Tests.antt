-- ===== src/Signals/Tests.antt =====
-- Runs of the generator of pkg/signals, and each theorem at a concrete input.
use llm_slo_e_bpf_toolkit.Prelude.{
  ◌-◌, ◌≡◌, refl, true, false, not, ◌&&◌, ◌||◌, String, str_eq, List, [], ◌∷◌, none, some, map,
  length, filter, contains, insert_name, remove_name, All,
}
use llm_slo_e_bpf_toolkit.Prelude.Int.{pos}
use llm_slo_e_bpf_toolkit.Prelude.Float64.{Fixed, fixed, fixed-IsIeee}
use llm_slo_e_bpf_toolkit.Collector.Samples.{RawSample}
use llm_slo_e_bpf_toolkit.Signals.Constants.{
  core_full, core_signal_set, disable_order, supported_signals_for_mode, dns_latency_ms,
  runqueue_delay_ms, tls_handshake_ms,
}
use llm_slo_e_bpf_toolkit.Signals.Metadata.{Metadata}
use llm_slo_e_bpf_toolkit.Signals.Generator.{
  Generator, new_generator, set_signals, disable, disable_highest_cost, disable_first, add_names,
  add_allowed, is_empty,
}
use llm_slo_e_bpf_toolkit.Signals.Generator.Enabled.{
  Call, disables, sheds, run, step, shed, IsWellFormed, before_in, new_generator-IsWellFormed,
  contains-set_signals, shed_new, disable_highest_cost_lem,
}
use llm_slo_e_bpf_toolkit.Signals.Events.{ProbeEvent, generate}
use llm_slo_e_bpf_toolkit.Signals.Events.Emitted.{signal_of, generate-signals}
use llm_slo_e_bpf_toolkit.Signals.Events.Faults.{any_error, is_fault, generate-faults}
use llm_slo_e_bpf_toolkit.Signals.Events.Identity.{IsComplete, agent_enricher, generate-IsComplete}

abbrev calls : List Call
calls = sheds ∷ disables dns_latency_ms ∷ []

abbrev three : List String
three = dns_latency_ms ∷ tls_handshake_ms ∷ runqueue_delay_ms ∷ []

abbrev g : Generator
g = run (new_generator core_full three none) calls

one_left : g.enabled ≡ runqueue_delay_ms ∷ []
unfolding run step new_generator set_signals add_allowed add_names insert_name remove_name disable
    disable_highest_cost disable_first supported_signals_for_mode
one_left = refl

new_generator-IsWellFormed_example : IsWellFormed g
new_generator-IsWellFormed_example = new_generator-IsWellFormed core_full three none calls

contains-set_signals_example : contains dns_latency_ms (set_signals g three).enabled ≡ (
    contains dns_latency_ms (supported_signals_for_mode g.mode)
    && (is_empty three || contains dns_latency_ms three))
contains-set_signals_example = contains-set_signals g three dns_latency_ms

shed_new_example : length (shed 1 g).enabled ≡ length g.enabled - 1
shed_new_example = shed_new core_full three none calls 1

disable_highest_cost_lem_example :
    (contains runqueue_delay_ms g.enabled ≡ true)
    × ((j : String)
        → before_in disable_order runqueue_delay_ms j ≡ true
        → contains j g.enabled ≡ false)
    × ((j : String)
        → contains j (disable_highest_cost g).0.enabled
          ≡ (not (str_eq runqueue_delay_ms j) && contains j g.enabled))
unfolding run step new_generator set_signals add_allowed add_names insert_name remove_name disable
    disable_highest_cost disable_first supported_signals_for_mode
disable_highest_cost_lem_example = disable_highest_cost_lem g runqueue_delay_ms refl

abbrev sample : RawSample Fixed
sample = record {
  timestamp = pos 62_135_596_800_000_000_000;
  cluster = "local";
  namespace = "default";
  workload = "agent";
  service = "chat";
  node = "n1";
  request_id = "r1";
  trace_id = "t1";
  ttft_ms = some (pos 700_000_000_000_000);
  request_latency_ms = some (pos 1_350_000_000_000_000);
  token_tps = some (pos 11_000_000_000_000);
  error_rate = some (pos 50_000_000_000);
  fault_label = "cpu_throttle";
}

abbrev nobody : Metadata
nobody = record {
  node = "";
  namespace = "";
  pod = "";
  container = "";
  service = "";
  workload = "";
  pid = pos 0;
  tid = pos 0;
  trace_id = "";
  span_id = "";
}

generate-signals_example :
    let events : List (ProbeEvent Fixed) = generate g sample nobody in
    (map (signal_of Fixed) events ≡ filter (λ s. contains s g.enabled) core_signal_set)
    × (length events ≡ length g.enabled)
generate-signals_example = generate-signals Fixed core_full three none calls sample nobody

generate-faults_example :
    any_error {F = Fixed} (generate (new_generator core_full [] none) sample nobody)
    ≡ is_fault "cpu_throttle"
generate-faults_example = generate-faults Fixed fixed-IsIeee none sample nobody

generate-IsComplete_example : All (IsComplete Fixed sample.timestamp) (
    generate
      (record g { enricher = some (agent_enricher (λ p. ("", "")) (pos 7) nobody) })
      sample
      nobody)
generate-IsComplete_example =
    generate-IsComplete Fixed g (λ p. ("", "")) (pos 7) nobody sample nobody refl
