-- ===== src/Signals/Events/Identity.antt =====
-- Whom the events of pkg/signals/generator.go name, with the enrichers that cmd/agent/main.go sets up.
use llm_slo_e_bpf_toolkit.Prelude.{
  ◌≡◌, refl, inl, inr, true, false, String, str_eq, List, [], ◌∷◌, ◌++◌, Option, some, contains,
  Bool-cases, All, All-append,
}
use llm_slo_e_bpf_toolkit.Prelude.Int.{ℤ, pos, ltb_ℤ}
use llm_slo_e_bpf_toolkit.Prelude.Float64.{Float64}
use llm_slo_e_bpf_toolkit.Prelude.Time.{Time}
use llm_slo_e_bpf_toolkit.Collector.Samples.{RawSample}
use llm_slo_e_bpf_toolkit.Signals.Metadata.{
  Metadata, IsIdentified, static_enrich, proc_enrich, static_enrich-IsIdentified,
}
use llm_slo_e_bpf_toolkit.Signals.Generator.{Generator}
use llm_slo_e_bpf_toolkit.Signals.Events.{
  ConnTuple, ProbeEvent, unix_nano, signal_status, new_event, profile_for_fault, observations,
  append_enabled, generate,
}

-- The enricher of the agent: the cgroup of the process first, then the flags' values.
abbrev pub agent_enricher : (ℤ → String × String) → ℤ → Metadata → Metadata → Metadata
agent_enricher derive getpid defaults = proc_enrich derive (some (static_enrich getpid defaults))

module _ (F : Type 0) ⦃d : Float64 F⦄ where
  -- An event of the given instant that names a node, namespace, pod, container, process and thread,
  -- and whose status is the one of its signal and value.
  pub record IsComplete (ts : Time) (e : ProbeEvent F) : Type 0 where
    pub instant : e.ts_unix_nano ≡ unix_nano ts
    pub node : str_eq e.node "" ≡ false
    pub namespace : str_eq e.namespace "" ≡ false
    pub pod : str_eq e.pod "" ≡ false
    pub container : str_eq e.container "" ≡ false
    pub pid : ltb_ℤ (pos 0) e.pid ≡ true
    pub tid : ltb_ℤ (pos 0) e.tid ≡ true
    pub judged : e.status ≡ signal_status e.signal e.value

  append_enabled-IsComplete :
      (enabled : List String) (ts : Time) (meta : Metadata) (out : List (ProbeEvent F))
      (os : List (String × F × String × Option ConnTuple × ℤ))
      → IsIdentified meta
      → All (IsComplete ts) out
      → All (IsComplete ts) (append_enabled enabled ts meta out os)
  unfolding append_enabled new_event
  append_enabled-IsComplete enabled ts meta out [] i a = a
  append_enabled-IsComplete enabled ts meta out ((s, v, unit, tuple, errno) ∷ os) i a =
      let event = new_event ts s v unit meta tuple errno (d.milli 0) in
      let complete : IsComplete ts event = record {
        instant = refl;
        node = i.node;
        namespace = i.namespace;
        pod = i.pod;
        container = i.container;
        pid = i.pid;
        tid = i.tid;
        judged = refl;
      } in
      elim (Bool-cases (contains s enabled)) [
        | inl h ↦ rw h (
            append_enabled-IsComplete enabled ts meta (out ++ (event ∷ [])) os i
              (All-append _ out _ a (complete, tt)))
        | inr h ↦ rw h (append_enabled-IsComplete enabled ts meta out os i a)
      ]

  -- Every event of a generator with the agent's enrichers carries the instant of its sample and a node,
  -- namespace, pod, container, process and thread, whatever the sample's metadata lacks, and the status
  -- of its signal and value.
  pub generate-IsComplete :
      (g : Generator) (derive : ℤ → String × String) (getpid : ℤ) (defaults : Metadata)
      (sample : RawSample F) (meta : Metadata)
      → ltb_ℤ (pos 0) getpid ≡ true
      → All (IsComplete sample.timestamp) (
          generate
            (record g { enricher = some (agent_enricher derive getpid defaults) })
            sample
            meta)
  unfolding generate proc_enrich
  generate-IsComplete g derive getpid defaults sample meta h = by_enabled g.enabled
    where
      by_enabled :
          (enabled : List String)
          → All (IsComplete sample.timestamp) (
              generate
                (record g {
                  enabled = enabled;
                  enricher = some (agent_enricher derive getpid defaults);
                })
                sample
                meta)
      by_enabled [] = tt
      by_enabled (s ∷ names) =
          append_enabled-IsComplete (s ∷ names) sample.timestamp
            (agent_enricher derive getpid defaults meta) []
            (observations (profile_for_fault sample.fault_label))
            (static_enrich-IsIdentified getpid defaults _ h) tt
