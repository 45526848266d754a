-- ===== src/Signals/Metadata.antt =====
-- pkg/signals/metadata.go: the identity of a workload and its static defaults. What
-- `deriveFromCgroup` and `os.Getpid` return are arguments.
use llm_slo_e_bpf_toolkit.Prelude.{
  Bool-cases, inl, inr, refl, not, ◌&&◌, ◌≡◌, true, false, arith, String, str_eq, Option, none,
  some, if◌then◌else◌,
}
use llm_slo_e_bpf_toolkit.Prelude.Int.{ℤ, pos, leb_ℤ, ltb_ℤ}

pub record Metadata : Type 0 where
  pub node : String
  pub namespace : String
  pub pod : String
  pub container : String
  pub service : String
  pub workload : String
  pub pid : ℤ
  pub tid : ℤ
  pub trace_id : String
  pub span_id : String

unfoldable pub fallback : String → String → String
fallback value def = if str_eq value "" then def else value

unfoldable pub max_int : ℤ → ℤ → ℤ
max_int a b = if ltb_ℤ b a then a else b

-- `StaticMetadataEnricher.Enrich`.
unfoldable pub static_enrich : (getpid : ℤ) → (defaults : Metadata) → Metadata → Metadata
static_enrich getpid defaults meta =
    let pid = if leb_ℤ meta.pid (pos 0) then max_int defaults.pid getpid else meta.pid in
    record {
      node = if str_eq meta.node "" then fallback defaults.node "unknown-node" else meta.node;
      namespace =
          if str_eq meta.namespace ""
          then fallback defaults.namespace "default"
          else meta.namespace;
      pod = if str_eq meta.pod "" then fallback defaults.pod "unknown-pod" else meta.pod;
      container =
          if str_eq meta.container ""
          then fallback defaults.container "unknown-container"
          else meta.container;
      service = if str_eq meta.service "" then defaults.service else meta.service;
      workload = if str_eq meta.workload "" then defaults.workload else meta.workload;
      pid = pid;
      tid =
          if leb_ℤ meta.tid (pos 0)
          then if ltb_ℤ (pos 0) defaults.tid then defaults.tid else pid
          else meta.tid;
      trace_id = if str_eq meta.trace_id "" then defaults.trace_id else meta.trace_id;
      span_id = if str_eq meta.span_id "" then defaults.span_id else meta.span_id;
    }

-- `ProcMetadataEnricher.Enrich`: `derive` is `deriveFromCgroup`, and `next` may be nil.
unfoldable pub proc_enrich :
    (derive : ℤ → String × String) → (next : Option (Metadata → Metadata)) → Metadata → Metadata
proc_enrich derive next meta =
    let (pod, container) = derive meta.pid in
    let found = ltb_ℤ (pos 0) meta.pid && (not (str_eq pod "") && str_eq meta.pod "") in
    let out : Metadata = record meta {
      pod = if found then pod else meta.pod;
      container = if found && str_eq meta.container "" then container else meta.container;
    } in
    elim next [ none ↦ out | some enrich ↦ enrich out ]

-- What every event has to carry.
pub record IsIdentified (m : Metadata) : Type 0 where
  pub node : str_eq m.node "" ≡ false
  pub namespace : str_eq m.namespace "" ≡ false
  pub pod : str_eq m.pod "" ≡ false
  pub container : str_eq m.container "" ≡ false
  pub pid : ltb_ℤ (pos 0) m.pid ≡ true
  pub tid : ltb_ℤ (pos 0) m.tid ≡ true

named :
    (value def last : String)
    → str_eq last "" ≡ false
    → str_eq (if str_eq value "" then fallback def last else value) "" ≡ false
unfolding fallback
named value def last h = elim (Bool-cases (str_eq value "")) [
  | inr e ↦ rw e e
  | inl e ↦ rw e (elim (Bool-cases (str_eq def "")) [ inl f ↦ rw f h | inr f ↦ rw f f ])
]

-- For a running process, static enrichment names the node, namespace, pod, container, process and
-- thread of any metadata.
pub static_enrich-IsIdentified :
    (getpid : ℤ) (defaults meta : Metadata)
    → ltb_ℤ (pos 0) getpid ≡ true
    → IsIdentified (static_enrich getpid defaults meta)
unfolding static_enrich max_int
static_enrich-IsIdentified getpid defaults meta h = record {
  node = named meta.node defaults.node "unknown-node" refl;
  namespace = named meta.namespace defaults.namespace "default" refl;
  pod = named meta.pod defaults.pod "unknown-pod" refl;
  container = named meta.container defaults.container "unknown-container" refl;
  pid = ground arith;
  tid = ground arith;
}

-- What is known already stays: static enrichment changes no metadata that is complete.
pub static_enrich_complete :
    (getpid : ℤ) (defaults meta : Metadata)
    → IsIdentified meta
    → str_eq meta.service "" ≡ false
    → str_eq meta.workload "" ≡ false
    → str_eq meta.trace_id "" ≡ false
    → str_eq meta.span_id "" ≡ false
    → static_enrich getpid defaults meta ≡ meta
unfolding static_enrich
static_enrich_complete getpid defaults meta i s w t p =
    ground (arith, i.node, i.namespace, i.pod, i.container, i.pid, i.tid)
