-- ===== src/Collector/ProbeManager.antt =====
-- pkg/collector/probe_manager.go. Links, readers and collections are handles of the cilium library;
-- all the manager does to them is to close them, and `closed` is the log of its `Close` calls. Their
-- errors are only printed. The limiter is never used, and `AttachAll` only prints.
pub mod Resources
use llm_slo_e_bpf_toolkit.Prelude.{
  ℕ, Bool, true, false, not, String, str_eq, List, [], ◌∷◌, ◌++◌, map, Option, none, some, contains,
  lookup, insert, if◌then◌else◌,
}
use llm_slo_e_bpf_toolkit.Prelude.Float64.{Float64}
use llm_slo_e_bpf_toolkit.Safety.OverheadGuard.{OverheadGuard, Reading, GuardError, evaluate}

pub data Resource : Type 0 where
  link : ℕ → Resource
  reader : ℕ → Resource
  collection : ℕ → Resource

pub record ProbeSpec : Type 0 where
  pub signal : String
  pub coll : Option ℕ
  pub links : List ℕ
  pub ring_buf : Option ℕ

pub record ProbeManager (F : Type 0) : Type 0 where
  pub mode : String
  pub probes : List (String × ProbeSpec)
  pub allowed : List String
  pub disable_order : List String
  pub guard : Option (OverheadGuard F)
  pub closed : List Resource

abbrev pub present : (ℕ → Resource) → Option ℕ → List Resource
present f none = []
present f (some n) = f n ∷ []

-- What `closeProbe` closes, in its order.
unfoldable pub resources : ProbeSpec → List Resource
resources spec =
    map link spec.links ++ (present reader spec.ring_buf ++ present collection spec.coll)

-- `delete(probes, signal)`.
unfoldable pub delete : String → List (String × ProbeSpec) → List (String × ProbeSpec)
delete signal [] = []
delete signal (e ∷ rest) = if str_eq e.0 signal then rest else e ∷ delete signal rest

-- The resources of all probes of a map.
unfoldable pub all_resources : List (String × ProbeSpec) → List Resource
all_resources [] = []
all_resources (e ∷ rest) = resources e.1 ++ all_resources rest

module _ {F : Type 0} where
  unfoldable pub new_probe_manager :
      String → List String → List String → Option (OverheadGuard F) → ProbeManager F
  new_probe_manager mode allowed disable_order guard = record {
    mode = mode;
    probes = [];
    allowed = allowed;
    disable_order = disable_order;
    guard = guard;
    closed = [];
  }

  -- `Mode`.
  unfoldable pub mode_label : ProbeManager F → String
  mode_label m = m.mode

  unfoldable pub close_probe : ProbeManager F → ProbeSpec → ProbeManager F
  close_probe m spec = record m { closed = m.closed ++ resources spec }

  -- `false` is the error that the mode does not support the signal.
  unfoldable pub register : ProbeManager F → ProbeSpec → ProbeManager F × Bool
  register m spec =
      if not (contains spec.signal m.allowed)
      then (m, false)
      else (record m { probes = insert spec.signal spec m.probes }, true)

  -- The code closes the probes in the order in which Go walks the map, which is not fixed.
  unfoldable pub detach_all : ProbeManager F → ProbeManager F
  detach_all m = record m { probes = []; closed = m.closed ++ all_resources m.probes }

  -- Closing and deleting one probe that is there.
  unfoldable pub drop_probe : ProbeManager F → String → ProbeSpec → ProbeManager F
  drop_probe m signal spec =
      let closed = close_probe m spec in record closed { probes = delete signal closed.probes }

  disable_found : ProbeManager F → String → Option ProbeSpec → ProbeManager F × Bool
  disable_found m signal none = (m, false)
  disable_found m signal (some spec) = (drop_probe m signal spec, true)

  unfoldable pub disable_probe : ProbeManager F → String → ProbeManager F × Bool
  unfolding disable_found
  disable_probe m signal = disable_found m signal (lookup signal m.probes)

  -- One round of the loop at the end of `CheckOverhead`: a probe that is there ends it.
  shed_found :
      ProbeManager F
      → String
      → ProbeManager F × Option String
      → Option ProbeSpec
      → ProbeManager F × Option String
  shed_found m signal later none = later
  shed_found m signal later (some spec) = (drop_probe m signal spec, some signal)

  -- The loop; `none` is the result `"", false`.
  unfoldable pub shed_first : ProbeManager F → List String → ProbeManager F × Option String
  unfolding shed_found
  shed_first m [] = (m, none)
  shed_first m (signal ∷ order) =
      let later = shed_first m order in shed_found m signal later (lookup signal m.probes)

-- `EnabledSignals` and `RingBufReaders` walk the map, in an order that Go does not fix.
unfoldable pub probe_signals : List (String × ProbeSpec) → List String
probe_signals [] = []
probe_signals (e ∷ rest) = e.0 ∷ probe_signals rest

unfoldable pub probe_readers : List (String × ProbeSpec) → List Resource
probe_readers [] = []
probe_readers (e ∷ rest) = present reader e.1.ring_buf ++ probe_readers rest

abbrev pub is_set : Option GuardError → Bool
is_set none = false
is_set (some e) = true

module _ {F : Type 0} ⦃d : Float64 F⦄ where
  -- What `CheckOverhead` does after the guard has spoken.
  unfoldable pub react : ProbeManager F → Bool → Bool → ProbeManager F × Option String
  react m error exceeded =
      if error then (m, none) else if not exceeded then (m, none) else shed_first m m.disable_order

  check_with :
      ℕ
      → Option Reading
      → ProbeManager F
      → Option (OverheadGuard F)
      → ProbeManager F × Option String
  check_with num_cpu reading m none = (m, none)
  check_with num_cpu reading m (some g) =
      let (g', v) = evaluate num_cpu reading g in
      react (record m { guard = some g' }) (is_set v.error) v.exceeded

  -- `CheckOverhead`, given what the guard's sampler returns if there is one.
  unfoldable pub check_overhead :
      ℕ → Option Reading → ProbeManager F → ProbeManager F × Option String
  unfolding check_with
  check_overhead num_cpu reading m = check_with num_cpu reading m m.guard
