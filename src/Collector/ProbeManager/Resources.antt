-- ===== src/Collector/ProbeManager/Resources.antt =====
-- No call of a `ProbeManager` of pkg/collector/probe_manager.go closes a handle twice, and which
-- handles are never closed.
use llm_slo_e_bpf_toolkit.Prelude.{
  ℕ, ◌+◌, ◌≡◌, refl, Bool, true, false, String, List, [], ◌∷◌, ◌++◌, Option, none, some, arith,
  contains, lookup, insert, count_if, count_if-append, if◌then◌else◌,
}
use llm_slo_e_bpf_toolkit.Prelude.Float64.{Float64}
use llm_slo_e_bpf_toolkit.Safety.OverheadGuard.{OverheadGuard, Reading, evaluate}
use llm_slo_e_bpf_toolkit.Collector.ProbeManager.{
  Resource, ProbeSpec, ProbeManager, resources, delete, all_resources, new_probe_manager,
  close_probe, register, detach_all, drop_probe, disable_found, disable_probe, shed_found,
  shed_first, is_set, react, check_with, check_overhead,
}

-- The handles of a probe that may be there.
abbrev pub resources_of : Option ProbeSpec → List Resource
resources_of none = []
resources_of (some spec) = resources spec

module _ (p : Resource → Bool) where
  count-insert :
      (k : String) (spec : ProbeSpec) (m : List (String × ProbeSpec))
      → count_if p (all_resources (insert k spec m)) + count_if p (resources_of (lookup k m))
        ≡ count_if p (all_resources m) + count_if p (resources spec)
  unfolding all_resources insert lookup
  count-insert k spec [] = ground (arith, count_if-append p (resources spec) [])
  count-insert k spec (e ∷ rest) = ground (
    arith,
    count-insert k spec rest,
    count_if-append p (resources spec) (all_resources rest),
    count_if-append p (resources e.1) (all_resources rest),
    count_if-append p (resources e.1) (all_resources (insert k spec rest)),
  )

  count-delete :
      (k : String) (m : List (String × ProbeSpec))
      → count_if p (all_resources (delete k m)) + count_if p (resources_of (lookup k m))
        ≡ count_if p (all_resources m)
  unfolding all_resources delete lookup
  count-delete k [] = refl
  count-delete k (e ∷ rest) = ground (
    arith,
    count-delete k rest,
    count_if-append p (resources e.1) (all_resources rest),
    count_if-append p (resources e.1) (all_resources (delete k rest)),
  )

-- The calls that change a manager.
pub data Call : Type 0 where
  registers : ProbeSpec → Call
  detaches : Call
  disables : String → Call
  checks_overhead : ℕ → Option Reading → Call

module _ {F : Type 0} ⦃d : Float64 F⦄ where
  unfoldable pub step : ProbeManager F → Call → ProbeManager F
  step m (registers spec) = (register m spec).0
  step m detaches = detach_all m
  step m (disables s) = (disable_probe m s).0
  step m (checks_overhead n r) = (check_overhead n r m).0

  unfoldable pub run : ProbeManager F → List Call → ProbeManager F
  run m [] = m
  run m (c ∷ cs) = run (step m c) cs

  -- What a call hands over, and what it drops from the map without closing it.
  abbrev pub handed_over : ProbeManager F → Call → List Resource
  handed_over m (registers spec) = if contains spec.signal m.allowed then resources spec else []
  handed_over m detaches = []
  handed_over m (disables s) = []
  handed_over m (checks_overhead n r) = []

  abbrev pub replaced : ProbeManager F → Call → List Resource
  replaced m (registers spec) =
      if contains spec.signal m.allowed then resources_of (lookup spec.signal m.probes) else []
  replaced m detaches = []
  replaced m (disables s) = []
  replaced m (checks_overhead n r) = []

  abbrev pub all_handed_over : ProbeManager F → List Call → List Resource
  all_handed_over m [] = []
  all_handed_over m (c ∷ cs) = handed_over m c ++ all_handed_over (step m c) cs

  abbrev pub all_replaced : ProbeManager F → List Call → List Resource
  all_replaced m [] = []
  all_replaced m (c ∷ cs) = replaced m c ++ all_replaced (step m c) cs

  -- How many handles of a kind are closed or held.
  abbrev pub known : (Resource → Bool) → ProbeManager F → ℕ
  known p m = count_if p m.closed + count_if p (all_resources m.probes)

  module _ (p : Resource → Bool) where
    known-drop_probe :
        (m : ProbeManager F) (s : String) (spec : ProbeSpec)
        → lookup s m.probes ≡ some spec
        → known p (drop_probe m s spec) ≡ known p m
    unfolding drop_probe close_probe
    known-drop_probe m s spec e =
        let taken : count_if p (all_resources (delete s m.probes)) + count_if p (resources spec)
            ≡ count_if p (all_resources m.probes) =
          rw e at (count-delete p s m.probes) in
        omega (arith, taken, count_if-append p m.closed (resources spec))

    known-shed_found :
        (m : ProbeManager F) (s : String) (later : ProbeManager F × Option String)
        (o : Option ProbeSpec)
        → lookup s m.probes ≡ o
        → known p later.0 ≡ known p m
        → known p (shed_found m s later o).0 ≡ known p m
    unfolding shed_found
    known-shed_found m s later none e h = h
    known-shed_found m s later (some spec) e h = known-drop_probe m s spec e

    known-shed_first :
        (m : ProbeManager F) (order : List String) → known p (shed_first m order).0 ≡ known p m
    unfolding shed_first
    known-shed_first m [] = refl
    known-shed_first m (s ∷ order) =
        known-shed_found m s (shed_first m order) (lookup s m.probes) refl
          (known-shed_first m order)

    known-disable_found :
        (m : ProbeManager F) (s : String) (o : Option ProbeSpec)
        → lookup s m.probes ≡ o
        → known p (disable_found m s o).0 ≡ known p m
    unfolding disable_found
    known-disable_found m s none e = refl
    known-disable_found m s (some spec) e = known-drop_probe m s spec e

    known-react :
        (m : ProbeManager F) (error exceeded : Bool)
        → known p (react m error exceeded).0 ≡ known p m
    unfolding react
    known-react m true exceeded = refl
    known-react m false false = refl
    known-react m false true = known-shed_first m m.disable_order

    known-check_with :
        (n : ℕ) (r : Option Reading) (m : ProbeManager F) (o : Option (OverheadGuard F))
        → known p (check_with n r m o).0 ≡ known p m
    unfolding check_with
    known-check_with n r m none = refl
    known-check_with n r m (some g) =
        known-react (record m { guard = some (evaluate n r g).0 }) (is_set (evaluate n r g).1.error)
          (evaluate n r g).1.exceeded

    known-step :
        (m : ProbeManager F) (c : Call)
        → known p (step m c) + count_if p (replaced m c) ≡ known p m + count_if p (handed_over m c)
    unfolding step register detach_all disable_probe check_overhead all_resources
    known-step m (registers spec) = ground (arith, count-insert p spec.signal spec m.probes)
    known-step m detaches = omega (arith, count_if-append p m.closed (all_resources m.probes))
    known-step m (disables s) = omega (arith, known-disable_found m s (lookup s m.probes) refl)
    known-step m (checks_overhead n r) = omega (arith, known-check_with n r m m.guard)

    known-run :
        (m : ProbeManager F) (cs : List Call)
        → known p (run m cs) + count_if p (all_replaced m cs)
          ≡ known p m + count_if p (all_handed_over m cs)
    unfolding run
    known-run m [] = refl
    known-run m (c ∷ cs) = omega (
      arith,
      known-run (step m c) cs,
      known-step m c,
      count_if-append p (replaced m c) (all_replaced (step m c) cs),
      count_if-append p (handed_over m c) (all_handed_over (step m c) cs),
    )

  -- In any history of a new manager every handle is accounted for, for any kind of handles: those that
  -- were closed, those of the probes it holds, and those of probes that another `Register` of their
  -- signal replaced, which nobody closes, are together the handles that it took over.
  pub new_probe_manager-accounts :
      (mode : String) (allowed order : List String) (guard : Option (OverheadGuard F))
      (cs : List Call) (p : Resource → Bool)
      → let start = new_probe_manager mode allowed order guard in
        let m = run start cs in
        count_if p m.closed
          + count_if p (all_resources m.probes)
          + count_if p (all_replaced start cs)
        ≡ count_if p (all_handed_over start cs)
  unfolding new_probe_manager all_resources
  new_probe_manager-accounts mode allowed order guard cs p =
      omega (arith, known-run p (new_probe_manager mode allowed order guard) cs)
