-- ===== src/Correlation/Match/Best.antt =====
-- What `Match` of pkg/correlation/dns.go promises: the most confident tier that holds, where a tier
-- asks for shared identities and for instants that are close enough.
use llm_slo_e_bpf_toolkit.Prelude.{
  ℕ, ◌*◌, ◌^◌, ◌≤◌, ◌<◌, ◌≡◌, refl, ◌≢◌, ◌⊎◌, inl, inr, Bool, true, false, ◌&&◌, String, eq_iff,
  if◌then◌else◌, arith, leb, Bool-cases,
}
use llm_slo_e_bpf_toolkit.Prelude.Int.{ℤ, pos, nat_abs, ◌-ℤ◌, ltb_ℤ, eqb_ℤ, eqb_ℤ→eq}
use llm_slo_e_bpf_toolkit.Prelude.Float64.{Float64, IsIeee}
use llm_slo_e_bpf_toolkit.Prelude.Time.{Time, Duration, is_zero, sub, sub_distance, millisecond}
use llm_slo_e_bpf_toolkit.Correlation.Match.{
  SpanRef, SignalRef, Decision, same, within_window, unmatched, decide_tier, effective_window,
  match,
}

pub data Tier : Type 0 where
  trace_id_exact pod_pid pod_conn service_node : Tier

-- Thousandths of confidence, the name in a decision, and the reach in nanoseconds.
abbrev pub confidence : Tier → ℕ
confidence trace_id_exact = 1000
confidence pod_pid = 900
confidence pod_conn = 800
confidence service_node = 650

abbrev pub name : Tier → String
name trace_id_exact = "trace_id_exact"
name pod_pid = "pod_pid_100ms"
name pod_conn = "pod_conn_250ms"
name service_node = "service_node_500ms"

abbrev pub IsWithin : Tier → ℕ → Type 0
IsWithin trace_id_exact distance = Unit
IsWithin pod_pid distance = distance ≤ 100 * millisecond
IsWithin pod_conn distance = distance ≤ 250 * millisecond
IsWithin service_node distance = distance ≤ 500 * millisecond

-- Both sides name the same thing.
abbrev pub Shares : String → String → Type 0
Shares a b = (a ≢ "") × (a ≡ b)

module _ {F : Type 0} where
  abbrev pub SharesIdentity : Tier → SpanRef → SignalRef F → Type 0
  SharesIdentity trace_id_exact s g = Shares s.trace_id g.trace_id
  SharesIdentity pod_pid s g = Shares s.pod g.pod × (ltb_ℤ (pos 0) s.pid ≡ true) × (s.pid ≡ g.pid)
  SharesIdentity pod_conn s g = Shares s.pod g.pod × Shares s.conn_tuple g.conn_tuple
  SharesIdentity service_node s g = Shares s.service g.service × Shares s.node g.node

  abbrev pub distance : SpanRef → SignalRef F → ℕ
  distance s g = nat_abs (s.timestamp -ℤ g.timestamp)

  -- The tier accepts the pair within a window of `w` nanoseconds.
  pub record Holds (s : SpanRef) (g : SignalRef F) (w : ℕ) (t : Tier) : Type 0 where
    pub identity : SharesIdentity t s g
    pub span_time : is_zero s.timestamp ≡ false
    pub signal_time : is_zero g.timestamp ≡ false
    pub in_window : distance s g ≤ w
    pub in_reach : IsWithin t (distance s g)

same→Shares : (a b : String) → same a b ≡ true → Shares a b
same→Shares a b h = ground (arith, eq_iff a b, eq_iff a "")

Shares→same : (a b : String) → Shares a b → same a b ≡ true
Shares→same a b h = ground (arith, eq_iff a b, eq_iff a "")

pid_test→eq : (a b : ℤ) → (ltb_ℤ (pos 0) a && eqb_ℤ a b) ≡ true → (ltb_ℤ (pos 0) a ≡ true) × (a ≡ b)
pid_test→eq a b h = ground (arith, eqb_ℤ→eq a b)

-- The tests of one tier, on integers.
module _ {F : Type 0} where
  tier_test : Tier → SpanRef → SignalRef F → Bool
  tier_test trace_id_exact s g = same s.trace_id g.trace_id
  tier_test pod_pid s g =
      same s.pod g.pod
      && (ltb_ℤ (pos 0) s.pid && eqb_ℤ s.pid g.pid)
      && leb (distance s g) (100 * millisecond)
  tier_test pod_conn s g =
      same s.pod g.pod && same s.conn_tuple g.conn_tuple && leb (distance s g) (250 * millisecond)
  tier_test service_node s g =
      same s.service g.service && same s.node g.node && leb (distance s g) (500 * millisecond)

near_test : Time → Time → ℕ → Bool
near_test a b w = if is_zero a then false else if is_zero b then false else leb (nat_abs (a -ℤ b)) w

near_reach :
    (a b : Time) (w k : ℕ) → near_test a b w ≡ true → near_test a b k ≡ leb (nat_abs (a -ℤ b)) k
unfolding near_test
near_reach a b w k n = ground arith

module _ {F : Type 0} where
  holds : SpanRef → SignalRef F → ℕ → Tier → Bool
  holds s g w t = near_test s.timestamp g.timestamp w && tier_test t s g

  holds→Holds :
      (s : SpanRef) (g : SignalRef F) (w : ℕ) (t : Tier) → holds s g w t ≡ true → Holds s g w t
  unfolding holds near_test tier_test
  holds→Holds s g w trace_id_exact h = ground (arith, same→Shares s.trace_id g.trace_id)
  holds→Holds s g w pod_pid h = ground (arith, same→Shares s.pod g.pod, pid_test→eq s.pid g.pid)
  holds→Holds s g w pod_conn h =
      ground (arith, same→Shares s.pod g.pod, same→Shares s.conn_tuple g.conn_tuple)
  holds→Holds s g w service_node h =
      ground (arith, same→Shares s.service g.service, same→Shares s.node g.node)

  Holds→holds :
      (s : SpanRef) (g : SignalRef F) (w : ℕ) (t : Tier) → Holds s g w t → holds s g w t ≡ true
  unfolding holds near_test tier_test
  Holds→holds s g w trace_id_exact h = ground (arith, Shares→same s.trace_id g.trace_id)
  Holds→holds s g w pod_pid h = ground (arith, Shares→same s.pod g.pod)
  Holds→holds s g w pod_conn h =
      ground (arith, Shares→same s.pod g.pod, Shares→same s.conn_tuple g.conn_tuple)
  Holds→holds s g w service_node h =
      ground (arith, Shares→same s.service g.service, Shares→same s.node g.node)

  refuted :
      (s : SpanRef) (g : SignalRef F) (w : ℕ) (t : Tier) → holds s g w t ≡ false → ¬ Holds s g w t
  refuted s g w t n h = cc (Holds→holds s g w t h, n)

module _ {F : Type 0} ⦃d : Float64 F⦄ where
  abbrev pub decision_of : Tier → Decision F
  decision_of t = decide_tier (confidence t) (name t)

  -- The decision of the first tier in the order of the code that holds.
  first_of_tiers : SpanRef → SignalRef F → ℕ → Decision F
  first_of_tiers s g w =
      if holds s g w trace_id_exact
      then decision_of trace_id_exact
      else if holds s g w pod_pid
      then decision_of pod_pid
      else if holds s g w pod_conn
      then decision_of pod_conn
      else if holds s g w service_node
      then decision_of service_node
      else unmatched

  -- A decision is the one of the most confident tier that holds, or none holds and nothing matches.
  abbrev pub IsBest : SpanRef → SignalRef F → ℕ → Decision F → Type 0
  IsBest s g w r =
      ((t : Tier) × (r ≡ decision_of t)
        × Holds s g w t
        × ((t' : Tier) → Holds s g w t' → confidence t' ≤ confidence t))
      ⊎ ((r ≡ unmatched) × ((t : Tier) → ¬ Holds s g w t))

  first_of_tiers-IsBest :
      (s : SpanRef) (g : SignalRef F) (w : ℕ) → IsBest s g w (first_of_tiers s g w)
  unfolding first_of_tiers
  first_of_tiers-IsBest s g w = elim (Bool-cases (holds s g w trace_id_exact)) [
    | inl h ↦ rw h (
        inl (
          trace_id_exact,
          refl,
          holds→Holds s g w _ h,
          elim [
            | trace_id_exact ↦ λ _. omega arith
            | pod_pid ↦ λ _. omega arith
            | pod_conn ↦ λ _. omega arith
            | service_node ↦ λ _. omega arith
          ],
        ))
    | inr n₁ ↦ elim (Bool-cases (holds s g w pod_pid)) [
      | inl h ↦
          rw (n₁, h)
            (inl (
              pod_pid,
              refl,
              holds→Holds s g w _ h,
              elim [
                | trace_id_exact ↦ λ x. absurd (refuted s g w _ n₁ x)
                | pod_pid ↦ λ _. omega arith
                | pod_conn ↦ λ _. omega arith
                | service_node ↦ λ _. omega arith
              ],
            ))
      | inr n₂ ↦ elim (Bool-cases (holds s g w pod_conn)) [
        | inl h ↦
            rw (n₁, n₂, h)
              (inl (
                pod_conn,
                refl,
                holds→Holds s g w _ h,
                elim [
                  | trace_id_exact ↦ λ x. absurd (refuted s g w _ n₁ x)
                  | pod_pid ↦ λ x. absurd (refuted s g w _ n₂ x)
                  | pod_conn ↦ λ _. omega arith
                  | service_node ↦ λ _. omega arith
                ],
              ))
        | inr n₃ ↦ elim (Bool-cases (holds s g w service_node)) [
          | inl h ↦
              rw (n₁, n₂, n₃, h)
                (inl (
                  service_node,
                  refl,
                  holds→Holds s g w _ h,
                  elim [
                    | trace_id_exact ↦ λ x. absurd (refuted s g w _ n₁ x)
                    | pod_pid ↦ λ x. absurd (refuted s g w _ n₂ x)
                    | pod_conn ↦ λ x. absurd (refuted s g w _ n₃ x)
                    | service_node ↦ λ _. omega arith
                  ],
                ))
          | inr n₄ ↦
              rw (n₁, n₂, n₃, n₄)
                (inr (
                  refl,
                  elim [
                    | trace_id_exact ↦ refuted s g w _ n₁
                    | pod_pid ↦ refuted s g w _ n₂
                    | pod_conn ↦ refuted s g w _ n₃
                    | service_node ↦ refuted s g w _ n₄
                  ],
                ))
        ]
      ]
    ]
  ]

  first_of_tiers_widen :
      (s : SpanRef) (g : SignalRef F) (w v : ℕ)
      → w ≤ v
      → (first_of_tiers s g w).matched ≡ true
      → first_of_tiers s g v ≡ first_of_tiers s g w
  unfolding first_of_tiers holds near_test
  first_of_tiers_widen s g w v le m = ground arith

  module _ (laws : IsIeee d) where
    -- The float comparison is the one of the integers.
    within_window_lem :
        (a b : Time) (w : ℕ) → w < 2 ^ 53 → within_window F a b (pos w) ≡ near_test a b w
    unfolding within_window near_test
    within_window_lem a b w h =
        rw (laws.le_abs_of_int (sub a b) w h, sub_distance a b w (omega arith))

    -- The match of a pair that is near enough, and of one that is not.
    match_near :
        (s : SpanRef) (g : SignalRef F) (window : Duration) (w : ℕ)
        → effective_window window ≡ pos w
        → w < 2 ^ 53
        → near_test s.timestamp g.timestamp w ≡ true
        → match s g window ≡ first_of_tiers s g w
    unfolding match first_of_tiers holds tier_test
    match_near s g window w e h n =
        let reach = near_reach s.timestamp g.timestamp w in
        rw
          (
            e,
            within_window_lem s.timestamp g.timestamp w h,
            within_window_lem s.timestamp g.timestamp (100 * millisecond) (omega arith),
            within_window_lem s.timestamp g.timestamp (250 * millisecond) (omega arith),
            within_window_lem s.timestamp g.timestamp (500 * millisecond) (omega arith),
            n,
            reach (100 * millisecond) n,
            reach (250 * millisecond) n,
            reach (500 * millisecond) n,
          )
          refl

    match_far :
        (s : SpanRef) (g : SignalRef F) (window : Duration) (w : ℕ)
        → effective_window window ≡ pos w
        → w < 2 ^ 53
        → near_test s.timestamp g.timestamp w ≡ false
        → match s g window ≡ first_of_tiers s g w
    unfolding match first_of_tiers holds
    match_far s g window w e h n = rw (e, within_window_lem s.timestamp g.timestamp w h, n) refl

    match-first :
        (s : SpanRef) (g : SignalRef F) (window : Duration) (w : ℕ)
        → effective_window window ≡ pos w
        → w < 2 ^ 53
        → match s g window ≡ first_of_tiers s g w
    match-first s g window w e h = elim (Bool-cases (near_test s.timestamp g.timestamp w)) [
      | inl n ↦ match_near s g window w e h n
      | inr n ↦ match_far s g window w e h n
    ]

    -- For floats that compare as IEEE 754 says and a window below 2^53 nanoseconds (104 days), `Match`
    -- returns the most confident tier that holds for the pair, and no match if none holds. A window
    -- that is not positive counts as 2 s.
    pub match-IsBest :
        (s : SpanRef) (g : SignalRef F) (window : Duration) (w : ℕ)
        → effective_window window ≡ pos w
        → w < 2 ^ 53
        → IsBest s g w (match s g window)
    match-IsBest s g window w e h = rw (match-first s g window w e h) (first_of_tiers-IsBest s g w)

    -- For floats that compare as IEEE 754 says, a wider window below 2^53 nanoseconds keeps every
    -- match that a positive narrower one makes, with its tier and confidence.
    pub match_widen :
        (s : SpanRef) (g : SignalRef F) (w v : ℕ)
        → 0 < w
        → w ≤ v
        → v < 2 ^ 53
        → (match s g (pos w)).matched ≡ true
        → match s g (pos v) ≡ match s g (pos w)
    match_widen s g w v p le h m =
        rw
          (
            match-first s g (pos v) v (ground arith) h,
            match-first s g (pos w) w (ground arith) (omega arith),
          )
          (wider (rw (match-first s g (pos w) w (ground arith) (omega arith)) at m))
      where
        wider : (first_of_tiers s g w).matched ≡ true → first_of_tiers s g v ≡ first_of_tiers s g w
        wider m' = first_of_tiers_widen s g w v le m'
