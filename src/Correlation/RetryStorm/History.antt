-- ===== src/Correlation/RetryStorm/History.antt =====
-- The answers of the detector of pkg/correlation/retry_storm.go after any history of calls.
use mathlib.Core.List.{append-nil}
use mathlib.Core.Path.{ap₂}
use llm_slo_e_bpf_toolkit.Prelude.{
  ℕ, ◌≤◌, ◌≡◌, refl, sym, ap, ◌∙◌, true, false, String, str_eq, eq_iff, List, [], ◌∷◌, ◌++◌, Option,
  none, some, length, lookup, lookup-insert, Bool-cases, inl, inr, if◌then◌else◌, arith, ◌⊎◌,
  str_eq_refl,
}
use llm_slo_e_bpf_toolkit.Prelude.Int.{ℤ, pos, ◌≤ℤ◌, leb_ℤ}
use llm_slo_e_bpf_toolkit.Prelude.Time.{Time}
use llm_slo_e_bpf_toolkit.Correlation.RetryStorm.{
  RetryStormDetector, Call, records, asks_storm, asks_count, resets, new_retry_storm_detector,
  prune_old, bucket, or_no_events, has_bucket, record_event, refresh, is_storm, count, reset, step,
  run,
}
use llm_slo_e_bpf_toolkit.Correlation.RetryStorm.Window.{
  observe_all, in_window, InOrder, times_of, Stands, later-Stands, pruned-Stands, snoc-Stands,
  length-prune_old, times_of-append,
}

bucket-record_event :
    (s : RetryStormDetector) (w : ℕ) (p q : String) (ts : Time)
    → s.window ≡ pos w
    → bucket (record_event s p ts).0 q
      ≡ (if str_eq p q then prune_old (bucket s p ++ (ts ∷ [])) ts (pos w) else bucket s q)
unfolding record_event bucket
bucket-record_event s w p q ts e = ground (
  arith,
  lookup-insert p q (prune_old (bucket s p ++ (ts ∷ [])) ts s.window) s.buckets,
  ap (prune_old (bucket s p ++ (ts ∷ [])) ts) e,
)

prune_old_nil : (now : Time) (w : ℕ) → prune_old [] now (pos w) ≡ []
unfolding prune_old
prune_old_nil now w = refl

bucket-refresh :
    (s : RetryStormDetector) (w : ℕ) (p q : String) (now : Time) (o : Option (List Time))
    → s.window ≡ pos w
    → lookup p s.buckets ≡ o
    → bucket (refresh s p now o).0 q
      ≡ (if str_eq p q then prune_old (bucket s p) now (pos w) else bucket s q)
unfolding bucket refresh
bucket-refresh s w p q now none e h = elim (Bool-cases (str_eq p q)) [
  | inl same ↦ rw (same, ← (eq_iff p q).0 same, h, prune_old_nil now w) refl
  | inr other ↦ rw other refl
]
bucket-refresh s w p q now (some es) e h =
    ground (arith, lookup-insert p q (prune_old es now s.window) s.buckets, ap (prune_old es now) e)

-- After the calls so far, each bucket stands for the logged events of its pod.
record Tracks (w : ℕ) (threshold : ℤ) (s : RetryStormDetector) (log : List (String × Time))
    (last : Time) : Type 0 where
  window_eq : s.window ≡ pos w
  threshold_eq : s.threshold ≡ threshold
  stands : (pod : String) → Stands w last (bucket s pod) (times_of pod log)

module _ (w : ℕ) (threshold : ℤ) (small : w ≤ 9223372036854775807) where
  record_event-Tracks :
      (s : RetryStormDetector) (log : List (String × Time)) (last ts : Time) (p : String)
      → last ≤ℤ ts
      → Tracks w threshold s log last
      → Tracks w threshold (record_event s p ts).0 (log ++ ((p, ts) ∷ [])) ts
  record_event-Tracks s log last ts p h t = record {
    window_eq = unfold record_event in t.window_eq;
    threshold_eq = unfold record_event in t.threshold_eq;
    stands = λ q.
        rw (bucket-record_event s w p q ts t.window_eq, times_of-append q log ((p, ts) ∷ []))
          (per_pod q (Bool-cases (str_eq p q)));
  }
    where
      per_pod :
          (q : String)
          → (str_eq p q ≡ true) ⊎ (str_eq p q ≡ false)
          → Stands w ts
              (if str_eq p q then prune_old (bucket s p ++ (ts ∷ [])) ts (pos w) else bucket s q)
              (times_of q log ++ (if str_eq p q then ts ∷ [] else []))
      per_pod q (inl e) =
          rw (e, ← (eq_iff p q).0 e)
            (pruned-Stands w ts _ _ small
              (snoc-Stands w ts _ _ (later-Stands w last ts _ _ h (t.stands p))))
      per_pod q (inr e) = rw (e, append-nil) (later-Stands w last ts _ _ h (t.stands q))

  refresh-Tracks :
      (s : RetryStormDetector) (log : List (String × Time)) (last now : Time) (p : String)
      → last ≤ℤ now
      → Tracks w threshold s log last
      → Tracks w threshold (refresh s p now (lookup p s.buckets)).0 log now
  refresh-Tracks s log last now p h t = record {
    window_eq = same_window (lookup p s.buckets);
    threshold_eq = same_threshold (lookup p s.buckets);
    stands = λ q.
        rw (bucket-refresh s w p q now (lookup p s.buckets) t.window_eq refl)
          (per_pod q (Bool-cases (str_eq p q)));
  }
    where
      same_window : (o : Option (List Time)) → (refresh s p now o).0.window ≡ pos w
      same_window none = unfold refresh in t.window_eq
      same_window (some es) = unfold refresh in t.window_eq

      same_threshold : (o : Option (List Time)) → (refresh s p now o).0.threshold ≡ threshold
      same_threshold none = unfold refresh in t.threshold_eq
      same_threshold (some es) = unfold refresh in t.threshold_eq

      per_pod :
          (q : String)
          → (str_eq p q ≡ true) ⊎ (str_eq p q ≡ false)
          → Stands w now
              (if str_eq p q then prune_old (bucket s p) now (pos w) else bucket s q)
              (times_of q log)
      per_pod q (inl e) =
          rw (e, ← (eq_iff p q).0 e)
            (pruned-Stands w now _ _ small (later-Stands w last now _ _ h (t.stands p)))
      per_pod q (inr e) = rw e (later-Stands w last now _ _ h (t.stands q))

  reset-Tracks :
      (s : RetryStormDetector) (log : List (String × Time)) (last : Time)
      → Tracks w threshold s log last
      → Tracks w threshold (reset s) [] last
  unfolding reset bucket lookup
  reset-Tracks s log last t = record {
    window_eq = t.window_eq;
    threshold_eq = t.threshold_eq;
    stands = λ q. record { ascending = tt; bounded = tt; agrees = λ c p. refl };
  }

  -- Where a history of calls in order ends, the detector still stands for the log.
  run-Tracks :
      (cs : List Call) (s : RetryStormDetector) (log : List (String × Time)) (last now : Time)
      → InOrder last cs now
      → Tracks w threshold s log last
      → (end : Time) × (end ≤ℤ now) × Tracks w threshold (run s cs) (observe_all log cs) end
  unfolding run step
  run-Tracks [] s log last now o t = (last, o, t)
  run-Tracks (records p ts ∷ cs) s log last now o t =
      run-Tracks cs _ _ ts now o.1 (record_event-Tracks s log last ts p o.0 t)
  run-Tracks (asks_storm p ts ∷ cs) s log last now o t =
      run-Tracks cs _ log ts now o.1 (unfold is_storm in refresh-Tracks s log last ts p o.0 t)
  run-Tracks (asks_count p ts ∷ cs) s log last now o t =
      run-Tracks cs _ log ts now o.1 (unfold count in refresh-Tracks s log last ts p o.0 t)
  run-Tracks (resets ∷ cs) s log last now o t =
      run-Tracks cs _ [] last now o (reset-Tracks s log last t)

  init-Tracks :
      (start : Time) → Tracks w threshold (new_retry_storm_detector (pos w) threshold) [] start
  unfolding new_retry_storm_detector bucket lookup
  init-Tracks start = record {
    window_eq = refl;
    threshold_eq = refl;
    stands = λ q. record { ascending = tt; bounded = tt; agrees = λ c p. refl };
  }

  length-refresh :
      (s : RetryStormDetector) (pod : String) (now : Time) (o : Option (List Time))
      → s.window ≡ pos w
      → lookup pod s.buckets ≡ o
      → length (refresh s pod now o).1 ≡ length (prune_old (bucket s pod) now (pos w))
  unfolding refresh bucket
  length-refresh s pod now none e h = rw (h, prune_old_nil now w)
  length-refresh s pod now (some es) e h = rw (h, e)

  asked :
      (s : RetryStormDetector) (pod : String) (now : Time) {n : ℕ}
      → s.window ≡ pos w
      → s.threshold ≡ threshold
      → pos 1 ≤ℤ threshold
      → (o : Option (List Time)) → lookup pod s.buckets ≡ o
      → length (prune_old (bucket s pod) now (pos w)) ≡ n
      → (if has_bucket o then leb_ℤ s.threshold (pos (length (refresh s pod now o).1)) else false)
        ≡ leb_ℤ threshold (pos n)
  unfolding bucket refresh
  asked s pod now {n} e f positive none h l =
      let none_left : prune_old (or_no_events (lookup pod s.buckets)) now (pos w) ≡ [] =
        rw h (prune_old_nil now w) in
      let empty : n ≡ 0 = sym l ∙ ap length none_left in ground arith
  asked s pod now {n} e f positive (some es) h l =
      let same : length (prune_old es now s.window) ≡ n = rw e (rw h at l) in rw (same, f)

  recorded :
      (s : RetryStormDetector) (log : List (String × Time)) (pod : String) (end now : Time)
      → end ≤ℤ now
      → Tracks w threshold s log end
      → leb_ℤ s.threshold (pos (length (prune_old (bucket s pod ++ (now ∷ [])) now s.window)))
        ≡ leb_ℤ threshold (pos (in_window w pod now (log ++ ((pod, now) ∷ []))))
  recorded s log pod end now early t =
      ap₂ (λ a n. leb_ℤ a (pos n)) t.threshold_eq
        (ap (λ v. length (prune_old (bucket s pod ++ (now ∷ [])) now v)) t.window_eq
          ∙ length-prune_old w now now _ pod (log ++ ((pod, now) ∷ [])) small (omega arith) stands)
    where
      stands : Stands w now (bucket s pod ++ (now ∷ [])) (times_of pod (log ++ ((pod, now) ∷ [])))
      stands =
          rw (times_of-append pod log ((pod, now) ∷ []), str_eq_refl pod)
            (snoc-Stands w now _ _ (later-Stands w end now _ _ early (t.stands pod)))

  module _ (cs : List Call) (pod : String) (start now : Time) (ordered : InOrder start cs now) where
    -- For a window from 0 up to the largest duration, after any calls whose instants do not go
    -- backwards, `Count` returns how many of the pod's events recorded since the last reset are at most
    -- the window old. Other pods, and the queries made on the way, change nothing.
    pub count-eq-in_window :
        (count (run (new_retry_storm_detector (pos w) threshold) cs) pod now).1
        ≡ in_window w pod now (observe_all [] cs)
    unfolding count
    count-eq-in_window =
        let s = run (new_retry_storm_detector (pos w) threshold) cs in
        let (end, early, t) = run-Tracks cs _ [] start now ordered (init-Tracks start) in
        length-refresh s pod now (lookup pod s.buckets) t.window_eq refl
        ∙ length-prune_old w end now (bucket s pod) pod (observe_all [] cs) small early
            (t.stands pod)

    -- For the same windows and calls and a threshold of at least 1, `IsStorm` says whether that many of
    -- the pod's events are in the window, and `Record` says so too, the new event included.
    pub verdicts-eq-in_window :
        pos 1 ≤ℤ threshold
        → let s = run (new_retry_storm_detector (pos w) threshold) cs in
          let log = observe_all [] cs in
          ((is_storm s pod now).1 ≡ leb_ℤ threshold (pos (in_window w pod now log)))
          × ((record_event s pod now).1
              ≡ leb_ℤ threshold (pos (in_window w pod now (log ++ ((pod, now) ∷ [])))))
    unfolding is_storm record_event
    verdicts-eq-in_window positive =
        let s = run (new_retry_storm_detector (pos w) threshold) cs in
        let (end, early, t) = run-Tracks cs _ [] start now ordered (init-Tracks start) in
        (
          asked s pod now t.window_eq t.threshold_eq positive (lookup pod s.buckets) refl (
              length-prune_old w end now (bucket s pod) pod (observe_all [] cs) small early
                (t.stands pod)),
          recorded s (observe_all [] cs) pod end now early t,
        )
