-- ===== src/Correlation/RetryStorm.antt =====
-- pkg/correlation/retry_storm.go. Every method holds the mutex throughout, so a history is a
-- sequence of calls. A map entry that is missing and an empty bucket read alike.
pub mod Window
pub mod History
use llm_slo_e_bpf_toolkit.Prelude.{
  ℕ, Bool, true, false, String, List, [], ◌∷◌, ◌++◌, Option, none, some, length, lookup, insert,
  if◌then◌else◌,
}
use llm_slo_e_bpf_toolkit.Prelude.Int.{ℤ, pos, leb_ℤ}
use llm_slo_e_bpf_toolkit.Prelude.Time.{Time, Duration, before, add, neg}

abbrev pub default_storm_window : Duration
default_storm_window = pos 10_000_000_000

abbrev pub default_storm_threshold : ℤ
default_storm_threshold = pos 5

pub record RetryStormDetector : Type 0 where
  pub window : Duration
  pub threshold : ℤ
  pub buckets : List (String × List Time)

unfoldable pub new_retry_storm_detector : Duration → ℤ → RetryStormDetector
new_retry_storm_detector window threshold = record {
  window = window;
  threshold = threshold;
  buckets = [];
}

-- The loop of `pruneOld` skips events from the front while they are before the cutoff.
skip_old : Time → List Time → List Time
skip_old cutoff [] = []
skip_old cutoff (e ∷ es) = let rest = skip_old cutoff es in if before e cutoff then rest else e ∷ es

unfoldable pub prune_old : List Time → Time → Duration → List Time
unfolding skip_old
prune_old events now window = skip_old (add now (neg window)) events

abbrev pub or_no_events : Option (List Time) → List Time
or_no_events none = []
or_no_events (some es) = es

unfoldable pub bucket : RetryStormDetector → String → List Time
bucket s pod = or_no_events (lookup pod s.buckets)

unfoldable pub record_event : RetryStormDetector → String → Time → RetryStormDetector × Bool
record_event s pod ts =
    let events = prune_old (bucket s pod ++ (ts ∷ [])) ts s.window in
    (record s { buckets = insert pod events s.buckets }, leb_ℤ s.threshold (pos (length events)))

-- What `IsStorm` and `Count` do to the state: prune the pod's bucket, if it has one.
refresh : RetryStormDetector → String → Time → Option (List Time) → RetryStormDetector × List Time
refresh s pod now none = (s, [])
refresh s pod now (some es) =
    let events = prune_old es now s.window in
    (record s { buckets = insert pod events s.buckets }, events)

abbrev has_bucket : Option (List Time) → Bool
has_bucket none = false
has_bucket (some es) = true

unfoldable pub is_storm : RetryStormDetector → String → Time → RetryStormDetector × Bool
unfolding refresh
is_storm s pod now =
    let (s', events) = refresh s pod now (lookup pod s.buckets) in
    (
      s',
      if has_bucket (lookup pod s.buckets) then leb_ℤ s.threshold (pos (length events)) else false,
    )

unfoldable pub count : RetryStormDetector → String → Time → RetryStormDetector × ℕ
unfolding refresh
count s pod now = let (s', events) = refresh s pod now (lookup pod s.buckets) in (s', length events)

unfoldable pub reset : RetryStormDetector → RetryStormDetector
reset s = record s { buckets = [] }

-- One call of a method, as far as it changes the state.
pub data Call : Type 0 where
  records : String → Time → Call
  asks_storm : String → Time → Call
  asks_count : String → Time → Call
  resets : Call

unfoldable pub step : RetryStormDetector → Call → RetryStormDetector
unfolding record_event is_storm count reset
step s (records pod ts) = (record_event s pod ts).0
step s (asks_storm pod now) = (is_storm s pod now).0
step s (asks_count pod now) = (count s pod now).0
step s resets = reset s

unfoldable pub run : RetryStormDetector → List Call → RetryStormDetector
unfolding step
run s [] = s
run s (c ∷ cs) = run (step s c) cs
