-- ===== src/Correlation/RetryStorm/Window.antt =====
-- The detector of pkg/correlation/retry_storm.go against the log of the events it was told of:
-- while time does not go backwards, a pod's count is the number of its events in the window.
use llm_slo_e_bpf_toolkit.Prelude.{
  ℕ, ◌≤◌, ◌≡◌, refl, ◌∙◌, not, ◌&&◌, String, str_eq, List, [], ◌∷◌, ◌++◌, length, filter, count_if,
  All, Bool-cases, inl, inr, if◌then◌else◌, arith,
}
use llm_slo_e_bpf_toolkit.Prelude.Int.{pos, ◌-ℤ◌, ◌≤ℤ◌, -ℤ_parts}
use llm_slo_e_bpf_toolkit.Prelude.Time.{Time, before, add-neg}
use llm_slo_e_bpf_toolkit.Correlation.RetryStorm.{
  Call, records, asks_storm, asks_count, resets, skip_old, prune_old,
}

-- The events since the last reset, oldest first.
abbrev pub observe : List (String × Time) → Call → List (String × Time)
observe log (records pod ts) = log ++ ((pod, ts) ∷ [])
observe log (asks_storm pod now) = log
observe log (asks_count pod now) = log
observe log resets = []

abbrev pub observe_all : List (String × Time) → List Call → List (String × Time)
observe_all log [] = log
observe_all log (c ∷ cs) = observe_all (observe log c) cs

-- How many of a pod's events are not older than `w` nanoseconds.
abbrev pub in_window : ℕ → String → Time → List (String × Time) → ℕ
in_window w pod now = count_if (λ e. str_eq e.0 pod && not (before e.1 (now -ℤ pos w)))

-- The instants of the calls do not go backwards, from `start` up to `now`.
abbrev pub InOrder : Time → List Call → Time → Type 0
InOrder start [] now = start ≤ℤ now
InOrder start (records pod ts ∷ cs) now = (start ≤ℤ ts) × InOrder ts cs now
InOrder start (asks_storm pod ts ∷ cs) now = (start ≤ℤ ts) × InOrder ts cs now
InOrder start (asks_count pod ts ∷ cs) now = (start ≤ℤ ts) × InOrder ts cs now
InOrder start (resets ∷ cs) now = InOrder start cs now

-- The events that are not before a cutoff, wherever they stand.
abbrev pub keep : Time → List Time → List Time
keep c = filter (λ e. not (before e c))

abbrev pub times_of : String → List (String × Time) → List Time
times_of pod [] = []
times_of pod (e ∷ log) = let rest = times_of pod log in if str_eq e.0 pod then e.1 ∷ rest else rest

abbrev pub Ascending : List Time → Type 0
Ascending [] = Unit
Ascending (x ∷ xs) = All (λ y. x ≤ℤ y) xs × Ascending xs

keep-All : (c : Time) (xs : List Time) → All (λ y. c ≤ℤ y) xs → keep c xs ≡ xs
keep-All c [] h = refl
keep-All c (x ∷ xs) h = ground (arith, keep-All c xs h.1)

All-le_trans : (b c : Time) (xs : List Time) → b ≤ℤ c → All (λ y. c ≤ℤ y) xs → All (λ y. b ≤ℤ y) xs
All-le_trans b c [] h p = tt
All-le_trans b c (x ∷ xs) h (p, ps) = (omega arith, All-le_trans b c xs h ps)

-- On events in order the loop of `pruneOld` drops just the old ones.
skip_old-eq-keep : (c : Time) (xs : List Time) → Ascending xs → skip_old c xs ≡ keep c xs
unfolding skip_old
skip_old-eq-keep c [] a = refl
skip_old-eq-keep c (x ∷ xs) (a, as') = elim (Bool-cases (before x c)) [
  | inl old ↦ rw (old, skip_old-eq-keep c xs as')
  | inr new ↦ rw (new, keep-All c xs (All-le_trans c x xs (ground arith) a))
]

keep-keep : (b c : Time) (xs : List Time) → b ≤ℤ c → keep c (keep b xs) ≡ keep c xs
keep-keep b c [] h = refl
keep-keep b c (x ∷ xs) h = ground (arith, keep-keep b c xs h)

keep-append : (c : Time) (xs ys : List Time) → keep c (xs ++ ys) ≡ keep c xs ++ keep c ys
keep-append c [] ys = refl
keep-append c (x ∷ xs) ys = ground (arith, keep-append c xs ys)

All-keep : (P : Time → Type 0) (c : Time) (xs : List Time) → All P xs → All P (keep c xs)
All-keep P c [] h = tt
All-keep P c (x ∷ xs) (p, ps) = ground (arith, All-keep P c xs ps)

keep-Ascending : (c : Time) (xs : List Time) → Ascending xs → Ascending (keep c xs)
keep-Ascending c [] a = tt
keep-Ascending c (x ∷ xs) (a, as') =
    ground (arith, keep-Ascending c xs as', All-keep (λ y. x ≤ℤ y) c xs a)

All-snoc : (P : Time → Type 0) (xs : List Time) (t : Time) → All P xs → P t → All P (xs ++ (t ∷ []))
All-snoc P [] t h p = (p, tt)
All-snoc P (x ∷ xs) t (q, qs) p = (q, All-snoc P xs t qs p)

snoc-Ascending :
    (xs : List Time) (t : Time) → Ascending xs → All (λ y. y ≤ℤ t) xs → Ascending (xs ++ (t ∷ []))
snoc-Ascending [] t a h = (tt, tt)
snoc-Ascending (x ∷ xs) t (a, as') (h, hs) =
    (All-snoc (λ y. x ≤ℤ y) xs t a h, snoc-Ascending xs t as' hs)

All-le_later : (b c : Time) (xs : List Time) → b ≤ℤ c → All (λ y. y ≤ℤ b) xs → All (λ y. y ≤ℤ c) xs
All-le_later b c [] h p = tt
All-le_later b c (x ∷ xs) h (p, ps) = (omega arith, All-le_later b c xs h ps)

pub times_of-append :
    (pod : String) (l m : List (String × Time))
    → times_of pod (l ++ m) ≡ times_of pod l ++ times_of pod m
times_of-append pod [] m = refl
times_of-append pod (e ∷ l) m = ground (arith, times_of-append pod l m)

pub length-keep :
    (w : ℕ) (pod : String) (now : Time) (log : List (String × Time))
    → length (keep (now -ℤ pos w) (times_of pod log)) ≡ in_window w pod now log
length-keep w pod now [] = refl
length-keep w pod now (e ∷ log) = ground (arith, length-keep w pod now log)

-- The bucket of a pod stands for the pod's events: at every later cutoff they agree.
pub record Stands (w : ℕ) (last : Time) (xs ys : List Time) : Type 0 where
  pub ascending : Ascending xs
  pub bounded : All (λ y. y ≤ℤ last) xs
  pub agrees : (c : Time) → last -ℤ pos w ≤ℤ c → keep c xs ≡ keep c ys

cutoff_mono : (w : ℕ) (a b : Time) → a ≤ℤ b → a -ℤ pos w ≤ℤ b -ℤ pos w
cutoff_mono w a b h = omega (arith, -ℤ_parts)

pub later-Stands :
    (w : ℕ) (last now : Time) (xs ys : List Time)
    → last ≤ℤ now
    → Stands w last xs ys
    → Stands w now xs ys
later-Stands w last now xs ys h s = record {
  ascending = s.ascending;
  bounded = All-le_later last now xs h s.bounded;
  agrees = λ c p. s.agrees c (omega (arith, cutoff_mono w last now h));
}

-- Pruning at the last instant changes nothing that a later cutoff would keep.
pub pruned-Stands :
    (w : ℕ) (now : Time) (xs ys : List Time)
    → w ≤ 9223372036854775807
    → Stands w now xs ys
    → Stands w now (prune_old xs now (pos w)) ys
unfolding prune_old
pruned-Stands w now xs ys small s =
    rw (add-neg now w small, skip_old-eq-keep (now -ℤ pos w) xs s.ascending)
      record {
        ascending = keep-Ascending (now -ℤ pos w) xs s.ascending;
        bounded = All-keep (λ y. y ≤ℤ now) (now -ℤ pos w) xs s.bounded;
        agrees = λ c p. keep-keep (now -ℤ pos w) c xs p ∙ s.agrees c p;
      }

pub snoc-Stands :
    (w : ℕ) (now : Time) (xs ys : List Time)
    → Stands w now xs ys
    → Stands w now (xs ++ (now ∷ [])) (ys ++ (now ∷ []))
snoc-Stands w now xs ys s = record {
  ascending = snoc-Ascending xs now s.ascending s.bounded;
  bounded = All-snoc (λ y. y ≤ℤ now) xs now s.bounded (omega arith);
  agrees = λ c p. rw (keep-append c xs (now ∷ []), keep-append c ys (now ∷ []), s.agrees c p);
}

-- What a query at `now` finds in the bucket is the number of logged events in the window.
pub length-prune_old :
    (w : ℕ) (last now : Time) (xs : List Time) (pod : String) (log : List (String × Time))
    → w ≤ 9223372036854775807
    → last ≤ℤ now
    → Stands w last xs (times_of pod log)
    → length (prune_old xs now (pos w)) ≡ in_window w pod now log
unfolding prune_old
length-prune_old w last now xs pod log small h s =
    rw
      (
        add-neg now w small,
        skip_old-eq-keep (now -ℤ pos w) xs s.ascending,
        s.agrees (now -ℤ pos w) (cutoff_mono w last now h),
      )
      (length-keep w pod now log)
