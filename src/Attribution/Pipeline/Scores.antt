-- ===== src/Attribution/Pipeline/Scores.antt =====
-- The scores of pkg/attribution/pipeline.go against the list of pairs that they compare.
use Prim.Native.Nat.{min}
use llm_slo_e_bpf_toolkit.Prelude.{
  ℕ, ◌+◌, ◌≤◌, ◌≡◌, refl, Bool, true, false, ◌||◌, str_eq, eq_iff, List, [], ◌∷◌, length, contains,
  count_if, All, Bool-cases, inl, inr, if◌then◌else◌, arith,
}
use llm_slo_e_bpf_toolkit.Prelude.Float64.{Float64}
use llm_slo_e_bpf_toolkit.Schema.{IncidentAttribution}
use llm_slo_e_bpf_toolkit.Attribution.Mapper.{FaultSample}
use llm_slo_e_bpf_toolkit.Attribution.Pipeline.{
  MatrixKey, key_eq, increment, cell, actual_domain, confusion_from, build_confusion_matrix,
  count_correct, expected_set, count_partial, accuracy, partial_accuracy,
}

module _ {F : Type 0} where
  -- The actual and the predicted domain of each sample that has a prediction.
  abbrev pub pairs : List (FaultSample F) → List (IncidentAttribution F) → List MatrixKey
  pairs samples [] = []
  pairs [] (p ∷ ps) = []
  pairs (s ∷ ss) (p ∷ ps) = (actual_domain s, p.predicted_fault_domain) ∷ pairs ss ps

-- The sum of all counts, and of those on the diagonal.
abbrev pub total : List (MatrixKey × ℕ) → ℕ
total [] = 0
total (e ∷ rest) = e.1 + total rest

abbrev pub diagonal : List (MatrixKey × ℕ) → ℕ
diagonal [] = 0
diagonal (e ∷ rest) = (if str_eq e.0.0 e.0.1 then e.1 else 0) + diagonal rest

or-false : (b : Bool) → (b || false) ≡ b
or-false b = ground arith

cell-increment :
    (key k : MatrixKey) (m : List (MatrixKey × ℕ))
    → cell k (increment key m) ≡ cell k m + (if key_eq key k then 1 else 0)
unfolding cell increment
cell-increment key k [] = ground arith
cell-increment key k (e ∷ rest) = ground (
  arith,
  cell-increment key k rest,
  eq_iff e.0.0 key.0,
  eq_iff e.0.1 key.1,
  eq_iff e.0.0 k.0,
  eq_iff e.0.1 k.1,
  eq_iff key.0 k.0,
  eq_iff key.1 k.1,
)

total-increment :
    (key : MatrixKey) (m : List (MatrixKey × ℕ)) → total (increment key m) ≡ total m + 1
unfolding increment
total-increment key [] = omega arith
total-increment key (e ∷ rest) = ground (arith, total-increment key rest)

diagonal-increment :
    (key : MatrixKey) (m : List (MatrixKey × ℕ))
    → diagonal (increment key m) ≡ diagonal m + (if str_eq key.0 key.1 then 1 else 0)
unfolding increment
diagonal-increment key [] = ground arith
diagonal-increment key (e ∷ rest) = ground (
  arith,
  diagonal-increment key rest,
  eq_iff e.0.0 key.0,
  eq_iff e.0.1 key.1,
  eq_iff e.0.0 e.0.1,
  eq_iff key.0 key.1,
)

module _ {F : Type 0} where
  confusion_from-counts :
      (m : List (MatrixKey × ℕ)) (ss : List (FaultSample F)) (ps : List (IncidentAttribution F))
      (k : MatrixKey)
      → let m' = confusion_from m ss ps in
        (cell k m' ≡ cell k m + count_if (λ e. key_eq e k) (pairs ss ps))
        × (total m' ≡ total m + min (length ss) (length ps))
        × (diagonal m' ≡ diagonal m + count_if (λ e. str_eq e.0 e.1) (pairs ss ps))
  unfolding confusion_from
  confusion_from-counts m ss [] k = omega arith
  confusion_from-counts m [] (p ∷ ps) k = omega arith
  confusion_from-counts m (s ∷ ss) (p ∷ ps) k =
      let key : MatrixKey = (actual_domain s, p.predicted_fault_domain) in
      ground (
        arith,
        confusion_from-counts (increment key m) ss ps k,
        cell-increment key k m,
        total-increment key m,
        diagonal-increment key m,
      )

  count_correct_lem :
      (n : ℕ) (ss : List (FaultSample F)) (ps : List (IncidentAttribution F))
      → count_correct n ss ps ≡ n + count_if (λ e. str_eq e.0 e.1) (pairs ss ps)
  unfolding count_correct
  count_correct_lem n ss [] = omega arith
  count_correct_lem n [] (p ∷ ps) = omega arith
  count_correct_lem n (s ∷ ss) (p ∷ ps) =
      elim (Bool-cases (str_eq (actual_domain s) p.predicted_fault_domain)) [
        | inl e ↦ rw e (omega (arith, count_correct_lem (n + 1) ss ps))
        | inr e ↦ rw e (count_correct_lem n ss ps)
      ]

  -- Each cell of the matrix counts the samples with its actual and predicted domain, the cells
  -- together count the samples that have a prediction, and those on the diagonal count the correct
  -- predictions of `Accuracy`.
  pub build_confusion_matrix-counts :
      (samples : List (FaultSample F)) (predictions : List (IncidentAttribution F))
      (key : MatrixKey)
      → let matrix = build_confusion_matrix samples predictions in
        (cell key matrix ≡ count_if (λ e. key_eq e key) (pairs samples predictions))
        × (total matrix ≡ min (length samples) (length predictions))
        × (diagonal matrix ≡ count_correct 0 samples predictions)
  unfolding build_confusion_matrix cell
  build_confusion_matrix-counts samples predictions key = omega (
    arith,
    confusion_from-counts [] samples predictions key,
    count_correct_lem 0 samples predictions,
  )

  -- The expected domain of a sample is among its expected domains, if it has some.
  abbrev pub IsConsistent : FaultSample F → Type 0
  IsConsistent s = contains (actual_domain s) (expected_set s) ≡ true

  count_partial-bounds :
      (n k : ℕ) (ss : List (FaultSample F)) (ps : List (IncidentAttribution F))
      → All IsConsistent ss
      → n ≤ k
      → (count_correct n ss ps ≤ count_partial k ss ps)
        × (count_partial k ss ps ≤ k + min (length ss) (length ps))
  unfolding count_correct count_partial
  count_partial-bounds n k ss [] c h = omega arith
  count_partial-bounds n k [] (p ∷ ps) c h = omega arith
  count_partial-bounds n k (s ∷ ss) (p ∷ ps) (c, cs) h =
      let right = str_eq (actual_domain s) p.predicted_fault_domain in
      let credited = contains p.predicted_fault_domain (expected_set s) in
      elim (Bool-cases right) [
        | inl r ↦
            let same = (eq_iff (actual_domain s) p.predicted_fault_domain).0 r in
            rw (r, ← same, c)
              (omega (arith, count_partial-bounds (n + 1) (k + 1) ss ps cs (omega arith)))
        | inr w ↦ elim (Bool-cases credited) [
          | inl e ↦ rw (w, e) (omega (arith, count_partial-bounds n (k + 1) ss ps cs (omega arith)))
          | inr e ↦ rw (w, e) (omega (arith, count_partial-bounds n k ss ps cs h))
        ]
      ]

  -- `PartialAccuracy` credits at least the predictions that `Accuracy` counts, and at most one for
  -- each sample with a prediction, if the expected domain of each sample is among its expected
  -- domains or it has none of these.
  pub count_correct-le-partial :
      (samples : List (FaultSample F)) (predictions : List (IncidentAttribution F))
      → All IsConsistent samples
      → (count_correct 0 samples predictions ≤ count_partial 0 samples predictions)
        × (count_partial 0 samples predictions ≤ min (length samples) (length predictions))
  count_correct-le-partial samples predictions c =
      omega (arith, count_partial-bounds 0 0 samples predictions c)

  -- The sample has one expected domain at most, which is then the expected one.
  abbrev pub IsSingle : FaultSample F → Type 0
  IsSingle s = expected_set s ≡ actual_domain s ∷ []

  count_partial_single :
      (n : ℕ) (ss : List (FaultSample F)) (ps : List (IncidentAttribution F))
      → All IsSingle ss
      → count_partial n ss ps ≡ count_correct n ss ps
  unfolding count_partial count_correct
  count_partial_single n ss [] c = refl
  count_partial_single n [] (p ∷ ps) c = refl
  count_partial_single n (s ∷ ss) (p ∷ ps) (c, cs) =
      let hit = str_eq (actual_domain s) p.predicted_fault_domain in
      rw (c, or-false hit) (count_partial_single (if hit then n + 1 else n) ss ps cs)

module _ {F : Type 0} ⦃d : Float64 F⦄ where
  -- For samples whose expected domains are their expected domain alone, or that have none,
  -- `PartialAccuracy` is `Accuracy`.
  pub partial_accuracy-single :
      (samples : List (FaultSample F)) (predictions : List (IncidentAttribution F))
      → All IsSingle samples
      → partial_accuracy samples predictions ≡ accuracy samples predictions
  unfolding partial_accuracy accuracy
  partial_accuracy-single samples predictions c = rw (count_partial_single 0 samples predictions c)
