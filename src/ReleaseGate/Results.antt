-- ===== src/ReleaseGate/Results.antt =====
-- The errors of pkg/releasegate/gate.go, with a constructor for the text of each, and steps that may
-- fail.
use llm_slo_e_bpf_toolkit.Prelude.{◌≡◌, refl, Bool, ◌&&◌, String, List, [], ◌∷◌, arith}

pub data GateError : Type 0 where
  manifest_not_found_out manifest_unreadable manifest_unparsable : String → GateError
  directory_unreadable : String → GateError
  no_run_directories no_candidate_runs no_baseline_runs : String → GateError
  overhead_not_opened overhead_not_read no_data_rows cpu_column_missing : String → GateError
  cpu_not_parsed no_cpu_values no_overhead_values : String → GateError
  samples_not_opened sample_not_parsed scan_failed no_raw_samples : String → GateError
  no_ttft_values no_token_values no_error_values : String → GateError
  ttft_distributions_empty : String → GateError

pub data Result {ℓ} (A : Type ℓ) : Type ℓ where
  ok : A → Result A
  err : GateError → Result A

infixl 5 ◌>>=◌
abbrev pub ◌>>=◌ {ℓ κ} : {A : Type ℓ} {B : Type κ} → Result A → (A → Result B) → Result B
ok a >>= f = f a
err e >>= f = err e

-- An error for a list without elements.
abbrev pub some_of {ℓ} : {A : Type ℓ} → GateError → List A → Result (List A)
some_of e [] = err e
some_of e (x ∷ xs) = ok (x ∷ xs)

-- The parts of a step that succeeds.
pub >>=-eq-ok {ℓ κ} :
    {A : Type ℓ} {B : Type κ} (r : Result A) (f : A → Result B) {b : B}
    → (r >>= f) ≡ ok b
    → (a : A) × (r ≡ ok a) × (f a ≡ ok b)
>>=-eq-ok (ok a) f h = (a, refl, h)
>>=-eq-ok (err e) f h = cc

pub ok-injective {ℓ} : {A : Type ℓ} {a b : A} → Result.ok a ≡ ok b → a ≡ b
ok-injective h = cc

pub and_assoc : (a b c : Bool) → ((a && b) && c) ≡ (a && (b && c))
and_assoc a b c = ground arith
