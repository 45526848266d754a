-- ===== src/ToolkitConfig/Normal.antt =====
-- What the normalization of pkg/toolkitcfg/config.go leaves.
use llm_slo_e_bpf_toolkit.Prelude.{◌≡◌, refl, String, List, arith}
use llm_slo_e_bpf_toolkit.Prelude.Int.{ℤ}
use llm_slo_e_bpf_toolkit.Prelude.Float64.{Float64, IsIeee}
use llm_slo_e_bpf_toolkit.ToolkitConfig.{
  ToolkitConfig, or_names, or_text, or_count, or_number, normalize, default_config,
}

or_text-again : (s t : String) → or_text (or_text s t) t ≡ or_text s t
or_text-again s t = ground arith

or_count-again : (n k : ℤ) → or_count (or_count n k) k ≡ or_count n k
or_count-again n k = ground arith

or_names-again : (xs ys : List String) → or_names (or_names xs ys) ys ≡ or_names xs ys
or_names-again xs ys = ground arith

module _ {F : Type 0} ⦃d : Float64 F⦄ where
  or_number-again : (x y : F) → or_number (or_number x y) y ≡ or_number x y
  or_number-again x y = ground arith

  -- Normalizing a configuration that is normal changes nothing.
  pub normalize-again : (cfg : ToolkitConfig F) → normalize (normalize cfg) ≡ normalize cfg
  unfolding normalize
  normalize-again cfg = simp (or_text-again, or_count-again, or_names-again, or_number-again)

  -- The default configuration is normal, for floats that compare as IEEE 754 says.
  pub normalize-default_config : IsIeee d → normalize {F = F} default_config ≡ default_config
  unfolding normalize default_config
  normalize-default_config laws =
      rw
        (
          laws.le_milli 5000 0 (omega arith) (omega arith),
          laws.le_milli 800_000 0 (omega arith) (omega arith),
          laws.le_milli 50 0 (omega arith) (omega arith),
          laws.le_milli 2000 0 (omega arith) (omega arith),
        )
        refl
