-- ===== src/Cpu/Binary/Linear.antt =====
-- crates/marian-cpu/src/q8_gemm.rs, `Q8Linear::new`: a linear operator is made of parts that fit. The executor
-- of the GEMM library and its packed weights are left out; what is asked of it and of the processor
-- are the parameters `may_saturate` and `has_avx2`.
use marian_edge.Common.{
  ℕ, ℤ, pos, negsuc, Bool, not, ◌&&◌, ◌||◌, List, Option, none, some, leb, ◌==◌, if◌then◌else◌, any,
  length, ok, ◌>>=◌, ◌>>◌, fail_if, ok_or,
}
use marian_edge.Text.{Text}
use marian_edge.Cpu.Binary.{Loaded, invalid_tensor, Floats, checked_mul}
use marian_edge.Cpu.Binary.Parse.{is_i8_min}

pub data Q8ExecutionPath : Type 0 where
  exact_avx2 scalar_saturation_fallback rten : Q8ExecutionPath

pub record Q8Linear (F32 : Type 0) : Type 0 where
  pub name : Text
  pub input_dim : ℕ
  pub output_dim : ℕ
  pub weights : List ℤ
  pub activation_quant_mult : F32
  pub weight_quant_mult : F32
  pub bias : Option (List F32)
  pub execution_path : Q8ExecutionPath

-- `(-64..=63).contains(&value)`.
abbrev fits_seven_bits : ℤ → Bool
fits_seven_bits (pos n) = leb n 63
fits_seven_bits (negsuc n) = leb n 63

module _ (fl : Floats) (may_saturate has_avx2 : Bool) where
  unfoldable pub validate_quant_mult : fl.F32 → Loaded Unit
  validate_quant_mult value =
      fail_if (not (fl.is_finite value) || fl.at_most_zero value) invalid_tensor

  unfoldable pub check_bias : ℕ → Option (List fl.F32) → Loaded Unit
  check_bias output_dim none = ok tt
  check_bias output_dim (some bias) =
      fail_if (not (length bias == output_dim)) invalid_tensor
      >> fail_if (any (λ value. not (fl.is_finite value)) bias) invalid_tensor

  unfoldable pub execution_path_of : List ℤ → Q8ExecutionPath
  execution_path_of weights =
      let needs_saturation_fallback =
        may_saturate && any (λ value. not (fits_seven_bits value)) weights in
      if needs_saturation_fallback && has_avx2
      then exact_avx2
      else if needs_saturation_fallback
      then scalar_saturation_fallback
      else rten

  unfoldable pub new_linear :
      Text → ℕ → ℕ → List ℤ → fl.F32 → fl.F32 → Option (List fl.F32) → Loaded (Q8Linear fl.F32)
  unfolding validate_quant_mult check_bias execution_path_of
  new_linear name input_dim output_dim weights activation weight bias =
      fail_if (input_dim == 0 || output_dim == 0) invalid_tensor >>= λ _.
      ok_or (checked_mul input_dim output_dim) invalid_tensor >>= λ expected.
      fail_if (not (length weights == expected)) invalid_tensor >>= λ _.
      fail_if (any is_i8_min weights) invalid_tensor >>= λ _.
      validate_quant_mult activation >>= λ _. validate_quant_mult weight >>= λ _.
      let combined = fl.multiply activation weight in
      fail_if (not (fl.is_finite combined) || fl.at_most_zero combined) invalid_tensor >>= λ _.
      check_bias output_dim bias >>= λ _. ok (record {
        name = name;
        input_dim = input_dim;
        output_dim = output_dim;
        weights = weights;
        activation_quant_mult = activation;
        weight_quant_mult = weight;
        bias = bias;
        execution_path = execution_path_of weights;
      })
