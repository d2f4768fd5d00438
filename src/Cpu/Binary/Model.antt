-- ===== src/Cpu/Binary/Model.antt =====
-- `MarianBinaryModel`, behind the parser: lookups, the check of the Q8 tensors, embeddings and weights.
use marian_edge.Common.{
  ℕ, ℤ, ◌+◌, ◌-◌, ◌*◌, Bool, true, false, not, ◌&&◌, ◌||◌, List, [], ◌∷◌, ◌++◌, map, Option, none,
  some, leb, ◌==◌, if◌then◌else◌, length, get_elem?, set, take, drop, ok, err, crash, ◌>>=◌,
  fail_if, ok_or, or_crash,
}
use marian_edge.Text.{Text, codes, text_eq}
use marian_edge.Cpu.Binary.{
  invalid_format, missing_tensor, invalid_tensor, Loaded, Floats, MarianTensorData, int8_data,
  float32_data, intgemm8_data, MarianTensor, MarianBinaryModel, get_name,
}
use marian_edge.Cpu.Binary.Linear.{Q8Linear, new_linear}

abbrev pub activation_scale_suffix : Text
activation_scale_suffix = codes "_QuantMultA"

-- `name.strip_suffix(suffix)`.
unfoldable pub strip_suffix : Text → Text → Option Text
unfolding text_eq
strip_suffix name suffix =
    let cut = length name - length suffix in
    if leb (length suffix) (length name) && text_eq (drop cut name) suffix
    then some (take cut name)
    else none

unfoldable pub ends_with : Text → Text → Bool
unfolding strip_suffix
ends_with name suffix = elim (strip_suffix name suffix) [ some stem ↦ true | none ↦ false ]

-- `MarianTensor::elements`: the parser has seen that the product is within the word size.
unfoldable pub elements : List ℕ → ℕ
elements [] = 1
elements (dimension ∷ shape) = dimension * elements shape

-- `shape == [a, b, …]`.
unfoldable pub shape_eq : List ℕ → List ℕ → Bool
shape_eq [] [] = true
shape_eq [] (b ∷ bs) = false
shape_eq (a ∷ rest) [] = false
shape_eq (a ∷ rest) (b ∷ bs) = a == b && shape_eq rest bs

pub record Q8ValidationReport : Type 0 where
  pub dense_linears : ℕ
  pub embeddings : ℕ
  pub activation_scales : ℕ

module _ (fl : Floats) where
  unfoldable pub is_intgemm8 : MarianTensor fl.F32 → Bool
  is_intgemm8 tensor = elim tensor.contents [ intgemm8_data values quant_mult ↦ true | _ ↦ false ]

  unfoldable pub as_float32 : MarianTensor fl.F32 → Loaded (List fl.F32)
  as_float32 tensor = elim tensor.contents [
    | float32_data values ↦ ok values
    | _ ↦ err invalid_tensor
  ]

  unfoldable pub as_intgemm8 : MarianTensor fl.F32 → Loaded (List ℤ × fl.F32)
  as_intgemm8 tensor = elim tensor.contents [
    | intgemm8_data values quant_mult ↦ ok (values, quant_mult)
    | _ ↦ err invalid_tensor
  ]

  -- `MarianBinaryModel::tensor`.
  unfoldable pub find_tensor : MarianBinaryModel fl.F32 → Text → Loaded (MarianTensor fl.F32)
  unfolding get_name
  find_tensor model name = ok_or (get_name model.by_name name) missing_tensor >>= λ index.
      or_crash (get_elem? model.tensors index)

  -- The float that a scale's tensor stands for.
  unfoldable pub scale_of : MarianTensorData fl.F32 → Loaded fl.F32
  scale_of (float32_data values) = or_crash (get_elem? values 0)
  scale_of (intgemm8_data values quant_mult) =
      or_crash (get_elem? values 0) >>= λ value. ok (fl.divide (fl.from_i8 value) quant_mult)
  scale_of (int8_data values) = err invalid_tensor

  unfoldable pub scalar_activation_scale : MarianBinaryModel fl.F32 → Text → Loaded fl.F32
  unfolding find_tensor elements scale_of
  scalar_activation_scale model name = find_tensor model name >>= λ tensor.
      fail_if (not (elements tensor.shape == 1)) invalid_tensor >>= λ _.
      scale_of tensor.contents >>= λ scale.
      fail_if (not (fl.is_finite scale) || fl.at_most_zero scale) invalid_tensor >>= λ _. ok scale

  unfoldable pub activation_scale_for : MarianBinaryModel fl.F32 → Text → Loaded fl.F32
  unfolding scalar_activation_scale
  activation_scale_for model weight_name =
      scalar_activation_scale model (weight_name ++ activation_scale_suffix)

  -- One round of the loop of `validate_q8`.
  unfoldable pub validate_tensor :
      MarianBinaryModel fl.F32
      → MarianTensor fl.F32
      → Q8ValidationReport
      → Loaded Q8ValidationReport
  unfolding scalar_activation_scale find_tensor is_intgemm8 ends_with activation_scale_for
      strip_suffix
  validate_tensor model tensor report = elim (strip_suffix tensor.name activation_scale_suffix) [
    | some weight_name ↦ scalar_activation_scale model tensor.name >>= λ _.
        find_tensor model weight_name >>= λ weight.
        fail_if (not (is_intgemm8 weight)) invalid_tensor >>= λ _.
        ok (record report { activation_scales = report.activation_scales + 1 })
    | none ↦ elim (is_intgemm8 tensor) [
      | false ↦ ok report
      | true ↦ fail_if (not (length tensor.shape == 2)) invalid_tensor >>= λ _.
          elim (ends_with tensor.name (codes "_Wemb")) [
            | true ↦ ok (record report { embeddings = report.embeddings + 1 })
            | false ↦ activation_scale_for model tensor.name >>= λ _.
                ok (record report { dense_linears = report.dense_linears + 1 })
          ]
    ]
  ]

  unfoldable pub validate_tensors :
      MarianBinaryModel fl.F32
      → List (MarianTensor fl.F32)
      → Q8ValidationReport
      → Loaded Q8ValidationReport
  unfolding validate_tensor
  validate_tensors model [] report = ok report
  validate_tensors model (tensor ∷ tensors) report =
      validate_tensor model tensor report >>= validate_tensors model tensors

  unfoldable pub validate_q8 : MarianBinaryModel fl.F32 → Loaded Q8ValidationReport
  unfolding validate_tensors
  validate_q8 model =
      validate_tensors model model.tensors
        (record { dense_linears = 0; embeddings = 0; activation_scales = 0 })
      >>= λ report.
          fail_if (report.dense_linears + report.embeddings == 0) invalid_format >>= λ _. ok report

  -- `&values[start..end]`.
  abbrev pub slice_values : List ℤ → ℕ → ℕ → Option (List ℤ)
  slice_values values start finish =
      if leb start finish && leb finish (length values)
      then some (take (finish - start) (drop start values))
      else none

  unfoldable pub embedding_row : MarianBinaryModel fl.F32 → Text → ℕ → Loaded (List fl.F32)
  unfolding find_tensor ends_with as_intgemm8
  embedding_row model name row = find_tensor model name >>= λ tensor.
      fail_if (not (length tensor.shape == 2) || not (ends_with tensor.name (codes "_Wemb")))
        invalid_tensor
      >>= λ _. or_crash (get_elem? tensor.shape 0) >>= λ rows.
          or_crash (get_elem? tensor.shape 1) >>= λ columns.
          fail_if (leb rows row) invalid_tensor >>= λ _. as_intgemm8 tensor >>= λ payload.
          or_crash (slice_values payload.0 (row * columns) ((row + 1) * columns)) >>= λ values.
          ok (map (λ value. fl.divide (fl.from_i8 value) payload.1) values)

  unfoldable pub load_bias :
      MarianBinaryModel fl.F32 → Option Text → ℕ → Loaded (Option (List fl.F32))
  unfolding find_tensor shape_eq as_float32
  load_bias model none output_dim = ok none
  load_bias model (some name) output_dim = find_tensor model name >>= λ tensor.
      fail_if
        (not (shape_eq tensor.shape (1 ∷ output_dim ∷ []))
          && not (shape_eq tensor.shape (output_dim ∷ [])))
        invalid_tensor
      >>= λ _. as_float32 tensor >>= λ values. ok (some values)

  -- The result, and the model in which the tensor has lost its data, also where that is an error.
  unfoldable pub take_intgemm8 :
      MarianBinaryModel fl.F32
      → Text
      → Loaded (List ℤ × (fl.F32 × List ℕ)) × MarianBinaryModel fl.F32
  unfolding get_name
  take_intgemm8 model name = elim (get_name model.by_name name) [
    | none ↦ (err missing_tensor, model)
    | some index ↦ elim (get_elem? model.tensors index) [
      | none ↦ (crash, model)
      | some tensor ↦ (
        elim tensor.contents [
          | intgemm8_data values quant_mult ↦ ok (values, (quant_mult, tensor.shape))
          | _ ↦ err invalid_tensor
        ],
        record model {
          tensors = set model.tensors index (record tensor { contents = intgemm8_data [] fl.one });
        },
      )
    ]
  ]

  module _ (may_saturate has_avx2 : Bool) where
    unfoldable pub take_dense_linear :
        MarianBinaryModel fl.F32
        → Text
        → Option Text
        → ℕ
        → ℕ
        → Loaded (Q8Linear fl.F32) × MarianBinaryModel fl.F32
    unfolding find_tensor shape_eq activation_scale_for load_bias take_intgemm8 new_linear
    take_dense_linear model weight_name bias_name input_dim output_dim =
        let checked : Loaded (fl.F32 × Option (List fl.F32)) =
          find_tensor model weight_name >>= λ weight.
          fail_if (not (shape_eq weight.shape (input_dim ∷ output_dim ∷ []))) invalid_tensor
          >>= λ _. activation_scale_for model weight_name >>= λ activation.
              load_bias model bias_name output_dim >>= λ bias. ok (activation, bias) in
        elim checked [
          | err e ↦ (err e, model)
          | crash ↦ (crash, model)
          | ok parts ↦
              let taken = take_intgemm8 model weight_name in
              (
                taken.0 >>= λ payload.
                    new_linear fl may_saturate has_avx2 weight_name input_dim output_dim payload.0
                      parts.0 payload.1.0 parts.1,
                taken.1,
              )
        ]

    unfoldable pub dense_linear :
        MarianBinaryModel fl.F32 → Text → Option Text → ℕ → ℕ → Loaded (Q8Linear fl.F32)
    unfolding find_tensor shape_eq as_intgemm8 activation_scale_for load_bias new_linear
    dense_linear model weight_name bias_name input_dim output_dim =
        find_tensor model weight_name >>= λ weight.
        fail_if (not (shape_eq weight.shape (input_dim ∷ output_dim ∷ []))) invalid_tensor >>= λ _.
        as_intgemm8 weight >>= λ payload. activation_scale_for model weight_name >>= λ activation.
        load_bias model bias_name output_dim >>= λ bias.
        new_linear fl may_saturate has_avx2 weight_name input_dim output_dim payload.0 activation
          payload.1 bias

    unfoldable pub tied_output_linear :
        MarianBinaryModel fl.F32 → Text → Option Text → ℕ → ℕ → Loaded (Q8Linear fl.F32)
    unfolding find_tensor shape_eq as_intgemm8 activation_scale_for load_bias new_linear
    tied_output_linear model embedding_name bias_name model_dim vocabulary_size =
        find_tensor model embedding_name >>= λ weight.
        fail_if (not (shape_eq weight.shape (vocabulary_size ∷ model_dim ∷ []))) invalid_tensor
        >>= λ _. as_intgemm8 weight >>= λ payload.
            activation_scale_for model embedding_name >>= λ activation.
            load_bias model bias_name vocabulary_size >>= λ bias.
            new_linear fl may_saturate has_avx2 embedding_name model_dim vocabulary_size payload.0
              activation payload.1 bias
