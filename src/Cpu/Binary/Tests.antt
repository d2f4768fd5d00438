-- ===== src/Cpu/Binary/Tests.antt =====
-- A small file, the model that it holds, and the theorems at that model.
use marian_edge.Common.{
  ℕ, ℤ, pos, negsuc, zero, suc, ◌+◌, ◌*◌, ◌≡◌, ◌↔◌, refl, true, List, [], ◌∷◌, ◌++◌, Option, none,
  some, ◌==◌, ok, Ensures, Ensures-ok,
}
use marian_edge.Text.{Text, codes, text_eq}
use marian_edge.Cpu.Binary.{
  Floats, float32, intgemm8, float32_data, intgemm8_data, MarianTensor, MarianBinaryModel, from_raw,
  get_name, fold_elements, checked_elements, logical_data_length, align_up, le_value, take_bytes,
  read_u64, read_usize_u64, read_i32, remaining_bytes,
}
use marian_edge.Cpu.Binary.Parse.{
  read_floats, read_data, expected_data_length, read_header, read_headers, read_name, read_names,
  read_shape, read_shapes, read_tensor, read_tensors, parse,
}
use marian_edge.Cpu.Binary.Linear.{
  Q8Linear, rten, new_linear, validate_quant_mult, check_bias, execution_path_of,
}
use marian_edge.Cpu.Binary.Model.{
  find_tensor, validate_q8, embedding_row, take_dense_linear, dense_linear, shape_eq, as_intgemm8,
  activation_scale_for, scalar_activation_scale, scale_of, elements, load_bias,
}
use marian_edge.Cpu.Binary.WellFormed.{IsModel, IsFilled, parse-IsModel}
use marian_edge.Cpu.Binary.Lookup.{Finds, find_tensor-Finds}
use marian_edge.Cpu.Binary.Validate.{IsReport, validate_q8-IsReport}
use marian_edge.Cpu.Binary.Weights.{IsRow, embedding_row-IsRow}
use marian_edge.Cpu.Binary.Dense.{
  IsOperatorOf, dense_linear-IsOperatorOf, take_dense_linear-dense_linear,
}

-- Numbers in the place of floats.
abbrev bytes_value : List ℕ → ℕ
bytes_value [] = 0
bytes_value (b ∷ bs) = b + 256 * bytes_value bs

abbrev magnitude : ℤ → ℕ
magnitude (pos n) = n
magnitude (negsuc n) = suc n

abbrev numbers : Floats
numbers = record {
  F32 = ℕ;
  from_le_bytes = bytes_value;
  is_finite = λ n. true;
  at_most_zero = λ n. n == 0;
  from_i8 = magnitude;
  divide = λ a b. a;
  multiply = λ a b. a * b;
  one = 1;
}

abbrev zeros : ℕ → List ℕ
zeros zero = []
zeros (suc n) = 0 ∷ zeros n

abbrev as_text : List ℕ → Option Text
as_text bytes = some bytes

-- A weight of one row and one column, and its scale.
abbrev file : List ℕ
file =
    (1 ∷ zeros 7)
    ++ (2 ∷ zeros 7)
    ++ (7 ∷ zeros 7)
    ++ (1 ∷ 65 ∷ zeros 6)
    ++ (2 ∷ zeros 7)
    ++ (0 ∷ 1 ∷ zeros 6)
    ++ (18 ∷ zeros 7)
    ++ (4 ∷ 4 ∷ zeros 6)
    ++ (1 ∷ zeros 7)
    ++ (0 ∷ 1 ∷ zeros 6)
    ++ (codes "w_Wemb" ++ 0 ∷ [])
    ++ (codes "w_Wemb_QuantMultA" ++ 0 ∷ [])
    ++ (1 ∷ zeros 3)
    ++ (1 ∷ zeros 3)
    ++ (1 ∷ zeros 3)
    ++ (131 ∷ zeros 7)
    ++ zeros 131
    ++ (5 ∷ 3 ∷ zeros 254)
    ++ (7 ∷ zeros 255)

abbrev weight : MarianTensor ℕ
weight = record {
  name = codes "w_Wemb";
  tensor_type = intgemm8;
  shape = 1 ∷ 1 ∷ [];
  data_length = 256;
  contents = intgemm8_data (pos 5 ∷ []) 3;
}

abbrev scale : MarianTensor ℕ
scale = record {
  name = codes "w_Wemb_QuantMultA";
  tensor_type = float32;
  shape = 1 ∷ [];
  data_length = 256;
  contents = float32_data (7 ∷ []);
}

abbrev model : MarianBinaryModel ℕ
model = record {
  tensors = weight ∷ scale ∷ [];
  by_name = (codes "w_Wemb", 0) ∷ (codes "w_Wemb_QuantMultA", 1) ∷ [];
}

parse-file : parse numbers as_text file ≡ ok model
unfolding parse read_u64 read_usize_u64 read_i32 take_bytes le_value from_raw read_header
    read_headers read_name read_names get_name text_eq read_shape read_shapes checked_elements
    fold_elements read_tensor read_tensors logical_data_length expected_data_length align_up
    read_data read_floats remaining_bytes
parse-file = refl

model-IsModel : IsModel numbers model
model-IsModel =
    (Ensures-ok (λ m. IsModel numbers m × IsFilled numbers as_text file m)
      (parse numbers as_text file) model (parse-IsModel numbers as_text file) parse-file).0

parse-IsModel_example :
    Ensures (λ m. IsModel numbers m × IsFilled numbers as_text file m) (parse numbers as_text file)
parse-IsModel_example = parse-IsModel numbers as_text file

find_tensor-Finds_example :
    Finds numbers model (codes "w_Wemb") (find_tensor numbers model (codes "w_Wemb"))
find_tensor-Finds_example = find_tensor-Finds numbers model (codes "w_Wemb") model-IsModel

validate_q8-IsReport_example : Ensures (IsReport numbers model) (validate_q8 numbers model)
validate_q8-IsReport_example = validate_q8-IsReport numbers model model-IsModel

embedding_row-IsRow_example :
    Ensures
      (IsRow numbers model (codes "w_Wemb") 0)
      (embedding_row numbers model (codes "w_Wemb") 0)
embedding_row-IsRow_example = embedding_row-IsRow numbers model (codes "w_Wemb") 0 model-IsModel

dense_linear-IsOperatorOf_example :
    Ensures
      (IsOperatorOf numbers true true model (codes "w_Wemb") 1 1 (1 ∷ 1 ∷ []))
      (dense_linear numbers true true model (codes "w_Wemb") none 1 1)
dense_linear-IsOperatorOf_example =
    dense_linear-IsOperatorOf numbers true true model (codes "w_Wemb") none 1 1 model-IsModel

abbrev operator : Q8Linear ℕ
operator = record {
  name = codes "w_Wemb";
  input_dim = 1;
  output_dim = 1;
  weights = pos 5 ∷ [];
  activation_quant_mult = 7;
  weight_quant_mult = 3;
  bias = none;
  execution_path = rten;
}

-- The operator is made.
dense_linear-model : dense_linear numbers true true model (codes "w_Wemb") none 1 1 ≡ ok operator
unfolding dense_linear find_tensor get_name text_eq shape_eq as_intgemm8 activation_scale_for
    scalar_activation_scale elements scale_of load_bias new_linear validate_quant_mult check_bias
    execution_path_of
dense_linear-model = refl

take_dense_linear-dense_linear_example :
    ((take_dense_linear numbers true true model (codes "w_Wemb") none 1 1).0 ≡ ok operator)
    ↔ (dense_linear numbers true true model (codes "w_Wemb") none 1 1 ≡ ok operator)
take_dense_linear-dense_linear_example =
    take_dense_linear-dense_linear numbers true true model (codes "w_Wemb") none 1 1 operator
