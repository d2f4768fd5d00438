-- ===== src/Cpu/Binary/Parse.antt =====
-- `MarianBinaryModel::parse`, loop by loop.
use marian_edge.Common.{
  ℕ, ℤ, pos, negsuc, int_eq, zero, suc, ◌+◌, ◌-◌, ◌%◌, Bool, true, false, not, ◌&&◌, ◌||◌, List, [],
  ◌∷◌, ◌++◌, map, Option, none, some, ltb, leb, ◌==◌, if◌then◌else◌, any, length, take, drop, ok,
  err, crash, ◌>>=◌, ◌>>◌, fail_if, ok_or, or_crash, checked_add,
}
use marian_edge.Text.{Text}
use marian_edge.Cpu.Binary.{
  marian_binary_version, maximum_file_bytes, maximum_tensors, maximum_name_bytes, maximum_rank,
  data_alignment, invalid_format, invalid_tensor, Loaded, Floats, MarianTensorType, int8, float32,
  intgemm8, from_raw, MarianTensorData, int8_data, float32_data, intgemm8_data, MarianTensor,
  MarianBinaryModel, Header, get_name, checked_elements, checked_mul, logical_data_length, align_up,
  signed, take_bytes, read_u64, read_usize_u64, read_i32, remaining_bytes,
}

-- `value.last()`.
abbrev pub last? : List ℕ → Option ℕ
last? [] = none
last? (b ∷ []) = some b
last? (b ∷ c ∷ bs) = last? (c ∷ bs)

abbrev pub is_zero_byte : Option ℕ → Bool
is_zero_byte none = false
is_zero_byte (some b) = b == 0

-- `&payload[..n]` and `&payload[n..]`.
abbrev pub take_checked : ℕ → List ℕ → Option (List ℕ)
take_checked n bytes = if leb n (length bytes) then some (take n bytes) else none

abbrev pub drop_checked : ℕ → List ℕ → Option (List ℕ)
drop_checked n bytes = if leb n (length bytes) then some (drop n bytes) else none

abbrev pub is_zero : ℕ → Bool
is_zero n = n == 0

abbrev pub is_nonzero : ℕ → Bool
is_nonzero n = not (n == 0)

-- `byte as i8`.
abbrev pub as_i8 : ℕ → ℤ
as_i8 byte = signed 128 byte

abbrev pub is_i8_min : ℤ → Bool
is_i8_min value = int_eq value (negsuc 127)

module _ (fl : Floats) where
  -- `chunks_exact(4)`, with the floats of the chunks; one that is not finite is an error.
  unfoldable pub read_floats : List ℕ → Loaded (List fl.F32)
  read_floats (a ∷ b ∷ c ∷ d ∷ bytes) =
      let value = fl.from_le_bytes (a ∷ b ∷ c ∷ d ∷ []) in
      fail_if (not (fl.is_finite value)) invalid_tensor
      >> (read_floats bytes >>= λ values. ok (value ∷ values))
  read_floats bytes = ok []

  -- The `match header.tensor_type` on the payload.
  unfoldable pub read_data : MarianTensorType → ℕ → List ℕ → Loaded (MarianTensorData fl.F32)
  unfolding read_floats
  read_data int8 elements payload = do
    fail_if (ltb (length payload) elements) invalid_tensor
    values ← or_crash (take_checked elements payload)
    ok (int8_data (map as_i8 values))
  read_data float32 elements payload = do
    logical_bytes ← ok_or (checked_mul elements 4) invalid_tensor
    fail_if (ltb (length payload) logical_bytes) invalid_tensor
    used ← or_crash (take_checked logical_bytes payload)
    values ← read_floats used
    ok (float32_data values)
  read_data intgemm8 elements payload = do
    required ← ok_or (checked_add elements 4) invalid_tensor
    fail_if (ltb (length payload) required) invalid_tensor
    used ← or_crash (take_checked elements payload)
    let values = map as_i8 used
    fail_if (any is_i8_min values) invalid_tensor
    scale ← or_crash (take_checked 4 (drop elements payload))
    let quant_mult = fl.from_le_bytes scale
    fail_if (not (fl.is_finite quant_mult) || fl.at_most_zero quant_mult) invalid_tensor
    ok (intgemm8_data values quant_mult)

  unfoldable pub expected_data_length : MarianTensorType → ℕ → Loaded ℕ
  unfolding align_up
  expected_data_length int8 logical_bytes = ok logical_bytes
  expected_data_length float32 logical_bytes =
      ok_or (align_up logical_bytes data_alignment) invalid_tensor
  expected_data_length intgemm8 logical_bytes =
      ok_or (align_up logical_bytes data_alignment) invalid_tensor

module _ (fl : Floats) (from_utf8 : List ℕ → Option Text) (bytes : List ℕ) where
  unfoldable pub read_header : ℕ → Loaded (Header × ℕ)
  unfolding read_usize_u64 read_u64 from_raw
  read_header position = read_usize_u64 bytes position >>= λ name_length.
      read_u64 bytes name_length.1 >>= λ raw. from_raw raw.0 >>= λ tensor_type.
      read_usize_u64 bytes raw.1 >>= λ shape_length.
      read_usize_u64 bytes shape_length.1 >>= λ data_length.
      fail_if (not (leb 2 name_length.0 && leb name_length.0 maximum_name_bytes)) invalid_format
      >>= λ _.
          fail_if (shape_length.0 == 0 || ltb maximum_rank shape_length.0) invalid_format >>= λ _.
          fail_if (data_length.0 == 0 || ltb maximum_file_bytes data_length.0) invalid_format
          >>= λ _. ok (
            record {
              name_length = name_length.0;
              tensor_type = tensor_type;
              shape_length = shape_length.0;
              data_length = data_length.0;
            },
            data_length.1,
          )

  unfoldable pub read_headers : ℕ → ℕ → Loaded (List Header × ℕ)
  unfolding read_header
  read_headers zero position = ok ([], position)
  read_headers (suc left) position =
      read_header position >>= λ h. read_headers left h.1 >>= λ hs. ok (h.0 ∷ hs.0, hs.1)

  -- The name of one tensor, with the map in which it is entered.
  unfoldable pub read_name : ℕ → Header → List (Text × ℕ) → ℕ → Loaded (Text × ℕ)
  unfolding take_bytes get_name
  read_name index header by_name position = take_bytes bytes position header.name_length >>= λ raw.
      let body = take (length raw.0 - 1) raw.0 in
      fail_if (not (is_zero_byte (last? raw.0)) || any is_zero body) invalid_format >>= λ _.
      ok_or (from_utf8 body) invalid_format >>= λ name.
      fail_if (length name == 0) invalid_format >>= λ _.
      fail_if (elim (get_name by_name name) [ some old ↦ true | none ↦ false ]) invalid_format
      >>= λ _. ok (name, raw.1)

  unfoldable pub read_names :
      ℕ → List Header → List (Text × ℕ) → ℕ → Loaded (List Text × (List (Text × ℕ) × ℕ))
  unfolding read_name
  read_names index [] by_name position = ok ([], (by_name, position))
  read_names index (header ∷ headers) by_name position =
      read_name index header by_name position >>= λ name.
      read_names (index + 1) headers (by_name ++ (name.0, index) ∷ []) name.1 >>= λ names.
      ok (name.0 ∷ names.0, names.1)

  -- A dimension: the number is at least 1.
  abbrev pub dimension_of : ℤ → Loaded ℕ
  dimension_of (pos n) = fail_if (n == 0) invalid_format >> ok n
  dimension_of (negsuc n) = err invalid_format

  unfoldable pub read_shape : ℕ → ℕ → Loaded (List ℕ × ℕ)
  unfolding read_i32
  read_shape zero position = ok ([], position)
  read_shape (suc left) position = read_i32 bytes position >>= λ value.
      dimension_of value.0 >>= λ dimension.
      read_shape left value.1 >>= λ shape. ok (dimension ∷ shape.0, shape.1)

  unfoldable pub read_shapes : List Header → ℕ → Loaded (List (List ℕ) × ℕ)
  unfolding read_shape checked_elements
  read_shapes [] position = ok ([], position)
  read_shapes (header ∷ headers) position = read_shape header.shape_length position >>= λ shape.
      checked_elements shape.0 >>= λ _.
      read_shapes headers shape.1 >>= λ shapes. ok (shape.0 ∷ shapes.0, shapes.1)

  unfoldable pub read_tensor : Header → Text → List ℕ → ℕ → Loaded (MarianTensor fl.F32 × ℕ)
  unfolding checked_elements take_bytes logical_data_length expected_data_length read_data
  read_tensor header name shape position = checked_elements shape >>= λ elements.
      take_bytes bytes position header.data_length >>= λ payload.
      logical_data_length header.tensor_type elements >>= λ logical_bytes.
      expected_data_length fl header.tensor_type logical_bytes >>= λ expected.
      fail_if (not (header.data_length == expected)) invalid_tensor >>= λ _.
      or_crash (drop_checked logical_bytes payload.0) >>= λ padding.
      fail_if (any is_nonzero padding) invalid_tensor >>= λ _.
      read_data fl header.tensor_type elements payload.0 >>= λ contents. ok (
        record {
          name = name;
          tensor_type = header.tensor_type;
          shape = shape;
          data_length = header.data_length;
          contents = contents;
        },
        payload.1,
      )

  -- `names[index]` and `shapes[index]` panic where there are fewer of them than headers.
  unfoldable pub read_tensors :
      List Header → List Text → List (List ℕ) → ℕ → Loaded (List (MarianTensor fl.F32) × ℕ)
  unfolding read_tensor
  read_tensors [] names shapes position = ok ([], position)
  read_tensors (header ∷ headers) (name ∷ names) (shape ∷ shapes) position =
      read_tensor header name shape position >>= λ tensor.
      read_tensors headers names shapes tensor.1 >>= λ tensors. ok (tensor.0 ∷ tensors.0, tensors.1)
  read_tensors (header ∷ headers) names shapes position = crash

  unfoldable pub parse : Loaded (MarianBinaryModel fl.F32)
  unfolding read_u64 read_usize_u64 read_headers read_names read_shapes take_bytes read_tensors
      remaining_bytes
  parse = fail_if (ltb maximum_file_bytes (length bytes)) invalid_format >>= λ _.
      read_u64 bytes 0 >>= λ version.
      fail_if (not (version.0 == marian_binary_version)) invalid_format >>= λ _.
      read_usize_u64 bytes version.1 >>= λ tensor_count.
      fail_if (tensor_count.0 == 0 || ltb maximum_tensors tensor_count.0) invalid_format >>= λ _.
      read_headers tensor_count.0 tensor_count.1 >>= λ headers.
      read_names 0 headers.0 [] headers.1 >>= λ names. read_shapes headers.0 names.1.1 >>= λ shapes.
      read_usize_u64 bytes shapes.1 >>= λ offset. take_bytes bytes offset.1 offset.0 >>= λ padding.
      fail_if (any is_nonzero padding.0) invalid_format >>= λ _.
      fail_if (not (padding.1 % data_alignment == 0)) invalid_format >>= λ _.
      read_tensors headers.0 names.0 shapes.0 padding.1 >>= λ tensors.
      or_crash (remaining_bytes bytes tensors.1) >>= λ left.
      fail_if (not (left == 0)) invalid_format >>= λ _.
      ok (record { tensors = tensors.0; by_name = names.1.0 })
