-- ===== src/Cpu/Binary/Weights.antt =====
-- Embedding rows and linear operators that are made from a well-formed model.
use marian_edge.Common.{
  le→leb, ℕ, ℤ, ◌+◌, ◌-◌, ◌*◌, ◌≤◌, ◌<◌, ◌≡◌, refl, ap, ◌∙◌, Bool, true, false, not, not-false,
  ◌&&◌, ◌||◌, ||_split, List, [], ◌∷◌, map, Option, none, some, leb, ◌==◌, ==_iff, if◌then◌else◌,
  any, length, length-map, length-take, length-drop, take, drop, get_elem?, ok, err, fail_if,
  Ensures, Ensures-bind, Ensures-fail_if, Ensures-ok_or, Ensures-or_crash, arith,
}
use native.Mathlib.Nat.{mul-le-mul}
use marian_edge.Text.{Text, codes}
use marian_edge.Cpu.Binary.{
  Q8Error, invalid_tensor, Floats, checked_mul, MarianTensorType, int8, float32, intgemm8,
  MarianTensorData, int8_data, float32_data, intgemm8_data, MarianTensor, MarianBinaryModel,
}
use marian_edge.Cpu.Binary.Parse.{is_i8_min}
use marian_edge.Cpu.Binary.Linear.{Q8Linear, new_linear, validate_quant_mult, check_bias}
use marian_edge.Cpu.Binary.Model.{
  ends_with, elements, as_intgemm8, find_tensor, slice_values, embedding_row,
}
use marian_edge.Cpu.Binary.Bytes.{checked_mul_lem}
use marian_edge.Cpu.Binary.Payload.{IsTensor, IsData, IsScale, scale_lem}
use marian_edge.Cpu.Binary.WellFormed.{IsModel}
use marian_edge.Cpu.Binary.Lookup.{find_tensor-IsTensor}

module _ (fl : Floats) where
  -- Q8 values where the contents are Q8.
  abbrev pub HasValues : ℕ → MarianTensorData fl.F32 → List ℤ × fl.F32 → Type 0
  HasValues n contents r = (contents ≡ intgemm8_data r.0 r.1) × (length r.0 ≡ n)

  pub as_intgemm8_lem :
      (t : MarianTensor fl.F32)
      → IsTensor fl t
      → Ensures (HasValues (elements t.shape) t.contents) (as_intgemm8 fl t)
  unfolding as_intgemm8
  as_intgemm8_lem t good = by_contents t.tensor_type t.contents good.filled
    where
      by_contents :
          (type : MarianTensorType) (contents : MarianTensorData fl.F32)
          → IsData fl type (elements t.shape) contents
          → Ensures {E = Q8Error} (HasValues (elements t.shape) contents) (elim contents [
            | intgemm8_data values quant_mult ↦ ok (values, quant_mult)
            | _ ↦ err invalid_tensor
          ])
      by_contents type (int8_data values) h = tt
      by_contents type (float32_data values) h = tt
      by_contents intgemm8 (intgemm8_data values scale) (n, _, _) = (refl, n)
      by_contents int8 (intgemm8_data values scale) h = absurd h
      by_contents float32 (intgemm8_data values scale) h = absurd h

  -- A row of an embedding.
  pub record IsRow (model : MarianBinaryModel fl.F32) (name : Text) (row : ℕ) (result : List fl.F32)
      : Type 0 where
    pub tensor : MarianTensor fl.F32
    pub rows : ℕ
    pub columns : ℕ
    pub values : List ℤ
    pub scale : fl.F32
    pub found : find_tensor fl model name ≡ ok tensor
    pub table : tensor.shape ≡ rows ∷ columns ∷ []
    pub quantized : tensor.contents ≡ intgemm8_data values scale
    pub inside : row < rows
    pub result_is :
        result
        ≡ map
            (λ value. fl.divide (fl.from_i8 value) scale)
            (take columns (drop (row * columns) values))
    pub whole : length result ≡ columns

  slice_lem :
      (values : List ℤ) (row rows columns : ℕ)
      → row < rows
      → length values ≡ rows * columns
      → (slice_values fl values (row * columns) ((row + 1) * columns)
          ≡ some (take columns (drop (row * columns) values)))
        × (length (take columns (drop (row * columns) values)) ≡ columns)
  slice_lem values row rows columns lt size =
      let ends = mul-le-mul (next lt) (same columns) in
      let step = distribute row columns in
      (
        slice_is (leb (row * columns) ((row + 1) * columns))
            (leb ((row + 1) * columns) (length values))
            (le→leb (row * columns) ((row + 1) * columns) (omega (arith, step)))
            (le→leb ((row + 1) * columns) (length values) (omega (arith, ends, size))) (width step),
        length-take columns (drop (row * columns) values)
            (omega (arith, length-drop (row * columns) values, ends, size, step)),
      )
    where
      same : (n : ℕ) → n ≤ n
      same n = omega arith

      next : row < rows → row + 1 ≤ rows
      next h = omega (arith, h)

      distribute : (m n : ℕ) → (m + 1) * n ≡ m * n + n
      distribute m n = omega arith

      width :
          (row + 1) * columns ≡ row * columns + columns
          → (row + 1) * columns - row * columns ≡ columns
      width h = omega (arith, h)

      slice_is :
          (b c : Bool)
          → b ≡ true
          → c ≡ true
          → (row + 1) * columns - row * columns ≡ columns
          → (if b && c
              then some (take ((row + 1) * columns - row * columns) (drop (row * columns) values))
              else none)
            ≡ some (take columns (drop (row * columns) values))
      slice_is true true h k w = ap (λ n. some (take n (drop (row * columns) values))) w
      slice_is true false h k w = absurd cc
      slice_is false c h k w = absurd cc

  -- Two dimensions.
  two_dims :
      (shape : List ℕ)
      → length shape ≡ 2
      → (rows : ℕ) × (columns : ℕ) × (shape ≡ rows ∷ columns ∷ [])
  two_dims [] h = absurd (omega (arith, h))
  two_dims (a ∷ []) h = absurd (omega (arith, h))
  two_dims (a ∷ b ∷ []) h = (a, b, refl)
  two_dims (a ∷ b ∷ c ∷ shape) h = absurd (omega (arith, h))

  -- In a well-formed model, reading an embedding's row does not panic, and a row that it gives is that of
  -- a Q8 table of the model with that name: the row is inside the table, and it has the table's width and the
  -- values from the row's place on, each divided by the table's multiplier.
  pub embedding_row-IsRow :
      (model : MarianBinaryModel fl.F32) (name : Text) (row : ℕ)
      → IsModel fl model
      → Ensures (IsRow model name row) (embedding_row fl model name row)
  unfolding embedding_row elements
  embedding_row-IsRow model name row v =
      Ensures-bind _ Row (find_tensor fl model name) _ (find_tensor-IsTensor fl model name v)
        λ t (good, _, found).
          Ensures-fail_if Row (not (length t.shape == 2) || not (ends_with t.name (codes "_Wemb")))
            invalid_tensor _
            λ table.
              let flat =
                (||_split (not (length t.shape == 2)) (not (ends_with t.name (codes "_Wemb")))
                  table).0 in
              let (rows, columns, shape) =
                two_dims t.shape ((==_iff (length t.shape) 2).0 (not-false _ flat)) in
              Ensures-or_crash Row (get_elem? t.shape 0) rows _ (ap (λ s. get_elem? s 0) shape) (
                Ensures-or_crash Row (get_elem? t.shape 1) columns _ (ap (λ s. get_elem? s 1) shape)
                  (Ensures-fail_if Row (leb rows row) invalid_tensor _ λ within.
                    Ensures-bind (HasValues (elements t.shape) t.contents) Row (as_intgemm8 fl t) _
                      (as_intgemm8_lem t good)
                      λ payload (contents, size).
                        let (slice, whole) =
                          slice_lem payload.0 row rows columns (below row rows within)
                            (size ∙ ap elements shape ∙ product rows columns) in
                        Ensures-or_crash Row
                          (slice_values fl payload.0 (row * columns) ((row + 1) * columns)) _ _
                          slice
                          (record {
                            tensor = t;
                            rows = rows;
                            columns = columns;
                            values = payload.0;
                            scale = payload.1;
                            found = found;
                            table = shape;
                            quantized = contents;
                            inside = below row rows within;
                            result_is = refl;
                            whole =
                                length-map (λ value. fl.divide (fl.from_i8 value) payload.1) _
                                ∙ whole;
                          })))
    where
      Row : List fl.F32 → Type 0
      Row = IsRow model name row

      below : (m n : ℕ) → leb n m ≡ false → m < n
      below m n h = ground (arith, h)

      product : (m n : ℕ) → m * (n * 1) ≡ m * n
      product m n = ap (λ z. m * z) (times_one n)
        where
          times_one : (n : ℕ) → n * 1 ≡ n
          times_one n = omega arith

  -- A bias of the right length, or none.
  abbrev pub IsBias : ℕ → Option (List fl.F32) → Type 0
  IsBias n none = Unit
  IsBias n (some values) =
      (length values ≡ n) × (any (λ value. not (fl.is_finite value)) values ≡ false)

  -- An operator whose parts fit.
  pub record IsLinear (name : Text) (input_dim output_dim : ℕ) (linear : Q8Linear fl.F32)
      : Type 0 where
    pub name_is : linear.name ≡ name
    pub input_is : linear.input_dim ≡ input_dim
    pub output_is : linear.output_dim ≡ output_dim
    pub dims_positive : (1 ≤ input_dim) × (1 ≤ output_dim)
    pub sized : length linear.weights ≡ input_dim * output_dim
    pub symmetric : any is_i8_min linear.weights ≡ false
    pub activation : IsScale fl linear.activation_quant_mult
    pub weight : IsScale fl linear.weight_quant_mult
    pub product : IsScale fl (fl.multiply linear.activation_quant_mult linear.weight_quant_mult)
    pub biased : IsBias output_dim linear.bias

  module _ (may_saturate has_avx2 : Bool) where
    validate_quant_mult_lem :
        (value : fl.F32)
        → Ensures (λ _. IsScale fl value) (validate_quant_mult fl may_saturate has_avx2 value)
    unfolding validate_quant_mult
    validate_quant_mult_lem value =
        by_test (not (fl.is_finite value) || fl.at_most_zero value) (scale_lem fl value)
      where
        by_test :
            (b : Bool)
            → (b ≡ false → IsScale fl value)
            → Ensures (λ _. IsScale fl value) (fail_if b invalid_tensor)
        by_test true h = tt
        by_test false h = h refl

    check_bias_lem :
        (n : ℕ) (bias : Option (List fl.F32))
        → Ensures (λ _. IsBias n bias) (check_bias fl may_saturate has_avx2 n bias)
    unfolding check_bias
    check_bias_lem n none = tt
    check_bias_lem n (some values) =
        Ensures-fail_if (λ _. IsBias n (some values)) (not (length values == n)) invalid_tensor _
          λ same.
            by_test (any (λ value. not (fl.is_finite value)) values)
              λ finite. ((==_iff (length values) n).0 (not-false _ same), finite)
      where
        by_test :
            (b : Bool)
            → (b ≡ false → IsBias n (some values))
            → Ensures (λ _. IsBias n (some values)) (fail_if b invalid_tensor)
        by_test true h = tt
        by_test false h = h refl

    pub new_linear_lem :
        (name : Text) (m n : ℕ) (weights : List ℤ) (activation weight : fl.F32)
        (bias : Option (List fl.F32))
        → Ensures
            (λ l.
              IsLinear name m n l
              × (l.weights ≡ weights)
              × (l.bias ≡ bias)
              × (l.weight_quant_mult ≡ weight))
            (new_linear fl may_saturate has_avx2 name m n weights activation weight bias)
    unfolding new_linear
    new_linear_lem name m n weights activation weight bias =
        Ensures-fail_if Made (m == 0 || n == 0) invalid_tensor _ λ dims.
          Ensures-ok_or Made (checked_mul m n) invalid_tensor _ λ expected e.
            Ensures-fail_if Made (not (length weights == expected)) invalid_tensor _ λ size.
              Ensures-fail_if Made (any is_i8_min weights) invalid_tensor _ λ symmetric.
                Ensures-bind (λ _. IsScale fl activation) Made
                  (validate_quant_mult fl may_saturate has_avx2 activation) _
                  (validate_quant_mult_lem activation)
                  λ _ a.
                    Ensures-bind (λ _. IsScale fl weight) Made
                      (validate_quant_mult fl may_saturate has_avx2 weight) _
                      (validate_quant_mult_lem weight)
                      λ _ w.
                        Ensures-fail_if Made
                          (not (fl.is_finite (fl.multiply activation weight))
                            || fl.at_most_zero (fl.multiply activation weight))
                          invalid_tensor _
                          λ combined.
                            Ensures-bind (λ _. IsBias n bias) Made
                              (check_bias fl may_saturate has_avx2 n bias) _ (check_bias_lem n bias)
                              λ _ b. (
                                record {
                                  name_is = refl;
                                  input_is = refl;
                                  output_is = refl;
                                  dims_positive = positive_dims m n dims;
                                  sized =
                                      (==_iff (length weights) expected).0 (not-false _ size)
                                      ∙ (checked_mul_lem m n expected e).0;
                                  symmetric = symmetric;
                                  activation = a;
                                  weight = w;
                                  product = scale_lem fl (fl.multiply activation weight) combined;
                                  biased = b;
                                },
                                refl,
                                refl,
                                refl,
                              )
      where
        Made : Q8Linear fl.F32 → Type 0
        Made l =
            IsLinear name m n l
            × (l.weights ≡ weights)
            × (l.bias ≡ bias)
            × (l.weight_quant_mult ≡ weight)

        positive_dims : (m n : ℕ) → (m == 0 || n == 0) ≡ false → (1 ≤ m) × (1 ≤ n)
        positive_dims m n h = ground (arith, h)
