-- ===== src/Cpu/Binary/Dense.antt =====
-- The linear operators of a model: what they are made of, and the way that takes the weights out of the model.
use marian_edge.Common.{
  ℕ, ℤ, ◌≡◌, ◌↔◌, sym, ◌∙◌, Bool, true, false, not, not-false, ◌&&◌, List, [], ◌∷◌, ◌++◌, Option,
  none, some, get_elem?, set, ok, err, crash, ◌>>=◌, fail_if, ok_or, or_crash, Ensures,
  Ensures-bind, Ensures-fail_if, Ensures-mono,
}
use marian_edge.Text.{Text}
use marian_edge.Cpu.Binary.{
  Q8Error, missing_tensor, invalid_tensor, Loaded, Floats, MarianTensorData, int8_data,
  float32_data, intgemm8_data, MarianTensor, MarianBinaryModel, get_name,
}
use marian_edge.Cpu.Binary.Linear.{Q8Linear, new_linear}
use marian_edge.Cpu.Binary.Model.{
  activation_scale_suffix, shape_eq, as_float32, as_intgemm8, find_tensor, activation_scale_for,
  load_bias, take_intgemm8, take_dense_linear, dense_linear, tied_output_linear,
}
use marian_edge.Cpu.Binary.Payload.{IsScale}
use marian_edge.Cpu.Binary.WellFormed.{IsModel}
use marian_edge.Cpu.Binary.Lookup.{find_tensor-IsTensor}
use marian_edge.Cpu.Binary.Validate.{scalar_activation_scale_lem}
use marian_edge.Cpu.Binary.Weights.{as_intgemm8_lem, IsLinear, new_linear_lem}

module _ (fl : Floats) (may_saturate has_avx2 : Bool) where
  -- An operator with the values of a Q8 tensor of the model that has the given shape.
  pub record IsOperatorOf (model : MarianBinaryModel fl.F32) (name : Text)
      (input_dim output_dim : ℕ) (shape : List ℕ) (linear : Q8Linear fl.F32) : Type 0 where
    pub tensor : MarianTensor fl.F32
    pub found : find_tensor fl model name ≡ ok tensor
    pub shape_is : shape_eq tensor.shape shape ≡ true
    pub made : IsLinear fl name input_dim output_dim linear
    pub contents_are : tensor.contents ≡ intgemm8_data linear.weights linear.weight_quant_mult

  module _ (model : MarianBinaryModel fl.F32) where
    load_bias_lem :
        (name : Option Text) (n : ℕ)
        → IsModel fl model
        → Ensures (λ _. Unit {0}) (load_bias fl model name n)
    unfolding load_bias
    load_bias_lem none n v = tt
    load_bias_lem (some name) n v =
        Ensures-bind _ (λ _. Unit {0}) (find_tensor fl model name) _
          (find_tensor-IsTensor fl model name v)
          λ t _.
            Ensures-fail_if (λ _. Unit {0})
              (not (shape_eq t.shape (1 ∷ n ∷ [])) && not (shape_eq t.shape (n ∷ [])))
              invalid_tensor _
              λ _.
                Ensures-bind (λ _. Unit {0}) (λ _. Unit {0}) (as_float32 fl t) _ (floats t.contents)
                  λ _ _. tt
      where
        floats :
            (contents : MarianTensorData fl.F32)
            → Ensures {E = Q8Error}
                (λ _. Unit {0})
                (elim contents [ float32_data values ↦ ok values | _ ↦ err invalid_tensor ])
        floats (int8_data values) = tt
        floats (float32_data values) = tt
        floats (intgemm8_data values scale) = tt

    -- Both ways to make an operator go on alike, with a shape and the operator's dimensions.
    operator_lem :
        (name : Text) (bias_name : Option Text) (m n k : ℕ) (shape : List ℕ)
        → IsModel fl model
        → Ensures (IsOperatorOf model name m n shape) (
            find_tensor fl model name >>= λ weight.
            fail_if (not (shape_eq weight.shape shape)) invalid_tensor >>= λ _.
            as_intgemm8 fl weight >>= λ payload.
            activation_scale_for fl model name >>= λ activation.
            load_bias fl model bias_name k >>= λ bias.
            new_linear fl may_saturate has_avx2 name m n payload.0 activation payload.1 bias)
    unfolding activation_scale_for
    operator_lem name bias_name m n k shape v =
        Ensures-bind _ Made (find_tensor fl model name) _ (find_tensor-IsTensor fl model name v)
          λ t (good, _, found).
            Ensures-fail_if Made (not (shape_eq t.shape shape)) invalid_tensor _ λ shaped.
              Ensures-bind _ Made (as_intgemm8 fl t) _ (as_intgemm8_lem fl t good)
                λ payload (contents, _).
                  Ensures-bind (IsScale fl) Made (activation_scale_for fl model name) _
                    (scalar_activation_scale_lem fl model v (name ++ activation_scale_suffix))
                    λ activation _.
                      Ensures-bind _ Made (load_bias fl model bias_name k) _
                        (load_bias_lem bias_name k v)
                        λ bias _.
                          Ensures-mono _ Made
                            (new_linear fl may_saturate has_avx2 name m n payload.0 activation
                              payload.1 bias)
                            (new_linear_lem fl may_saturate has_avx2 name m n payload.0 activation
                              payload.1 bias)
                            λ l (made, weights, _, scale). record {
                              tensor = t;
                              found = found;
                              shape_is = not-false _ shaped;
                              made = made;
                              contents_are = contents ∙ pair (sym weights) (sym scale);
                            }
      where
        Made : Q8Linear fl.F32 → Type 0
        Made = IsOperatorOf model name m n shape

        pair : {a b : List ℤ} {x y : fl.F32} → a ≡ b → x ≡ y → intgemm8_data a x ≡ intgemm8_data b y
        pair e f = cc

    -- In a well-formed model, making a dense operator does not panic; one that is made has the name and
    -- the dimensions asked for, the Q8 values and the multiplier of the tensor of that name, which has the shape
    -- input by output; its dimensions are positive, it has input times output values, none of them -128, its
    -- multipliers and their product are finite and positive, and a bias has finite values, as many as outputs.
    pub dense_linear-IsOperatorOf :
        (name : Text) (bias_name : Option Text) (m n : ℕ)
        → IsModel fl model
        → Ensures
            (IsOperatorOf model name m n (m ∷ n ∷ []))
            (dense_linear fl may_saturate has_avx2 model name bias_name m n)
    unfolding dense_linear
    dense_linear-IsOperatorOf name bias_name m n v =
        operator_lem name bias_name m n n (m ∷ n ∷ []) v

    -- The same for the output projection that is tied to an embedding, whose tensor has the shape output by input.
    pub tied_output_linear-IsOperatorOf :
        (name : Text) (bias_name : Option Text) (model_dim vocabulary : ℕ)
        → IsModel fl model
        → Ensures
            (IsOperatorOf model name model_dim vocabulary (vocabulary ∷ model_dim ∷ []))
            (tied_output_linear fl may_saturate has_avx2 model name bias_name model_dim vocabulary)
    unfolding tied_output_linear
    tied_output_linear-IsOperatorOf name bias_name model_dim vocabulary v =
        operator_lem name bias_name model_dim vocabulary vocabulary (vocabulary ∷ model_dim ∷ []) v

    abbrev ValuesOf : MarianTensorData fl.F32 → Loaded (List ℤ × fl.F32)
    ValuesOf contents = elim contents [
      | intgemm8_data values quant_mult ↦ ok (values, quant_mult)
      | _ ↦ err invalid_tensor
    ]

    -- The code behind the lookup, with the results of what it calls.
    abbrev DenseOf :
        Text
        → ℕ
        → ℕ
        → Bool
        → MarianTensorData fl.F32
        → Loaded fl.F32
        → Loaded (Option (List fl.F32))
        → Loaded (Q8Linear fl.F32)
    DenseOf name m n shaped contents scale bias = fail_if (not shaped) invalid_tensor >>= λ _.
        ValuesOf contents >>= λ payload. scale >>= λ activation.
        bias >>= λ b. new_linear fl may_saturate has_avx2 name m n payload.0 activation payload.1 b

    abbrev PartsOf :
        Bool
        → Loaded fl.F32
        → Loaded (Option (List fl.F32))
        → Loaded (fl.F32 × Option (List fl.F32))
    PartsOf shaped scale bias = fail_if (not shaped) invalid_tensor >>= λ _.
        scale >>= λ activation. bias >>= λ b. ok (activation, b)

    abbrev TakenOf : List ℕ → MarianTensorData fl.F32 → Loaded (List ℤ × (fl.F32 × List ℕ))
    TakenOf shape contents = elim contents [
      | intgemm8_data values quant_mult ↦ ok (values, (quant_mult, shape))
      | _ ↦ err invalid_tensor
    ]

    abbrev TakeOf :
        Text
        → ℕ
        → ℕ
        → Loaded (fl.F32 × Option (List fl.F32))
        → Loaded (List ℤ × (fl.F32 × List ℕ))
        → MarianBinaryModel fl.F32
        → Loaded (Q8Linear fl.F32) × MarianBinaryModel fl.F32
    TakeOf name m n parts taken left = elim parts [
      | err e ↦ (err e, model)
      | crash ↦ (crash, model)
      | ok parts ↦ (
        taken >>= λ payload.
            new_linear fl may_saturate has_avx2 name m n payload.0 parts.0 payload.1.0 parts.1,
        left,
      )
    ]

    same_operators :
        (name : Text) (m n : ℕ) (shape : List ℕ) (left : MarianBinaryModel fl.F32)
        (l : Q8Linear fl.F32) (shaped : Bool) (contents : MarianTensorData fl.F32)
        (scale : Loaded fl.F32) (bias : Loaded (Option (List fl.F32)))
        → ((TakeOf name m n (PartsOf shaped scale bias) (TakenOf shape contents) left).0 ≡ ok l)
          ↔ (DenseOf name m n shaped contents scale bias ≡ ok l)
    same_operators name m n shape left l false contents scale bias =
        (λ h. absurd cc, λ h. absurd cc)
    same_operators name m n shape left l true (int8_data vs) (ok a) (ok b) =
        (λ h. absurd cc, λ h. absurd cc)
    same_operators name m n shape left l true (float32_data vs) (ok a) (ok b) =
        (λ h. absurd cc, λ h. absurd cc)
    same_operators name m n shape left l true (intgemm8_data vs q) (ok a) (ok b) = (λ h. h, λ h. h)
    same_operators name m n shape left l true (int8_data vs) (err e) bias =
        (λ h. absurd cc, λ h. absurd cc)
    same_operators name m n shape left l true (float32_data vs) (err e) bias =
        (λ h. absurd cc, λ h. absurd cc)
    same_operators name m n shape left l true (intgemm8_data vs q) (err e) bias =
        (λ h. absurd cc, λ h. absurd cc)
    same_operators name m n shape left l true (int8_data vs) crash bias =
        (λ h. absurd cc, λ h. absurd cc)
    same_operators name m n shape left l true (float32_data vs) crash bias =
        (λ h. absurd cc, λ h. absurd cc)
    same_operators name m n shape left l true (intgemm8_data vs q) crash bias =
        (λ h. absurd cc, λ h. absurd cc)
    same_operators name m n shape left l true (int8_data vs) (ok a) (err e) =
        (λ h. absurd cc, λ h. absurd cc)
    same_operators name m n shape left l true (float32_data vs) (ok a) (err e) =
        (λ h. absurd cc, λ h. absurd cc)
    same_operators name m n shape left l true (intgemm8_data vs q) (ok a) (err e) =
        (λ h. absurd cc, λ h. absurd cc)
    same_operators name m n shape left l true (int8_data vs) (ok a) crash =
        (λ h. absurd cc, λ h. absurd cc)
    same_operators name m n shape left l true (float32_data vs) (ok a) crash =
        (λ h. absurd cc, λ h. absurd cc)
    same_operators name m n shape left l true (intgemm8_data vs q) (ok a) crash =
        (λ h. absurd cc, λ h. absurd cc)

    -- Taking a weight out of the model and copying it give the same operators: one way gives an operator
    -- where and only where the other gives it.
    pub take_dense_linear-dense_linear :
        (name : Text) (bias_name : Option Text) (m n : ℕ) (l : Q8Linear fl.F32)
        → ((take_dense_linear fl may_saturate has_avx2 model name bias_name m n).0 ≡ ok l)
          ↔ (dense_linear fl may_saturate has_avx2 model name bias_name m n ≡ ok l)
    unfolding take_dense_linear dense_linear find_tensor take_intgemm8 as_intgemm8
    take_dense_linear-dense_linear name bias_name m n l = by_entry (get_name model.by_name name)
      where
        scale : Loaded fl.F32
        scale = activation_scale_for fl model name

        bias : Loaded (Option (List fl.F32))
        bias = load_bias fl model bias_name n

        TakenAt :
            ℕ
            → Option (MarianTensor fl.F32)
            → Loaded (List ℤ × (fl.F32 × List ℕ)) × MarianBinaryModel fl.F32
        TakenAt index x = elim x [
          | none ↦ (crash, model)
          | some tensor ↦ (
            TakenOf tensor.shape tensor.contents,
            record model {
              tensors =
                  set model.tensors index (record tensor { contents = intgemm8_data [] fl.one });
            },
          )
        ]

        TakenFrom : Option ℕ → Loaded (List ℤ × (fl.F32 × List ℕ)) × MarianBinaryModel fl.F32
        TakenFrom o = elim o [
          | none ↦ (err missing_tensor, model)
          | some index ↦ TakenAt index (get_elem? model.tensors index)
        ]

        Same :
            Loaded (MarianTensor fl.F32)
            → Loaded (List ℤ × (fl.F32 × List ℕ)) × MarianBinaryModel fl.F32
            → Type 0
        Same found taken =
            ((TakeOf name m n
                (found >>= λ weight. PartsOf (shape_eq weight.shape (m ∷ n ∷ [])) scale bias)
                taken.0 taken.1).0
              ≡ ok l)
            ↔ ((found >>= λ weight.
                  DenseOf name m n (shape_eq weight.shape (m ∷ n ∷ [])) weight.contents scale bias)
                ≡ ok l)

        by_tensor :
            (index : ℕ) (x : Option (MarianTensor fl.F32)) → Same (or_crash x) (TakenAt index x)
        by_tensor index none = (λ h. absurd cc, λ h. absurd cc)
        by_tensor index (some t) =
            same_operators name m n t.shape _ l (shape_eq t.shape (m ∷ n ∷ [])) t.contents scale
              bias

        by_entry :
            (o : Option ℕ)
            → Same
                (ok_or o missing_tensor >>= λ index. or_crash (get_elem? model.tensors index))
                (TakenFrom o)
        by_entry none = (λ h. absurd cc, λ h. absurd cc)
        by_entry (some index) = by_tensor index (get_elem? model.tensors index)
