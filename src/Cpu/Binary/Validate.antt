-- ===== src/Cpu/Binary/Validate.antt =====
-- What `validate_q8` accepts, and what it counts.
use marian_edge.Common.{
  ℕ, ◌+◌, ◌≤◌, ◌≡◌, refl, subst, Bool, true, false, not, not-false, ◌&&◌, ◌||◌, List, [], ◌∷◌, ◌++◌,
  Option, none, some, ◌==◌, ==_iff, if◌then◌else◌, length, get_elem?-within, retain, All, ok, err,
  crash, ◌>>=◌, fail_if, Ensures, Ensures-bind, Ensures-fail_if, Ensures-mono, arith,
}
use marian_edge.Text.{Text, codes}
use marian_edge.Cpu.Binary.{
  invalid_format, invalid_tensor, Loaded, Floats, MarianTensorType, int8, float32, intgemm8,
  MarianTensorData, int8_data, float32_data, intgemm8_data, MarianTensor, MarianBinaryModel,
}
use marian_edge.Cpu.Binary.Model.{
  activation_scale_suffix, strip_suffix, ends_with, elements, Q8ValidationReport, is_intgemm8,
  find_tensor, scale_of, scalar_activation_scale, activation_scale_for, validate_tensor,
  validate_tensors, validate_q8,
}
use marian_edge.Cpu.Binary.Payload.{IsData, IsScale, scale_lem}
use marian_edge.Cpu.Binary.WellFormed.{IsModel}
use marian_edge.Cpu.Binary.Lookup.{find_tensor-IsTensor}

module _ (fl : Floats) where
  -- A usable scale under a name.
  abbrev pub HasScale : MarianBinaryModel fl.F32 → Text → Type 0
  HasScale model name =
      (scale : fl.F32) × (scalar_activation_scale fl model name ≡ ok scale) × IsScale fl scale

  abbrev pub HasWeight : MarianBinaryModel fl.F32 → Text → Type 0
  HasWeight model name =
      (weight : MarianTensor fl.F32) × (find_tensor fl model name ≡ ok weight)
      × (is_intgemm8 fl weight ≡ true)

  -- By the tensor's name without the suffix of scales, whether it is Q8, and whether it is an embedding.
  abbrev PairedAs :
      MarianBinaryModel fl.F32 → MarianTensor fl.F32 → Option Text → Bool → Bool → Type 0
  PairedAs model t (some weight) q e = HasScale model t.name × HasWeight model weight
  PairedAs model t none false e = Unit
  PairedAs model t none true true = length t.shape ≡ 2
  PairedAs model t none true false =
      (length t.shape ≡ 2) × HasScale model (t.name ++ activation_scale_suffix)

  -- A scale is usable and has a Q8 weight; a Q8 weight has two dimensions and, but for embeddings, a scale.
  abbrev pub IsPaired : MarianBinaryModel fl.F32 → MarianTensor fl.F32 → Type 0
  IsPaired model t =
      PairedAs model t (strip_suffix t.name activation_scale_suffix) (is_intgemm8 fl t)
        (ends_with t.name (codes "_Wemb"))

  abbrev pub is_scale : MarianTensor fl.F32 → Bool
  is_scale t = elim (strip_suffix t.name activation_scale_suffix) [ some w ↦ true | none ↦ false ]

  abbrev pub is_embedding : MarianTensor fl.F32 → Bool
  is_embedding t = not (is_scale t) && (is_intgemm8 fl t && ends_with t.name (codes "_Wemb"))

  abbrev pub is_dense : MarianTensor fl.F32 → Bool
  is_dense t = not (is_scale t) && (is_intgemm8 fl t && not (ends_with t.name (codes "_Wemb")))

  abbrev count_of : (MarianTensor fl.F32 → Bool) → List (MarianTensor fl.F32) → ℕ
  count_of test tensors = length (retain test tensors)

  abbrev bit : Bool → ℕ
  bit true = 1
  bit false = 0

  count_of_cons :
      (test : MarianTensor fl.F32 → Bool) (t : MarianTensor fl.F32)
      (ts : List (MarianTensor fl.F32))
      → count_of test (t ∷ ts) ≡ bit (test t) + count_of test ts
  count_of_cons test t ts = by_test (test t) (retain test ts)
    where
      by_test :
          (b : Bool) (kept : List (MarianTensor fl.F32))
          → length (if b then t ∷ kept else kept) ≡ bit b + length kept
      by_test true kept = omega arith
      by_test false kept = omega arith

  -- A scalar has a first value.
  scale_of_lem :
      (type : MarianTensorType) (contents : MarianTensorData fl.F32)
      → IsData fl type 1 contents
      → Ensures (λ _. Unit {0}) (scale_of fl contents)
  unfolding scale_of
  scale_of_lem type (int8_data values) h = tt
  scale_of_lem float32 (float32_data values) (n, _) =
      let (x, e) = get_elem?-within values 0 (omega (arith, n)) in rw e tt
  scale_of_lem int8 (float32_data values) h = absurd h
  scale_of_lem intgemm8 (float32_data values) h = absurd h
  scale_of_lem intgemm8 (intgemm8_data values scale) (n, _, _) =
      let (x, e) = get_elem?-within values 0 (omega (arith, n)) in rw e tt
  scale_of_lem int8 (intgemm8_data values scale) h = absurd h
  scale_of_lem float32 (intgemm8_data values scale) h = absurd h

  module _ (model : MarianBinaryModel fl.F32) (v : IsModel fl model) where
    pub scalar_activation_scale_lem :
        (name : Text) → Ensures (IsScale fl) (scalar_activation_scale fl model name)
    unfolding scalar_activation_scale
    scalar_activation_scale_lem name =
        Ensures-bind _ (IsScale fl) (find_tensor fl model name) _
          (find_tensor-IsTensor fl model name v)
          λ t (good, _, _).
            Ensures-fail_if (IsScale fl) (not (elements t.shape == 1)) invalid_tensor _ λ scalar.
              let one = (==_iff (elements t.shape) 1).0 (not-false _ scalar) in
              Ensures-bind _ (IsScale fl) (scale_of fl t.contents) _
                (scale_of_lem t.tensor_type t.contents
                  (subst (λ n. IsData fl t.tensor_type n t.contents) one good.filled))
                λ scale _.
                  Ensures-fail_if (IsScale fl) (not (fl.is_finite scale) || fl.at_most_zero scale)
                    invalid_tensor _ λ usable. scale_lem fl scale usable

    -- The same with the equation, for the caller.
    scale_found :
        (name : Text) → Ensures (λ _. HasScale model name) (scalar_activation_scale fl model name)
    scale_found name =
        by_result (scalar_activation_scale fl model name) refl (scalar_activation_scale_lem name)
      where
        by_result :
            (m : Loaded fl.F32)
            → scalar_activation_scale fl model name ≡ m
            → Ensures (IsScale fl) m
            → Ensures (λ _. HasScale model name) m
        by_result (ok scale) e h = (scale, e, h)
        by_result (err x) e h = tt
        by_result crash e h = h

    -- The report grows by the kind of the tensor.
    abbrev Grows : MarianTensor fl.F32 → Q8ValidationReport → Q8ValidationReport → Type 0
    Grows t before after =
        (after.dense_linears ≡ before.dense_linears + bit (is_dense t))
        × (after.embeddings ≡ before.embeddings + bit (is_embedding t))
        × (after.activation_scales ≡ before.activation_scales + bit (is_scale t))

    validate_tensor_lem :
        (t : MarianTensor fl.F32) (report : Q8ValidationReport)
        → Ensures (λ r. IsPaired model t × Grows t report r) (validate_tensor fl model t report)
    unfolding validate_tensor activation_scale_for
    validate_tensor_lem t report =
        by_kind (strip_suffix t.name activation_scale_suffix) (is_intgemm8 fl t)
          (ends_with t.name (codes "_Wemb"))
      where
        Result : Option Text → Bool → Bool → Q8ValidationReport → Type 0
        Result o q e r =
            PairedAs model t o q e
            × ((r.dense_linears
                  ≡ report.dense_linears
                    + bit (not (elim o [ some w ↦ true | none ↦ false ]) && (q && not e)))
                × (r.embeddings
                    ≡ report.embeddings
                      + bit (not (elim o [ some w ↦ true | none ↦ false ]) && (q && e)))
                × (r.activation_scales
                    ≡ report.activation_scales + bit (elim o [ some w ↦ true | none ↦ false ])))

        by_kind :
            (o : Option Text) (q e : Bool)
            → Ensures (Result o q e) (elim o [
              | some weight_name ↦ scalar_activation_scale fl model t.name >>= λ _.
                  find_tensor fl model weight_name >>= λ weight.
                  fail_if (not (is_intgemm8 fl weight)) invalid_tensor >>= λ _.
                  ok (record report { activation_scales = report.activation_scales + 1 })
              | none ↦ elim q [
                | false ↦ ok report
                | true ↦ fail_if (not (length t.shape == 2)) invalid_tensor >>= λ _. elim e [
                  | true ↦ ok (record report { embeddings = report.embeddings + 1 })
                  | false ↦
                      scalar_activation_scale fl model (t.name ++ activation_scale_suffix) >>= λ _.
                      ok (record report { dense_linears = report.dense_linears + 1 })
                ]
              ]
            ])
        by_kind (some w) q e =
            Ensures-bind _ (Result (some w) q e) (scalar_activation_scale fl model t.name) _
              (scale_found t.name)
              λ _ scale.
                Ensures-bind _ (Result (some w) q e) (find_tensor fl model w) _
                  (find_tensor-IsTensor fl model w v)
                  λ weight (_, _, found).
                    Ensures-fail_if (Result (some w) q e) (not (is_intgemm8 fl weight))
                      invalid_tensor _
                      λ quantized. (
                        (scale, (weight, found, not-false _ quantized)),
                        (omega arith, omega arith, omega arith),
                      )
        by_kind none false e = (tt, (omega arith, omega arith, omega arith))
        by_kind none true true =
            Ensures-fail_if (Result none true true) (not (length t.shape == 2)) invalid_tensor _
              λ flat. (
                (==_iff (length t.shape) 2).0 (not-false _ flat),
                (omega arith, omega arith, omega arith),
              )
        by_kind none true false =
            Ensures-fail_if (Result none true false) (not (length t.shape == 2)) invalid_tensor _
              λ flat.
                Ensures-bind _ (Result none true false)
                  (scalar_activation_scale fl model (t.name ++ activation_scale_suffix)) _
                  (scale_found (t.name ++ activation_scale_suffix))
                  λ _ scale. (
                    ((==_iff (length t.shape) 2).0 (not-false _ flat), scale),
                    (omega arith, omega arith, omega arith),
                  )

    -- The counts of the report, on top of those before.
    abbrev pub Tallies :
        List (MarianTensor fl.F32) → Q8ValidationReport → Q8ValidationReport → Type 0
    Tallies ts before after =
        (after.dense_linears ≡ before.dense_linears + count_of is_dense ts)
        × (after.embeddings ≡ before.embeddings + count_of is_embedding ts)
        × (after.activation_scales ≡ before.activation_scales + count_of is_scale ts)

    validate_tensors_lem :
        (ts : List (MarianTensor fl.F32)) (report : Q8ValidationReport)
        → Ensures
            (λ r. All (IsPaired model) ts × Tallies ts report r)
            (validate_tensors fl model ts report)
    unfolding validate_tensors
    validate_tensors_lem [] report = (tt, (omega arith, omega arith, omega arith))
    validate_tensors_lem (t ∷ ts) report =
        Ensures-bind _ Checked (validate_tensor fl model t report) _ (validate_tensor_lem t report)
          λ r (paired, (d, e, s)).
            Ensures-mono _ Checked (validate_tensors fl model ts r) (validate_tensors_lem ts r)
              λ r' (rest, (d', e', s')). (
                (paired, rest),
                (
                  omega (arith, d, d', count_of_cons is_dense t ts),
                  omega (arith, e, e', count_of_cons is_embedding t ts),
                  omega (arith, s, s', count_of_cons is_scale t ts),
                ),
              )
      where
        Checked : Q8ValidationReport → Type 0
        Checked r = All (IsPaired model) (t ∷ ts) × Tallies (t ∷ ts) report r

  -- What a report says of a model.
  pub record IsReport (model : MarianBinaryModel fl.F32) (report : Q8ValidationReport)
      : Type 0 where
    pub paired : All (IsPaired model) model.tensors
    pub dense : report.dense_linears ≡ length (retain is_dense model.tensors)
    pub embedded : report.embeddings ≡ length (retain is_embedding model.tensors)
    pub scaled : report.activation_scales ≡ length (retain is_scale model.tensors)
    pub not_empty : 1 ≤ report.dense_linears + report.embeddings

  -- For a well-formed model, the check does not panic; when it gives a report, every scale is usable and
  -- belongs to a Q8 weight of the model, every Q8 weight has two dimensions and, unless it is an embedding, a
  -- usable scale of its own, the report has the numbers of the three kinds, and there is a Q8 weight.
  pub validate_q8-IsReport :
      (model : MarianBinaryModel fl.F32)
      → IsModel fl model
      → Ensures (IsReport model) (validate_q8 fl model)
  unfolding validate_q8
  validate_q8-IsReport model v =
      Ensures-bind _ (IsReport model) (validate_tensors fl model model.tensors _) _
        (validate_tensors_lem model v model.tensors
          (record { dense_linears = 0; embeddings = 0; activation_scales = 0 }))
        λ report (paired, (d, e, s)).
          Ensures-fail_if (IsReport model) (report.dense_linears + report.embeddings == 0)
            invalid_format _
            λ some_weight. record {
              paired = paired;
              dense = omega (arith, d);
              embedded = omega (arith, e);
              scaled = omega (arith, s);
              not_empty = positive (report.dense_linears + report.embeddings) some_weight;
            }
    where
      positive : (n : ℕ) → (n == 0) ≡ false → 1 ≤ n
      positive n h = ground (arith, h)
