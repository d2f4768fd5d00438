-- ===== src/Cpu/Binary/Payload.antt =====
-- The data of a tensor: as many values as the shape has elements, and each of them usable.
use marian_edge.Common.{
  ok_or, length-map, ℕ, zero, suc, ◌+◌, ◌*◌, ◌%◌, ◌≤◌, ◌<◌, ◌≡◌, refl, sym, ap, ◌∙◌, subst, true,
  false, not, not-false, ◌||◌, ||_split, List, [], ◌∷◌, map, Option, none, some, ltb, ◌==◌, ==_iff,
  any, length, length-take, length-drop, take, drop, All, checked_add, Ensures, Ensures-bind,
  Ensures-fail_if, Ensures-ok_or, Ensures-or_crash, arith,
}
use marian_edge.Text.{Text}
use marian_edge.Cpu.Binary.{
  data_alignment, invalid_tensor, Floats, MarianTensorType, int8, float32, intgemm8,
  MarianTensorData, int8_data, float32_data, intgemm8_data, MarianTensor, Header, checked_elements,
  checked_mul, logical_data_length, align_up, take_bytes,
}
use marian_edge.Cpu.Binary.Parse.{
  take_checked, drop_checked, as_i8, is_i8_min, is_nonzero, read_floats, read_data,
  expected_data_length, read_tensor, read_tensors,
}
use marian_edge.Cpu.Binary.Model.{elements}
use marian_edge.Cpu.Binary.Bytes.{
  checked_mul_lem, checked_add_lem, align_up_lem, checked_elements_lem, take_checked_lem,
  drop_checked_lem, take_bytes_lem,
}
use marian_edge.Cpu.Binary.Headers.{IsShape}

-- The bytes of the values, without the padding.
abbrev pub logical_length : MarianTensorType → ℕ → ℕ
logical_length int8 n = n
logical_length float32 n = n * 4
logical_length intgemm8 n = n + 4

-- The length of the record in the file: int8 is not padded, the others are, to a multiple of the alignment.
abbrev pub IsStored : MarianTensorType → ℕ → ℕ → Type 0
IsStored int8 n size = size ≡ n
IsStored float32 n size =
    (n * 4 ≤ size) × (size < n * 4 + data_alignment) × (size % data_alignment ≡ 0)
IsStored intgemm8 n size =
    (n + 4 ≤ size) × (size < n + 4 + data_alignment) × (size % data_alignment ≡ 0)

ok_or_lem :
    (P : ℕ → Type 0) (o : Option ℕ)
    → ((n : ℕ) → o ≡ some n → P n)
    → Ensures P (ok_or o invalid_tensor)
ok_or_lem P none h = tt
ok_or_lem P (some n) h = h n refl

le_of : (n m : ℕ) → ltb m n ≡ false → n ≤ m
le_of n m h = ground (arith, h)

logical_data_length_lem :
    (type : MarianTensorType) (n : ℕ)
    → Ensures (λ l. l ≡ logical_length type n) (logical_data_length type n)
unfolding logical_data_length
logical_data_length_lem int8 n = refl
logical_data_length_lem float32 n =
    ok_or_lem (λ l. l ≡ n * 4) (checked_mul n 4) λ l e. (checked_mul_lem n 4 l e).0
logical_data_length_lem intgemm8 n =
    ok_or_lem (λ l. l ≡ n + 4) (checked_add n 4) λ l e. (checked_add_lem n 4 l e).0

module _ (fl : Floats) where
  abbrev pub IsFinite : fl.F32 → Type 0
  IsFinite value = fl.is_finite value ≡ true

  -- A multiplier that one can divide by.
  abbrev pub IsScale : fl.F32 → Type 0
  IsScale value = (fl.is_finite value ≡ true) × (fl.at_most_zero value ≡ false)

  -- `n` values of the type.
  abbrev pub IsData : MarianTensorType → ℕ → MarianTensorData fl.F32 → Type 0
  IsData int8 n (int8_data values) = length values ≡ n
  IsData int8 n (float32_data values) = ⊥
  IsData int8 n (intgemm8_data values scale) = ⊥
  IsData float32 n (int8_data values) = ⊥
  IsData float32 n (float32_data values) = (length values ≡ n) × All IsFinite values
  IsData float32 n (intgemm8_data values scale) = ⊥
  IsData intgemm8 n (int8_data values) = ⊥
  IsData intgemm8 n (float32_data values) = ⊥
  IsData intgemm8 n (intgemm8_data values scale) =
      (length values ≡ n) × (any is_i8_min values ≡ false) × IsScale scale

  read_floats_lem :
      (n : ℕ) (bytes : List ℕ)
      → length bytes ≡ n * 4
      → Ensures (λ vs. (length vs ≡ n) × All IsFinite vs) (read_floats fl bytes)
  unfolding read_floats
  read_floats_lem zero [] h = (refl, tt)
  read_floats_lem zero (a ∷ bytes) h = absurd (omega (arith, h))
  read_floats_lem (suc n) [] h = absurd (omega (arith, h))
  read_floats_lem (suc n) (a ∷ []) h = absurd (omega (arith, h))
  read_floats_lem (suc n) (a ∷ b ∷ []) h = absurd (omega (arith, h))
  read_floats_lem (suc n) (a ∷ b ∷ c ∷ []) h = absurd (omega (arith, h))
  read_floats_lem (suc n) (a ∷ b ∷ c ∷ d ∷ bytes) h =
      Ensures-fail_if Floats' (not (fl.is_finite (fl.from_le_bytes (a ∷ b ∷ c ∷ d ∷ []))))
        invalid_tensor _
        λ finite.
          Ensures-bind _ Floats' (read_floats fl bytes) _
            (read_floats_lem n bytes (omega (arith, h)))
            λ vs (m, rest). (ap suc m, (not-false _ finite, rest))
    where
      Floats' : List fl.F32 → Type 0
      Floats' vs = (length vs ≡ suc n) × All IsFinite vs

  pub scale_lem :
      (value : fl.F32) → (not (fl.is_finite value) || fl.at_most_zero value) ≡ false → IsScale value
  scale_lem value h =
      let (f, z) = ||_split (not (fl.is_finite value)) (fl.at_most_zero value) h in
      (not-false _ f, z)

  length-map_i8 : (n : ℕ) (xs : List ℕ) → n ≤ length xs → length (map as_i8 (take n xs)) ≡ n
  length-map_i8 n xs h = length-map as_i8 (take n xs) ∙ length-take n xs h

  read_data_lem :
      (type : MarianTensorType) (n : ℕ) (payload : List ℕ)
      → Ensures (IsData type n) (read_data fl type n payload)
  unfolding read_data
  read_data_lem int8 n payload =
      Ensures-fail_if (IsData int8 n) (ltb (length payload) n) invalid_tensor _ λ enough.
        let fits = le_of n (length payload) enough in
        Ensures-or_crash (IsData int8 n) (take_checked n payload) (take n payload) _
          (take_checked_lem n payload fits) (length-map_i8 n payload fits)
  read_data_lem float32 n payload =
      Ensures-ok_or (IsData float32 n) (checked_mul n 4) invalid_tensor _ λ l e.
        Ensures-fail_if (IsData float32 n) (ltb (length payload) l) invalid_tensor _ λ enough.
          let fits = le_of l (length payload) enough in
          Ensures-or_crash (IsData float32 n) (take_checked l payload) (take l payload) _
            (take_checked_lem l payload fits)
            (Ensures-bind _ (IsData float32 n) (read_floats fl (take l payload)) _
              (read_floats_lem n (take l payload)
                (length-take l payload fits ∙ (checked_mul_lem n 4 l e).0))
              λ vs h. h)
  read_data_lem intgemm8 n payload =
      Ensures-ok_or (IsData intgemm8 n) (checked_add n 4) invalid_tensor _ λ l e.
        Ensures-fail_if (IsData intgemm8 n) (ltb (length payload) l) invalid_tensor _ λ enough.
          let fits = le_of l (length payload) enough in
          let sum = (checked_add_lem n 4 l e).0 in
          Ensures-or_crash (IsData intgemm8 n) (take_checked n payload) (take n payload) _
            (take_checked_lem n payload (omega (arith, fits, sum)))
            (Ensures-fail_if (IsData intgemm8 n) (any is_i8_min (map as_i8 (take n payload)))
              invalid_tensor _
              λ symmetric.
                Ensures-or_crash (IsData intgemm8 n) (take_checked 4 (drop n payload))
                  (take 4 (drop n payload)) _
                  (take_checked_lem 4 (drop n payload)
                    (omega (arith, length-drop n payload, fits, sum)))
                  (Ensures-fail_if (IsData intgemm8 n)
                    (not (fl.is_finite (fl.from_le_bytes (take 4 (drop n payload))))
                      || fl.at_most_zero (fl.from_le_bytes (take 4 (drop n payload))))
                    invalid_tensor _
                    λ usable. (
                      length-map_i8 n payload (omega (arith, fits, sum)),
                      symmetric,
                      scale_lem _ usable,
                    )))

  expected_data_length_lem :
      (type : MarianTensorType) (n : ℕ)
      → Ensures
          (λ size. (logical_length type n ≤ size) × IsStored type n size)
          (expected_data_length fl type (logical_length type n))
  unfolding expected_data_length
  expected_data_length_lem int8 n = (omega arith, refl)
  expected_data_length_lem float32 n =
      ok_or_lem _ (align_up (n * 4) data_alignment)
        λ size e. let h = align_up_lem (n * 4) size e in (h.0, h)
  expected_data_length_lem intgemm8 n =
      ok_or_lem _ (align_up (n + 4) data_alignment)
        λ size e. let h = align_up_lem (n + 4) size e in (h.0, h)

  -- What is right with a tensor.
  pub record IsTensor (tensor : MarianTensor fl.F32) : Type 0 where
    pub named : 1 ≤ length tensor.name
    pub shaped : IsShape tensor.shape
    pub filled : IsData tensor.tensor_type (elements tensor.shape) tensor.contents
    pub stored : IsStored tensor.tensor_type (elements tensor.shape) tensor.data_length

  -- The bytes of all records.
  abbrev pub stored_bytes : List (MarianTensor fl.F32) → ℕ
  stored_bytes [] = 0
  stored_bytes (tensor ∷ tensors) = tensor.data_length + stored_bytes tensors

  abbrev pub names_of : List (MarianTensor fl.F32) → List Text
  names_of tensors = map (λ t. t.name) tensors

  module _ (from_utf8 : List ℕ → Option Text) (bytes : List ℕ) where
    read_tensor_lem :
        (header : Header) (name : Text) (shape : List ℕ) (p : ℕ)
        → 1 ≤ length name
        → IsShape shape
        → Ensures
            (λ r.
              IsTensor r.0 × (r.0.name ≡ name) × (r.1 ≡ p + r.0.data_length) × (r.1 ≤ length bytes))
            (read_tensor fl from_utf8 bytes header name shape p)
    unfolding read_tensor
    read_tensor_lem header name shape p named shaped =
        Ensures-bind _ Read (checked_elements shape) _ (checked_elements_lem shape) λ n (is, _).
          Ensures-bind _ Read (take_bytes bytes p header.data_length) _
            (take_bytes_lem bytes p header.data_length)
            λ payload (size, next, inside).
              Ensures-bind _ Read (logical_data_length header.tensor_type n) _
                (logical_data_length_lem header.tensor_type n)
                λ l logical.
                  Ensures-bind _ Read (expected_data_length fl header.tensor_type l) _
                    (subst
                      (λ k.
                        Ensures
                          (λ size.
                            (logical_length header.tensor_type n ≤ size)
                            × IsStored header.tensor_type n size)
                          (expected_data_length fl header.tensor_type k))
                      (sym logical) (expected_data_length_lem header.tensor_type n))
                    λ expected (room, stored).
                      Ensures-fail_if Read (not (header.data_length == expected)) invalid_tensor _
                        λ same.
                          let e = (==_iff header.data_length expected).0 (not-false _ same) in
                          Ensures-or_crash Read (drop_checked l payload.0) (drop l payload.0) _
                            (drop_checked_lem l payload.0 (omega (arith, logical, room, e, size)))
                            (Ensures-fail_if Read (any is_nonzero (drop l payload.0)) invalid_tensor
                              _
                              λ _.
                                Ensures-bind _ Read (read_data fl header.tensor_type n payload.0) _
                                  (read_data_lem header.tensor_type n payload.0)
                                  λ contents filled. (
                                    record {
                                      named = named;
                                      shaped = shaped;
                                      filled =
                                          subst (λ k. IsData header.tensor_type k contents) is
                                            filled;
                                      stored =
                                          subst
                                            (λ k. IsStored header.tensor_type k header.data_length)
                                            is
                                            (subst (IsStored header.tensor_type n) (sym e) stored);
                                    },
                                    refl,
                                    next,
                                    inside,
                                  ))
      where
        Read : MarianTensor fl.F32 × ℕ → Type 0
        Read r =
            IsTensor r.0 × (r.0.name ≡ name) × (r.1 ≡ p + r.0.data_length) × (r.1 ≤ length bytes)

    pub read_tensors_lem :
        (headers : List Header) (names : List Text) (shapes : List (List ℕ)) (p : ℕ)
        → length names ≡ length headers
        → length shapes ≡ length headers
        → All (λ n. 1 ≤ length n) names
        → All IsShape shapes
        → p ≤ length bytes
        → Ensures
            (λ r.
              All IsTensor r.0
              × (names_of r.0 ≡ names)
              × (r.1 ≡ p + stored_bytes r.0)
              × (r.1 ≤ length bytes))
            (read_tensors fl from_utf8 bytes headers names shapes p)
    unfolding read_tensors
    read_tensors_lem [] [] shapes p ns ss named shaped inside = (tt, refl, omega arith, inside)
    read_tensors_lem [] (n ∷ names) shapes p ns ss named shaped inside = absurd (omega (arith, ns))
    read_tensors_lem (h ∷ hs) [] shapes p ns ss named shaped inside = absurd (omega (arith, ns))
    read_tensors_lem (h ∷ hs) (n ∷ names) [] p ns ss named shaped inside =
        absurd (omega (arith, ss))
    read_tensors_lem (h ∷ hs) (n ∷ names) (s ∷ shapes) p ns ss named shaped inside =
        Ensures-bind _ Read (read_tensor fl from_utf8 bytes h n s p) _
          (read_tensor_lem h n s p named.0 shaped.0)
          λ t (good, is, next, within).
            Ensures-bind _ Read (read_tensors fl from_utf8 bytes hs names shapes t.1) _
              (read_tensors_lem hs names shapes t.1 (omega (arith, ns)) (omega (arith, ss)) named.1
                shaped.1 within)
              λ ts (goods, are, after, end).
                ((good, goods), same is are, omega (arith, after, next), end)
      where
        Read : List (MarianTensor fl.F32) × ℕ → Type 0
        Read r =
            All IsTensor r.0
            × (names_of r.0 ≡ n ∷ names)
            × (r.1 ≡ p + stored_bytes r.0)
            × (r.1 ≤ length bytes)

        same : {a b : Text} {as' bs : List Text} → a ≡ b → as' ≡ bs → a ∷ as' ≡ b ∷ bs
        same e f = cc
