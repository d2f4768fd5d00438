-- ===== src/Cpu/Binary/WellFormed.antt =====
-- A model that `parse` accepts is well-formed.
use marian_edge.Common.{
  le→leb, fail_if, ℕ, ◌+◌, ◌-◌, ◌%◌, ◌≤◌, ◌≡◌, refl, sym, ap, ◌∙◌, subst, false, not, not-false,
  ◌||◌, List, [], Option, some, ltb, ◌==◌, ==_iff, any, length, length-map, All, ok, ◌>>=◌,
  or_crash, Ensures, Ensures-bind, Ensures-fail_if, Ensures-or_crash, arith,
}
use marian_edge.Text.{Text}
use marian_edge.Cpu.Binary.{
  marian_binary_version, maximum_file_bytes, maximum_tensors, data_alignment, invalid_format,
  Floats, MarianBinaryModel, Header, take_bytes, read_u64, read_usize_u64, remaining_bytes,
}
use marian_edge.Cpu.Binary.Parse.{
  is_nonzero, read_headers, read_names, read_shapes, read_tensors, parse,
}
use marian_edge.Cpu.Binary.Bytes.{take_bytes_lem, read_u64_lem, read_usize_u64_lem}
use marian_edge.Cpu.Binary.Headers.{
  IsRank, indexed, AreDistinct, read_headers_lem, read_names_lem, read_shapes_lem,
}
use marian_edge.Cpu.Binary.Payload.{IsTensor, stored_bytes, names_of, read_tensors_lem}

module _ (fl : Floats) where
  -- A model of between 1 and 4096 usable tensors with different names, which the map sends to their indices.
  pub record IsModel (model : MarianBinaryModel fl.F32) : Type 0 where
    pub some_tensors : 1 ≤ length model.tensors
    pub few_tensors : length model.tensors ≤ maximum_tensors
    pub usable : All (IsTensor fl) model.tensors
    pub distinct : AreDistinct (names_of fl model.tensors)
    pub entered : model.by_name ≡ indexed 0 (names_of fl model.tensors)

module _ (fl : Floats) (from_utf8 : List ℕ → Option Text) (bytes : List ℕ) where
  -- The records of the tensors fill the file from an aligned position to its end.
  abbrev pub IsFilled : MarianBinaryModel fl.F32 → Type 0
  IsFilled model =
      (start : ℕ) × (start % data_alignment ≡ 0)
      × (start + stored_bytes fl model.tensors ≡ length bytes)

  remaining_bytes_lem :
      (p : ℕ) → p ≤ length bytes → remaining_bytes bytes p ≡ some (length bytes - p)
  unfolding remaining_bytes
  remaining_bytes_lem p h = rw (le→leb p (length bytes) h) refl

  -- Whatever the bytes are, parsing does not panic; a model that it returns has between 1 and 4096 tensors
  -- with different names, which its map sends to their indices; each tensor has a shape of 1 to 8 positive
  -- dimensions and as many values of its type as the shape has elements, where the floats are finite, the
  -- multipliers positive, and no Q8 value is -128; and the records of the tensors, of the lengths that their
  -- types ask for, fill the file from an aligned position to its end.
  pub parse-IsModel :
      Ensures (λ model. IsModel fl model × IsFilled model) (parse fl from_utf8 bytes)
  unfolding parse
  parse-IsModel = Ensures-fail_if Good (ltb maximum_file_bytes (length bytes)) invalid_format _ λ _.
      Ensures-bind _ Good (read_u64 bytes 0) _ (read_u64_lem bytes 0) λ version _.
        Ensures-fail_if Good (not (version.0 == marian_binary_version)) invalid_format _ λ _.
          Ensures-bind _ Good (read_usize_u64 bytes version.1) _
            (read_usize_u64_lem bytes version.1)
            λ count _.
              Ensures-fail_if Good (count.0 == 0 || ltb maximum_tensors count.0) invalid_format _
                λ counted.
                  Ensures-bind _ Good (read_headers fl from_utf8 bytes count.0 count.1) _
                    (read_headers_lem from_utf8 fl bytes count.0 count.1)
                    λ headers (n, ranked). behind_headers count.0 headers counted n ranked
    where
      Good : MarianBinaryModel fl.F32 → Type 0
      Good model = IsModel fl model × IsFilled model

      range : (n : ℕ) → (n == 0 || ltb maximum_tensors n) ≡ false → (1 ≤ n) × (n ≤ maximum_tensors)
      range n h = ground (arith, h)

      behind_headers :
          (count : ℕ) (headers : List Header × ℕ)
          → (count == 0 || ltb maximum_tensors count) ≡ false
          → length headers.0 ≡ count
          → All IsRank headers.0
          → Ensures Good (
              read_names fl from_utf8 bytes 0 headers.0 [] headers.1 >>= λ names.
              read_shapes fl from_utf8 bytes headers.0 names.1.1 >>= λ shapes.
              read_usize_u64 bytes shapes.1 >>= λ offset.
              take_bytes bytes offset.1 offset.0 >>= λ padding.
              fail_if (any is_nonzero padding.0) invalid_format >>= λ _.
              fail_if (not (padding.1 % data_alignment == 0)) invalid_format >>= λ _.
              read_tensors fl from_utf8 bytes headers.0 names.0 shapes.0 padding.1 >>= λ tensors.
              or_crash (remaining_bytes bytes tensors.1) >>= λ left.
              fail_if (not (left == 0)) invalid_format >>= λ _.
              ok (record { tensors = tensors.0; by_name = names.1.0 }))
      behind_headers count headers counted n ranked =
          Ensures-bind _ Good (read_names fl from_utf8 bytes 0 headers.0 [] headers.1) _
            (read_names_lem from_utf8 fl bytes 0 headers.0 [] headers.1)
            λ names v.
              Ensures-bind _ Good (read_shapes fl from_utf8 bytes headers.0 names.1.1) _
                (read_shapes_lem from_utf8 fl bytes headers.0 names.1.1 ranked)
                λ shapes (m, shaped).
                  Ensures-bind _ Good (read_usize_u64 bytes shapes.1) _
                    (read_usize_u64_lem bytes shapes.1)
                    λ offset _.
                      Ensures-bind _ Good (take_bytes bytes offset.1 offset.0) _
                        (take_bytes_lem bytes offset.1 offset.0)
                        λ padding (_, _, inside).
                          Ensures-fail_if Good (any is_nonzero padding.0) invalid_format _ λ _.
                            Ensures-fail_if Good (not (padding.1 % data_alignment == 0))
                              invalid_format _
                              λ aligned.
                                Ensures-bind _ Good
                                  (read_tensors fl from_utf8 bytes headers.0 names.0 shapes.0
                                    padding.1)
                                  _
                                  (read_tensors_lem fl from_utf8 bytes headers.0 names.0 shapes.0
                                    padding.1 v.one_each m v.filled shaped inside)
                                  λ tensors (usable, are, next, end).
                                    Ensures-or_crash Good (remaining_bytes bytes tensors.1)
                                      (length bytes - tensors.1) _
                                      (remaining_bytes_lem tensors.1 end)
                                      (Ensures-fail_if Good (not (length bytes - tensors.1 == 0))
                                        invalid_format _
                                        λ whole.
                                          let total =
                                            ap length (sym are)
                                            ∙ length-map (λ t. t.name) tensors.0 in
                                          let (low, high) = range count counted in
                                          (
                                            record {
                                              some_tensors =
                                                  omega (arith, low, n, v.one_each, total);
                                              few_tensors =
                                                  omega (arith, high, n, v.one_each, total);
                                              usable = usable;
                                              distinct = subst AreDistinct (sym are) v.distinct;
                                              entered = v.entered ∙ ap (indexed 0) (sym are);
                                            },
                                            (
                                              padding.1,
                                              (==_iff (padding.1 % data_alignment) 0).0
                                                  (not-false _ aligned),
                                              omega (
                                                arith,
                                                next,
                                                end,
                                                (==_iff (length bytes - tensors.1) 0).0
                                                    (not-false _ whole),
                                              ),
                                            ),
                                          ))
