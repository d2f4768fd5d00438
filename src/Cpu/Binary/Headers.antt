-- ===== src/Cpu/Binary/Headers.antt =====
-- The parts of a file before the data: headers, names and shapes.
use marian_edge.Common.{
  All-map, Ensures-elim, ℕ, ℤ, pos, negsuc, zero, suc, ◌+◌, ◌-◌, ◌≤◌, ◌≡◌, refl, sym, ap, ◌∙◌, Bool,
  true, false, not, ◌&&◌, ◌||◌, List, [], ◌∷◌, ◌++◌, append_assoc, append-nil, Option, none, some,
  ltb, leb, ◌==◌, if◌then◌else◌, any, length, take, All, usize_max, Ensures, Ensures-bind,
  Ensures-fail_if, Ensures-ok_or, arith,
}
use marian_edge.Text.{Text, text_eq}
use marian_edge.Cpu.Binary.{
  type_intgemm8, maximum_file_bytes, maximum_name_bytes, maximum_rank, invalid_format, Floats,
  type_int8, type_float32, from_raw, Header, get_name, checked_elements, take_bytes, read_u64,
  read_usize_u64, read_i32,
}
use marian_edge.Cpu.Binary.Parse.{
  last?, is_zero_byte, is_zero, read_header, read_headers, read_name, read_names, read_shape,
  read_shapes, dimension_of,
}
use marian_edge.Cpu.Binary.Model.{elements}
use marian_edge.Cpu.Binary.Bytes.{
  take_bytes_lem, read_u64_lem, read_usize_u64_lem, read_i32_lem, checked_elements_lem,
}

-- The names with their indices, from `o` on.
abbrev pub indexed : ℕ → List Text → List (Text × ℕ)
indexed o [] = []
indexed o (name ∷ names) = (name, o) ∷ indexed (suc o) names

-- No name stands twice.
abbrev pub AreDistinct : List Text → Type 0
AreDistinct [] = Unit
AreDistinct (name ∷ names) = All (λ n. text_eq name n ≡ false) names × AreDistinct names

abbrev pub IsShape : List ℕ → Type 0
IsShape shape =
    (1 ≤ length shape)
    × (length shape ≤ maximum_rank)
    × All (λ d. 1 ≤ d) shape
    × (elements shape ≤ usize_max)

abbrev pub IsRank : Header → Type 0
IsRank header = (1 ≤ header.shape_length) × (header.shape_length ≤ maximum_rank)

untaken :
    (b : Bool) (index : ℕ) (o : Option ℕ)
    → (if b then some index else o) ≡ none
    → (b ≡ false) × (o ≡ none)
untaken true index o h = absurd cc
untaken false index o h = (refl, h)

get_name-append :
    (entries : List (Text × ℕ)) (name : Text) (index : ℕ) (n : Text)
    → get_name (entries ++ (name, index) ∷ []) n ≡ none
    → (get_name entries n ≡ none) × (text_eq name n ≡ false)
unfolding get_name
get_name-append [] name index n h = (refl, (untaken (text_eq name n) index none h).0)
get_name-append (entry ∷ entries) name index n h =
    let (other, rest) =
      untaken (text_eq entry.0 n) entry.1 (get_name (entries ++ (name, index) ∷ []) n) h in
    let (free, differs) = get_name-append entries name index n rest in
    (rw (other, get_name) free, differs)

module _ (from_utf8 : List ℕ → Option Text) (fl : Floats) (bytes : List ℕ) where
  from_raw_lem : (raw : ℕ) → Ensures (λ _. Unit {0}) (from_raw raw)
  unfolding from_raw
  from_raw_lem raw =
      Ensures-elim (λ _. Unit {0}) (raw == type_int8) _ _ (λ _. tt)
        λ _.
          Ensures-elim (λ _. Unit {0}) (raw == type_float32) _ _ (λ _. tt)
            λ _. Ensures-elim (λ _. Unit {0}) (raw == type_intgemm8) _ _ (λ _. tt) λ _. tt

  read_header_lem : (p : ℕ) → Ensures (λ r. IsRank r.0) (read_header fl from_utf8 bytes p)
  unfolding read_header
  read_header_lem p =
      Ensures-bind _ Ranked (read_usize_u64 bytes p) _ (read_usize_u64_lem bytes p) λ name_length _.
        Ensures-bind _ Ranked (read_u64 bytes name_length.1) _ (read_u64_lem bytes name_length.1)
          λ raw _. Ensures-bind _ Ranked (from_raw raw.0) _ (from_raw_lem raw.0) λ tensor_type _.
            Ensures-bind _ Ranked (read_usize_u64 bytes raw.1) _ (read_usize_u64_lem bytes raw.1)
              λ rank _.
                Ensures-bind _ Ranked (read_usize_u64 bytes rank.1) _
                  (read_usize_u64_lem bytes rank.1)
                  λ size _.
                    Ensures-fail_if Ranked
                      (not (leb 2 name_length.0 && leb name_length.0 maximum_name_bytes))
                      invalid_format _
                      λ _.
                        Ensures-fail_if Ranked (rank.0 == 0 || ltb maximum_rank rank.0)
                          invalid_format _
                          λ ranked.
                            Ensures-fail_if Ranked (size.0 == 0 || ltb maximum_file_bytes size.0)
                              invalid_format _ λ _. bounds rank.0 ranked
    where
      Ranked : Header × ℕ → Type 0
      Ranked r = IsRank r.0

      bounds : (n : ℕ) → (n == 0 || ltb maximum_rank n) ≡ false → (1 ≤ n) × (n ≤ maximum_rank)
      bounds n h = ground (arith, h)

  pub read_headers_lem :
      (count p : ℕ)
      → Ensures
          (λ r. (length r.0 ≡ count) × All IsRank r.0)
          (read_headers fl from_utf8 bytes count p)
  unfolding read_headers
  read_headers_lem zero p = (refl, tt)
  read_headers_lem (suc count) p =
      Ensures-bind (λ r. IsRank r.0) Listed (read_header fl from_utf8 bytes p) _ (read_header_lem p)
        λ h ranked.
          Ensures-bind _ Listed (read_headers fl from_utf8 bytes count h.1) _
            (read_headers_lem count h.1) λ hs (n, rest). (ap suc n, (ranked, rest))
    where
      Listed : List Header × ℕ → Type 0
      Listed r = (length r.0 ≡ suc count) × All IsRank r.0

  read_name_lem :
      (index : ℕ) (header : Header) (by_name : List (Text × ℕ)) (p : ℕ)
      → Ensures
          (λ r. (1 ≤ length r.0) × (get_name by_name r.0 ≡ none))
          (read_name fl from_utf8 bytes index header by_name p)
  unfolding read_name
  read_name_lem index header by_name p =
      Ensures-bind _ New (take_bytes bytes p header.name_length) _
        (take_bytes_lem bytes p header.name_length)
        λ raw _.
          Ensures-fail_if New
            (not (is_zero_byte (last? raw.0)) || any is_zero (take (length raw.0 - 1) raw.0))
            invalid_format _
            λ _.
              Ensures-ok_or New (from_utf8 (take (length raw.0 - 1) raw.0)) invalid_format _
                λ name _. Ensures-fail_if New (length name == 0) invalid_format _ λ filled.
                  Ensures-fail_if New
                    (elim (get_name by_name name) [ some old ↦ true | none ↦ false ]) invalid_format
                    _
                    λ free. (filled_lem (length name) filled, free_lem (get_name by_name name) free)
    where
      New : Text × ℕ → Type 0
      New r = (1 ≤ length r.0) × (get_name by_name r.0 ≡ none)

      filled_lem : (n : ℕ) → (n == 0) ≡ false → 1 ≤ n
      filled_lem n h = ground (arith, h)

      free_lem : (o : Option ℕ) → elim o [ some old ↦ true | none ↦ false ] ≡ false → o ≡ none
      free_lem none h = refl
      free_lem (some old) h = absurd cc

  -- The names, one for each header, are new and different, and the map has got their indices.
  pub record AreNames (index : ℕ) (headers : List Header) (by_name : List (Text × ℕ))
      (names : List Text) (after : List (Text × ℕ)) : Type 0 where
    pub one_each : length names ≡ length headers
    pub filled : All (λ n. 1 ≤ length n) names
    pub fresh : All (λ n. get_name by_name n ≡ none) names
    pub distinct : AreDistinct names
    pub entered : after ≡ by_name ++ indexed index names

  pub read_names_lem :
      (index : ℕ) (headers : List Header) (by_name : List (Text × ℕ)) (p : ℕ)
      → Ensures
          (λ r. AreNames index headers by_name r.0 r.1.0)
          (read_names fl from_utf8 bytes index headers by_name p)
  unfolding read_names
  read_names_lem index [] by_name p = record {
    one_each = refl;
    filled = tt;
    fresh = tt;
    distinct = tt;
    entered = sym (append-nil by_name);
  }
  read_names_lem index (header ∷ headers) by_name p =
      Ensures-bind _ Named (read_name fl from_utf8 bytes index header by_name p) _
        (read_name_lem index header by_name p)
        λ name (filled, free).
          Ensures-bind _ Named
            (read_names fl from_utf8 bytes (index + 1) headers (by_name ++ (name.0, index) ∷ [])
              name.1)
            _ (read_names_lem (index + 1) headers (by_name ++ (name.0, index) ∷ []) name.1)
            λ names v.
              let split =
                All-map (λ n h. get_name-append by_name name.0 index n h) names.0 v.fresh in
              record {
                one_each = ap suc v.one_each;
                filled = (filled, v.filled);
                fresh = (free, All-map (λ n h. h.0) names.0 split);
                distinct = (All-map (λ n h. h.1) names.0 split, v.distinct);
                entered =
                    v.entered
                    ∙ append_assoc by_name ((name.0, index) ∷ []) (indexed (index + 1) names.0)
                    ∙ ap (λ k. by_name ++ (name.0, index) ∷ indexed k names.0) (one index);
              }
    where
      Named : List Text × (List (Text × ℕ) × ℕ) → Type 0
      Named r = AreNames index (header ∷ headers) by_name r.0 r.1.0

      one : (n : ℕ) → n + 1 ≡ suc n
      one n = omega arith

  dimension_of_lem : (z : ℤ) → Ensures (λ d. 1 ≤ d) (dimension_of fl from_utf8 bytes z)
  dimension_of_lem (pos n) =
      Ensures-fail_if (λ d. 1 ≤ d) (n == 0) invalid_format _ λ h. ground (arith, h)
  dimension_of_lem (negsuc n) = tt

  read_shape_lem :
      (left p : ℕ)
      → Ensures
          (λ r. (length r.0 ≡ left) × All (λ d. 1 ≤ d) r.0)
          (read_shape fl from_utf8 bytes left p)
  unfolding read_shape
  read_shape_lem zero p = (refl, tt)
  read_shape_lem (suc left) p =
      Ensures-bind _ Shaped (read_i32 bytes p) _ (read_i32_lem bytes p) λ value _.
        Ensures-bind (λ d. 1 ≤ d) Shaped (dimension_of fl from_utf8 bytes value.0) _
          (dimension_of_lem value.0)
          λ d positive.
            Ensures-bind _ Shaped (read_shape fl from_utf8 bytes left value.1) _
              (read_shape_lem left value.1) λ shape (n, rest). (ap suc n, (positive, rest))
    where
      Shaped : List ℕ × ℕ → Type 0
      Shaped r = (length r.0 ≡ suc left) × All (λ d. 1 ≤ d) r.0

  pub read_shapes_lem :
      (headers : List Header) (p : ℕ)
      → All IsRank headers
      → Ensures
          (λ r. (length r.0 ≡ length headers) × All IsShape r.0)
          (read_shapes fl from_utf8 bytes headers p)
  unfolding read_shapes
  read_shapes_lem [] p h = (refl, tt)
  read_shapes_lem (header ∷ headers) p ((low, high), h) =
      Ensures-bind _ Shaped (read_shape fl from_utf8 bytes header.shape_length p) _
        (read_shape_lem header.shape_length p)
        λ shape (n, positive).
          Ensures-bind _ Shaped (checked_elements shape.0) _ (checked_elements_lem shape.0)
            λ e (is, fits).
              Ensures-bind _ Shaped (read_shapes fl from_utf8 bytes headers shape.1) _
                (read_shapes_lem headers shape.1 h)
                λ shapes (m, rest). (
                  ap suc m,
                  (
                    (
                      omega (arith, n, low),
                      omega (arith, n, high),
                      positive,
                      omega (arith, is, fits),
                    ),
                    rest,
                  ),
                )
    where
      Shaped : List (List ℕ) × ℕ → Type 0
      Shaped r = (length r.0 ≡ length (header ∷ headers)) × All IsShape r.0
