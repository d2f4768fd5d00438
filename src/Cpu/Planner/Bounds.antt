-- ===== src/Cpu/Planner/Bounds.antt =====
-- The batches of the planner are within the bounds of the engine.
use marian_edge.Common.{
  ℕ, suc, ◌+◌, ◌*◌, ◌≤◌, ◌≡◌, refl, subst, max, Bool-cases, false, ◌&&◌, List, [], ◌∷◌,
  Option-cases, inl, inr, ltb, leb, le→leb, length, get_elem?, if_cases, usize_max, ok, lt-or-le,
  arith,
}
use native.Mathlib.Nat.{mul-le-mul}
use marian_edge.Cpu.{maximum_engine_batch, maximum_padded_attention_cells}
use marian_edge.Cpu.Engine.{validate_work_shape}
use marian_edge.Cpu.Planner.{Slot, SegmentWork, attention_cells, fill_batch}

-- The length of the longest row.
abbrev pub longest_of : List SegmentWork → ℕ
longest_of [] = 0
longest_of (w ∷ ws) = max (length w.tokens) (longest_of ws)

small_cells :
    (rows len : ℕ)
    → ltb maximum_padded_attention_cells (attention_cells rows len) ≡ false
    → rows * len * len ≤ maximum_padded_attention_cells
unfolding attention_cells
small_cells rows len =
    if_cases
      (λ c.
        ltb maximum_padded_attention_cells c ≡ false
        → rows * len * len ≤ maximum_padded_attention_cells)
      (leb (rows * len) usize_max && leb (rows * len * len) usize_max) (rows * len * len) usize_max
      (λ _ h. ground (arith, h)) (λ _ h. absurd (ground (arith, h)))

-- A batch on top of rows that are there already.
IsWithin : ℕ → ℕ → List SegmentWork → Type 0
IsWithin rows longest ws =
    (rows + length ws ≤ maximum_engine_batch)
    × ((rows + length ws) * max longest (longest_of ws) * max longest (longest_of ws)
        ≤ maximum_padded_attention_cells)

no_rows :
    (rows longest : ℕ)
    → rows ≤ maximum_engine_batch
    → rows * longest * longest ≤ maximum_padded_attention_cells
    → IsWithin rows longest []
unfolding IsWithin
no_rows rows longest h k = (omega (arith, h), same_cells rows longest k)
  where
    same_cells :
        (n l : ℕ)
        → n * l * l ≤ maximum_padded_attention_cells
        → (n + 0) * max l 0 * max l 0 ≤ maximum_padded_attention_cells
    same_cells n l h =
        subst (λ m. m ≤ maximum_padded_attention_cells)
          (same (n + 0) (max l 0) (omega arith) (omega arith)) h
      where
        same : (m k : ℕ) → n ≡ m → l ≡ k → n * l * l ≡ m * k * k
        same m k e f = cc

fill_batch-IsWithin :
    (ss : List Slot) (rows longest : ℕ)
    → rows ≤ maximum_engine_batch
    → rows * longest * longest ≤ maximum_padded_attention_cells
    → IsWithin rows longest (fill_batch ss rows longest)
unfolding fill_batch IsWithin
fill_batch-IsWithin [] rows longest h k = no_rows rows longest h k
fill_batch-IsWithin (s ∷ ss) rows longest h k = elim (Option-cases (get_elem? s.work s.position)) [
  | inl e ↦ rw (e, fill_batch) (fill_batch-IsWithin ss rows longest h k)
  | inr (w, e) ↦ elim (Bool-cases (leb maximum_engine_batch rows)) [
    | inl full ↦ rw (e, full, fill_batch) (no_rows rows longest h k)
    | inr room ↦
        elim (Bool-cases (
          ltb maximum_padded_attention_cells
            (attention_cells (rows + 1) (max longest (length w.tokens))))) [
              | inl big ↦ rw (e, room, big, fill_batch) (fill_batch-IsWithin ss rows longest h k)
              | inr fits ↦
                  rw (e, room, fits, fill_batch)
                    (one_more w (fill_batch ss (rows + 1) (max longest (length w.tokens))) (
                      fill_batch-IsWithin ss (rows + 1) (max longest (length w.tokens))
                        (ground (arith, room))
                        (small_cells (rows + 1) (max longest (length w.tokens)) fits)))
            ]
  ]
]
  where
    one_more :
        (w : SegmentWork) (ws : List SegmentWork)
        → IsWithin (rows + 1) (max longest (length w.tokens)) ws
        → IsWithin rows longest (w ∷ ws)
    one_more w ws (n, cells) = (
      omega (arith, n),
      subst (λ m. m ≤ maximum_padded_attention_cells)
          (same (rows + 1 + length ws) (rows + length (w ∷ ws))
            (max (max longest (length w.tokens)) (longest_of ws))
            (max longest (longest_of (w ∷ ws))) (omega arith) (omega arith))
          cells,
    )
      where
        same : (a b c d : ℕ) → a ≡ b → c ≡ d → a * c * c ≡ b * d * d
        same a b c d e f = cc

-- Rows within the cells are not too long.
short : (n l : ℕ) → 1 ≤ n → n * l * l ≤ maximum_padded_attention_cells → l ≤ 256
short n l h k = elim (lt-or-le 256 l) [
  | inr le ↦ le
  | inl lt ↦ absurd (over (mul-le-mul (mul-le-mul h lt) lt))
]
  where
    over : 1 * 257 * 257 ≤ n * l * l → ⊥
    over e = omega (arith, e, k)

accepts :
    (n l : ℕ)
    → l ≤ 256
    → n ≤ maximum_engine_batch
    → n * l * l ≤ maximum_padded_attention_cells
    → validate_work_shape n l ≡ ok tt
unfolding validate_work_shape
accepts n l short few cells =
    rw
      (
        not_long,
        le→leb (n * l) usize_max (omega (arith, mul-le-mul few short)),
        le→leb (n * l * l) usize_max (omega (arith, cells)),
        few_cells,
      )
      refl
  where
    not_long : ltb 256 l ≡ false
    not_long = ground (arith, short)

    few_cells : ltb maximum_padded_attention_cells (n * l * l) ≡ false
    few_cells = ground (arith, cells)

-- Whatever is left to translate: a batch that the planner fills has at most 256 rows, and the engine's test
-- of its number of rows and its longest row accepts it.
pub fill_batch-validate_work_shape :
    (ss : List Slot)
    → (length (fill_batch ss 0 0) ≤ maximum_engine_batch)
      × (validate_work_shape (length (fill_batch ss 0 0)) (longest_of (fill_batch ss 0 0)) ≡ ok tt)
unfolding IsWithin
fill_batch-validate_work_shape ss =
    by_rows (fill_batch ss 0 0) (fill_batch-IsWithin ss 0 0 (omega arith) (omega arith))
  where
    by_rows :
        (ws : List SegmentWork)
        → IsWithin 0 0 ws
        → (length ws ≤ maximum_engine_batch)
          × (validate_work_shape (length ws) (longest_of ws) ≡ ok tt)
    by_rows [] v = (omega arith, accepts 0 0 (omega arith) (omega arith) (omega arith))
    by_rows (w ∷ ws) (few, cells) =
        let bounded =
          subst (λ m. m ≤ maximum_padded_attention_cells)
            (same (0 + suc (length ws)) (suc (length ws)) (max 0 (longest_of (w ∷ ws)))
              (longest_of (w ∷ ws)) (omega arith) (omega arith))
            cells in
        (
          omega (arith, few),
          accepts (suc (length ws)) (longest_of (w ∷ ws))
              (short (suc (length ws)) (longest_of (w ∷ ws)) (omega arith) bounded)
              (omega (arith, few)) bounded,
        )
      where
        same : (a b c d : ℕ) → a ≡ b → c ≡ d → a * c * c ≡ b * d * d
        same a b c d e f = cc
