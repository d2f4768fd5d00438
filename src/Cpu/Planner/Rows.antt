-- ===== src/Cpu/Planner/Rows.antt =====
-- The rows of a batch: each is the next segment of an input of its own, and settling them moves each of
-- these inputs on by one segment.
use marian_edge.Common.{
  ltb→lt, ◌&&◌, all, ==_iff, usize_max, usize_max, all, if_cases, All-at, All-map, length-retain,
  length-take_le, ℕ, ℤ, suc, ◌+◌, ◌-◌, ◌*◌, ◌≤◌, ◌<◌, ◌≡◌, refl, sym, ap, ◌∙◌, subst, Bool-cases,
  true, false, not, ◌||◌, List, [], ◌∷◌, Option, none, some, Option-cases, inl, inr, ◌==◌, ltb, leb,
  int_eq, length, get_elem?, get_elem?-within, get_elem?-bound, get_elem?-set-other, set, take,
  drop, retain, max, All, Ensures, Ensures-bind, Ensures-or_crash, Ensures-ok_or, Ensures-fail_if,
  Ensures-mono, arith,
}
use native.Mathlib.Nat.{mul-le-mul}
use marian_edge.Text.{Text}
use marian_edge.Translation.{inference}
use marian_edge.Cpu.{BatchOutput, maximum_engine_batch, maximum_padded_attention_cells}
use marian_edge.Cpu.Planner.{
  PlannedOutput, Slot, SegmentWork, attention_cells, fill_batch, settle_row, settle_rows, put_text,
  work_count,
}
use marian_edge.Cpu.Planner.Slots.{IsSlot, IsWorkOf, put_text-IsSlot}
use marian_edge.Cpu.Planner.Family.{Goal, AreSlots, AreSlots-set}

-- The next segment of its input, which stands at `o` places before its index.
abbrev pub IsNextFrom : ℕ → List Slot → SegmentWork → Type 0
IsNextFrom o ss w =
    (i : ℕ) × (s : Slot) × (o + i ≡ w.input_index)
    × (get_elem? ss i ≡ some s)
    × (get_elem? s.work s.position ≡ some w)

-- Rows of inputs that come one behind the other.
abbrev pub Apart : List SegmentWork → Type 0
Apart [] = Unit
Apart (w ∷ ws) = All (λ u. w.input_index < u.input_index) ws × Apart ws

abbrev pub IsBatchFrom : ℕ → List Slot → List SegmentWork → Type 0
IsBatchFrom o ss rows = All (IsNextFrom o ss) rows × Apart rows

next_further :
    (o : ℕ) (s : Slot) (ss : List Slot) (w : SegmentWork)
    → IsNextFrom (suc o) ss w
    → IsNextFrom o (s ∷ ss) w
next_further o s ss w (i, t, e, at, next) = (suc i, t, omega (arith, e), at, next)

batch_further :
    (o : ℕ) (s : Slot) (ss : List Slot) (rows : List SegmentWork)
    → IsBatchFrom (suc o) ss rows
    → IsBatchFrom o (s ∷ ss) rows
batch_further o s ss rows h = (All-map (next_further o s ss) rows h.0, h.1)

behind : (o : ℕ) (ss : List Slot) (w : SegmentWork) → IsNextFrom (suc o) ss w → o < w.input_index
behind o ss w (i, t, e, at, next) = omega (arith, e)

pub fill_batch-IsBatchFrom :
    (o : ℕ) (gs : List Goal) (ss : List Slot) (rows longest : ℕ)
    → AreSlots o gs ss
    → IsBatchFrom o ss (fill_batch ss rows longest)
unfolding fill_batch
fill_batch-IsBatchFrom o [] [] rows longest v = (tt, tt)
fill_batch-IsBatchFrom o [] (s ∷ ss) rows longest v = absurd v
fill_batch-IsBatchFrom o (g ∷ gs) [] rows longest v = absurd v
fill_batch-IsBatchFrom o (g ∷ gs) (s ∷ ss) rows longest v =
    elim (Option-cases (get_elem? s.work s.position)) [
      | inl e ↦
          rw (e, fill_batch)
            (batch_further o s ss (fill_batch ss rows longest)
              (fill_batch-IsBatchFrom (suc o) gs ss rows longest v.1))
      | inr (w, e) ↦ elim (Bool-cases (leb maximum_engine_batch rows)) [
        | inl full ↦ rw (e, full, fill_batch) (tt, tt)
        | inr room ↦
            elim (Bool-cases (
              ltb maximum_padded_attention_cells
                (attention_cells (rows + 1) (max longest (length w.tokens))))) [
                  | inl big ↦
                      rw (e, room, big, fill_batch)
                        (batch_further o s ss (fill_batch ss rows longest)
                          (fill_batch-IsBatchFrom (suc o) gs ss rows longest v.1))
                  | inr fits ↦
                      let owned = All-at (IsWorkOf o) s.work s.position w v.0.owned e in
                      let rest =
                        fill_batch-IsBatchFrom (suc o) gs ss (rows + 1)
                          (max longest (length w.tokens)) v.1 in
                      rw (e, room, fits, fill_batch)
                        (
                          (
                            (0, s, omega (arith, owned.0), refl, e),
                            All-map (next_further o s ss)
                                (fill_batch ss (rows + 1) (max longest (length w.tokens))) rest.0,
                          ),
                          (
                            All-map (λ u h. omega (arith, behind o ss u h, owned.0))
                                (fill_batch ss (rows + 1) (max longest (length w.tokens))) rest.0,
                            rest.1,
                          ),
                        )
                ]
      ]
    ]

-- The padded attention of a row by itself is bounded.
single_cells : (n : ℕ) → n ≤ 256 → attention_cells 1 n ≤ maximum_padded_attention_cells
unfolding attention_cells
single_cells n h =
    if_cases (λ c. c ≤ maximum_padded_attention_cells)
      (leb (1 * n) usize_max && leb (1 * n * n) usize_max) _ _ (λ _. omega (arith, square))
      (λ too_big. absurd (ground (arith, square, too_big)))
  where
    square : n * n ≤ 256 * 256
    square = mul-le-mul h h

-- A batch without rows: every input is translated to its end.
pub fill_batch-nil :
    (o : ℕ) (gs : List Goal) (ss : List Slot)
    → AreSlots o gs ss
    → fill_batch ss 0 0 ≡ []
    → all (λ s. s.position == length s.work) ss ≡ true
unfolding fill_batch
fill_batch-nil o [] [] v h = refl
fill_batch-nil o [] (s ∷ ss) v h = absurd v
fill_batch-nil o (g ∷ gs) [] v h = absurd v
fill_batch-nil o (g ∷ gs) (s ∷ ss) v h = elim (Option-cases (get_elem? s.work s.position)) [
  | inl e ↦
      rw ((==_iff s.position (length s.work)).1 (at_end e))
        (fill_batch-nil (suc o) gs ss v.1 (rw (e, fill_batch) at h))
  | inr (w, e) ↦ absurd (
      nonempty w e
        (rw (e, fits w (All-at (IsWorkOf o) s.work s.position w v.0.owned e).1, fill_batch) at h))
]
  where
    at_end : get_elem? s.work s.position ≡ none → s.position ≡ length s.work
    at_end e = elim (Bool-cases (ltb s.position (length s.work))) [
      | inl lt ↦
          let (w, found) = get_elem?-within s.work s.position (ltb→lt _ _ lt) in
          absurd (clash found)
      | inr ge ↦ ground (arith, ge, v.0.in_work)
    ]
      where
        clash : {w : SegmentWork} → get_elem? s.work s.position ≡ some w → ⊥
        clash found = cc

    fits :
        (w : SegmentWork)
        → length w.tokens ≤ 256
        → ltb maximum_padded_attention_cells (attention_cells 1 (max 0 (length w.tokens))) ≡ false
    fits w small = below (single_cells (max 0 (length w.tokens)) (omega (arith, small)))
      where
        below : {c : ℕ} → c ≤ 65536 → ltb 65536 c ≡ false
        below le = ground (arith, le)

    nonempty :
        (w : SegmentWork)
        → get_elem? s.work s.position ≡ some w
        → {ws : List SegmentWork} → w ∷ ws ≡ []
        → ⊥
    nonempty w e p = cc

-- A row settles: the input that it belongs to moves on.
settle_row-AreSlots :
    (decode : List ℤ → Option Text) (eos_id : ℤ) (output : BatchOutput) (gs : List Goal) (row : ℕ)
    (w : SegmentWork) (ss : List Slot)
    → AreSlots 0 gs ss
    → row + 1 < length output.offsets
    → IsNextFrom 0 ss w
    → Ensures
        (λ r.
          AreSlots 0 gs r
          × (work_count r + 1 ≡ work_count ss)
          × ((s' : Slot) × (r ≡ set ss w.input_index s')))
        (settle_row decode eos_id output row w ss)
unfolding settle_row
settle_row-AreSlots decode eos_id output gs row w ss v within (i, s, e, at, next) =
    let (start, es) = get_elem?-within output.offsets row (omega (arith, within)) in
    let (end, ee) = get_elem?-within output.offsets (row + 1) within in
    let here = subst (λ k. get_elem? ss k ≡ some s) (left_zero i ∙ e) at in
    let (g, owned, put) = AreSlots-set 0 gs ss w.input_index s v here in
    Ensures-or_crash Settled _ start _ es (
      Ensures-or_crash Settled _ end _ ee (
        Ensures-fail_if Settled (ltb end start || ltb (length output.tokens) end) inference _
          λ ordered. Ensures-or_crash Settled _ s _ here (
            Ensures-fail_if Settled (ltb s.remaining (end - start)) inference _ λ paid.
              Ensures-ok_or Settled (decode (ids start end)) inference _ λ text _.
                Ensures-bind (Kept g s) Settled
                  (put_text (record s { remaining = s.remaining - (end - start) }) w.segment_index
                    text (λ _. length (ids start end)))
                  _
                  (put_text-IsSlot (0 + w.input_index) g.gaps g.budget s w
                    (s.remaining - (end - start)) text (λ _. length (ids start end)) owned next
                    (λ d. spend start end d ordered paid))
                  λ s' (v', moved, same).
                    let (vs, n) = put s' v' in
                    (
                      vs,
                      omega (
                        arith,
                        n,
                        moved,
                        ap length same,
                        get_elem?-bound s.work s.position w next,
                      ),
                      (s', refl),
                    ))))
  where
    Settled : List Slot → Type 0
    Settled r =
        AreSlots 0 gs r
        × (work_count r + 1 ≡ work_count ss)
        × ((s' : Slot) × (r ≡ set ss w.input_index s'))

    Kept : Goal → Slot → Slot → Type 0
    Kept g s s' =
        IsSlot (0 + w.input_index) g.gaps g.budget s'
        × (s'.position ≡ s.position + 1)
        × (s'.work ≡ s.work)

    left_zero : (n : ℕ) → n ≡ 0 + n
    left_zero n = omega arith

    ids : ℕ → ℕ → List ℤ
    ids start end =
        retain (λ id. not (int_eq id eos_id)) (take (end - start) (drop start output.tokens))

    spend :
        (start end : ℕ) (d : PlannedOutput)
        → (ltb end start || ltb (length output.tokens) end) ≡ false
        → ltb s.remaining (end - start) ≡ false
        → length (ids start end) + (s.remaining - (end - start)) ≤ d.output_tokens + s.remaining
    spend start end d ordered paid = omega (
      arith,
      not_ltb paid,
      length-retain (λ id. not (int_eq id eos_id)) (take (end - start) (drop start output.tokens)),
      length-take_le (end - start) (drop start output.tokens),
    )
      where
        not_ltb : ltb s.remaining (end - start) ≡ false → end - start ≤ s.remaining
        not_ltb h = ground (arith, h)

-- The rows that are still to settle are next, whatever row was settled before them.
later_next :
    (ss : List Slot) (k : ℕ) (s' : Slot) (rows : List SegmentWork)
    → All (λ u. k < u.input_index) rows
    → All (IsNextFrom 0 ss) rows
    → All (IsNextFrom 0 (set ss k s')) rows
later_next ss k s' [] h n = tt
later_next ss k s' (u ∷ us) h ((i, t, e, at, next), n) = (
  (i, t, e, get_elem?-set-other ss k i s' (λ same. omega (arith, h.0, e, same)) ∙ at, next),
  later_next ss k s' us h.1 n,
)

-- Settling all rows of a batch keeps the invariant, and takes a segment of work for each row.
pub settle_rows-AreSlots :
    (decode : List ℤ → Option Text) (eos_id : ℤ) (output : BatchOutput) (gs : List Goal) (row : ℕ)
    (rows : List SegmentWork) (ss : List Slot)
    → AreSlots 0 gs ss
    → row + length rows < length output.offsets
    → IsBatchFrom 0 ss rows
    → Ensures
        (λ r. AreSlots 0 gs r × (work_count r + length rows ≡ work_count ss))
        (settle_rows decode eos_id output row rows ss)
unfolding settle_rows
settle_rows-AreSlots decode eos_id output gs row [] ss v within h = (v, omega arith)
settle_rows-AreSlots decode eos_id output gs row (w ∷ ws) ss v within h =
    Ensures-bind One Settled (settle_row decode eos_id output row w ss)
      (settle_rows decode eos_id output (row + 1) ws)
      (settle_row-AreSlots decode eos_id output gs row w ss v (omega (arith, within)) h.0.0)
      λ r (v', n, (s', e)).
        Ensures-mono (λ q. AreSlots 0 gs q × (work_count q + length ws ≡ work_count r)) Settled
          (settle_rows decode eos_id output (row + 1) ws r)
          (settle_rows-AreSlots decode eos_id output gs (row + 1) ws r v' (omega (arith, within)) (
            subst (λ q. All (IsNextFrom 0 q) ws) (sym e)
                (later_next ss w.input_index s' ws h.1.0 h.0.1),
            h.1.1,
          ))
          λ q (u, m). (u, omega (arith, n, m))
  where
    One : List Slot → Type 0
    One r =
        AreSlots 0 gs r
        × (work_count r + 1 ≡ work_count ss)
        × ((s' : Slot) × (r ≡ set ss w.input_index s'))

    Settled : List Slot → Type 0
    Settled r = AreSlots 0 gs r × (work_count r + length (w ∷ ws) ≡ work_count ss)
