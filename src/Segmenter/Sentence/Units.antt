-- ===== src/Segmenter/Sentence/Units.antt =====
-- The units of `sentence_units` cover the text in order, and the loop always ends.
use marian_edge.Common.{
  ◌⊎◌, some_inj, lt-or-le, ℕ, zero, suc, ◌-◌, ◌≤◌, ◌<◌, ◌≡◌, refl, sym, ap, ◌∙◌, Bool, true, false,
  List, [], ◌∷◌, ◌++◌, some, arith, Bool-cases, inl, inr, ltb, ltb→lt, subst, max, modify_last, any,
}
use marian_edge.Common.Partial.{Runs, Runs-known, Runs-bind, Runs-if, Runs-result}
use marian_edge.Text.{Text, byte_length, slice, is_whitespace}
use marian_edge.Text.Boundary.{IsBoundary, zero-IsBoundary, end-IsBoundary}
use marian_edge.Text.Slices.{slice_total}
use marian_edge.Segmenter.{
  Range, SentenceUnit, next_scalar, is_terminator, consume_terminators, consume_closing_marks,
  consume_whitespace,
}
use marian_edge.Segmenter.Span.{Chain, Chain-append, Chain-modify_last}
use marian_edge.Segmenter.Scan.{
  IsBlank, next_scalar_lem, consume_whitespace_lem, consume_terminators_lem,
  consume_closing_marks_lem, consume_whitespace-progress, consume_terminators-progress,
}
use marian_edge.Segmenter.Sentence.{
  ScanState, sentence_ends, terminator_step, whitespace_step, unit_step, unit_loop, close_units,
  end_separator_at, sentence_units, is_line_break,
}
use marian_edge.Segmenter.Sentence.Period.{Done, sentence_ends-Total}

abbrev unit_content : SentenceUnit → Range
unit_content u = u.content

abbrev unit_separator : SentenceUnit → Range
unit_separator u = u.separator

-- The units in order, from one offset to another.
abbrev pub Units : Text → ℕ → List SentenceUnit → ℕ → Type 0
Units s = Chain unit_content unit_separator s

-- What the loop keeps: the units cover the text up to the cursor, and the index lies behind it.
record Inv (s : Text) (e : ℕ) (st : ScanState) : Type 0 where
  chain : Units s 0 st.units st.cursor
  cursor_boundary : IsBoundary s st.cursor
  index_boundary : IsBoundary s st.index
  behind : st.cursor ≤ st.index
  within : st.index ≤ e

abbrev Keeps : Text → ℕ → ScanState → ScanState → Type 0
Keeps s e st st' = Inv s e st' × (st.index < st'.index)

scalar_end : {p q : ℕ × ℕ} → some p ≡ some q → p.1 ≡ q.1
scalar_end h = ap (λ p. p.1) (some_inj h)

max-IsBoundary : (s : Text) (p n : ℕ) → IsBoundary s p → IsBoundary s n → IsBoundary s (max p n)
max-IsBoundary s p n bp bn = elim (lt-or-le p n) [
  | inl lt ↦ let e : max p n ≡ n = omega arith in rw e bn
  | inr le ↦ let e : max p n ≡ p = omega arith in rw e bp
]

module _ (s : Text) (e : ℕ) (be : IsBoundary s e) where
  -- A unit that ends at `q`, with white space up to `w`.
  close_unit :
      (st : ScanState) (q w : ℕ)
      → Inv s e st
      → st.cursor ≤ q
      → q ≤ w
      → w ≤ e
      → IsBoundary s q
      → IsBoundary s w
      → IsBlank s q w
      → Inv s e (record {
        units =
            st.units
            ++ record {
              content = record { start = st.cursor; finish = q };
              separator = record { start = q; finish = w };
            }
              ∷ [];
        cursor = w;
        index = w;
      })
  close_unit st q w v cq qw we bq bw blank = record {
    chain = Chain-append unit_content unit_separator s st.units _ 0 st.cursor v.chain (record {
      starts = refl;
      forward = cq;
      content_boundary = bq;
      adjacent = refl;
      ordered = qw;
      separator_boundary = bw;
      blank = blank;
    });
    cursor_boundary = bw;
    index_boundary = bw;
    behind = omega arith;
    within = we;
  }

  -- Only the index moves.
  move_index :
      (st : ScanState) (i : ℕ)
      → Inv s e st
      → st.index ≤ i
      → i ≤ e
      → IsBoundary s i
      → Inv s e (record st { index = i })
  move_index st i v le ie bi = record {
    chain = v.chain;
    cursor_boundary = v.cursor_boundary;
    index_boundary = bi;
    behind = omega (arith, v.behind);
    within = ie;
  }

  terminator_step-Keeps :
      (st : ScanState) (c n : ℕ)
      → Inv s e st
      → st.index < e
      → next_scalar s st.index ≡ some (c, n)
      → is_terminator c ≡ true
      → Runs (Keeps s e st) (terminator_step s e st c n)
  unfolding terminator_step
  terminator_step-Keeps st c n v lt next term =
      let (p, ep, ends) = consume_terminators_lem s st.index e v.index_boundary be v.within in
      let (q, eq, marks) = consume_closing_marks_lem s p e ends.2 be ends.1 in
      let (w, ew, gap) = consume_whitespace_lem s q e marks.2 be marks.1 in
      let beyond =
        consume_terminators-progress s st.index e c n p v.index_boundary be lt next term ep in
      let (c', n', next', _, ne, bn, _, _) = next_scalar_lem s st.index e v.index_boundary be lt in
      let same : n ≡ n' = scalar_end {p = (c, n)} {q = (c', n')} (sym next ∙ next') in
      let bn' : IsBoundary s n = subst (IsBoundary s) (sym same) bn in
      Runs-known (Keeps s e st) (consume_terminators s st.index e) p _ ep (
        Runs-known (Keeps s e st) (consume_closing_marks s p e) q _ eq (
          Runs-bind Done (Keeps s e st) (sentence_ends s e st.index q c) _
            (sentence_ends-Total s e st.index q c n be v.index_boundary marks.2 lt next)
            λ ends' _.
              Runs-if (Keeps s e st) ends' _ _
                (λ _. Runs-known (Keeps s e st) (consume_whitespace s q e) w _ ew (
                  close_unit st q w v (omega (arith, v.behind, ends.0, marks.0)) gap.0 gap.1 marks.2
                      gap.2 gap.3,
                  omega (arith, beyond, marks.0, gap.0),
                ))
                (λ _. (
                  move_index st (max p n) v (omega (arith, ends.0))
                      (omega (arith, ends.1, ne, same)) (max-IsBoundary s p n ends.2 bn'),
                  omega (arith, beyond),
                ))))

  whitespace_step-Keeps :
      (st : ScanState) (c n : ℕ)
      → Inv s e st
      → st.index < e
      → next_scalar s st.index ≡ some (c, n)
      → is_whitespace c ≡ true
      → Runs (Keeps s e st) (whitespace_step s e st)
  unfolding whitespace_step
  whitespace_step-Keeps st c n v lt next white =
      let (w, ew, gap) = consume_whitespace_lem s st.index e v.index_boundary be v.within in
      let beyond =
        consume_whitespace-progress s st.index e c n w v.index_boundary be lt next white ew in
      let (run, er) = slice_total s st.index w v.index_boundary gap.2 gap.0 in
      Runs-known (Keeps s e st) (consume_whitespace s st.index e) w _ ew (
        Runs-known (Keeps s e st) (slice s st.index w) run _ er (
          Runs-if (Keeps s e st) (any is_line_break run) (some _) (some _)
            (λ _. (
              close_unit st st.index w v v.behind gap.0 gap.1 v.index_boundary gap.2 gap.3,
              beyond,
            ))
            (λ _. (move_index st w v gap.0 gap.1 gap.2, beyond))))

  unit_step-Keeps :
      (st : ScanState) → Inv s e st → st.index < e → Runs (Keeps s e st) (unit_step s e st)
  unfolding unit_step
  unit_step-Keeps st v lt =
      let (c, n, next, more, ne, bn, _, _) = next_scalar_lem s st.index e v.index_boundary be lt in
      Runs-known (Keeps s e st) (next_scalar s st.index) (c, n) _ next
        (Runs-if (Keeps s e st) (is_terminator c) _ _
          (λ term. terminator_step-Keeps st c n v lt next term)
          (λ _.
            Runs-if (Keeps s e st) (is_whitespace c) _ (some _)
              (λ white. whitespace_step-Keeps st c n v lt next white)
              (λ _. (move_index st n v (omega arith) ne bn, more))))

  unit_loop_stop :
      (f : ℕ) (st : ScanState) → ltb st.index e ≡ false → unit_loop (suc f) s e st ≡ some st
  unfolding unit_loop
  unit_loop_stop f st h = rw (h, unit_loop)

  unit_loop_round :
      (f : ℕ) (st st' : ScanState)
      → ltb st.index e ≡ true
      → unit_step s e st ≡ some st'
      → unit_loop (suc f) s e st ≡ unit_loop f s e st'
  unfolding unit_loop
  unit_loop_round f st st' h k = rw (h, unit_loop) (rw k)

  -- With fuel for the bytes that are left the loop ends, at the end of the range.
  unit_loop-Inv :
      (f : ℕ) (st : ScanState)
      → e - st.index < f
      → Inv s e st
      → (st' : ScanState) × (unit_loop f s e st ≡ some st') × Inv s e st' × (st'.index ≡ e)
  unit_loop-Inv zero st h v = absurd (omega arith)
  unit_loop-Inv (suc f) st h v = elim (Bool-cases (ltb st.index e)) [
    | inl more ↦
        let (st', step, keeps) =
          Runs-result (Keeps s e st) _ (unit_step-Keeps st v (ltb→lt _ _ more)) in
        let (last, run, inv, fin) =
          unit_loop-Inv f st' (omega (arith, keeps.1, keeps.0.within, ltb→lt st.index e more))
            keeps.0 in
        (last, unit_loop_round f st st' more step ∙ run, inv, fin)
    | inr done ↦ (st, unit_loop_stop f st done, v, ended st v done)
  ]
    where
      ended : (st : ScanState) → Inv s e st → ltb st.index e ≡ false → st.index ≡ e
      ended st v done = ground (arith, v.within)

-- The units cover the whole text; or there are none, and the trimmed text is empty.
abbrev pub Covers : Text → ℕ → List SentenceUnit → Type 0
Covers s e us = Units s 0 us (byte_length s) ⊎ ((us ≡ []) × (e ≡ 0))

extend-Units :
    (s : Text) (e : ℕ) (us : List SentenceUnit)
    → Units s 0 us e
    → e ≤ byte_length s
    → IsBlank s e (byte_length s)
    → Covers s e (modify_last (end_separator_at (byte_length s)) us)
extend-Units s e [] h le blank = inr (refl, sym h)
extend-Units s e (u ∷ us) h le blank = inl (
    Chain-modify_last unit_content unit_separator s (end_separator_at (byte_length s)) (u ∷ us) 0 e
      (byte_length s) (λ _. refl) (λ _. refl) (λ p. cc) h le (end-IsBoundary s) blank)

close_units-Covers :
    (s : Text) (e : ℕ) (st : ScanState)
    → IsBoundary s e
    → e ≤ byte_length s
    → IsBlank s e (byte_length s)
    → Inv s e st
    → Covers s e (close_units s e st)
unfolding close_units
close_units-Covers s e st be le blank v = elim (Bool-cases (ltb st.cursor e)) [
  | inl more ↦ rw more (
      inl (
        Chain-append unit_content unit_separator s st.units _ 0 st.cursor v.chain (record {
          starts = refl;
          forward = omega (arith, ltb→lt st.cursor e more);
          content_boundary = be;
          adjacent = refl;
          ordered = le;
          separator_boundary = end-IsBoundary s;
          blank = blank;
        })))
  | inr done ↦
      let at : st.cursor ≡ e = cursor_at_end (ltb st.cursor e) refl done in
      rw done (extend-Units s e st.units (subst (Units s 0 st.units) at v.chain) le blank)
]
  where
    cursor_at_end : (b : Bool) → ltb st.cursor e ≡ b → b ≡ false → st.cursor ≡ e
    cursor_at_end b p q = ground (arith, v.behind, v.within)

-- For an end of the content at a boundary, with white space only behind it: the sentence splitter does
-- not panic, and returns units whose contents and separators follow each other from the start of the
-- text to its end, or no unit where the content is empty.
pub sentence_units_lem :
    (s : Text) (e : ℕ)
    → IsBoundary s e
    → e ≤ byte_length s
    → IsBlank s e (byte_length s)
    → (us : List SentenceUnit) × (sentence_units s e ≡ some us) × Covers s e us
unfolding sentence_units
sentence_units_lem s e be le blank =
    let (st, run, v, _) =
      unit_loop-Inv s e be (suc e) (record { units = []; cursor = 0; index = 0 }) (omega arith)
        (record {
          chain = refl;
          cursor_boundary = zero-IsBoundary s;
          index_boundary = zero-IsBoundary s;
          behind = omega arith;
          within = omega arith;
        }) in
    (close_units s e st, rw run, close_units-Covers s e st be le blank v)
