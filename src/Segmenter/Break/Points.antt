-- ===== src/Segmenter/Break/Points.antt =====
-- Every break point is a pair of boundaries with nothing but white space between them, and they ascend.
use marian_edge.Common.{
  ℕ, zero, suc, ◌-◌, ◌≤◌, ◌<◌, ◌≡◌, ◌∙◌, Bool, true, false, List, [], ◌∷◌, ◌++◌, Option, none, some,
  arith, Bool-cases, inl, inr, ltb, ltb→lt, if◌then◌else◌, All, All-append, ◌==◌,
}
use marian_edge.Common.Partial.{Runs, Runs-known, Runs-bind, Runs-if, Runs-result}
use marian_edge.Text.{Text, is_whitespace}
use marian_edge.Text.Boundary.{IsBoundary}
use marian_edge.Segmenter.{Range, BreakPoint, next_scalar, consume_whitespace}
use marian_edge.Segmenter.Scan.{
  IsBlank, next_scalar_lem, consume_whitespace_lem, consume_whitespace-progress,
}
use marian_edge.Segmenter.Break.Dashes.{Done, dash_loop_lem, priority_of-Total}
use marian_edge.Segmenter.Break.{
  priority_of, dash_loop, BreakState, punctuation_step, break_step, break_loop,
  fallback_break_points,
}

-- A cut with white space between the end of one part and the start of the next.
pub record IsCut (s : Text) (e : ℕ) (p : BreakPoint) : Type 0 where
  pub content_boundary : IsBoundary s p.content_end
  pub next_boundary : IsBoundary s p.next_start
  pub ordered : p.content_end ≤ p.next_start
  pub within : p.next_start ≤ e
  pub blank : IsBlank s p.content_end p.next_start

-- The contents end one after another, none before `a` and none behind `b`.
abbrev pub AscendTo : ℕ → List BreakPoint → ℕ → Type 0
AscendTo a [] b = a ≤ b
AscendTo a (p ∷ ps) b = (a ≤ p.content_end) × AscendTo p.content_end ps b

AscendTo-widen :
    (a : ℕ) (ps : List BreakPoint) {b c : ℕ} → AscendTo a ps b → b ≤ c → AscendTo a ps c
AscendTo-widen a [] h le = omega (arith, h, le)
AscendTo-widen a (p ∷ ps) h le = (h.0, AscendTo-widen p.content_end ps h.1 le)

AscendTo-append :
    (a : ℕ) (ps : List BreakPoint) (p : BreakPoint) {b c : ℕ}
    → AscendTo a ps b
    → b ≤ p.content_end
    → p.content_end ≤ c
    → AscendTo a (ps ++ p ∷ []) c
AscendTo-append a [] p h before behind = (omega (arith, h, before), behind)
AscendTo-append a (q ∷ ps) p h before behind =
    (h.0, AscendTo-append q.content_end ps p h.1 before behind)

record Inv (s : Text) (a e : ℕ) (st : BreakState) : Type 0 where
  cuts : All (IsCut s e) st.points
  ascending : AscendTo a st.points st.index
  index_boundary : IsBoundary s st.index
  within : st.index ≤ e

abbrev Keeps : Text → ℕ → ℕ → BreakState → BreakState → Type 0
Keeps s a e st st' = Inv s a e st' × (st.index < st'.index)

module _ (s : Text) (range : Range) (be : IsBoundary s range.finish) where
  -- A cut is added, and the index moves to where the next scan starts.
  add_cut :
      (st : BreakState) (p : BreakPoint) (i : ℕ)
      → Inv s range.start range.finish st
      → IsCut s range.finish p
      → st.index ≤ p.content_end
      → p.content_end ≤ i
      → IsBoundary s i
      → i ≤ range.finish
      → Inv s range.start range.finish (record { points = st.points ++ p ∷ []; index = i })
  add_cut st p i v cut before behind bi ie = record {
    cuts = All-append (IsCut s range.finish) st.points (p ∷ []) v.cuts (cut, tt);
    ascending = AscendTo-append range.start st.points p v.ascending before behind;
    index_boundary = bi;
    within = ie;
  }

  punctuation_end_lem :
      (c n : ℕ)
      → IsBoundary s n
      → n ≤ range.finish
      → let q = if c == b'-' then dash_loop (range.finish - n) s n else n in
        (n ≤ q) × (q ≤ range.finish) × IsBoundary s q
  punctuation_end_lem c n bn ne =
      choose (c == b'-') (dash_loop (range.finish - n) s n)
        (dash_loop_lem s range be (range.finish - n) n bn (omega arith))
    where
      choose :
          (b : Bool) (m : ℕ)
          → (n ≤ m) × (m ≤ range.finish) × IsBoundary s m
          → let q = if b then m else n in (n ≤ q) × (q ≤ range.finish) × IsBoundary s q
      choose true m h = h
      choose false m h = (omega arith, ne, bn)

  punctuation_step-Keeps :
      (st : BreakState) (c n priority : ℕ)
      → Inv s range.start range.finish st
      → st.index < n
      → n ≤ range.finish
      → IsBoundary s n
      → Runs (Keeps s range.start range.finish st) (punctuation_step s range st c n priority)
  unfolding punctuation_step
  punctuation_step-Keeps st c n priority v lt ne bn =
      let q = if c == b'-' then dash_loop (range.finish - n) s n else n in
      let (nq, qe, bq) = punctuation_end_lem c n bn ne in
      let (w, ew, gap) = consume_whitespace_lem s q range.finish bq be qe in
      Runs-known (Keeps s range.start range.finish st) (consume_whitespace s q range.finish) w _ ew
        (
          add_cut st _ q v
              (record {
                content_boundary = bq;
                next_boundary = gap.2;
                ordered = gap.0;
                within = gap.1;
                blank = gap.3;
              })
              (omega (arith, nq, lt)) (omega arith) bq qe,
          omega (arith, nq, lt),
        )

  break_step-Keeps :
      (st : BreakState)
      → Inv s range.start range.finish st
      → range.start ≤ st.index
      → st.index < range.finish
      → Runs (Keeps s range.start range.finish st) (break_step s range st)
  unfolding break_step
  break_step-Keeps st v ge lt =
      let (c, n, next, more, ne, bn, _, _) =
        next_scalar_lem s st.index range.finish v.index_boundary be lt in
      Runs-known (Keeps s range.start range.finish st) (next_scalar s st.index) (c, n) _ next
        (Runs-if (Keeps s range.start range.finish st) (is_whitespace c) _ _
          (λ white.
            let (w, ew, gap) =
              consume_whitespace_lem s st.index range.finish v.index_boundary be v.within in
            Runs-known (Keeps s range.start range.finish st)
              (consume_whitespace s st.index range.finish) w _ ew
              (
                add_cut st _ w v
                    (record {
                      content_boundary = v.index_boundary;
                      next_boundary = gap.2;
                      ordered = gap.0;
                      within = gap.1;
                      blank = gap.3;
                    })
                    (omega arith) gap.0 gap.2 gap.1,
                consume_whitespace-progress s st.index range.finish c n w v.index_boundary be lt
                    next white ew,
              ))
          (λ _.
            Runs-bind Done (Keeps s range.start range.finish st) (priority_of s c st.index range) _
              (priority_of-Total s range be c n st.index v.index_boundary lt ge next)
              λ cut _. by_cut cut c n more ne bn))
    where
      by_cut :
          (cut : Option ℕ) (c n : ℕ)
          → st.index < n
          → n ≤ range.finish
          → IsBoundary s n
          → Runs (Keeps s range.start range.finish st) (elim cut [
            | some priority ↦ punctuation_step s range st c n priority
            | none ↦ some (record st { index = n })
          ])
      by_cut (some priority) c n more ne bn = punctuation_step-Keeps st c n priority v more ne bn
      by_cut none c n more ne bn = (
        record {
          cuts = v.cuts;
          ascending = AscendTo-widen range.start st.points v.ascending (omega (arith, more));
          index_boundary = bn;
          within = ne;
        },
        more,
      )

  break_loop_stop :
      (f : ℕ) (st : BreakState)
      → ltb st.index range.finish ≡ false
      → break_loop (suc f) s range st ≡ some st
  unfolding break_loop
  break_loop_stop f st h = rw (h, break_loop)

  break_loop_round :
      (f : ℕ) (st st' : BreakState)
      → ltb st.index range.finish ≡ true
      → break_step s range st ≡ some st'
      → break_loop (suc f) s range st ≡ break_loop f s range st'
  unfolding break_loop
  break_loop_round f st st' h k = rw (h, break_loop) (rw k)

  break_loop-Inv :
      (f : ℕ) (st : BreakState)
      → range.finish - st.index < f
      → range.start ≤ st.index
      → Inv s range.start range.finish st
      → (st' : BreakState) × (break_loop f s range st ≡ some st')
        × Inv s range.start range.finish st'
  break_loop-Inv zero st h ge v = absurd (omega arith)
  break_loop-Inv (suc f) st h ge v = elim (Bool-cases (ltb st.index range.finish)) [
    | inl more ↦
        let lt = ltb→lt st.index range.finish more in
        let (st', step, keeps) =
          Runs-result (Keeps s range.start range.finish st) _ (break_step-Keeps st v ge lt) in
        let (last, run, inv) =
          break_loop-Inv f st' (omega (arith, keeps.1, keeps.0.within, lt)) (omega (arith, keeps.1))
            keeps.0 in
        (last, break_loop_round f st st' more step ∙ run, inv)
    | inr done ↦ (st, break_loop_stop f st done, v)
  ]

  -- For a range between two boundaries, in order: the search for break points does not panic, and each
  -- point that it returns is a cut, that is two boundaries in order, with white space between them;
  -- the ends of the contents ascend from point to point, the first is not before the start of the range,
  -- and no point reaches behind the end of the range.
  pub fallback_break_points_lem :
      IsBoundary s range.start
      → range.start ≤ range.finish
      → (points : List BreakPoint) × (fallback_break_points s range ≡ some points)
        × All (IsCut s range.finish) points
        × AscendTo range.start points range.finish
  unfolding fallback_break_points
  fallback_break_points_lem bs le =
      let (st, run, v) =
        break_loop-Inv (suc (range.finish - range.start))
          (record { points = []; index = range.start }) (omega arith) (omega arith)
          (record { cuts = tt; ascending = omega arith; index_boundary = bs; within = le }) in
      (st.points, rw run, v.cuts, AscendTo-widen range.start st.points v.ascending v.within)
