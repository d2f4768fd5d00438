-- ===== src/Cpu/Planner/Loop.antt =====
-- The loop over the batches: it ends, with nothing left to translate.
use marian_edge.Common.{
  ◌>>=◌, ℕ, ℤ, zero, suc, ◌+◌, ◌^◌, ◌≤◌, ◌<◌, ◌≡◌, refl, ◌∙◌, subst, true, not, not-false, List, [],
  ◌∷◌, ◌++◌, Option, some, ◌==◌, ==_iff, leb, if◌then◌else◌, all, length, get_elem?, All, ok, err,
  Ensures, Ensures-bind, Ensures-if, Ensures-or_crash, Ensures-ok_or, Ensures-fail_if, arith,
}
use marian_edge.Text.{Text}
use marian_edge.Translation.{BackendError, inference, invalid_input}
use marian_edge.Cpu.{BatchOutput}
use marian_edge.Cpu.Planner.{
  Slot, SegmentWork, Packed, pack, drain_spent, fill_batch, run_engine_batch, run_batches,
  work_count,
}
use marian_edge.Cpu.Planner.Family.{Goal, AreSlots, drain_spent-AreSlots}
use marian_edge.Cpu.Planner.Rows.{
  IsNextFrom, IsBatchFrom, fill_batch-IsBatchFrom, settle_rows-AreSlots,
}

pack_lem :
    (ss : List Slot) (rows : List SegmentWork) (packed : Packed)
    → All (IsNextFrom 0 ss) rows
    → Ensures (λ _. Unit {0}) (pack ss rows packed)
unfolding pack
pack_lem ss [] packed h = tt
pack_lem ss (w ∷ ws) packed ((i, s, e, at, next), h) =
    Ensures-fail_if (λ _. Unit {0}) (leb (2 ^ 32) (length (packed.tokens ++ w.tokens)))
      invalid_input _
      λ _.
        Ensures-or_crash (λ _. Unit {0}) (get_elem? ss w.input_index) s _
          (subst (λ k. get_elem? ss k ≡ some s) (left_zero i ∙ e) at) (pack_lem ss ws _ h)
  where
    left_zero : (n : ℕ) → n ≡ 0 + n
    left_zero n = omega arith

module _ (engine : List ℤ → List ℕ → List ℕ → Option BatchOutput) (decode : List ℤ → Option Text)
    (eos_id : ℤ) (gs : List Goal) where
  run_engine_batch-AreSlots :
      (rows : List SegmentWork) (ss : List Slot)
      → AreSlots 0 gs ss
      → IsBatchFrom 0 ss rows
      → Ensures
          (λ r. AreSlots 0 gs r × (work_count r + length rows ≡ work_count ss))
          (run_engine_batch engine decode eos_id rows ss)
  unfolding run_engine_batch
  run_engine_batch-AreSlots rows ss v h =
      Ensures-bind (λ _. Unit {0}) Settled (pack ss rows _) _ (pack_lem ss rows _ h.0)
        λ packed _.
          Ensures-ok_or Settled (engine packed.tokens packed.offsets packed.output_limits) inference
            _
            λ output _.
              Ensures-fail_if Settled (not (length output.offsets == length rows + 1)) inference _
                λ shape.
                  settle_rows-AreSlots decode eos_id output gs 0 rows ss v
                    (enough output (not-false _ shape)) h
    where
      Settled : List Slot → Type 0
      Settled r = AreSlots 0 gs r × (work_count r + length rows ≡ work_count ss)

      enough :
          (output : BatchOutput)
          → (length output.offsets == length rows + 1) ≡ true
          → 0 + length rows < length output.offsets
      enough output e = omega (arith, (==_iff (length output.offsets) (length rows + 1)).0 e)

  -- With more fuel than segments of work, the loop does not run out of it, and when it ends every input is
  -- translated to its end.
  pub run_batches-AreSlots :
      (fuel : ℕ) (ss : List Slot)
      → AreSlots 0 gs ss
      → work_count ss < fuel
      → Ensures
          (λ r. AreSlots 0 gs r × (all (λ s. s.position == length s.work) r ≡ true))
          (run_batches engine decode eos_id fuel ss)
  unfolding run_batches
  run_batches-AreSlots zero ss v enough = absurd (omega (arith, enough))
  run_batches-AreSlots (suc fuel) ss v enough =
      Ensures-bind (λ r. AreSlots 0 gs r × (work_count r ≤ work_count ss)) Finished (drain_spent ss)
        _ (drain_spent-AreSlots 0 gs ss v)
        λ ss' (v', fewer).
          by_batch ss' v' (omega (arith, fewer, enough)) (λ r. run_batches-AreSlots fuel r)
            (fill_batch ss' 0 0) refl
    where
      Finished : List Slot → Type 0
      Finished r = AreSlots 0 gs r × (all (λ s. s.position == length s.work) r ≡ true)

      by_batch :
          (ss' : List Slot)
          → AreSlots 0 gs ss'
          → work_count ss' ≤ fuel
          → ((r : List Slot)
              → AreSlots 0 gs r
              → work_count r < fuel
              → Ensures Finished (run_batches engine decode eos_id fuel r))
          → (rows : List SegmentWork) → fill_batch ss' 0 0 ≡ rows
          → Ensures {E = BackendError} Finished (elim rows [
            | [] ↦
                if all (λ slot. slot.position == length slot.work) ss'
                then ok ss'
                else err inference
            | segment ∷ batch ↦
                run_engine_batch engine decode eos_id (segment ∷ batch) ss'
                >>= run_batches engine decode eos_id fuel
          ])
      by_batch ss' v' less loop [] e =
          Ensures-if Finished (all (λ slot. slot.position == length slot.work) ss') _ _
            (λ done. (v', done)) (λ _. tt)
      by_batch ss' v' less loop (w ∷ ws) e =
          Ensures-bind (λ r. AreSlots 0 gs r × (work_count r + length (w ∷ ws) ≡ work_count ss'))
            Finished (run_engine_batch engine decode eos_id (w ∷ ws) ss') _
            (run_engine_batch-AreSlots (w ∷ ws) ss' v'
              (subst (IsBatchFrom 0 ss') e (fill_batch-IsBatchFrom 0 gs ss' 0 0 v')))
            λ r (u, n). loop r u (omega (arith, n, less))
