-- ===== src/Metal/Workspace/Slots.antt =====
-- How an arena of workspace.rs hands out its slots, for a runtime whose buffers are as large as asked for.
use marian_edge.Common.{
  get_elem?-last, get_elem?-front, get_elem?-set, get_elem?-set-other, get_elem?-within, ℕ, ◌+◌,
  ◌*◌, ◌≤◌, ◌<◌, ◌≡◌, refl, ap, ◌∙◌, false, ◌&&◌, List, [], ◌∷◌, ◌++◌, Option, none, some, inl, inr,
  Bool-cases, ltb, leb, ◌==◌, ==_iff, if_cases, length, length-append, length-set, get_elem?, set,
  ok, err, crash, arith, usize_max,
}
use marian_edge.Metal.Workspace.{
  bad_size, Buffer, BufferArena, required_bytes, Taken, allocate, take_slot, take,
}

-- The slot at the cursor now holds `b`, of at least `required` bytes; the slots in front are as before.
pub record HoldsSlot (required : ℕ) (before after : BufferArena) (b : Buffer) : Type 0 where
  pub large : required ≤ b.byte_len
  pub moved : after.cursor ≡ before.cursor + 1
  pub filled : after.cursor ≤ length after.buffers
  pub held : get_elem? after.buffers before.cursor ≡ some b
  pub kept : (i : ℕ) → i < before.cursor → get_elem? after.buffers i ≡ get_elem? before.buffers i

module _ {R : Type 0} (empty_cached : R → ℕ → Option Buffer × R) where
  -- What the runtime promises.
  abbrev pub GivesEnough : Type 0
  GivesEnough = (r : R) (n : ℕ) (b : Buffer) → (empty_cached r n).0 ≡ some b → n ≤ b.byte_len

  abbrev pub TakesSlot : ℕ → BufferArena → Taken empty_cached → Type 0
  TakesSlot required before (ok b, after, r) = HoldsSlot required before after b
  TakesSlot required before (err e, after, r) = Unit
  TakesSlot required before (crash, after, r) = ⊥

  allocate_lem :
      (required : ℕ) (before moved : BufferArena) (place : Buffer → List Buffer)
      (given : Option Buffer × R)
      → ((b : Buffer)
          → given.0 ≡ some b
          → HoldsSlot required before (record moved { buffers = place b }) b)
      → TakesSlot required before (allocate empty_cached before.cursor moved place given)
  unfolding allocate
  allocate_lem required before moved place (none, r) h = tt
  allocate_lem required before moved place (some b, r) h = h b refl

  take_slot_lem :
      (required : ℕ) (arena : BufferArena) (r : R)
      → GivesEnough
      → arena.cursor ≤ length arena.buffers
      → TakesSlot required arena (take_slot empty_cached required arena r)
  unfolding take_slot
  take_slot_lem required arena r enough within =
      elim (Bool-cases (arena.cursor == length arena.buffers)) [
        | inl full ↦
            rw (full, take_slot)
              (allocate_lem required arena (record arena { cursor = arena.cursor + 1 })
                (λ b. arena.buffers ++ b ∷ []) (empty_cached r required)
                λ b given.
                  let end = (==_iff arena.cursor (length arena.buffers)).0 full in
                  record {
                    large = enough r required b given;
                    moved = refl;
                    filled = omega (arith, end, length-append arena.buffers (b ∷ []));
                    held =
                        ap (get_elem? (arena.buffers ++ b ∷ [])) end
                        ∙ get_elem?-last arena.buffers b;
                    kept = λ i lt. get_elem?-front arena.buffers b i (omega (arith, lt, end));
                  })
        | inr inside ↦
            let lt = strictly inside in
            let (b, e) = get_elem?-within arena.buffers arena.cursor lt in
            rw (inside, e, take_slot)
              (if_cases (TakesSlot required arena) (ltb b.byte_len required) _ _
                (λ _.
                  allocate_lem required arena (record arena { cursor = arena.cursor + 1 })
                    (set arena.buffers arena.cursor) (empty_cached r required)
                    λ b' given. record {
                      large = enough r required b' given;
                      moved = refl;
                      filled = omega (arith, lt, length-set arena.buffers arena.cursor b');
                      held = get_elem?-set arena.buffers arena.cursor b' lt;
                      kept = λ i before.
                          get_elem?-set-other arena.buffers arena.cursor i b'
                            (λ same. omega (arith, before, same));
                    })
                λ large. record {
                  large = not_ltb b.byte_len large;
                  moved = refl;
                  filled = omega (arith, lt);
                  held = e;
                  kept = λ i before. refl;
                })
      ]
    where
      strictly :
          (arena.cursor == length arena.buffers) ≡ false → arena.cursor < length arena.buffers
      strictly h = ground (arith, within, h)

      not_ltb : (n : ℕ) → ltb n required ≡ false → required ≤ n
      not_ltb n h = ground arith

  -- For a runtime whose buffers are as large as asked for, and an arena whose cursor is within its slots:
  -- taking a buffer does not panic; a buffer that is returned has the bytes that were asked for, stands in
  -- the slot at the cursor, which moves on by one and stays within the slots, and the buffers that were
  -- taken before keep their slots.
  pub take-TakesSlot :
      (elements size : ℕ) (arena : BufferArena) (r : R)
      → GivesEnough
      → arena.cursor ≤ length arena.buffers
      → TakesSlot (elements * size) arena (take empty_cached elements size arena r)
  unfolding take required_bytes
  take-TakesSlot elements size arena r enough within =
      if_cases
        (λ (o : Option ℕ). TakesSlot (elements * size) arena (elim o [
          | none ↦ (err bad_size, arena, r)
          | some required ↦ take_slot empty_cached required arena r
        ]))
        (leb (elements * size) usize_max && ltb 0 (elements * size)) _ _
        (λ _. take_slot_lem (elements * size) arena r enough within) (λ _. tt)
