-- ===== src/Metal/Workspace.antt =====
-- crates/marian-metal/src/workspace.rs: buffer arenas whose slots are handed out in turn and reused. A
-- buffer is its identity and its size; the runtime's allocator is a parameter. Writes to a buffer do not
-- change the workspace.
pub mod Slots
use marian_edge.Common.{
  ℕ, zero, suc, ◌+◌, ◌*◌, Bool, true, false, not, ◌&&◌, List, [], ◌∷◌, ◌++◌, Option, none, some,
  ltb, leb, ◌==◌, if◌then◌else◌, length, get_elem?, set, usize_max, Outcome, ok, err, crash, ok_or,
}

pub record Buffer : Type 0 where
  pub identity : ℕ
  pub byte_len : ℕ

pub record BufferArena : Type 0 where
  pub buffers : List Buffer
  pub cursor : ℕ

pub record MetalWorkspace : Type 0 where
  pub request : BufferArena
  pub transient : BufferArena
  pub transient_active : Bool

pub data WorkspaceError : Type 0 where
  inside_frame nested_frame no_frame bad_size allocation : WorkspaceError

unfoldable pub rewind : BufferArena → BufferArena
rewind arena = record arena { cursor = 0 }

-- `elements.checked_mul(size).filter(|bytes| *bytes > 0)`.
unfoldable pub required_bytes : ℕ → ℕ → Option ℕ
required_bytes elements size =
    let bytes = elements * size in if leb bytes usize_max && ltb 0 bytes then some bytes else none

-- `runtime.empty_cached`: the allocator's state, and a buffer for that many bytes, or none.
module _ {R : Type 0} (empty_cached : R → ℕ → Option Buffer × R) where
  abbrev pub Taken : Type 0
  Taken = Outcome WorkspaceError Buffer × BufferArena × R

  -- A buffer from the runtime for the slot; an error leaves the cursor moved.
  unfoldable pub allocate : ℕ → BufferArena → (Buffer → List Buffer) → Option Buffer × R → Taken
  allocate slot arena place (none, r) = (err allocation, arena, r)
  allocate slot arena place (some b, r) = (ok b, record arena { buffers = place b }, r)

  -- The slot's buffer, if it is there and large enough, else a new one in its place.
  unfoldable pub take_slot : ℕ → BufferArena → R → Taken
  unfolding allocate
  take_slot required arena r =
      let slot = arena.cursor in
      let moved = record arena { cursor = slot + 1 } in
      if slot == length arena.buffers
      then allocate slot moved (λ b. arena.buffers ++ b ∷ []) (empty_cached r required)
      else elim (get_elem? arena.buffers slot) [
        | none ↦ (crash, moved, r)
        | some b ↦
            if ltb b.byte_len required
            then allocate slot moved (set arena.buffers slot) (empty_cached r required)
            else (ok b, moved, r)
      ]

  unfoldable pub take : ℕ → ℕ → BufferArena → R → Taken
  unfolding take_slot required_bytes
  take elements size arena r = elim (required_bytes elements size) [
    | none ↦ (err bad_size, arena, r)
    | some required ↦ take_slot required arena r
  ]

  abbrev pub Used : Type 0
  Used = Outcome WorkspaceError Buffer × MetalWorkspace × R

  unfoldable pub request_take : ℕ → ℕ → MetalWorkspace → R → Used
  unfolding take
  request_take elements size w r =
      let t = take elements size w.request r in (t.0, record w { request = t.1 }, t.2)

  unfoldable pub transient_take : ℕ → ℕ → MetalWorkspace → R → Used
  unfolding take
  transient_take elements size w r =
      if not w.transient_active
      then (err no_frame, w, r)
      else (let t = take elements size w.transient r in (t.0, record w { transient = t.1 }, t.2))

  -- `output_f32`: in a frame a transient buffer, else one that no arena keeps; a float has 4 bytes. `empty`
  -- is the runtime's allocator that does not cache.
  unfoldable pub output_f32 : (R → ℕ → Option Buffer × R) → ℕ → MetalWorkspace → R → Used
  unfolding transient_take
  output_f32 empty elements w r =
      if w.transient_active
      then transient_take elements 4 w r
      else (let (b, r') = empty r elements in (ok_or b allocation, w, r'))

-- `begin_request`; the runtime's own `begin_request` is outside the workspace.
unfoldable pub begin_request : MetalWorkspace → Outcome WorkspaceError MetalWorkspace
unfolding rewind
begin_request w =
    if w.transient_active
    then err inside_frame
    else ok (record w { request = rewind w.request; transient = rewind w.transient })

-- `begin_transient`; the flag stays set where it fails.
unfoldable pub begin_transient : MetalWorkspace → Outcome WorkspaceError MetalWorkspace
unfolding rewind
begin_transient w =
    if w.transient_active
    then err nested_frame
    else ok (record w { transient_active = true; transient = rewind w.transient })

-- The frame's `drop`.
unfoldable pub end_transient : MetalWorkspace → MetalWorkspace
end_transient w = record w { transient_active = false }
