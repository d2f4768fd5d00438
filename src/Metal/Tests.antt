-- ===== src/Metal/Tests.antt =====
-- The theorems about the Metal configuration and workspace at small inputs.
use marian_edge.Metal.Tuning.{resolve, DecodeTuning, submission_steps}
use marian_edge.Metal.Tuning.Resolves.{IsTuned, resolve-from_lookup}
use marian_edge.Metal.Tuning.Dispatch.{AreSteps, submission_steps-AreSteps}
use marian_edge.Common.{
  false, Gives, ℕ, ◌+◌, ◌*◌, [], ◌∷◌, Option, some, none, Ensures, if◌then◌else◌, arith, subst, ◌≤◌,
  some_inj,
}
use marian_edge.Text.{Text, codes, text_eq}
use marian_edge.Metal.Config.{from_lookup}
use marian_edge.Metal.Config.Accepts.{InRange, from_lookup-InRange}
use marian_edge.Metal.Workspace.{Buffer, BufferArena, take}
use marian_edge.Metal.Workspace.Slots.{TakesSlot, GivesEnough, take-TakesSlot}

abbrev one_setting : Text → Option Text
one_setting name =
    if text_eq name (codes "MARIAN_EDGE_METAL_DECODE_MAX_STEPS") then some (codes "6") else none

from_lookup-InRange_example : Ensures InRange (from_lookup one_setting)
from_lookup-InRange_example = from_lookup-InRange one_setting

-- A runtime that numbers its buffers.
abbrev numbering : ℕ → ℕ → Option Buffer × ℕ
numbering next n = (some (record { identity = next; byte_len = n }), next + 1)

numbering-GivesEnough : GivesEnough numbering
numbering-GivesEnough r n b e = subst (λ x. n ≤ x.byte_len) (some_inj e) (omega arith)

abbrev one_slot : BufferArena
one_slot = record { buffers = record { identity = 7; byte_len = 108 } ∷ []; cursor = 0 }

take-TakesSlot_example : TakesSlot numbering (18 * 4) one_slot (take numbering 18 4 one_slot 8)
take-TakesSlot_example =
    take-TakesSlot numbering 18 4 one_slot 8 numbering-GivesEnough (omega arith)

resolve-from_lookup_example :
    Ensures
      (λ config. Gives (IsTuned config) (resolve (codes "Apple M2 Max") config))
      (from_lookup one_setting)
resolve-from_lookup_example = resolve-from_lookup one_setting (codes "Apple M2 Max")

abbrev two_steps : DecodeTuning
two_steps = record { row_budget = 54; maximum_steps = 6; selection_threads = 256 }

submission_steps-AreSteps_example :
    AreSteps two_steps 20 9 false (submission_steps two_steps 20 9 false)
submission_steps-AreSteps_example = submission_steps-AreSteps two_steps 20 9 false
