-- ===== src/Cpu/Engine.antt =====
-- crates/marian-cpu/src/engine.rs: the bound on a batch that the engine accepts.
use marian_edge.Common.{
  ℕ, ◌*◌, Option, none, some, ltb, leb, if◌then◌else◌, usize_max, Outcome, ok, ◌>>=◌, ◌>>◌, fail_if,
  ok_or,
}
use marian_edge.Cpu.{maximum_source_tokens, maximum_padded_attention_cells}

-- Its messages are left out.
pub data WorkError : Type 0 where
  source_too_long overflows too_many_cells : WorkError

-- `usize::checked_mul`.
abbrev pub multiply_checked : ℕ → ℕ → Option ℕ
multiply_checked a b = if leb (a * b) usize_max then some (a * b) else none

-- `MAXIMUM_SOURCE_LENGTH` is the limit on source tokens.
unfoldable pub validate_work_shape : ℕ → ℕ → Outcome WorkError (Unit {0})
validate_work_shape batch source_length = do
  fail_if (ltb maximum_source_tokens source_length) source_too_long
  value ← ok_or (multiply_checked batch source_length) overflows
  attention_cells ← ok_or (multiply_checked value source_length) overflows
  fail_if (ltb maximum_padded_attention_cells attention_cells) too_many_cells
  ok tt
