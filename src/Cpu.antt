-- ===== src/Cpu.antt =====
-- The CPU crate: crates/marian-cpu/src/limits.rs, the planner of batches of backend.rs, and the model files of
-- legacy_q8.rs.
pub mod Engine
pub mod Planner
pub mod Binary
use marian_edge.Common.{ℕ, ℤ, List}

abbrev pub maximum_source_tokens : ℕ
maximum_source_tokens = 256

abbrev pub maximum_generation_steps : ℕ
maximum_generation_steps = 256

abbrev pub maximum_engine_batch : ℕ
maximum_engine_batch = 256

abbrev pub maximum_padded_attention_cells : ℕ
maximum_padded_attention_cells = 65536

abbrev pub maximum_translation_segments : ℕ
maximum_translation_segments = 4096

-- Rows of tokens, one behind the other; row `i` lies between offsets `i` and `i + 1`.
pub record BatchOutput : Type 0 where
  pub tokens : List ℤ
  pub offsets : List ℕ
