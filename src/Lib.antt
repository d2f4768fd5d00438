-- ===== src/Lib.antt =====
-- Verification of marian-edge, a translation service: text comes in over HTTP and is translated in batches
-- by a worker that owns a backend; a backend cuts a long text into segments that fit its model.
--
-- Parts, and the files that model them:
-- * Text segmenter, crates/marian-core/src/segmenter.rs: Segmenter and its children. A Text is the list of
--   the text's code points, and an index counts UTF-8 bytes, as in the source; Text has the slices and
--   boundaries of `str`. `segment_text` is Segmenter/Split, with `sentence_units` and
--   `period_can_end_sentence` in Segmenter/Sentence, `PieceCounter` in Segmenter/Counter and
--   `fallback_break_points` in Segmenter/Break. The tokenizer is the parameter `count_pieces`.
-- * Inputs, outputs, errors and the batch key, crates/marian-core/src/types.rs: Translation.
-- * Scheduler, crates/marian-core/src/scheduler.rs: Scheduler for the configuration, the filling of a batch
--   (`collect`) and the merging of equal inputs (`coalesce`), Scheduler/Round for a round of `worker_loop`.
--   The channel is the list of what its receives will return, the deadline of a batch a receive that timed
--   out; a reply channel answers as its job says. The counters wrap around at 2^64, as the atomics do.
--   Scheduler/Admission is a step relation in which calls of `translate`, the worker and `shutdown` interleave,
--   an atomic access or a probe of the channel at a time, and a call may be dropped where it awaits;
--   Scheduler/Padding is about the size of a padded batch; Scheduler/Pool has `next_worker`, `translate_many` and
--   `start_pool`, for which what the thread of a worker reports is a parameter.
-- * Pivot backend, crates/marian-core/src/pivot.rs: Pivot. The two models are parameters.
-- * Lexical shortlist, crates/marian-model/src/shortlist.rs: Shortlist. A payload is a list of bytes.
-- * Model manifest, crates/marian-model/src/manifest.rs: Manifest. A file is the list of what its reads
--   give; the hasher and the directory are parameters.
-- * HTTP requests, crates/marian-server/src/lib.rs: Server. The translator is a parameter.
-- * CPU backend, crates/marian-cpu/src/backend.rs, limits.rs: Cpu/Planner is `translate_with_engine`, which
--   cuts the inputs into segments, translates these in bounded batches and joins the results. The entries that
--   the source's vectors have for one input are a Slot. The engine and the tokenizers are parameters; Cpu/Engine
--   has the test of engine.rs on the shape of a batch.
-- * Model files, crates/marian-cpu/src/legacy_q8.rs: Cpu/Binary, with the parser in Cpu/Binary/Parse, the
--   methods of `MarianBinaryModel` in Cpu/Binary/Model and `Q8Linear::new` of q8_gemm.rs in Cpu/Binary/Linear.
--   The floats are the interface `Floats`; the decoding of UTF-8 is a parameter. `by_name` is an association list.
-- * Metal configuration, tuning and workspace, crates/marian-metal/src/config.rs, tuning.rs and workspace.rs:
--   Metal. The environment and the allocator are parameters.
--
-- Failure: an `Outcome` is `ok`, an error of the source, or `crash`, which is a panic or fuel that ran out;
-- an Option of a scanning function is `none` for a panic. Where a theorem says that code does not panic, it
-- says that no fuel runs out. The fuel of a scan is one more than the bytes in front of it, since each round
-- moves by a byte at least; a binary search gets the width of its interval. The loop over batches has fuel for
-- one round more than there are segments, and draining an input for its segments.
--
-- Numbers are natural numbers. A word has 64 bits; where the source uses a checked operation, so does the
-- model; the atomic counters subtract modulo 2^64, and other subtractions stand behind the tests of the
-- source that order their operands.
--
-- Not modelled: the numeric kernels and engines of crates/marian-cpu and crates/marian-metal, the loading of
-- models from a directory, the wasm worker, the tokenizer's C library, axum and tokio, and messages of errors. vendor/ is another project.
pub mod Common
pub mod Text
pub mod Segmenter
pub mod Translation
pub mod Scheduler
pub mod Pivot
pub mod Shortlist
pub mod Metal
pub mod Manifest
pub mod Server
pub mod Cpu
