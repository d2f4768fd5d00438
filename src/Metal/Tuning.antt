-- ===== src/Metal/Tuning.antt =====
-- crates/marian-metal/src/tuning.rs: what a configuration comes to on a device, and the choices it makes
-- for attention, decoding and matrix products. Labels and error messages are left out.
pub mod Resolves
pub mod Dispatch
use marian_edge.Common.{
  ℕ, ◌/◌, min, max, Bool, true, false, not, ◌&&◌, ◌||◌, List, [], ◌∷◌, ◌++◌, map, Option, none,
  some, ltb, leb, ◌==◌, if◌then◌else◌, any, retain, Outcome, ok, err, ◌>>=◌, ◌>>◌, fail_if,
}
use marian_edge.Text.{Text, codes, text_eq, to_ascii_lowercase}
use marian_edge.Metal.Config.{
  MetalAttention, auto_attention, classic, flash, MetalProfile, auto_profile, m1, m2, m3, m4,
  generic, MetalConfig, maximum_position,
}

abbrev pub flash_attention_max_head_dim : ℕ
flash_attention_max_head_dim = 64

pub record AttentionTuning : Type 0 where
  pub mode : MetalAttention
  pub threshold : ℕ
  pub query_tile : ℕ

-- The source's `&&` binds more tightly than its `||`.
unfoldable pub use_flash : AttentionTuning → ℕ → ℕ → ℕ → Bool
use_flash tuning query_length key_length head_dim =
    if ltb flash_attention_max_head_dim head_dim then false else elim tuning.mode [
      | classic ↦ false
      | flash ↦ true
      | auto_attention ↦
          query_length == 1 || (query_length == key_length && leb tuning.threshold query_length)
    ]

pub record DecodeTuning : Type 0 where
  pub row_budget : ℕ
  pub maximum_steps : ℕ
  pub selection_threads : ℕ

unfoldable pub submission_steps : DecodeTuning → ℕ → ℕ → Bool → ℕ
submission_steps tuning active_rows remaining_steps completion_observed =
    let occupancy_steps = max (tuning.row_budget / max active_rows 1) 1 in
    let completion_cap = if completion_observed then 1 else tuning.maximum_steps in
    max (min (min occupancy_steps completion_cap) remaining_steps) 1

pub record GemmTuning : Type 0 where
  pub custom_maximum_rows : ℕ

unfoldable pub use_custom_fp32 : GemmTuning → ℕ → ℕ → Bool
use_custom_fp32 tuning rows columns =
    (ltb 0 tuning.custom_maximum_rows && leb rows tuning.custom_maximum_rows) && leb 32 columns

pub data DeviceFamily : Type 0 where
  family_m1 family_m2 family_m3 family_m4 family_generic : DeviceFamily

unfoldable pub starts_with : Text → Text → Bool
starts_with text [] = true
starts_with [] (p ∷ ps) = false
starts_with (c ∷ cs) (p ∷ ps) = c == p && starts_with cs ps

unfoldable pub contains : Text → Text → Bool
unfolding starts_with
contains [] pattern_text = starts_with [] pattern_text
contains (c ∷ cs) pattern_text = starts_with (c ∷ cs) pattern_text || contains cs pattern_text

-- `device_name.replace([' ', '-'], "").to_ascii_lowercase()`.
unfoldable pub compact_name : Text → Text
unfolding to_ascii_lowercase
compact_name device_name =
    map to_ascii_lowercase (retain (λ c. not (c == 32 || c == 45)) device_name)

unfoldable pub detect : Text → DeviceFamily
unfolding contains compact_name
detect device_name =
    let compact = compact_name device_name in
    if contains compact (codes "applem4")
    then family_m4
    else if contains compact (codes "applem3")
    then family_m3
    else if contains compact (codes "applem2")
    then family_m2
    else if contains compact (codes "applem1")
    then family_m1
    else family_generic

-- `DeviceFamily::resolve`.
unfoldable pub resolve_family : MetalProfile → DeviceFamily → DeviceFamily
resolve_family auto_profile detected = detected
resolve_family m1 detected = family_m1
resolve_family m2 detected = family_m2
resolve_family m3 detected = family_m3
resolve_family m4 detected = family_m4
resolve_family generic detected = family_generic

pub record DeviceDefaults : Type 0 where
  pub duplicate_batch_width : ℕ
  pub flash_query_tile : ℕ
  pub decode_row_budget : ℕ
  pub decode_maximum_steps : ℕ
  pub decode_selection_threads : ℕ
  pub custom_gemm_maximum_rows : ℕ

abbrev defaults_of : ℕ → ℕ → ℕ → ℕ → ℕ → DeviceDefaults
defaults_of width tile budget steps threads = record {
  duplicate_batch_width = width;
  flash_query_tile = tile;
  decode_row_budget = budget;
  decode_maximum_steps = steps;
  decode_selection_threads = threads;
  custom_gemm_maximum_rows = 0;
}

unfoldable pub for_family : DeviceFamily → DeviceDefaults
for_family family_m1 = defaults_of 9 4 54 6 256
for_family family_m2 = defaults_of 8 4 48 3 256
for_family family_m3 = defaults_of 8 4 64 4 512
for_family family_m4 = defaults_of 8 4 64 4 512
for_family family_generic = defaults_of 4 2 24 2 128

pub record MetalTuning : Type 0 where
  pub family : DeviceFamily
  pub attention : AttentionTuning
  pub decode : DecodeTuning
  pub gemm : GemmTuning
  pub duplicate_batch_width : ℕ

pub data TuningError : Type 0 where
  threshold_out_of_range tile_not_allowed width_zero budget_zero steps_out_of_range
        threads_not_allowed :
      TuningError

abbrev pub unwrap_or : Option ℕ → ℕ → ℕ
unwrap_or none d = d
unwrap_or (some n) d = n

-- `MetalTuning::resolve`.
unfoldable pub resolve : Text → MetalConfig → Outcome TuningError MetalTuning
unfolding detect resolve_family for_family
resolve device_name config = do
  let family = resolve_family config.profile (detect device_name)
  let defaults = for_family family
  fail_if (not (leb 1 config.flash_threshold && leb config.flash_threshold maximum_position))
      threshold_out_of_range
  let query_tile = unwrap_or config.flash_query_tile defaults.flash_query_tile
  fail_if (not (query_tile == 1 || query_tile == 2 || query_tile == 4)) tile_not_allowed
  let width = unwrap_or config.duplicate_batch_width defaults.duplicate_batch_width
  let row_budget = unwrap_or config.decode_row_budget defaults.decode_row_budget
  fail_if (width == 0) width_zero
  fail_if (row_budget == 0) budget_zero
  let maximum_steps = unwrap_or config.decode_maximum_steps defaults.decode_maximum_steps
  fail_if (not (leb 1 maximum_steps && leb maximum_steps 8)) steps_out_of_range
  let rows = unwrap_or config.custom_gemm_maximum_rows defaults.custom_gemm_maximum_rows
  let threads = unwrap_or config.decode_selection_threads defaults.decode_selection_threads
  fail_if (not (threads == 128 || threads == 256 || threads == 512)) threads_not_allowed
  ok (record {
    family = family;
    attention = record {
      mode = config.attention;
      threshold = config.flash_threshold;
      query_tile = query_tile;
    };
    decode = record {
      row_budget = row_budget;
      maximum_steps = maximum_steps;
      selection_threads = threads;
    };
    gemm = record { custom_maximum_rows = rows };
    duplicate_batch_width = width;
  })
