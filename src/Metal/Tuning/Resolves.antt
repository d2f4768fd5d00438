-- ===== src/Metal/Tuning/Resolves.antt =====
-- Every configuration that config.rs accepts has a tuning.
use marian_edge.Common.{
  ℕ, ◌≤◌, ◌≡◌, refl, ◌⊎◌, inl, inr, false, not, ◌&&◌, ◌||◌, Option, none, some, leb, ◌==◌, Ensures,
  Ensures-mono, Gives, Gives-fail_if, arith,
}
use marian_edge.Text.{Text}
use marian_edge.Metal.Config.{
  MetalProfile, auto_profile, m1, m2, m3, m4, generic, MetalConfig, maximum_position, from_lookup,
}
use marian_edge.Metal.Config.Accepts.{IfSome, InRange, from_lookup-InRange}
use marian_edge.Metal.Tuning.{
  DeviceFamily, family_m1, family_m2, family_m3, family_m4, family_generic, DeviceDefaults,
  MetalTuning, for_family, detect, resolve_family, resolve, unwrap_or, threshold_out_of_range,
  tile_not_allowed, width_zero, budget_zero, steps_out_of_range, threads_not_allowed,
}

-- A profile that names a family decides it.
abbrev pub KeptFamily : MetalProfile → DeviceFamily → Type 0
KeptFamily auto_profile family = Unit
KeptFamily m1 family = family ≡ family_m1
KeptFamily m2 family = family ≡ family_m2
KeptFamily m3 family = family ≡ family_m3
KeptFamily m4 family = family ≡ family_m4
KeptFamily generic family = family ≡ family_generic

-- The values that the runtime relies on, those of the configuration where it has them.
pub record IsTuned (config : MetalConfig) (tuning : MetalTuning) : Type 0 where
  pub threshold : (1 ≤ tuning.attention.threshold) × (tuning.attention.threshold ≤ maximum_position)
  pub tile :
      (tuning.attention.query_tile ≡ 1)
      ⊎ ((tuning.attention.query_tile ≡ 2) ⊎ (tuning.attention.query_tile ≡ 4))
  pub width : 1 ≤ tuning.duplicate_batch_width
  pub budget : 1 ≤ tuning.decode.row_budget
  pub steps : (1 ≤ tuning.decode.maximum_steps) × (tuning.decode.maximum_steps ≤ 8)
  pub threads :
      (tuning.decode.selection_threads ≡ 128)
      ⊎ ((tuning.decode.selection_threads ≡ 256) ⊎ (tuning.decode.selection_threads ≡ 512))
  pub kept_family : KeptFamily config.profile tuning.family
  pub kept_mode : tuning.attention.mode ≡ config.attention
  pub kept_threshold : tuning.attention.threshold ≡ config.flash_threshold
  pub kept_rows : IfSome (λ n. tuning.gemm.custom_maximum_rows ≡ n) config.custom_gemm_maximum_rows
  pub kept_tile : IfSome (λ n. tuning.attention.query_tile ≡ n) config.flash_query_tile
  pub kept_width : IfSome (λ n. tuning.duplicate_batch_width ≡ n) config.duplicate_batch_width
  pub kept_budget : IfSome (λ n. tuning.decode.row_budget ≡ n) config.decode_row_budget
  pub kept_steps : IfSome (λ n. tuning.decode.maximum_steps ≡ n) config.decode_maximum_steps
  pub kept_threads :
      IfSome (λ n. tuning.decode.selection_threads ≡ n) config.decode_selection_threads

abbrev OneOf : ℕ → ℕ → ℕ → ℕ → Type 0
OneOf a b c n = (n ≡ a) ⊎ ((n ≡ b) ⊎ (n ≡ c))

-- The table's rows are in range.
record IsDefault (d : DeviceDefaults) : Type 0 where
  tile : OneOf 1 2 4 d.flash_query_tile
  width : 1 ≤ d.duplicate_batch_width
  budget : 1 ≤ d.decode_row_budget
  steps : (1 ≤ d.decode_maximum_steps) × (d.decode_maximum_steps ≤ 8)
  threads : OneOf 128 256 512 d.decode_selection_threads

for_family-IsDefault : (f : DeviceFamily) → IsDefault (for_family f)
unfolding for_family
for_family-IsDefault family_m1 = record {
  tile = inr (inr refl);
  width = omega arith;
  budget = omega arith;
  steps = (omega arith, omega arith);
  threads = inr (inl refl);
}
for_family-IsDefault family_m2 = record {
  tile = inr (inr refl);
  width = omega arith;
  budget = omega arith;
  steps = (omega arith, omega arith);
  threads = inr (inl refl);
}
for_family-IsDefault family_m3 = record {
  tile = inr (inr refl);
  width = omega arith;
  budget = omega arith;
  steps = (omega arith, omega arith);
  threads = inr (inr refl);
}
for_family-IsDefault family_m4 = record {
  tile = inr (inr refl);
  width = omega arith;
  budget = omega arith;
  steps = (omega arith, omega arith);
  threads = inr (inr refl);
}
for_family-IsDefault family_generic = record {
  tile = inr (inl refl);
  width = omega arith;
  budget = omega arith;
  steps = (omega arith, omega arith);
  threads = inl refl;
}

-- A value of the configuration or a default, both with a property.
chosen : (P : ℕ → Type 0) (o : Option ℕ) (d : ℕ) → IfSome P o → P d → P (unwrap_or o d)
chosen P none d h k = k
chosen P (some n) d h k = h

kept : (o : Option ℕ) (d : ℕ) → IfSome (λ n. unwrap_or o d ≡ n) o
kept none d = tt
kept (some n) d = refl

kept_profile :
    (p : MetalProfile) (detected : DeviceFamily) → KeptFamily p (resolve_family p detected)
unfolding resolve_family
kept_profile auto_profile detected = tt
kept_profile m1 detected = refl
kept_profile m2 detected = refl
kept_profile m3 detected = refl
kept_profile m4 detected = refl
kept_profile generic detected = refl

among_three : (a b c n : ℕ) → OneOf a b c n → not (n == a || n == b || n == c) ≡ false
among_three a b c n h = ground (arith, h)

-- A configuration in range has a tuning on every device, with values in range that are the
-- configuration's where it has any.
resolve_in_range :
    (device_name : Text) (config : MetalConfig)
    → InRange config
    → Gives (IsTuned config) (resolve device_name config)
unfolding resolve
resolve_in_range device_name config v =
    let d = for_family-IsDefault (resolve_family config.profile (detect device_name)) in
    let tile =
      chosen (OneOf 1 2 4) config.flash_query_tile defaults.flash_query_tile v.tile d.tile in
    let width =
      chosen (λ n. 1 ≤ n) config.duplicate_batch_width defaults.duplicate_batch_width v.width
        d.width in
    let budget =
      chosen (λ n. 1 ≤ n) config.decode_row_budget defaults.decode_row_budget v.budget d.budget in
    let steps =
      chosen (λ n. (1 ≤ n) × (n ≤ 8)) config.decode_maximum_steps defaults.decode_maximum_steps
        v.steps d.steps in
    let threads =
      chosen (OneOf 128 256 512) config.decode_selection_threads defaults.decode_selection_threads
        v.threads d.threads in
    Gives-fail_if (IsTuned config) _ threshold_out_of_range _
      (between 1 maximum_position _ v.threshold)
      (Gives-fail_if (IsTuned config) _ tile_not_allowed _ (among_three 1 2 4 _ tile) (
        Gives-fail_if (IsTuned config) _ width_zero _ (not_zero _ width) (
          Gives-fail_if (IsTuned config) _ budget_zero _ (not_zero _ budget) (
            Gives-fail_if (IsTuned config) _ steps_out_of_range _ (between 1 8 _ steps) (
              Gives-fail_if (IsTuned config) _ threads_not_allowed _
                (among_three 128 256 512 _ threads)
                (record {
                  threshold = v.threshold;
                  tile = tile;
                  width = width;
                  budget = budget;
                  steps = steps;
                  threads = threads;
                  kept_family = kept_profile config.profile (detect device_name);
                  kept_mode = refl;
                  kept_threshold = refl;
                  kept_rows = kept config.custom_gemm_maximum_rows _;
                  kept_tile = kept config.flash_query_tile _;
                  kept_width = kept config.duplicate_batch_width _;
                  kept_budget = kept config.decode_row_budget _;
                  kept_steps = kept config.decode_maximum_steps _;
                  kept_threads = kept config.decode_selection_threads _;
                }))))))
  where
    defaults : DeviceDefaults
    defaults = for_family (resolve_family config.profile (detect device_name))

    between : (a b n : ℕ) → (a ≤ n) × (n ≤ b) → not (leb a n && leb n b) ≡ false
    between a b n (h, k) = ground (arith, h, k)

    not_zero : (n : ℕ) → 1 ≤ n → (n == 0) ≡ false
    not_zero n h = ground (arith, h)

-- Whatever the settings and the name of the device: a configuration that is read from the settings has
-- a tuning, without an error; its values are in the ranges that the kernels rely on; its attention mode and
-- threshold are the configuration's, and so are the family of the device, unless the profile is auto, the
-- query tile, the custom GEMM rows, the duplicate width, the row budget, the step limit and the selection
-- threads, where the configuration has them.
pub resolve-from_lookup :
    (lookup : Text → Option Text) (device_name : Text)
    → Ensures (λ config. Gives (IsTuned config) (resolve device_name config)) (from_lookup lookup)
resolve-from_lookup lookup device_name =
    Ensures-mono InRange (λ config. Gives (IsTuned config) (resolve device_name config))
      (from_lookup lookup) (from_lookup-InRange lookup) (resolve_in_range device_name)
