-- ===== src/Metal/Config.antt =====
-- crates/marian-metal/src/config.rs: settings read by name, each with an alias. The environment is the
-- parameter `lookup`; error messages are left out.
pub mod Accepts
use marian_edge.Common.{
  ℕ, zero, suc, ◌+◌, ◌-◌, ◌*◌, Bool, true, false, not, ◌&&◌, ◌||◌, List, [], ◌∷◌, ◌++◌, Option,
  none, some, ltb, leb, ◌==◌, if◌then◌else◌, usize_max, Outcome, ok, err, crash, ◌>>=◌, ◌>>◌,
  fail_if, ok_or,
}
use marian_edge.Text.{Text, codes, text_eq}

pub data MetalPrecision : Type 0 where
  fp32 mixed_f16 : MetalPrecision

pub data MetalProfile : Type 0 where
  auto_profile m1 m2 m3 m4 generic : MetalProfile

pub data MetalAttention : Type 0 where
  auto_attention classic flash : MetalAttention

pub record MetalConfig : Type 0 where
  pub precision : MetalPrecision
  pub profile : MetalProfile
  pub attention : MetalAttention
  pub flash_threshold : ℕ
  pub flash_query_tile : Option ℕ
  pub duplicate_batch_width : Option ℕ
  pub decode_row_budget : Option ℕ
  pub decode_maximum_steps : Option ℕ
  pub decode_selection_threads : Option ℕ
  pub custom_gemm_maximum_rows : Option ℕ

pub data ConfigError : Type 0 where
  conflicting unsupported_value not_an_integer zero_value out_of_range : ConfigError

-- `MAXIMUM_POSITION` of crates/marian-model/src/manifest.rs.
abbrev pub maximum_position : ℕ
maximum_position = 4096

-- The digits that are left, behind the number `n`; a number over the word size is an error.
unfoldable pub parse_digits : ℕ → Text → Option ℕ
parse_digits n [] = some n
parse_digits n (c ∷ cs) =
    let m = n * 10 + (c - 48) in
    let rest = parse_digits m cs in if leb 48 c && leb c 57 && leb m usize_max then rest else none

-- `value.parse::<usize>()`: a sign `+` may stand in front.
unfoldable pub parse_usize : Text → Option ℕ
unfolding parse_digits
parse_usize [] = none
parse_usize (c ∷ []) = if c == 43 then none else parse_digits 0 (c ∷ [])
parse_usize (c ∷ d ∷ ds) = if c == 43 then parse_digits 0 (d ∷ ds) else parse_digits 0 (c ∷ d ∷ ds)

module _ (lookup : Text → Option Text) where
  -- `match (primary, alias)`.
  unfoldable pub agree : Option Text → Option Text → Outcome ConfigError (Option Text)
  unfolding text_eq
  agree (some primary) (some alias) =
      if not (text_eq primary alias) then err conflicting else ok (some primary)
  agree (some primary) none = ok (some primary)
  agree none alias = ok alias

  unfoldable pub setting : Text → Outcome ConfigError (Option Text)
  unfolding agree
  setting suffix =
      agree (lookup (codes "MARIAN_EDGE_" ++ suffix)) (lookup (codes "MARIAN_MLX_" ++ suffix))

  unfoldable pub positive : Option Text → Outcome ConfigError (Option ℕ)
  unfolding parse_usize
  positive none = ok none
  positive (some value) = do
    parsed ← ok_or (parse_usize value) not_an_integer
    fail_if (parsed == 0) zero_value
    ok (some parsed)

  unfoldable pub positive_value : Text → Outcome ConfigError (Option ℕ)
  unfolding setting positive
  positive_value suffix = setting suffix >>= positive

  unfoldable pub non_negative : Option Text → Outcome ConfigError (Option ℕ)
  unfolding parse_usize
  non_negative none = ok none
  non_negative (some value) = do parsed ← ok_or (parse_usize value) not_an_integer; ok (some parsed)

  unfoldable pub non_negative_value : Text → Outcome ConfigError (Option ℕ)
  unfolding setting non_negative
  non_negative_value suffix = setting suffix >>= non_negative

  unfoldable pub precision_of : Option Text → Outcome ConfigError MetalPrecision
  unfolding text_eq
  precision_of none = ok fp32
  precision_of (some value) =
      if text_eq value (codes "fp32")
      then ok fp32
      else if text_eq value (codes "mixed-f16")
      then ok mixed_f16
      else err unsupported_value

  unfoldable pub profile_of : Option Text → Outcome ConfigError MetalProfile
  unfolding text_eq
  profile_of none = ok auto_profile
  profile_of (some value) =
      if text_eq value (codes "auto")
      then ok auto_profile
      else if text_eq value (codes "m1")
      then ok m1
      else if text_eq value (codes "m2")
      then ok m2
      else if text_eq value (codes "m3")
      then ok m3
      else if text_eq value (codes "m4")
      then ok m4
      else if text_eq value (codes "generic")
      then ok generic
      else err unsupported_value

  unfoldable pub attention_of : Option Text → Outcome ConfigError MetalAttention
  unfolding text_eq
  attention_of none = ok auto_attention
  attention_of (some value) =
      if text_eq value (codes "auto")
      then ok auto_attention
      else if text_eq value (codes "classic")
      then ok classic
      else if text_eq value (codes "flash")
      then ok flash
      else err unsupported_value

  abbrev unwrap_or_one : Option ℕ → ℕ
  unwrap_or_one none = 1
  unwrap_or_one (some n) = n

  -- `option.is_some_and(test)`.
  abbrev is_some_and : (ℕ → Bool) → Option ℕ → Bool
  is_some_and test none = false
  is_some_and test (some n) = test n

  unfoldable pub from_lookup : Outcome ConfigError MetalConfig
  unfolding setting positive_value non_negative_value precision_of profile_of attention_of
  from_lookup = do
    precision ← setting (codes "METAL_PRECISION") >>= precision_of
    profile ← setting (codes "METAL_PROFILE") >>= profile_of
    attention ← setting (codes "METAL_ATTENTION") >>= attention_of
    threshold ← positive_value (codes "METAL_FLASH_THRESHOLD")
    fail_if (ltb maximum_position (unwrap_or_one threshold)) out_of_range
    tile ← positive_value (codes "METAL_FLASH_QUERY_TILE")
    fail_if (is_some_and (λ n. not (n == 1 || n == 2 || n == 4)) tile) out_of_range
    width ← positive_value (codes "METAL_DUPLICATE_BATCH_WIDTH")
    budget ← positive_value (codes "METAL_DECODE_ROW_BUDGET")
    steps ← positive_value (codes "METAL_DECODE_MAX_STEPS")
    fail_if (is_some_and (λ n. ltb 8 n) steps) out_of_range
    threads ← positive_value (codes "METAL_DECODE_SELECTION_THREADS")
    fail_if (is_some_and (λ n. not (n == 128 || n == 256 || n == 512)) threads) out_of_range
    rows ← non_negative_value (codes "METAL_CUSTOM_GEMM_MAX_ROWS")
    ok (record {
      precision = precision;
      profile = profile;
      attention = attention;
      flash_threshold = unwrap_or_one threshold;
      flash_query_tile = tile;
      duplicate_batch_width = width;
      decode_row_budget = budget;
      decode_maximum_steps = steps;
      decode_selection_threads = threads;
      custom_gemm_maximum_rows = rows;
    })
