-- ===== src/Metal/Config/Accepts.antt =====
-- Which configurations config.rs accepts.
use marian_edge.Common.{
  ℕ, ◌≤◌, ◌≡◌, ◌⊎◌, ◌++◌, String, false, not, ◌||◌, Option, none, some, ltb, ◌==◌, Outcome, ◌>>=◌,
  ok_or, ok_or-ne-crash, Ensures, Ensures-bind, Ensures-after, Ensures-fail_if, Ensures-if, arith,
}
use marian_edge.Text.{Text, text_eq, codes}
use marian_edge.Metal.Config.{
  MetalConfig, ConfigError, maximum_position, parse_usize, agree, setting, positive, positive_value,
  non_negative, non_negative_value, precision_of, profile_of, attention_of, from_lookup,
  is_some_and, unwrap_or_one, not_an_integer, zero_value, out_of_range,
}

abbrev pub IfSome : (ℕ → Type 0) → Option ℕ → Type 0
IfSome P none = Unit
IfSome P (some n) = P n

-- The ranges that the error messages name.
pub record InRange (config : MetalConfig) : Type 0 where
  pub threshold : (1 ≤ config.flash_threshold) × (config.flash_threshold ≤ maximum_position)
  pub tile : IfSome (λ n. (n ≡ 1) ⊎ ((n ≡ 2) ⊎ (n ≡ 4))) config.flash_query_tile
  pub width : IfSome (λ n. 1 ≤ n) config.duplicate_batch_width
  pub budget : IfSome (λ n. 1 ≤ n) config.decode_row_budget
  pub steps : IfSome (λ n. (1 ≤ n) × (n ≤ 8)) config.decode_maximum_steps
  pub threads : IfSome (λ n. (n ≡ 128) ⊎ ((n ≡ 256) ⊎ (n ≡ 512))) config.decode_selection_threads

module _ (lookup : Text → Option Text) where
  abbrev IsPositive : Option ℕ → Type 0
  IsPositive = IfSome (λ n. 1 ≤ n)

  positive_lem : (o : Option Text) → Ensures IsPositive (positive lookup o)
  unfolding positive
  positive_lem none = tt
  positive_lem (some value) =
      Ensures-after IsPositive (ok_or (parse_usize value) not_an_integer) _ (ok_or-ne-crash _ _)
        λ n _. Ensures-fail_if IsPositive (n == 0) zero_value _ λ h. ground (arith, h)

  agree-ne-crash : (p q : Option Text) → Ensures (λ _. Unit {0}) (agree lookup p q)
  unfolding agree
  agree-ne-crash (some p) (some q) =
      Ensures-if (λ _. Unit {0}) (not (text_eq p q)) _ _ (λ _. tt) (λ _. tt)
  agree-ne-crash (some p) none = tt
  agree-ne-crash none q = tt

  setting_lem : (suffix : Text) → Ensures (λ _. Unit {0}) (setting lookup suffix)
  unfolding setting
  setting_lem suffix =
      agree-ne-crash (lookup (codes "MARIAN_EDGE_" ++ suffix))
        (lookup (codes "MARIAN_MLX_" ++ suffix))

  positive_value_lem : (suffix : Text) → Ensures IsPositive (positive_value lookup suffix)
  unfolding positive_value
  positive_value_lem suffix =
      Ensures-bind (λ _. Unit {0}) IsPositive (setting lookup suffix) (positive lookup)
        (setting_lem suffix) λ o _. positive_lem o

  -- `match setting(…)?.… { … }`: a choice by the setting's text never panics.
  chosen :
      {A : Type 0} (suffix : Text) (choice : Option Text → Outcome ConfigError A)
      → ((o : Option Text) → Ensures (λ _. Unit {0}) (choice o))
      → Ensures (λ _. Unit {0}) (setting lookup suffix >>= choice)
  chosen suffix choice h =
      Ensures-bind (λ _. Unit {0}) (λ _. Unit {0}) (setting lookup suffix) choice
        (setting_lem suffix) λ o _. h o

  precision_of_lem : (o : Option Text) → Ensures (λ _. Unit {0}) (precision_of lookup o)
  unfolding precision_of
  precision_of_lem none = tt
  precision_of_lem (some value) = ground arith

  profile_of_lem : (o : Option Text) → Ensures (λ _. Unit {0}) (profile_of lookup o)
  unfolding profile_of
  profile_of_lem none = tt
  profile_of_lem (some value) = ground arith

  attention_of_lem : (o : Option Text) → Ensures (λ _. Unit {0}) (attention_of lookup o)
  unfolding attention_of
  attention_of_lem none = tt
  attention_of_lem (some value) = ground arith

  non_negative_lem : (o : Option Text) → Ensures (λ _. Unit {0}) (non_negative lookup o)
  unfolding non_negative
  non_negative_lem none = tt
  non_negative_lem (some value) =
      Ensures-after (λ _. Unit {0}) (ok_or (parse_usize value) not_an_integer) _
        (ok_or-ne-crash _ _) λ n _. tt

  threshold_lem :
      (o : Option ℕ)
      → IsPositive o
      → ltb maximum_position (unwrap_or_one lookup o) ≡ false
      → (1 ≤ unwrap_or_one lookup o) × (unwrap_or_one lookup o ≤ maximum_position)
  threshold_lem none p h = (omega arith, omega arith)
  threshold_lem (some n) p h = (p, not_ltb h)
    where
      not_ltb : ltb 4096 n ≡ false → n ≤ 4096
      not_ltb h = ground arith

  one_of_lem :
      (a b c : ℕ) (o : Option ℕ)
      → is_some_and lookup (λ n. not (n == a || n == b || n == c)) o ≡ false
      → IfSome (λ n. (n ≡ a) ⊎ ((n ≡ b) ⊎ (n ≡ c))) o
  one_of_lem a b c none h = tt
  one_of_lem a b c (some n) h = ground arith

  steps_lem :
      (o : Option ℕ)
      → IsPositive o
      → is_some_and lookup (λ n. ltb 8 n) o ≡ false
      → IfSome (λ n. (1 ≤ n) × (n ≤ 8)) o
  steps_lem none p h = tt
  steps_lem (some n) p h = (p, ground arith)

  step :
      {A : Type 0} (m : Outcome ConfigError A) (f : A → Outcome ConfigError MetalConfig)
      → Ensures (λ _. Unit {0}) m
      → ((a : A) → Ensures InRange (f a))
      → Ensures InRange (m >>= f)
  step m f h k = Ensures-bind (λ _. Unit {0}) InRange m f h λ a _. k a

  value :
      (suffix : String) (f : Option ℕ → Outcome ConfigError MetalConfig)
      → ((o : Option ℕ) → IsPositive o → Ensures InRange (f o))
      → Ensures InRange (positive_value lookup (codes suffix) >>= f)
  value suffix f k =
      Ensures-bind IsPositive InRange (positive_value lookup (codes suffix)) f
        (positive_value_lem (codes suffix)) k

  -- For every environment: reading the configuration does not panic, and a configuration that is accepted
  -- has a flash threshold from 1 to 4096, and, where they are set, a query tile of 1, 2 or 4, a positive
  -- batch width and row budget, 1 to 8 decode steps, and 128, 256 or 512 selection threads.
  pub from_lookup-InRange : Ensures InRange (from_lookup lookup)
  unfolding from_lookup non_negative_value
  from_lookup-InRange =
      step (setting lookup (codes "METAL_PRECISION") >>= precision_of lookup) _
        (chosen _ _ precision_of_lem)
        λ precision.
          step (setting lookup (codes "METAL_PROFILE") >>= profile_of lookup) _
            (chosen _ _ profile_of_lem)
            λ profile.
              step (setting lookup (codes "METAL_ATTENTION") >>= attention_of lookup) _
                (chosen _ _ attention_of_lem)
                λ attention. value "METAL_FLASH_THRESHOLD" _ λ threshold p₁.
                  Ensures-fail_if InRange (ltb maximum_position (unwrap_or_one lookup threshold))
                    out_of_range _
                    λ h₁. value "METAL_FLASH_QUERY_TILE" _ λ tile p₂.
                      Ensures-fail_if InRange
                        (is_some_and lookup (λ n. not (n == 1 || n == 2 || n == 4)) tile)
                        out_of_range _
                        λ h₂. value "METAL_DUPLICATE_BATCH_WIDTH" _ λ width p₃.
                          value "METAL_DECODE_ROW_BUDGET" _ λ budget p₄.
                            value "METAL_DECODE_MAX_STEPS" _ λ steps p₅.
                              Ensures-fail_if InRange (is_some_and lookup (λ n. ltb 8 n) steps)
                                out_of_range _
                                λ h₃. value "METAL_DECODE_SELECTION_THREADS" _ λ threads p₆.
                                  Ensures-fail_if InRange
                                    (is_some_and lookup
                                      (λ n. not (n == 128 || n == 256 || n == 512)) threads)
                                    out_of_range _
                                    λ h₄.
                                      step
                                        (setting lookup (codes "METAL_CUSTOM_GEMM_MAX_ROWS")
                                          >>= non_negative lookup)
                                        _ (chosen _ _ non_negative_lem)
                                        λ rows.
                                          let accepted : MetalConfig = record {
                                            precision = precision;
                                            profile = profile;
                                            attention = attention;
                                            flash_threshold = unwrap_or_one lookup threshold;
                                            flash_query_tile = tile;
                                            duplicate_batch_width = width;
                                            decode_row_budget = budget;
                                            decode_maximum_steps = steps;
                                            decode_selection_threads = threads;
                                            custom_gemm_maximum_rows = rows;
                                          } in
                                          let in_range : InRange accepted = record {
                                            threshold = threshold_lem threshold p₁ h₁;
                                            tile = one_of_lem 1 2 4 tile h₂;
                                            width = p₃;
                                            budget = p₄;
                                            steps = steps_lem steps p₅ h₃;
                                            threads = one_of_lem 128 256 512 threads h₄;
                                          } in
                                          in_range
