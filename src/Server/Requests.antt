-- ===== src/Server/Requests.antt =====
-- Which inputs the handlers of the server pass to the translator.
use marian_edge.Common.{
  suc, if_cases, ℕ, ◌≤◌, ◌≡◌, refl, ap, ◌∙◌, Bool, true, false, not, not-false, ||_split, &&_split,
  ◌&&◌, ◌||◌, List, [], ◌∷◌, map, any, all, Option, none, some, ltb, leb, ◌==◌, length, All, ok,
  Ensures, Ensures-bind, Ensures-fail_if, Ensures-if, arith, max, ◌*◌,
}
use marian_edge.Text.{
  Text, codes, byte_length, len_utf8, is_ascii_lowercase, to_ascii_lowercase, text_eq,
}
use marian_edge.Translation.{TranslationInput}
use marian_edge.Server.{
  bad_request, payload_too_large, max_text_bytes, trim, validate_text, primary_of, normalize_lang,
  detect_language, normalize_given, normalize_source, translation_input, check_item, check_items,
  immersive_inputs, is_kana, is_han, count_if,
}

-- A language code: two or three small letters.
pub record IsCode (language : Text) : Type 0 where
  pub at_least : 2 ≤ byte_length language
  pub at_most : byte_length language ≤ 3
  pub letters : all is_ascii_lowercase language ≡ true

abbrev pub IsFullText : Text → Type 0
IsFullText text = ((length (trim text) == 0) ≡ false) × (byte_length text ≤ max_text_bytes)

pub record IsValidInput (input : TranslationInput) : Type 0 where
  pub full : IsFullText input.text
  pub source : IsCode input.source_lang
  pub target : IsCode input.target_lang
  pub some_output : 1 ≤ input.max_output_tokens
  pub bounded_output : input.max_output_tokens ≤ 2048

not_ltb : (a b : ℕ) → ltb a b ≡ false → b ≤ a
not_ltb a b h = ground arith

leb_le : (a b : ℕ) → leb a b ≡ true → a ≤ b
leb_le a b h = ground arith

validate_text_lem : (text : Text) → Ensures (λ _. IsFullText text) (validate_text text)
unfolding validate_text
validate_text_lem text =
    Ensures-fail_if (λ _. IsFullText text) (length (trim text) == 0) bad_request _
      λ full.
        Ensures-fail_if (λ _. IsFullText text) (ltb max_text_bytes (byte_length text))
          payload_too_large _ λ small. (full, not_ltb max_text_bytes (byte_length text) small)

normalize_lang-IsCode : (language : Text) → Ensures IsCode (normalize_lang language)
unfolding normalize_lang
normalize_lang-IsCode language =
    Ensures-fail_if IsCode
      (not (leb 2 (byte_length primary) && leb (byte_length primary) 3)
        || not (all is_ascii_lowercase primary))
      bad_request (λ _. ok primary)
      λ h.
        let (size, letters) =
          ||_split (not (leb 2 (byte_length primary) && leb (byte_length primary) 3))
            (not (all is_ascii_lowercase primary)) h in
        let (low, high) =
          &&_split (leb 2 (byte_length primary)) (leb (byte_length primary) 3) (not-false _ size) in
        is_code low high (not-false _ letters)
  where
    primary : Text
    primary = primary_of (map to_ascii_lowercase (trim language))

    is_code :
        leb 2 (byte_length primary) ≡ true
        → leb (byte_length primary) 3 ≡ true
        → all is_ascii_lowercase primary ≡ true
        → IsCode primary
    is_code low high letters = record {
      at_least = leb_le 2 (byte_length primary) low;
      at_most = leb_le (byte_length primary) 3 high;
      letters = letters;
    }

two_letters-IsCode :
    (a b : ℕ)
    → len_utf8 a ≡ 1
    → len_utf8 b ≡ 1
    → all is_ascii_lowercase (a ∷ b ∷ []) ≡ true
    → IsCode (a ∷ b ∷ [])
unfolding byte_length
two_letters-IsCode a b p q letters = record {
  at_least = omega (arith, p, q);
  at_most = omega (arith, p, q);
  letters = letters;
}

module _ (is_alphabetic : ℕ → Bool) where
  detect_language-IsCode : (text : Text) → IsCode (detect_language is_alphabetic text)
  unfolding detect_language len_utf8 is_ascii_lowercase
  detect_language-IsCode text =
      if_cases IsCode (any is_kana text) _ _ (λ _. two_letters-IsCode 106 97 refl refl refl)
        λ _.
          if_cases IsCode (leb (max (count_if is_alphabetic text) 1) (count_if is_han text * 3)) _ _
            (λ _. two_letters-IsCode 122 104 refl refl refl)
            (λ _. two_letters-IsCode 101 110 refl refl refl)

  normalize_source-IsCode :
      (source : Option Text) (text : Text)
      → Ensures IsCode (normalize_source is_alphabetic source text)
  unfolding normalize_source normalize_given
  normalize_source-IsCode none text = detect_language-IsCode text
  normalize_source-IsCode (some language) text =
      Ensures-if IsCode (length (trim language) == 0) _ _ (λ _. detect_language-IsCode text)
        λ _.
          Ensures-if IsCode (text_eq (map to_ascii_lowercase (trim language)) (codes "auto")) _ _
            (λ _. detect_language-IsCode text) (λ _. normalize_lang-IsCode (trim language))

  -- For every request: the input that `translate` passes to the translator has a text that is not blank
  -- and has at most 64 KiB, language codes of two or three small letters, and 1 to 2048 output tokens.
  pub translation_input-IsValidInput :
      (text : Text) (from : Option Text) (to : Text) (max_output_tokens : Option ℕ)
      → Ensures IsValidInput (translation_input is_alphabetic text from to max_output_tokens)
  unfolding translation_input
  translation_input-IsValidInput text from to max_output_tokens =
      Ensures-bind (λ _. IsFullText text) IsValidInput (validate_text text) _
        (validate_text_lem text)
        λ _ full.
          Ensures-bind IsCode IsValidInput (normalize_source is_alphabetic from text) _
            (normalize_source-IsCode from text)
            λ source s.
              Ensures-bind IsCode IsValidInput (normalize_lang to) _ (normalize_lang-IsCode to)
                λ target t. record {
                  full = full;
                  source = s;
                  target = t;
                  some_output = omega arith;
                  bounded_output = omega arith;
                }

  abbrev IsItem : Text × Text → Type 0
  IsItem item = IsFullText item.0 × IsCode item.1

  check_item_lem :
      (source : Option Text) (text : Text) → Ensures IsItem (check_item is_alphabetic source text)
  unfolding check_item
  check_item_lem source text =
      Ensures-bind (λ _. IsFullText text) IsItem (validate_text text) _ (validate_text_lem text)
        λ _ full.
          Ensures-bind IsCode IsItem (normalize_source is_alphabetic source text) _
            (normalize_source-IsCode source text) λ language code. (full, code)

  AreItems : List Text → List (Text × Text) → Type 0
  AreItems texts items = (length items ≡ length texts) × All IsItem items

  check_items_lem :
      (source : Option Text) (texts : List Text)
      → Ensures (AreItems texts) (check_items is_alphabetic source texts)
  unfolding check_items AreItems
  check_items_lem source [] = (refl, tt)
  check_items_lem source (text ∷ texts) =
      Ensures-bind IsItem (AreItems (text ∷ texts)) (check_item is_alphabetic source text) _
        (check_item_lem source text)
        λ item h.
          Ensures-bind (AreItems texts) (AreItems (text ∷ texts))
            (check_items is_alphabetic source texts) _ (check_items_lem source texts)
            λ items (n, hs). (ap suc n, (h, hs))

  input_of : Text → Text × Text → TranslationInput
  input_of target item = record {
    text = item.0;
    source_lang = item.1;
    target_lang = target;
    max_output_tokens = 512;
  }

  map-input_of :
      (target : Text) (items : List (Text × Text))
      → IsCode target
      → All IsItem items
      → (length (map (input_of target) items) ≡ length items)
        × All IsValidInput (map (input_of target) items)
  unfolding input_of
  map-input_of target [] t h = (refl, tt)
  map-input_of target (item ∷ items) t h =
      let (n, hs) = map-input_of target items t h.1 in
      let v : IsValidInput (input_of target item) = record {
        full = h.0.0;
        source = h.0.1;
        target = t;
        some_output = omega arith;
        bounded_output = omega arith;
      } in
      (ap suc n, (v, hs))

  abbrev pub AreValidInputs : List Text → List TranslationInput → Type 0
  AreValidInputs texts inputs =
      (length inputs ≡ length texts) × (length texts ≤ 256) × All IsValidInput inputs

  -- For every request: where `immersive_translate` reaches the translator, it passes an input for each text
  -- of the list, at most 256, and every one of them has a text that is not blank and has at most 64 KiB,
  -- language codes of two or three small letters, and 1 to 2048 output tokens.
  pub immersive_inputs-AreValidInputs :
      (source_lang : Option Text) (target_lang : Text) (text_list : List Text)
      → Ensures
          (AreValidInputs text_list)
          (immersive_inputs is_alphabetic source_lang target_lang text_list)
  unfolding immersive_inputs input_of AreItems
  immersive_inputs-AreValidInputs source_lang target_lang text_list =
      Ensures-fail_if (AreValidInputs text_list) (ltb 256 (length text_list)) bad_request _ λ few.
        Ensures-bind IsCode (AreValidInputs text_list) (normalize_lang target_lang) _
          (normalize_lang-IsCode target_lang)
          λ target t.
            Ensures-bind (AreItems text_list) (AreValidInputs text_list)
              (check_items is_alphabetic source_lang text_list) _
              (check_items_lem source_lang text_list)
              λ items (n, hs).
                let (m, vs) = map-input_of target items t hs in
                (m ∙ n, not_ltb 256 (length text_list) few, vs)
