-- ===== src/Cpu/Binary/Lookup.antt =====
-- Lookups in a well-formed model.
use marian_edge.Common.{
  if_cases, ℕ, zero, suc, ◌+◌, ◌≡◌, refl, sym, ap, ◌∙◌, subst, false, List, [], ◌∷◌, Option, none,
  some, some_inj, get_elem?, All, All-at, ok, err, crash, ◌>>=◌, ok_or, or_crash, Ensures, arith,
}
use marian_edge.Text.{Text, text_eq, text_eq-eq}
use marian_edge.Cpu.Binary.{
  missing_tensor, Loaded, Floats, MarianTensor, MarianBinaryModel, get_name,
}
use marian_edge.Cpu.Binary.Model.{find_tensor}
use marian_edge.Cpu.Binary.Headers.{indexed}
use marian_edge.Cpu.Binary.Payload.{IsTensor, names_of}
use marian_edge.Cpu.Binary.WellFormed.{IsModel}

module _ (fl : Floats) where
  -- What a search of the entries from `o` on finds among the tensors.
  found_in :
      (o : ℕ) (tensors : List (MarianTensor fl.F32)) (name : Text) (index : ℕ)
      → get_name (indexed o (names_of fl tensors)) name ≡ some index
      → (i : ℕ) × (t : MarianTensor fl.F32) × (o + i ≡ index)
        × (get_elem? tensors i ≡ some t)
        × (t.name ≡ name)
  unfolding get_name
  found_in o [] name index h = absurd cc
  found_in o (t ∷ ts) name index h =
      if_cases
        (λ x.
          x ≡ some index
          → (i : ℕ) × (u : MarianTensor fl.F32) × (o + i ≡ index)
            × (get_elem? (t ∷ ts) i ≡ some u)
            × (u.name ≡ name))
        (text_eq t.name name) (some o) (get_name (indexed (suc o) (names_of fl ts)) name)
        (λ same e. (zero, t, omega (arith, some_inj e), refl, text_eq-eq t.name name same))
        (λ _ e.
          let (i, u, at, elem, is) = found_in (suc o) ts name index e in
          (suc i, u, omega (arith, at), elem, is))
        h

  absent :
      (o : ℕ) (tensors : List (MarianTensor fl.F32)) (name : Text)
      → get_name (indexed o (names_of fl tensors)) name ≡ none
      → All (λ t. text_eq t.name name ≡ false) tensors
  unfolding get_name
  absent o [] name h = tt
  absent o (t ∷ ts) name h =
      if_cases (λ x. x ≡ none → All (λ u. text_eq u.name name ≡ false) (t ∷ ts))
        (text_eq t.name name) (some o) (get_name (indexed (suc o) (names_of fl ts)) name)
        (λ _ e. absurd cc) (λ other e. (other, absent (suc o) ts name e)) h

  -- The tensor of that name, or no tensor has it.
  abbrev pub Finds : MarianBinaryModel fl.F32 → Text → Loaded (MarianTensor fl.F32) → Type 0
  Finds model name (ok t) = (t.name ≡ name) × (i : ℕ) × (get_elem? model.tensors i ≡ some t)
  Finds model name (err e) =
      (e ≡ missing_tensor) × All (λ t. text_eq t.name name ≡ false) model.tensors
  Finds model name crash = ⊥

  -- In a well-formed model, a lookup does not panic: it gives a tensor of the model that has the name,
  -- or the error of a missing tensor, and then no tensor has it.
  pub find_tensor-Finds :
      (model : MarianBinaryModel fl.F32) (name : Text)
      → IsModel fl model
      → Finds model name (find_tensor fl model name)
  unfolding find_tensor
  find_tensor-Finds model name v = by_entry (get_name model.by_name name) refl
    where
      tensor_at :
          (o : Option (MarianTensor fl.F32)) (t : MarianTensor fl.F32)
          → o ≡ some t
          → Finds model name (ok t)
          → Finds model name (or_crash o)
      tensor_at o t e h = subst (λ x. Finds model name (or_crash x)) (sym e) h

      by_entry :
          (o : Option ℕ)
          → get_name model.by_name name ≡ o
          → Finds model name
              (ok_or o missing_tensor >>= λ index. or_crash (get_elem? model.tensors index))
      by_entry none e =
          (refl, absent 0 model.tensors name (ap (λ m. get_name m name) (sym v.entered) ∙ e))
      by_entry (some index) e =
          let (i, t, at, elem, is) =
            found_in 0 model.tensors name index (ap (λ m. get_name m name) (sym v.entered) ∙ e) in
          let here = subst (λ k. get_elem? model.tensors k ≡ some t) (left_zero i ∙ at) elem in
          tensor_at (get_elem? model.tensors index) t here (is, index, here)
        where
          left_zero : (n : ℕ) → n ≡ 0 + n
          left_zero n = omega arith

  -- A lookup without an error, for the code that goes on with the tensor.
  pub find_tensor-IsTensor :
      (model : MarianBinaryModel fl.F32) (name : Text)
      → IsModel fl model
      → Ensures
          (λ t. IsTensor fl t × (t.name ≡ name) × (find_tensor fl model name ≡ ok t))
          (find_tensor fl model name)
  find_tensor-IsTensor model name v =
      by_result (find_tensor fl model name) refl (find_tensor-Finds model name v)
    where
      by_result :
          (m : Loaded (MarianTensor fl.F32))
          → find_tensor fl model name ≡ m
          → Finds model name m
          → Ensures (λ t. IsTensor fl t × (t.name ≡ name) × (find_tensor fl model name ≡ ok t)) m
      by_result (ok t) e (is, i, at) = (All-at (IsTensor fl) model.tensors i t v.usable at, is, e)
      by_result (err x) e h = tt
      by_result crash e h = h
