-- ===== src/Segmenter/Span.antt =====
-- Ordered pieces of a text, each a content range and the white space behind it, without gap or overlap.
use marian_edge.Common.{ℕ, ◌≤◌, ◌≡◌, ◌≢◌, refl, sym, List, [], ◌∷◌, ◌++◌, arith, subst, modify_last}
use marian_edge.Text.{Text, is_whitespace}
use marian_edge.Text.Boundary.{IsBoundary}
use marian_edge.Segmenter.{Range}
use marian_edge.Segmenter.Scan.{IsBlank, Spans-append}

-- A piece that starts at `a`: its content, then white space, with boundaries at every end.
pub record IsPiece (text : Text) (a : ℕ) (content separator : Range) : Type 0 where
  pub starts : content.start ≡ a
  pub forward : a ≤ content.finish
  pub content_boundary : IsBoundary text content.finish
  pub adjacent : separator.start ≡ content.finish
  pub ordered : content.finish ≤ separator.finish
  pub separator_boundary : IsBoundary text separator.finish
  pub blank : IsBlank text content.finish separator.finish

module _ {ℓ} {A : Type ℓ} (content separator : A → Range) (text : Text) where
  -- The pieces cover the text from `a` to `b`.
  abbrev pub Chain : ℕ → List A → ℕ → Type 0
  Chain a [] b = a ≡ b
  Chain a (u ∷ us) b = IsPiece text a (content u) (separator u) × Chain (separator u).finish us b

  pub Chain-append :
      (us : List A) (u : A) (a b : ℕ)
      → Chain a us b
      → IsPiece text b (content u) (separator u)
      → Chain a (us ++ u ∷ []) (separator u).finish
  Chain-append [] u a b h k =
      (subst (λ x. IsPiece text x (content u) (separator u)) (sym h) k, refl)
  Chain-append (v ∷ us) u a b h k = (h.0, Chain-append us u (separator v).finish b h.1 k)

  -- The last separator may be drawn out over more white space.
  pub Chain-modify_last :
      (f : A → A) (us : List A) (a b e : ℕ)
      → ((u : A) → content (f u) ≡ content u)
      → ((u : A) → separator (f u) ≡ record { start = (separator u).start; finish = e })
      → us ≢ []
      → Chain a us b
      → b ≤ e
      → IsBoundary text e
      → IsBlank text b e
      → Chain a (modify_last f us) e
  Chain-modify_last f [] a b e hc hs ne h le be blank = absurd (ne refl)
  Chain-modify_last f (u ∷ []) a b e hc hs ne h le be blank = (
    rw (hc u, hs u)
        (record {
          starts = h.0.starts;
          forward = h.0.forward;
          content_boundary = h.0.content_boundary;
          adjacent = h.0.adjacent;
          ordered = omega (arith, h.0.ordered, h.1);
          separator_boundary = be;
          blank =
              Spans-append is_whitespace text (content u).finish b e
                (subst (IsBlank text (content u).finish) h.1 h.0.blank) blank;
        }),
    rw (hs u) refl,
  )
  Chain-modify_last f (u ∷ v ∷ us) a b e hc hs ne h le be blank =
      (h.0, Chain-modify_last f (v ∷ us) (separator u).finish b e hc hs (λ p. cc) h.1 le be blank)
