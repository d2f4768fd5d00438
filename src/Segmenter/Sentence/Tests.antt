-- ===== src/Segmenter/Sentence/Tests.antt =====
-- Runs of the sentence splitter on small texts.
use marian_edge.Common.{◌≡◌, refl, [], ◌∷◌, some, false}
use marian_edge.Text.{codes, scalar_at, slice, scalar_before, byte_length}
use marian_edge.Segmenter.{previous_scalar, next_scalar}
use marian_edge.Segmenter.Sentence.{sentence_units, period_can_end_sentence}

two_sentences :
    sentence_units (codes "Hi there. Bye") 13
    ≡ some (
        record {
          content = record { start = 0; finish = 9 };
          separator = record { start = 9; finish = 10 };
        }
        ∷ record {
          content = record { start = 10; finish = 13 };
          separator = record { start = 13; finish = 13 };
        }
        ∷ [])
unfolding sentence_units scalar_at slice previous_scalar scalar_before byte_length
two_sentences = refl

title : period_can_end_sentence (codes "Dr. No") 2 3 ≡ some false
unfolding period_can_end_sentence scalar_at slice previous_scalar next_scalar scalar_before
    byte_length
title = refl
