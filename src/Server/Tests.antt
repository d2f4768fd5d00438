-- ===== src/Server/Tests.antt =====
-- The theorems about the server's requests at small ones.
use marian_edge.Common.{ℕ, [], ◌∷◌, none, some, Ensures, leb, ◌&&◌, Bool}
use marian_edge.Text.{codes}
use marian_edge.Server.{translation_input, immersive_inputs}
use marian_edge.Server.Requests.{
  IsValidInput, AreValidInputs, translation_input-IsValidInput, immersive_inputs-AreValidInputs,
}

abbrev small_letter : ℕ → Bool
small_letter c = leb 97 c && leb c 122

translation_input-IsValidInput_example :
    Ensures IsValidInput
      (translation_input small_letter (codes "Hello") none (codes "zh-CN") (some 9000))
translation_input-IsValidInput_example =
    translation_input-IsValidInput small_letter (codes "Hello") none (codes "zh-CN") (some 9000)

immersive_inputs-AreValidInputs_example :
    Ensures (AreValidInputs small_letter (codes "Hello" ∷ codes "Bye" ∷ [])) (
      immersive_inputs small_letter
        (some (codes "en"))
        (codes "zh")
        (codes "Hello" ∷ codes "Bye" ∷ []))
immersive_inputs-AreValidInputs_example =
    immersive_inputs-AreValidInputs small_letter (some (codes "en")) (codes "zh")
      (codes "Hello" ∷ codes "Bye" ∷ [])
