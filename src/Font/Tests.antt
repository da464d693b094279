-- ===== src/Font/Tests.antt =====
-- Inputs for the theorems on kernel/font.cpp.
use mikansaos.Base.{◌≡◌, refl, [], ◌∷◌, get_or}
use mikansaos.Font.{count_utf8_size, convert_utf8_to32, convert_sized, masked}

-- "あ".
hiragana : convert_utf8_to32 (λ i. get_or (227 ∷ 129 ∷ 130 ∷ []) i 0) ≡ (12354, 3)
unfolding count_utf8_size convert_utf8_to32 convert_sized masked
hiragana = refl
