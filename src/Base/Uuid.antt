-- ===== src/Base/Uuid.antt =====
-- The texts that `str(UUID(...))` prints: 32 lowercase hexadecimal digits in groups of
-- 8, 4, 4, 4 and 12, joined by dashes.
use switchstand.Base.Names.{ℕ, zero, suc, String, Bool, false, true, ◌&&◌, List, [], ◌∷◌}
use switchstand.Base.Tests.{nat_beq}
use switchstand.Base.Text.{codes, is_hex}

-- `n` digits, then what `rest` accepts
unfoldable pub hex_group : ℕ → (List ℕ → Bool) → List ℕ → Bool
unfolding is_hex
hex_group zero rest cs = rest cs
hex_group (suc n) rest [] = false
hex_group (suc n) rest (c ∷ cs) = is_hex c && hex_group n rest cs

unfoldable pub dash : (List ℕ → Bool) → List ℕ → Bool
dash rest [] = false
dash rest (c ∷ cs) = nat_beq c b'-' && rest cs

abbrev end_of_text : List ℕ → Bool
end_of_text [] = true
end_of_text (c ∷ cs) = false

-- `value == str(UUID(value))`, where a text that `UUID` refuses gives false: `str` prints the
-- canonical form, and `UUID` reads each canonical form as the value that it prints.
unfoldable pub is_canonical_uuid : String → Bool
unfolding codes hex_group dash
is_canonical_uuid s =
    hex_group 8
      (dash
        (hex_group 4 (dash (hex_group 4 (dash (hex_group 4 (dash (hex_group 12 end_of_text))))))))
      (codes s)
