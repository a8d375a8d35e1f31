-- ===== src/Base/Text.antt =====
-- Texts: their code points, and full matches of the fixed-length hexadecimal patterns.
use Prim.Native.Char.{code}
use switchstand.Base.Names.{ℕ, String, Bool, ◌&&◌, ◌||◌, List, [], ◌∷◌}
use switchstand.Base.Tests.{leb, nat_beq}
use switchstand.Base.Lists.{length, all}

-- The code points of a text.
unfoldable pub codes : String → List ℕ
codes String.[] = []
codes (String.◌∷◌ c s) = code c ∷ codes s

-- `len(s)`
unfoldable pub text_len : String → ℕ
unfolding codes
text_len s = length (codes s)

-- `[0-9a-f]`
unfoldable pub is_hex : ℕ → Bool
is_hex c = leb b'0' c && leb c b'9' || leb b'a' c && leb c b'f'

-- `re.compile(r"[0-9a-f]{n}\Z").fullmatch(s) is not None`
unfoldable pub hex_text : ℕ → String → Bool
unfolding codes all is_hex
hex_text n s = nat_beq (length (codes s)) n && all is_hex (codes s)
