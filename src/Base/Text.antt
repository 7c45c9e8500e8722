-- ===== src/Base/Text.antt =====
-- Texts of the source as byte strings, and the character classes of <ctype.h> in the "C" locale.
use Prim.Native.Char.{code}
use Prim.Native.String.{String}
use myon.Base.{ℕ, Bool, ◌&&◌, ◌||◌, [], ◌∷◌, leb, Bytes}

-- The bytes of an ASCII text.
abbrev pub codes : String → Bytes
codes String.[] = []
codes (String.◌∷◌ c s) = code c ∷ codes s

abbrev pub between : ℕ → ℕ → ℕ → Bool
between lo hi c = leb lo c && leb c hi

abbrev pub isdigit : ℕ → Bool
isdigit = between b'0' b'9'

abbrev pub isalpha : ℕ → Bool
isalpha c = between b'a' b'z' c || between b'A' b'Z' c

abbrev pub isalnum : ℕ → Bool
isalnum c = isalpha c || isdigit c

abbrev pub isxdigit : ℕ → Bool
isxdigit c = isdigit c || between b'a' b'f' c || between b'A' b'F' c
