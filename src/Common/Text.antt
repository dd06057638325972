-- ===== src/Common/Text.antt =====
-- Text: equality, membership in a tuple, and the character classes of the source's patterns.
use Prim.Native.Nat.{ℕ}
use Prim.Native.String.{String}
use Prim.Native.Char.{code}
use mathlib.Core.Path.{◌≡◌}
use mathlib.Core.Logic.{◌↔◌}
use mathlib.Core.Bool.{Bool, true, false, ◌&&◌, ◌||◌}
use mathlib.Core.List.{List, [], ◌∷◌}
use text.Mathlib.Text.{◌==◌ as text_eq}
use text.Mathlib.TextEquality.{eq_iff}
use text.Mathlib.TextPositions.{eq_refl}
use ros2_agent_workflow.Common.Tests.{leb, ltb}

abbrev pub same_text : String → String → Bool
same_text s t = text_eq s t

pub same_text_iff : (s t : String) → (same_text s t ≡ true) ↔ (s ≡ t)
same_text_iff = eq_iff

pub same_text_refl : (s : String) → same_text s s ≡ true
same_text_refl = eq_refl

-- `s in texts`.
unfoldable pub contains : String → List String → Bool
contains s [] = false
contains s (t ∷ ts) = same_text s t || contains s ts

-- The code points of a text.
unfoldable pub codes : String → List ℕ
codes String.[] = []
codes (String.◌∷◌ c s) = code c ∷ codes s

abbrev pub is_digit : ℕ → Bool
is_digit c = leb b'0' c && leb c b'9'

abbrev pub is_lower : ℕ → Bool
is_lower c = leb b'a' c && leb c b'z'

abbrev pub is_upper : ℕ → Bool
is_upper c = leb b'A' c && leb c b'Z'

abbrev pub is_ascii : ℕ → Bool
is_ascii c = ltb c 128
