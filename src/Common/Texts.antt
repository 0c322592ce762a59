-- ===== src/Common/Texts.antt =====
-- Texts that stand in the source, as the lists of their characters.
use Prim.Native.Char.{code}
use Prim.Native.Nat.{ℕ}
use Prim.Native.String.{String}
use mathlib.Core.List.{List, [], ◌∷◌}

unfoldable pub codes : String → List ℕ
codes (String.◌∷◌ first text) = code first ∷ codes text
codes String.[] = []
