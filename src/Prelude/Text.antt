-- ===== src/Prelude/Text.antt =====
-- Tests of a text's characters.
use Prim.Native.String.{String, [], ◌∷◌}
use Prim.Native.Char.{Char}
use mathlib.Core.Bool.{Bool, true, ◌&&◌}

unfoldable pub all_chars : (Char → Bool) → String → Bool
all_chars p [] = true
all_chars p (c ∷ s) = p c && all_chars p s
