-- ===== src/Prelude/Part.antt =====
-- strings.Contains of Go.
use Prim.Native.Char.{code}
use Prim.Native.String.{String, [], ◌∷◌}
use mathlib.Core.Bool.{Bool, true, false, ◌&&◌, ◌||◌}
use virtrigaud.Prelude.Tests.{◌==◌}

is_prefix : String → String → Bool
is_prefix [] t = true
is_prefix (c ∷ s) [] = false
is_prefix (c ∷ s) (d ∷ t) = code c == code d && is_prefix s t

-- strings.Contains(text, part)
unfoldable pub has_part : String → String → Bool
unfolding is_prefix
has_part [] part = is_prefix part []
has_part (c ∷ s) part = is_prefix part (c ∷ s) || has_part s part
