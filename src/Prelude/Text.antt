-- ===== src/Prelude/Text.antt =====
-- Formatted text: the pieces of a `fmt.Sprintf`, and `%d`.
use Prim.Native.Nat.{ℕ, zero, suc, ◌/◌, ◌%◌}
use Prim.Native.String
use Prim.Native.String.{String}
use mathlib.Core.List.{List, [], ◌∷◌}
use virtrigaud.Prelude.Tests.{ltb, if◌then◌else◌}

-- Quoted, as by %q of a text that needs no escapes
abbrev pub quoted : String → String
quoted s = String.◌++◌ "\"" (String.◌++◌ s "\"")

-- The text of a format whose verbs are replaced by their arguments, piece by piece.
abbrev pub sprintf : List String → String
sprintf [] = ""
sprintf (s ∷ []) = s
sprintf (s ∷ t ∷ rest) = String.◌++◌ s (sprintf (t ∷ rest))

digit : ℕ → String
digit zero = "0"
digit (suc zero) = "1"
digit (suc (suc zero)) = "2"
digit (suc (suc (suc zero))) = "3"
digit (suc (suc (suc (suc zero)))) = "4"
digit (suc (suc (suc (suc (suc zero))))) = "5"
digit (suc (suc (suc (suc (suc (suc zero)))))) = "6"
digit (suc (suc (suc (suc (suc (suc (suc zero))))))) = "7"
digit (suc (suc (suc (suc (suc (suc (suc (suc zero)))))))) = "8"
digit _ = "9"

-- The fuel is one more than the number, so it never runs out.
decimal_from : ℕ → ℕ → String
unfolding digit
decimal_from zero n = ""
decimal_from (suc fuel) n =
    let more = String.◌++◌ (decimal_from fuel (n / 10)) (digit (n % 10)) in
    if ltb n 10 then digit n else more

-- `%d` of a number that is not negative.
unfoldable pub decimal : ℕ → String
unfolding decimal_from
decimal n = decimal_from (suc n) n
