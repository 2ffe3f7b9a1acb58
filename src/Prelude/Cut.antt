-- ===== src/Prelude/Cut.antt =====
-- Texts that are joined by a separator that the parts do not hold.
use Prim.Native.Char.{Char, code}
use Prim.Native.String.append
use Prim.Native.String.{String, [], ◌∷◌, ◌++◌}
use mathlib.Core.Path.{◌≡◌, refl, sym, ap, ◌∙◌}
use mathlib.Core.Bool.{Bool, true, false}
use native.Mathlib.Omega.{arith}
use mathlib.Core.Logic.{◌≢◌}
use text.Mathlib.TextLemmas.{head-eq_of_cons-eq, tail-eq_of_cons-eq}

-- No character of the text is the separator.
abbrev pub FreeOf : Char → String → Type 0
FreeOf sep [] = Unit
FreeOf sep (c ∷ s) = (code c ≢ code sep) × FreeOf sep s

-- The separator as a text
abbrev one : Char → String
one sep = sep ∷ []

one-append : (sep : Char) (t : String) → one sep ++ t ≡ sep ∷ t
one-append sep t = append.cons sep [] t ∙ ap (λ (u : String). sep ∷ u) (append.nil t)

-- The two texts up to their first separator are equal, and so are the two after it.
pub cut_at :
    (sep : Char) (s s' t t' : String)
    → FreeOf sep s
    → FreeOf sep s'
    → s ++ ((sep ∷ []) ++ t) ≡ s' ++ ((sep ∷ []) ++ t')
    → (s ≡ s') × (t ≡ t')
cut_at sep [] [] t t' f f' e = (
  refl,
  tail-eq_of_cons-eq
      (sym (one-append sep t) ∙ sym (append.nil _) ∙ e ∙ append.nil _ ∙ one-append sep t'),
)
cut_at sep [] (d ∷ s') t t' f f' e = absurd (
    f'.0 (
      ap code (
        sym (
          head-eq_of_cons-eq
            (sym (one-append sep t) ∙ sym (append.nil _) ∙ e ∙ append.cons d s' _)))))
cut_at sep (c ∷ s) [] t t' f f' e = absurd (
    f.0 (
      ap code
        (head-eq_of_cons-eq (sym (append.cons c s _) ∙ e ∙ append.nil _ ∙ one-append sep t'))))
cut_at sep (c ∷ s) (d ∷ s') t t' f f' e =
    let step : c ∷ (s ++ (one sep ++ t)) ≡ d ∷ (s' ++ (one sep ++ t')) =
      sym (append.cons c s _) ∙ e ∙ append.cons d s' _ in
    let (same, rest) = cut_at sep s s' t t' f.1 f'.1 (tail-eq_of_cons-eq step) in
    (rw (head-eq_of_cons-eq step, same), rest)

unfoldable pub is_empty : String → Bool
is_empty [] = true
is_empty (c ∷ s) = false

-- A text that begins with a character is not empty, whatever follows it.
pub cons-append_not_empty : (c : Char) (s t : String) → (c ∷ s) ++ t ≢ ""
unfolding is_empty
cons-append_not_empty c s t e =
    let clash : false ≡ true = ap is_empty (sym (append.cons c s t) ∙ e) in ground arith
