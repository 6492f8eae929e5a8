-- ===== src/LinkSelectors/Escaping.antt =====
-- escape_selector_literal.
use doc_lattice.Prelude.{◌≡◌, refl, false, [], ◌∷◌, arith, nat_eq, list_eq, option_eq}
use doc_lattice.Text.{Text}
use doc_lattice.LinkSelectors.{
  outside, scan_brackets, has_unclosed_bracket, escape_selector_literal,
}

escape-outside : (text : Text) → scan_brackets outside (escape_selector_literal text) ≡ outside
unfolding scan_brackets escape_selector_literal
escape-outside [] = refl
escape-outside (c ∷ rest) = ground (arith, escape-outside rest)

-- Escaping a text closes every bracket that it opens.
pub escape_selector_literal-closed :
    (text : Text) → has_unclosed_bracket (escape_selector_literal text) ≡ false
unfolding has_unclosed_bracket
escape_selector_literal-closed text = rw (escape-outside text) refl
