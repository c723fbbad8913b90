-- ===== src/Macro/Chars.antt =====
-- The tables of the Unicode standard that `char` consults, as far as the macro asks them: they are a
-- parameter. A character is its code point; a change of case may give several. With them stands what
-- `format_ident!` of the crate quote asks: if it takes a text, since it panics where that is no
-- identifier, and how it writes an identifier that it is given, which is without `r#`.
use finitomata_rs.Base.{ℕ, Bool}
use finitomata_rs.Base.Text.{Text}

pub record Chars : Type 0 where
  pub is_alphabetic : ℕ → Bool
  pub is_alphanumeric : ℕ → Bool
  pub is_uppercase : ℕ → Bool
  pub to_uppercase : ℕ → Text
  pub to_lowercase : ℕ → Text
  pub is_ident : Text → Bool
  pub ident_text : Text → Text
