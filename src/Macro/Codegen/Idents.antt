-- ===== src/Macro/Codegen/Idents.antt =====
-- The names that `generate` (finitomata_macro/src/codegen.rs) makes, and its panic at one that is no
-- identifier.
use mathlib.Core.List.Memᴰ
use finitomata_rs.Base.{
  ◌≡◌, refl, sym, subst, inl, inr, ⊎_elim, true, false, Option, none, some, List, [], ◌∷◌, Memᴰ,
  Memᴰ-nil, Bool-cases, arith,
}
use finitomata_rs.Base.Text.{Text}
use finitomata_rs.Macro.Chars.{Chars}
use finitomata_rs.Macro.Codegen.{CodegenConfig, Generated, idents, all_idents, quoted, generate}
use finitomata_rs.Parser.{ParsedFsm}

module _ (chars : Chars) where
  all_idents-true :
      (names : List Text)
      → all_idents chars names ≡ true
      → (name : Text) → Memᴰ name names
      → chars.is_ident name ≡ true
  unfolding all_idents
  all_idents-true [] h name m = absurd (Memᴰ-nil name m)
  all_idents-true (x ∷ xs) h name m =
      ⊎_elim (λ e. subst (λ y. chars.is_ident y ≡ true) (sym e) (ground arith))
        (λ k. all_idents-true xs (ground arith) name k) (Memᴰ.cases_cons m)

  all_idents-false :
      (names : List Text)
      → all_idents chars names ≡ false
      → (name : Text) × Memᴰ name names × (chars.is_ident name ≡ false)
  unfolding all_idents
  all_idents-false [] h = cc
  all_idents-false (x ∷ xs) h = elim (Bool-cases (chars.is_ident x)) [
    | inl all ↦ let (name, m, bad) = all_idents-false xs (ground arith) in (name, Memᴰ.tail m, bad)
    | inr bad ↦ (x, Memᴰ.head refl, bad)
  ]

  -- How `generate` ends: with what is quoted, whose names are identifiers, or at one that is none.
  abbrev pub Generates : ParsedFsm → CodegenConfig → Option Generated → Type 0
  Generates fsm config (some gen) =
      (gen ≡ quoted chars fsm config)
      × ((name : Text) → Memᴰ name (idents gen) → chars.is_ident name ≡ true)
  Generates fsm config none =
      (name : Text) × Memᴰ name (idents (quoted chars fsm config)) × (chars.is_ident name ≡ false)

  pub generate-Generates :
      (fsm : ParsedFsm) (config : CodegenConfig) → Generates fsm config (generate chars fsm config)
  unfolding generate
  generate-Generates fsm config =
      let names = idents (quoted chars fsm config) in
      elim (Bool-cases (all_idents chars names)) [
        | inl all ↦ rw all (refl, all_idents-true names all)
        | inr bad ↦ rw bad (all_idents-false names bad)
      ]

  pub generate-quoted :
      (fsm : ParsedFsm) (config : CodegenConfig) (gen : Generated)
      → generate chars fsm config ≡ some gen
      → quoted chars fsm config ≡ gen
  generate-quoted fsm config gen e =
      sym (subst (Generates fsm config) e (generate-Generates fsm config)).0
