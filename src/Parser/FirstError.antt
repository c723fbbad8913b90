-- ===== src/Parser/FirstError.antt =====
-- The line of a diagram that a parser refuses (finitomata/src/parser/mermaid.rs, plantuml.rs).
use finitomata_rs.Base.{
  ℕ, suc, ◌≡◌, refl, Bool, true, false, ◌&&◌, not, Option, none, some, List, [], ◌∷◌, is_some,
  Result, ok, err, Bool-cases, inl, inr, if◌then◌else◌,
}
use finitomata_rs.Base.Text.{Text, text}
use finitomata_rs.Parser.{ParsedFsm, ParseError, Draft, each_line, cannot_parse, syntax_error}
use finitomata_rs.Parser.Mermaid
use finitomata_rs.Parser.PlantUml
use finitomata_rs.Strings.{trim, starts_with}

-- The first line that is refused, with its number.
abbrev pub first_bad : (Text → Bool) → ℕ → List Text → Option (ℕ × Text)
first_bad bad n [] = none
first_bad bad n (raw ∷ raws) = if bad raw then some (n, raw) else first_bad bad (suc n) raws

-- The loop ends at that line with its error, and else at the end of the list.
abbrev pub Halts : {A X : Type 0} → (ℕ → Text → X) → Option (ℕ × Text) → Result A X → Type 0
Halts error (some (n, raw)) r = r ≡ err (error n raw)
Halts {A} error none r = (a : A) × (r ≡ ok a)

module _ {X : Type 0} (read : ℕ → Draft → Text → Result Draft X) (bad : Text → Bool)
    (error : ℕ → Text → X)
    (refuses : (n : ℕ) (d : Draft) (raw : Text) → bad raw ≡ true → read n d raw ≡ err (error n raw))
    (reads : (n : ℕ) (d : Draft) (raw : Text)
      → bad raw ≡ false
      → (d' : Draft) × (read n d raw ≡ ok d')) where
  pub each_line-Halts :
      (raws : List Text) (n : ℕ) (d : Draft)
      → Halts error (first_bad bad n raws) (each_line read n d raws)
  unfolding each_line
  each_line-Halts [] n d = (d, refl)
  each_line-Halts (raw ∷ raws) n d = elim (Bool-cases (bad raw)) [
    | inl e ↦ rw (e, refuses n d raw e) refl
    | inr e ↦ let (d', h) = reads n d raw e in rw (e, h) (each_line-Halts raws (suc n) d')
  ]

abbrev pub is_syntax_error : Result ParsedFsm ParseError → Bool
is_syntax_error (err (syntax_error line why)) = true
is_syntax_error _ = false

-- By the first refused line.
abbrev pub Answers : Option (ℕ × Text) → Result ParsedFsm ParseError → Type 0
Answers (some (n, raw)) r = r ≡ err (cannot_parse n (trim raw))
Answers none r = is_syntax_error r ≡ false

-- Not left out, and no edge.
unfoldable pub is_refused : Text → Bool
is_refused raw = not (Mermaid.skips (trim raw)) && not (is_some (Mermaid.parse_line (trim raw)))

unfoldable pub is_refused_uml : Text → Bool
is_refused_uml raw =
    not (PlantUml.skips (trim raw))
    && not (is_some (PlantUml.parse_plantuml_transition (trim raw)))
    && not (starts_with (trim raw) (text "state "))
