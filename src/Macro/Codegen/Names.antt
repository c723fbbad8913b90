-- ===== src/Macro/Codegen/Names.antt =====
-- The names of the generated variants (finitomata_macro/src/codegen.rs, validation.rs).
use finitomata_rs.Base.{◌≡◌, refl, ℕ, true, ◌==◌, List, [], ◌∷◌, map, arith, if◌then◌else◌}
use finitomata_rs.Base.Text.{Text}
use finitomata_rs.Macro.Chars.{Chars}
use finitomata_rs.Macro.Codegen.{split_underscore, concat, capitalize, to_pascal_case}
use finitomata_rs.Macro.Validation.{all_identifier, is_valid_identifier}

-- A part stands in front of what was split, which is never nothing.
concat-split :
    (chars : Chars) (c : ℕ) (parts : List Text)
    → ¬ (parts ≡ [])
    → c ≡ 95
    → concat (
        map (capitalize chars) (elim parts [
          | [] ↦ (c ∷ []) ∷ []
          | part ∷ rest ↦ if c == 95 then [] ∷ part ∷ rest else (c ∷ part) ∷ rest
        ]))
      ≡ concat (map (capitalize chars) parts)
unfolding concat capitalize
concat-split chars c [] some_part e = absurd (some_part refl)
concat-split chars c (part ∷ rest) some_part e = rw e refl

split_underscore-nonempty : (s : Text) → ¬ (split_underscore s ≡ [])
unfolding split_underscore
split_underscore-nonempty [] h = cc
split_underscore-nonempty (c ∷ cs) h = go (split_underscore cs) h
  where
    go :
        (parts : List Text)
        → ¬ (
            elim parts [
              | [] ↦ (c ∷ []) ∷ []
              | part ∷ rest ↦ if c == 95 then [] ∷ part ∷ rest else (c ∷ part) ∷ rest
            ]
            ≡ [])
    go [] h = cc
    go (part ∷ rest) h = ground arith

-- The macro accepts a name with one more underscore in front wherever it accepts the name, and the two
-- get the same variant.
pub to_pascal_case-underscore :
    (chars : Chars) (s : Text)
    → is_valid_identifier chars s ≡ true
    → (is_valid_identifier chars (95 ∷ s) ≡ true)
      × (to_pascal_case chars (95 ∷ s) ≡ to_pascal_case chars s)
unfolding is_valid_identifier all_identifier to_pascal_case split_underscore
to_pascal_case-underscore chars [] valid = cc
to_pascal_case-underscore chars (c ∷ cs) valid = (
  ground arith,
  concat-split chars 95 (split_underscore (c ∷ cs)) (split_underscore-nonempty (c ∷ cs)) refl,
)
