-- ===== src/Parser/RoundTrip/Names.antt =====
-- How a machine is written as a Mermaid flowchart for finitomata/src/parser/mermaid.rs, and its names.
use mathlib.Core.Bool.{true≢false}
use mathlib.Core.List.{append-nil}
use finitomata_rs.Base.{
  ◌⊎◌, ℕ, ◌≡◌, refl, sym, ap, ◌∙◌, subst, inl, inr, Bool, true, false, ◌&&◌, not, List, [], ◌∷◌,
  ◌++◌, map, ◌==◌, ==_iff, is_empty, if◌then◌else◌, Bool-cases,
}
use finitomata_rs.Base.Ord.{same, nat_ord, list_ord}
use finitomata_rs.Base.Text.{Text, text}
use finitomata_rs.Parser.{ParsedTransition, star, terminal, classify_event}
use finitomata_rs.Parser.Mermaid.{skips}
use finitomata_rs.Strings.{is_whitespace}
use finitomata_rs.Strings.Plain.{
  AreAll, AreAll-append, AreAll-weaken, differs, is_solid, strip_suffix-plain, strip_suffix-append,
  unlines,
}
use finitomata_rs.Transition.{EventKind, normal, hard, soft}

-- No white space, and none of the characters of the notation: `-`, `|`, `!` and `?`.
abbrev pub is_name_char : ℕ → Bool
is_name_char c = is_solid c && (differs 45 c && (differs 124 c && (differs 33 c && differs 63 c)))

abbrev pub IsName : Text → Type 0
IsName s = (is_empty s ≡ false) × AreAll is_name_char s

abbrev pub mark : EventKind → Text
mark hard = 33 ∷ []
mark soft = 63 ∷ []
mark normal = []

abbrev pub shown_target : Text → Text
shown_target to = if same to terminal then star else to

abbrev pub print_edge : ParsedTransition → Text
print_edge t =
    t.from ++ (text " --> |" ++ (t.event ++ (mark t.kind ++ (text "| " ++ shown_target t.to))))

abbrev pub print_initial : Text → Text
print_initial initial = text "[*] --> " ++ initial

-- The first line names the initial state.
abbrev pub print : Text → List ParsedTransition → Text
print initial ts = unlines (print_initial initial ∷ map print_edge ts)

-- The source is not the marker, the line is none that the parser leaves out, and the names are names.
pub record IsPrintable (t : ParsedTransition) : Type 0 where
  pub from : IsName t.from
  pub inner : same t.from star ≡ false
  pub event : IsName t.event
  pub to : IsName t.to
  pub unmarked : same t.to star ≡ false
  pub kept : skips (print_edge t) ≡ false

pub five :
    (a b c d e : Bool)
    → (a && (b && (c && (d && e)))) ≡ true
    → (a ≡ true) × (b ≡ true) × (c ≡ true) × (d ≡ true) × (e ≡ true)
five true true true true e h = (refl, refl, refl, refl, h)
five true true true false e h = cc
five true true false d e h = cc
five true false c d e h = cc
five false b c d e h = cc

pub name_char :
    (c : ℕ)
    → is_name_char c ≡ true
    → (is_solid c ≡ true)
      × (differs 45 c ≡ true)
      × (differs 124 c ≡ true)
      × (differs 33 c ≡ true)
      × (differs 63 c ≡ true)
name_char c = five (is_solid c) (differs 45 c) (differs 124 c) (differs 33 c) (differs 63 c)

pub solid : (s : Text) → AreAll is_name_char s → AreAll is_solid s
solid = AreAll-weaken is_name_char is_solid (λ c h. (name_char c h).0)

pub no_dash : (s : Text) → AreAll is_name_char s → AreAll (differs 45) s
no_dash = AreAll-weaken is_name_char (differs 45) (λ c h. (name_char c h).1)

pub no_pipe : (s : Text) → AreAll is_name_char s → AreAll (differs 124) s
no_pipe = AreAll-weaken is_name_char (differs 124) (λ c h. (name_char c h).2)

pub no_bang : (s : Text) → AreAll is_name_char s → AreAll (differs 33) s
no_bang = AreAll-weaken is_name_char (differs 33) (λ c h. (name_char c h).3)

pub no_question : (s : Text) → AreAll is_name_char s → AreAll (differs 63) s
no_question = AreAll-weaken is_name_char (differs 63) (λ c h. (name_char c h).4)

-- A character that is white space is in no name.
pub no_space :
    (p : ℕ) → is_whitespace p ≡ true → (s : Text) → AreAll is_solid s → AreAll (differs p) s
no_space p space = AreAll-weaken is_solid (differs p) (λ c h. go c h (Bool-cases (c == p)))
  where
    go : (c : ℕ) → is_solid c ≡ true → ((c == p) ≡ true) ⊎ ((c == p) ≡ false) → differs p c ≡ true
    go c h (inl e) =
        absurd
          (true≢false (sym (subst (λ x. is_solid x ≡ true) ((==_iff c p).0 e) h) ∙ ap not space))
    go c h (inr n) = ap not n

pub classify-mark :
    (event : Text) (kind : EventKind)
    → AreAll is_name_char event
    → classify_event (event ++ mark kind) ≡ (event, kind)
unfolding classify_event
classify-mark event hard h = rw (classify_event, strip_suffix-append event 33) refl
classify-mark event soft h =
    rw
      (
        classify_event,
        strip_suffix-plain (event ++ 63 ∷ []) 33
            (AreAll-append (differs 33) event (63 ∷ []) (no_bang event h) (refl, tt)),
        strip_suffix-append event 63,
      )
      refl
classify-mark event normal h = rw (append-nil event) (
    rw
      (
        classify_event,
        strip_suffix-plain event 33 (no_bang event h),
        strip_suffix-plain event 63 (no_question event h),
      )
      refl)
