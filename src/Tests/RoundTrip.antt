-- ===== src/Tests/RoundTrip.antt =====
-- A machine of three edges, written and read back.
use mathlib.Core.List.Memᴰ
use finitomata_rs.Base.{
  ◌≡◌, refl, sym, subst, ⊎_elim, Bool, true, false, ◌&&◌, is_empty, List, [], ◌∷◌, ok, Memᴰ,
}
use finitomata_rs.Base.Ord.{same, list_cmp}
use finitomata_rs.Base.Text.{Text, text}
use finitomata_rs.Parser.{ParsedFsm, ParsedTransition, terminal}
use finitomata_rs.Parser.Mermaid.{parse, skips}
use finitomata_rs.Parser.RoundTrip.{parse-print}
use finitomata_rs.Parser.RoundTrip.Names.{print, IsName, is_name_char, IsPrintable}
use finitomata_rs.Strings.{strip_prefix}
use finitomata_rs.Strings.Plain.{AreAll}
use finitomata_rs.Transition.{normal, hard, soft}

abbrev edge : ParsedTransition
edge = record { from = text "idle"; to = text "busy"; event = text "go"; kind = hard }

abbrev edges : List ParsedTransition
edges =
    record { from = text "busy"; to = text "idle"; event = text "halt"; kind = soft }
    ∷ record { from = text "idle"; to = terminal; event = text "close"; kind = normal }
    ∷ []

-- A name by its computed tests.
abbrev are_name_chars : Text → Bool
are_name_chars [] = true
are_name_chars (c ∷ cs) = is_name_char c && are_name_chars cs

both : (a b : Bool) → (a && b) ≡ true → (a ≡ true) × (b ≡ true)
both true b h = (refl, h)
both false b h = cc

all_name_chars : (s : Text) → are_name_chars s ≡ true → AreAll is_name_char s
all_name_chars [] h = tt
all_name_chars (c ∷ cs) h =
    let (first, rest) = both (is_name_char c) (are_name_chars cs) h in
    (first, all_name_chars cs rest)

name_of : (s : Text) → is_empty s ≡ false → are_name_chars s ≡ true → IsName s
name_of s filled h = (filled, all_name_chars s h)

edges-IsPrintable : (t : ParsedTransition) → Memᴰ t (edge ∷ edges) → IsPrintable t
unfolding skips strip_prefix same list_cmp
edges-IsPrintable t m =
    ⊎_elim
      (λ e. subst IsPrintable (sym e) (record {
        from = name_of (text "idle") refl refl;
        inner = refl;
        event = name_of (text "go") refl refl;
        to = name_of (text "busy") refl refl;
        unmarked = refl;
        kept = refl;
      }))
      (λ k.
        ⊎_elim
          (λ e. subst IsPrintable (sym e) (record {
            from = name_of (text "busy") refl refl;
            inner = refl;
            event = name_of (text "halt") refl refl;
            to = name_of (text "idle") refl refl;
            unmarked = refl;
            kept = refl;
          }))
          (λ l. subst IsPrintable (sym (Memᴰ.eq_of_singleton l)) (record {
            from = name_of (text "idle") refl refl;
            inner = refl;
            event = name_of (text "close") refl refl;
            to = name_of terminal refl refl;
            unmarked = refl;
            kept = refl;
          }))
          (Memᴰ.cases_cons k))
      (Memᴰ.cases_cons m)

parse-print_example :
    (fsm : ParsedFsm) × (parse (print (text "idle") (edge ∷ edges)) ≡ ok fsm)
    × (fsm.initial ≡ text "idle")
    × (fsm.transitions ≡ edge ∷ edges)
parse-print_example =
    parse-print (text "idle") edge edges (name_of (text "idle") refl refl) edges-IsPrintable
