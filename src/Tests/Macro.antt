-- ===== src/Tests/Macro.antt =====
-- The macro on a small diagram, with an alphabet of ASCII.
use mathlib.Core.List.Memᴰ
use finitomata_rs.Base.{
  ◌==◌, Bool, false, ℕ, ◌+◌, ◌-◌, ◌^◌, ◌≡◌, refl, sym, ap, ◌∙◌, ⊎_elim, ◌↔◌, subst, true, ◌&&◌,
  ◌||◌, leb, ltb, if◌then◌else◌, none, some, List, [], ◌∷◌, ◌++◌, Memᴰ, Result, ok,
}
use finitomata_rs.Base.Ord.{Ord, same, list_cmp, pair_cmp, nat_ord, list_ord}
use finitomata_rs.BTree.Sets
use finitomata_rs.Callbacks.{TransitionResult, Finitomata, with_defaults}
use finitomata_rs.Engine.{TransitContext, Machine}
use finitomata_rs.State.{new_state}
use finitomata_rs.Strings.{lines, trim, split_once}
use finitomata_rs.Parser.Closed.{Good}
use finitomata_rs.Parser.Mermaid
use finitomata_rs.Transition.Index.{IsWellFormed}
use finitomata_rs.Transition.Validate
use finitomata_rs.Macro.Parser.{parse_mermaid}
use finitomata_rs.Macro.Parser.Closed.{IsClosedMachine, parse_mermaid-IsClosed}
use finitomata_rs.Macro.Parser.Edges.{piped}
use finitomata_rs.Macro.Parser.Agree.{parse_mermaid-agrees}
use finitomata_rs.Macro.Codegen.Valid.{generate-validates}
use finitomata_rs.Macro.Codegen.Table.{IsInjective, allowed-generate}
use finitomata_rs.Macro.Codegen.{variant, entry_target}
use finitomata_rs.Base.Text.{Text, text}
use finitomata_rs.Macro.Attributes.{
  Syn, Meta, name_value, other_meta, lit, str, int, finitomata, parse_finitomata_attrs, Expansion,
}
use finitomata_rs.Macro.Attributes.Last.{attrs_of, parse_finitomata_attrs-last}
use finitomata_rs.Macro.Attributes.Sound.{Expanded, finitomata-Expanded}
use finitomata_rs.Macro.Chars.{Chars}
use finitomata_rs.Macro.Codegen.{
  CodegenConfig, Generated, Variant, quoted, generate, build_graph, to_pascal_case, to_snake_case,
  all_idents, entry, event_names, first_of_events,
}
use finitomata_rs.Macro.Validation.{validate}
use finitomata_rs.Macro.Validation.Sound.{IsSound, validate-IsSound}
use finitomata_rs.Parser.{ParsedFsm, ParsedTransition, terminal}
use finitomata_rs.Transition.{normal, hard, allowed}

-- A letter or `_`, and then letters, digits and `_`.
abbrev is_letter : ℕ → Bool
is_letter c = leb 97 c && leb c 122 || (leb 65 c && leb c 90 || c == 95)

abbrev are_letters : Text → Bool
are_letters [] = true
are_letters (c ∷ cs) = (is_letter c || leb 48 c && leb c 57) && are_letters cs

abbrev is_name : Text → Bool
is_name [] = false
is_name (c ∷ cs) = is_letter c && are_letters cs

abbrev ascii : Chars
ascii = record {
  is_alphabetic = λ c. leb 97 c && leb c 122 || leb 65 c && leb c 90;
  is_alphanumeric = λ c. leb 97 c && leb c 122 || leb 65 c && leb c 90 || leb 48 c && leb c 57;
  is_uppercase = λ c. leb 65 c && leb c 90;
  to_uppercase = λ c. (if leb 97 c && leb c 122 then c - 32 else c) ∷ [];
  to_lowercase = λ c. (if leb 65 c && leb c 90 then c + 32 else c) ∷ [];
  is_ident = is_name;
  ident_text = λ s. s;
}

abbrev machine : ParsedFsm
machine = record {
  initial = text "idle";
  finals = text "off" ∷ [];
  transitions =
      record { from = text "idle"; to = text "off"; event = text "halt"; kind = hard }
      ∷ record { from = text "off"; to = terminal; event = text "close"; kind = normal }
      ∷ [];
  states = text "idle" ∷ text "off" ∷ [];
}

machine-valid : validate ascii machine ≡ some (ok tt)
unfolding validate Sets.contains same list_cmp Sets.insert pair_cmp
machine-valid = refl

validate-IsSound_example :
    (r : Result (Unit {0}) (List Text)) × (validate ascii machine ≡ some r)
    × ((r ≡ ok tt) ↔ IsSound ascii machine)
validate-IsSound_example = validate-IsSound ascii machine

-- The diagram of the machine.
abbrev diagram : Text
diagram = text "[*] --> idle" ++ 10 ∷ text "idle --> |halt!| off" ++ 10 ∷ text "off --> |close| [*]"

diagram-read : parse_mermaid diagram ≡ ok machine
unfolding parse_mermaid same list_cmp Sets.insert
diagram-read = refl

machine-closed : IsClosedMachine machine
machine-closed = subst (Good IsClosedMachine) diagram-read (parse_mermaid-IsClosed diagram)

-- The variants in the order of their names.
instance abbrev by_name : Ord Variant
by_name = record {
  cmp = λ a b. list_ord.cmp a.name b.name;
  cmp_refl = λ a. list_ord.cmp_refl a.name;
  eq_of_cmp = λ a b h. ap (λ n. record { name = n }) (list_ord.eq_of_cmp a.name b.name h);
  lt_of_gt = λ a b h. list_ord.lt_of_gt a.name b.name h;
  lt_trans = λ a b c h k. list_ord.lt_trans a.name b.name c.name h k;
}

abbrev config : CodegenConfig
config = record {
  struct_name = text "Lamp";
  timer = none;
  auto_terminate = true;
  cache_state = true;
}

abbrev code : Generated
code = quoted ascii machine config

machine-code : generate ascii machine config ≡ some code
unfolding generate quoted all_idents to_pascal_case to_snake_case variant entry entry_target
    event_names first_of_events Sets.insert Sets.contains same list_cmp
machine-code = refl

abbrev name_of : Variant → Text
name_of v = v.name

generate-validates_example :
    IsWellFormed (build_graph code) × (Validate.validate name_of (build_graph code) ≡ some (ok tt))
generate-validates_example =
    generate-validates ascii machine config name_of code machine-valid machine-closed machine-code

-- The name back, for one word.
abbrev lowered : Text → Text
lowered [] = []
lowered (c ∷ cs) = (c + 32) ∷ cs

apart :
    (name : ParsedTransition → Text)
    → ((t : ParsedTransition)
        → Memᴰ t machine.transitions
        → lowered (to_pascal_case ascii (name t)) ≡ name t)
    → (t u : ParsedTransition) → Memᴰ t machine.transitions
    → Memᴰ u machine.transitions
    → variant ascii (name t) ≡ variant ascii (name u)
    → name t ≡ name u
unfolding variant
apart name back t u m n e = sym (back t m) ∙ ap (λ v. lowered v.name) e ∙ back u n

each :
    (P : ParsedTransition → Type 0) (a b : ParsedTransition)
    → P a
    → P b
    → (t : ParsedTransition) → Memᴰ t (a ∷ b ∷ [])
    → P t
each P a b pa pb t m =
    ⊎_elim (λ e. subst P (sym e) pa) (λ k. subst P (sym (Memᴰ.eq_of_singleton k)) pb)
      (Memᴰ.cases_cons m)

machine-IsInjective : IsInjective ascii machine.transitions
unfolding to_pascal_case
machine-IsInjective = record {
  states =
      apart (λ t. t.from)
        (each (λ t. lowered (to_pascal_case ascii t.from) ≡ t.from) _ _ refl refl);
  events =
      apart (λ t. t.event)
        (each (λ t. lowered (to_pascal_case ascii t.event) ≡ t.event) _ _ refl refl);
}

-- The second transition of the machine.
abbrev closing : ParsedTransition
closing = record { from = text "off"; to = terminal; event = text "close"; kind = normal }

allowed-generate_example :
    allowed (build_graph code) (variant ascii (text "off")) (variant ascii (text "close"))
    ≡ some (entry_target ascii closing ∷ [], normal)
allowed-generate_example =
    allowed-generate ascii machine config code closing machine-valid machine-IsInjective
      (Memᴰ.tail (Memᴰ.head refl)) machine-code

abbrev callbacks : Finitomata ℕ Variant Variant ℕ
callbacks =
    with_defaults
      λ fsm from event event_payload payload. (fsm + 1, payload, TransitionResult.ok from)

abbrev ctx : TransitContext ℕ ℕ Variant Variant ℕ
ctx = record { persistency = none; listener = none; auto_terminate = true }

abbrev lamp : Machine ℕ ℕ ℕ Variant ℕ
lamp = record {
  fsm = 0;
  state = new_state (text "lamp") (variant ascii (text "off")) 0;
  store = 0;
  log = 0;
}

parse_mermaid-agrees_example : parse_mermaid diagram ≡ ok machine
unfolding Mermaid.parse Mermaid.skips lines split_once trim piped same list_cmp Sets.insert
parse_mermaid-agrees_example =
    parse_mermaid-agrees diagram machine (λ h. tt, (λ h. (refl, refl), (λ h. (refl, refl), tt)))
      refl

-- The arguments of an attribute, with integers as they are.
abbrev syn : Syn (List (Meta ℕ)) ℕ
syn = record {
  parse_item = λ metas. ok (text "Lamp");
  parse2 = ok;
  base10_parse = λ n. if ltb n (2 ^ 64) then some n else none;
}

abbrev metas : List (Meta ℕ)
metas =
    name_value (some (text "timer")) (lit (int 5))
    ∷ other_meta
    ∷ name_value (some (text "fsm")) (lit (str diagram))
    ∷ name_value (some (text "timer")) (lit (int 2000))
    ∷ []

parse_finitomata_attrs-last_example :
    parse_finitomata_attrs syn metas ≡ attrs_of syn metas (some diagram)
unfolding same list_cmp
parse_finitomata_attrs-last_example = parse_finitomata_attrs-last syn metas metas refl

finitomata-Expanded_example :
    (r : Expansion) × (finitomata syn ascii metas [] ≡ some r)
    × Expanded ascii (ok (text "Lamp")) (parse_finitomata_attrs syn metas) r
finitomata-Expanded_example = finitomata-Expanded ascii syn metas []

-- A sound machine with the state `_`, whose variant would have no name.
abbrev nameless : ParsedFsm
nameless = record {
  initial = text "_";
  finals = text "_" ∷ [];
  transitions = [];
  states = text "_" ∷ [];
}

nameless-panics : (validate ascii nameless ≡ some (ok tt)) × (generate ascii nameless config ≡ none)
unfolding validate generate quoted all_idents to_pascal_case to_snake_case Sets.contains same
    list_cmp Sets.insert pair_cmp
nameless-panics = (refl, refl)

-- A diagram with the two markers alone is read and accepted.
abbrev eventless : ParsedFsm
eventless = record {
  initial = text "idle";
  finals = text "idle" ∷ [];
  transitions = [];
  states = text "idle" ∷ [];
}

eventless-accepted :
    (parse_mermaid (text "[*] --> idle" ++ 10 ∷ text "idle --> [*]") ≡ ok eventless)
    × (validate ascii eventless ≡ some (ok tt))
unfolding parse_mermaid validate Sets.contains same list_cmp Sets.insert pair_cmp
eventless-accepted = (refl, refl)
