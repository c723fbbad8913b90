-- ===== src/Macro/Codegen.antt =====
-- The code that the macro generates (finitomata_macro/src/codegen.rs), as the names and the tables that
-- it quotes: an identifier is its text.
pub mod Idents
pub mod Names
pub mod Table
pub mod Valid
use finitomata_rs.Base.{
  ℕ, Bool, true, false, ◌&&◌, Option, none, some, List, [], ◌∷◌, ◌++◌, map, ◌==◌, if◌then◌else◌,
}
use finitomata_rs.Base.Ord.{Ord, same, nat_ord, list_ord}
use finitomata_rs.Base.Text.{Text, text}
use finitomata_rs.BTree.Sets
use finitomata_rs.BTree.Sets.{BTreeSet}
use finitomata_rs.Macro.Chars.{Chars}
use finitomata_rs.Parser.{ParsedFsm, ParsedTransition, terminal}
use finitomata_rs.Transition.{EventKind, Transition, TransitionGraph, new}

pub record CodegenConfig : Type 0 where
  pub struct_name : Text
  pub timer : Option ℕ
  pub auto_terminate : Bool
  pub cache_state : Bool

-- A value of one of the two generated enums.
pub record Variant : Type 0 where
  pub name : Text

-- What the quoted code declares: the two enums with their `Display`, the kinds of the events, the
-- constants, and the arguments of `TransitionGraph::new` in `build_graph`.
pub record Generated : Type 0 where
  pub state_enum_name : Text
  pub event_enum_name : Text
  pub state_variants : List Text
  pub event_variants : List Text
  pub state_display : List (Text × Text)
  pub event_display : List (Text × Text)
  pub event_kinds : List (Text × EventKind)
  pub transitions : List (Transition Variant Variant)
  pub initial : Variant
  pub finals : List Variant
  pub auto_terminate : Bool
  pub timer_interval_ms : Option ℕ
  pub graph_fn_name : Text

-- The names of a row: the source, the event and the target.
abbrev pub row_idents : List (Transition Variant Variant) → List Text
row_idents [] = []
row_idents (t ∷ ts) = t.from.name ∷ t.event.name ∷ map (λ v. v.name) t.to ++ row_idents ts

-- Every name that is made by `format_ident!`.
abbrev pub idents : Generated → List Text
idents gen =
    gen.state_enum_name ∷ gen.event_enum_name ∷ gen.graph_fn_name ∷ gen.initial.name
      ∷ gen.state_variants
    ++ (gen.event_variants
        ++ (map (λ k. k.0) gen.event_kinds
            ++ (row_idents gen.transitions ++ map (λ v. v.name) gen.finals)))

-- `split('_')`; 95 is the code point of `_`.
unfoldable pub split_underscore : Text → List Text
split_underscore [] = [] ∷ []
split_underscore (c ∷ cs) = elim (split_underscore cs) [
  | [] ↦ (c ∷ []) ∷ []
  | part ∷ parts ↦ if c == 95 then [] ∷ part ∷ parts else (c ∷ part) ∷ parts
]

-- `collect()` of texts into one.
unfoldable pub concat : List Text → Text
concat [] = []
concat (part ∷ parts) = part ++ concat parts

-- The names of the events, each once and in order.
unfoldable pub event_names : BTreeSet Text → List ParsedTransition → BTreeSet Text
event_names names [] = names
event_names names (t ∷ ts) = event_names (Sets.insert names t.event) ts

-- `filter(|t| seen_events.insert(t.event.clone()))`
unfoldable pub first_of_events : BTreeSet Text → List ParsedTransition → List ParsedTransition
first_of_events seen [] = []
first_of_events seen (t ∷ ts) =
    let rest = first_of_events (Sets.insert seen t.event) ts in
    if Sets.contains seen t.event then rest else t ∷ rest

module _ (chars : Chars) where
  unfoldable pub all_idents : List Text → Bool
  all_idents [] = true
  all_idents (name ∷ names) = chars.is_ident name && all_idents names

  unfoldable pub capitalize : Text → Text
  capitalize [] = []
  capitalize (c ∷ rest) = chars.to_uppercase c ++ rest

  unfoldable pub to_pascal_case : Text → Text
  unfolding split_underscore concat capitalize
  to_pascal_case s = concat (map capitalize (split_underscore s))

  -- One character of `to_snake_case`, by whether it is the first. `to_lowercase` gives one character at
  -- least, and the first of them is taken.
  lower_first : Text → Text
  lower_first [] = []
  lower_first (c ∷ cs) = c ∷ []

  snake_char : Bool → ℕ → Text
  unfolding lower_first
  snake_char is_first c =
      if chars.is_uppercase c
      then (if is_first then [] else 95 ∷ []) ++ lower_first (chars.to_lowercase c)
      else c ∷ []

  snake_rest : Text → Text
  unfolding snake_char
  snake_rest [] = []
  snake_rest (c ∷ cs) = snake_char false c ++ snake_rest cs

  unfoldable pub to_snake_case : Text → Text
  unfolding snake_char snake_rest
  to_snake_case [] = []
  to_snake_case (c ∷ cs) = snake_char true c ++ snake_rest cs

  unfoldable pub variant : Text → Variant
  unfolding to_pascal_case
  variant s = record { name = to_pascal_case s }

  -- The target of an entry: the source again, where the edge ends in `[*]`.
  unfoldable pub entry_target : ParsedTransition → Variant
  unfolding variant
  entry_target t = if same t.to terminal then variant t.from else variant t.to

  unfoldable pub entry : ParsedTransition → Transition Variant Variant
  unfolding variant entry_target
  entry t = record {
    from = variant t.from;
    to = entry_target t ∷ [];
    event = variant t.event;
    kind = t.kind;
  }

  -- What is quoted, if each name is an identifier.
  unfoldable pub quoted : ParsedFsm → CodegenConfig → Generated
  unfolding to_pascal_case to_snake_case variant entry event_names first_of_events
  quoted fsm config =
      let names = event_names [] fsm.transitions in
      record {
        state_enum_name = chars.ident_text config.struct_name ++ text "State";
        event_enum_name = chars.ident_text config.struct_name ++ text "Event";
        state_variants = map to_pascal_case fsm.states;
        event_variants = map to_pascal_case names;
        state_display = map (λ s. (to_pascal_case s, s)) fsm.states;
        event_display = map (λ e. (to_pascal_case e, e)) names;
        event_kinds =
            map (λ t. (to_pascal_case t.event, t.kind)) (first_of_events [] fsm.transitions);
        transitions = map entry fsm.transitions;
        initial = variant fsm.initial;
        finals = map variant fsm.finals;
        auto_terminate = config.auto_terminate;
        timer_interval_ms = config.timer;
        graph_fn_name = to_snake_case config.struct_name ++ text "_graph";
      }

  -- `format_ident!` panics at a name that is no identifier: `none`.
  unfoldable pub generate : ParsedFsm → CodegenConfig → Option Generated
  unfolding quoted all_idents
  generate fsm config =
      let gen = quoted fsm config in if all_idents (idents gen) then some gen else none

-- `BTreeSet::from([…])`
unfoldable pub set_from : {A : Type 0} ⦃o : Ord A⦄ → BTreeSet A → List A → BTreeSet A
set_from set [] = set
set_from set (a ∷ rest) = set_from (Sets.insert set a) rest

-- `build_graph`. The order that the enum derives is that of its declaration: it is a parameter here.
unfoldable pub build_graph : ⦃vo : Ord Variant⦄ → Generated → TransitionGraph Variant Variant
unfolding set_from new
build_graph gen = new gen.initial (set_from [] gen.finals) gen.transitions
