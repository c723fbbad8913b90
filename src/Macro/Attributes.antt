-- ===== src/Macro/Attributes.antt =====
-- The attribute `#[finitomata(…)]` itself (finitomata_macro/src/lib.rs): its arguments, and the steps
-- from them to the generated code.
pub mod Last
pub mod Sound
use mathlib.Core.Option
use finitomata_rs.Base.{
  ℕ, Bool, true, false, Option, none, some, List, [], ◌∷◌, ◌++◌, ◌||◌, if◌then◌else◌, Result, ok,
  err, map,
}
use finitomata_rs.Base.Ord.{same, nat_ord, list_ord}
use finitomata_rs.Base.Text.{Text, text}
use finitomata_rs.Macro.Chars.{Chars}
use finitomata_rs.Macro.Codegen.{CodegenConfig, Generated, generate}
use finitomata_rs.Macro.Parser.{parse_mermaid, parse_plantuml}
use finitomata_rs.Macro.Validation.{validate}
use finitomata_rs.Parser.{ParsedFsm}

-- The literals of `syn` that the macro looks at; `I` is `LitInt`.
pub data Lit (I : Type 0) : Type 0 where
  str : Text → Lit I
  int : I → Lit I
  bool : Bool → Lit I
  other_lit : Lit I

pub data Expr (I : Type 0) : Type 0 where
  lit : Lit I → Expr I
  other_expr : Expr I

-- `key = value`, whose path may be longer than one identifier, or another attribute.
pub data Meta (I : Type 0) : Type 0 where
  name_value : Option Text → Expr I → Meta I
  other_meta : Meta I

-- What the macro calls of `syn`: the parser of the item, `parse_macro_input!`, which gives the name of the
-- struct or the text of a compile error; the parser of the list; and `base10_parse::<u64>` without its error.
pub record Syn (T I : Type 0) : Type 0 where
  pub parse_item : T → Result Text Text
  pub parse2 : T → Result (List (Meta I)) Text
  pub base10_parse : I → Option ℕ

pub data Syntax : Type 0 where
  mermaid plant_uml : Syntax

pub record FinitomataAttrs : Type 0 where
  pub fsm : Text
  pub syntax : Syntax
  pub timer : Option ℕ
  pub auto_terminate : Bool
  pub cache_state : Bool

-- The five variables of the loop.
pub record Args : Type 0 where
  pub fsm : Option Text
  pub syntax : Syntax
  pub timer : Option ℕ
  pub auto_terminate : Bool
  pub cache_state : Bool

abbrev pub defaults : Args
defaults = record {
  fsm = none;
  syntax = mermaid;
  timer = none;
  auto_terminate = false;
  cache_state = true;
}

unfoldable pub syntax_of : Text → Syntax
syntax_of name =
    if same name (text "plantuml") || same name (text "plant_uml") then plant_uml else mermaid

set_fsm : {I : Type 0} → Args → Expr I → Args
set_fsm args (lit (str value)) = record args { fsm = some value }
set_fsm args _ = args

set_syntax : {I : Type 0} → Args → Expr I → Args
unfolding syntax_of
set_syntax args (lit (str value)) = record args { syntax = syntax_of value }
set_syntax args _ = args

set_timer : {T I : Type 0} → Syn T I → Args → Expr I → Args
set_timer syn args (lit (int value)) = record args { timer = syn.base10_parse value }
set_timer syn args _ = args

set_auto_terminate : {I : Type 0} → Args → Expr I → Args
set_auto_terminate args (lit (bool value)) = record args { auto_terminate = value }
set_auto_terminate args _ = args

set_cache_state : {I : Type 0} → Args → Expr I → Args
set_cache_state args (lit (bool value)) = record args { cache_state = value }
set_cache_state args _ = args

-- The `match` on the key.
unfoldable pub set_key : {T I : Type 0} → Syn T I → Args → Text → Expr I → Args
unfolding set_fsm set_syntax set_timer set_auto_terminate set_cache_state
set_key syn args key value =
    if same key (text "fsm")
    then set_fsm args value
    else (if same key (text "syntax")
        then set_syntax args value
        else (if same key (text "timer")
            then set_timer syn args value
            else (if same key (text "auto_terminate")
                then set_auto_terminate args value
                else (if same key (text "cache_state") then set_cache_state args value else args))))

-- The body of the loop. A path of several identifiers is the empty key.
unfoldable pub set_meta : {T I : Type 0} → Syn T I → Args → Meta I → Args
unfolding set_key
set_meta syn args (name_value (some key) value) = set_key syn args key value
set_meta syn args (name_value none value) = set_key syn args [] value
set_meta syn args other_meta = args

unfoldable pub set_all : {T I : Type 0} → Syn T I → Args → List (Meta I) → Args
set_all syn args [] = args
set_all syn args (meta ∷ metas) = set_all syn (set_meta syn args meta) metas

unfoldable pub require_fsm : Args → Option Text → Result FinitomataAttrs Text
require_fsm args none = err (text "missing required `fsm` attribute")
require_fsm args (some fsm) = ok (record {
  fsm = fsm;
  syntax = args.syntax;
  timer = args.timer;
  auto_terminate = args.auto_terminate;
  cache_state = args.cache_state;
})

unfoldable pub read_metas :
    {T I : Type 0} → Syn T I → Result (List (Meta I)) Text → Result FinitomataAttrs Text
unfolding set_all require_fsm
read_metas syn (err e) = err (text "failed to parse attributes: " ++ e)
read_metas syn (ok metas) = let args = set_all syn defaults metas in require_fsm args args.fsm

unfoldable pub parse_finitomata_attrs : {T I : Type 0} → Syn T I → T → Result FinitomataAttrs Text
unfolding read_metas
parse_finitomata_attrs syn attr = read_metas syn (syn.parse2 attr)

-- `errors.join("; ")`
unfoldable pub join : List Text → Text
join [] = []
join (e ∷ []) = e
join (e ∷ f ∷ fs) = e ++ (text "; " ++ join (f ∷ fs))

-- What `finitomata` comes to: what is emitted after the item itself, the text of a `compile_error!`, or
-- the panic of `generate`.
pub data Expansion : Type 0 where
  emitted : Generated → Expansion
  compile_error : Text → Expansion
  unwinds : Expansion

unfoldable pub expansion_of : Option Generated → Expansion
expansion_of none = unwinds
expansion_of (some gen) = emitted gen

-- The steps of `finitomata`, from the last one back.
unfoldable pub checked :
    Chars → ParsedFsm → CodegenConfig → Result (Unit {0}) (List Text) → Expansion
unfolding join expansion_of
checked chars fsm config (err errors) = compile_error (text "FSM validation error: " ++ join errors)
checked chars fsm config (ok _) = expansion_of (generate chars fsm config)

unfoldable pub parsed : Chars → Text → FinitomataAttrs → Result ParsedFsm Text → Option Expansion
unfolding checked
parsed chars struct_name args (err e) = some (compile_error (text "FSM parse error: " ++ e))
parsed chars struct_name args (ok fsm) =
    let config : CodegenConfig = record {
      struct_name = struct_name;
      timer = args.timer;
      auto_terminate = args.auto_terminate;
      cache_state = args.cache_state;
    } in
    Option.map (checked chars fsm config) (validate chars fsm)

unfoldable pub parse_fsm : Syntax → Text → Result ParsedFsm Text
parse_fsm mermaid fsm = parse_mermaid fsm
parse_fsm plant_uml fsm = parse_plantuml fsm

unfoldable pub with_attrs : Chars → Text → Result FinitomataAttrs Text → Option Expansion
unfolding parsed parse_fsm
with_attrs chars struct_name (err e) = some (compile_error e)
with_attrs chars struct_name (ok args) =
    parsed chars struct_name args (parse_fsm args.syntax args.fsm)

unfoldable pub with_item : Chars → Result Text Text → Result FinitomataAttrs Text → Option Expansion
unfolding with_attrs
with_item chars (err e) read = some (compile_error e)
with_item chars (ok struct_name) read = with_attrs chars struct_name read

unfoldable pub finitomata : {T I : Type 0} → Syn T I → Chars → T → T → Option Expansion
unfolding with_item parse_finitomata_attrs
finitomata syn chars attr item =
    with_item chars (syn.parse_item item) (parse_finitomata_attrs syn attr)
