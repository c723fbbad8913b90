-- ===== src/Macro/Attributes/Sound.antt =====
-- What the attribute `#[finitomata(…)]` (finitomata_macro/src/lib.rs) accepts.
use finitomata_rs.Base.{
  ◌≡◌, ◌⊎◌, inl, inr, ◌↔◌, ◌++◌, refl, Memᴰ, true, false, Option, none, some, List, Result, ok, err,
}
use finitomata_rs.Base.Ord.{Ord}
use finitomata_rs.Base.Text.{Text, text}
use finitomata_rs.Macro.Attributes.{
  Syn, Syntax, mermaid, plant_uml, FinitomataAttrs, parse_finitomata_attrs, checked, join, parsed,
  parse_fsm, with_attrs, with_item, finitomata, Expansion, emitted, compile_error, unwinds,
  expansion_of,
}
use finitomata_rs.Macro.Chars.{Chars}
use finitomata_rs.Macro.Codegen.{
  CodegenConfig, Generated, Variant, idents, quoted, generate, build_graph,
}
use finitomata_rs.Macro.Codegen.Idents.{Generates, generate-Generates}
use finitomata_rs.Macro.Codegen.Valid.{generate-validates}
use finitomata_rs.Macro.Parser.Closed.{
  IsClosedMachine, parse_mermaid-IsClosed, parse_plantuml-IsClosed,
}
use finitomata_rs.Macro.Validation
use finitomata_rs.Macro.Validation.Sound.{IsSound, validate-IsSound}
use finitomata_rs.Parser.{ParsedFsm}
use finitomata_rs.Parser.Closed.{Good}
use finitomata_rs.Transition.Validate.{validate}

err≢ok : {A B : Type 0} {a : A} {b : B} → ¬ (Path (Result A B) (err b) (ok a))
err≢ok h = cc

abbrev pub config_of : Text → FinitomataAttrs → CodegenConfig
config_of struct_name args = record {
  struct_name = struct_name;
  timer = args.timer;
  auto_terminate = args.auto_terminate;
  cache_state = args.cache_state;
}

module _ (chars : Chars) (struct_name : Text) where
  -- The arguments were read, and the diagram is that of a sound machine.
  abbrev pub IsAccepted : Result FinitomataAttrs Text → FinitomataAttrs → ParsedFsm → Type 0
  IsAccepted read args fsm =
      (read ≡ ok args) × (parse_fsm args.syntax args.fsm ≡ ok fsm) × IsSound chars fsm

  -- How `finitomata` ends, on every path, once the item was read.
  abbrev pub Expands : Result FinitomataAttrs Text → Expansion → Type 0
  Expands read (emitted gen) =
      (args : FinitomataAttrs) × (fsm : ParsedFsm) × IsAccepted read args fsm
      × (gen ≡ quoted chars fsm (config_of struct_name args))
      × ((name : Text) → Memᴰ name (idents gen) → chars.is_ident name ≡ true)
      × ((vo : Ord Variant) (show : Variant → Text)
          → validate ⦃so = vo⦄ show (build_graph ⦃vo = vo⦄ gen) ≡ some (ok tt))
  Expands read unwinds =
      (args : FinitomataAttrs) × (fsm : ParsedFsm) × IsAccepted read args fsm
      × (name : Text) × Memᴰ name (idents (quoted chars fsm (config_of struct_name args)))
      × (chars.is_ident name ≡ false)
  Expands read (compile_error e) =
      (read ≡ err e)
      ⊎ ((args : FinitomataAttrs) × (reason : Text) × (read ≡ ok args)
          × (parse_fsm args.syntax args.fsm ≡ err reason)
          × (e ≡ text "FSM parse error: " ++ reason))
      ⊎ ((args : FinitomataAttrs) × (fsm : ParsedFsm) × (read ≡ ok args)
          × (parse_fsm args.syntax args.fsm ≡ ok fsm)
          × (¬ IsSound chars fsm)
          × (errors : List Text) × (Validation.validate chars fsm ≡ some (err errors))
          × (e ≡ text "FSM validation error: " ++ join errors))

  expansion_of-Expands :
      (read : Result FinitomataAttrs Text) (args : FinitomataAttrs) (fsm : ParsedFsm)
      (made : Option Generated)
      → IsAccepted read args fsm
      → IsClosedMachine fsm
      → Validation.validate chars fsm ≡ some (ok tt)
      → generate chars fsm (config_of struct_name args) ≡ made
      → Generates chars fsm (config_of struct_name args) made
      → Expands read (expansion_of made)
  unfolding expansion_of
  expansion_of-Expands read args fsm none accepted closed valid made (name, m, bad) =
      (args, fsm, accepted, name, m, bad)
  expansion_of-Expands read args fsm (some gen) accepted closed valid made (same_lem, names) = (
    args,
    fsm,
    accepted,
    same_lem,
    names,
    λ vo show.
        (generate-validates ⦃vo = vo⦄ chars fsm (config_of struct_name args) show gen valid closed
          made).1,
  )

  checked-Expands :
      (read : Result FinitomataAttrs Text) (args : FinitomataAttrs) (fsm : ParsedFsm)
      (r : Result (Unit {0}) (List Text))
      → read ≡ ok args
      → parse_fsm args.syntax args.fsm ≡ ok fsm
      → IsClosedMachine fsm
      → Validation.validate chars fsm ≡ some r
      → (r ≡ ok tt) ↔ IsSound chars fsm
      → Expands read (checked chars fsm (config_of struct_name args) r)
  unfolding checked
  checked-Expands read args fsm (ok _) was_read was_parsed closed valid sound =
      expansion_of-Expands read args fsm (generate chars fsm (config_of struct_name args))
        (was_read, was_parsed, sound.0 refl) closed valid refl
        (generate-Generates chars fsm (config_of struct_name args))
  checked-Expands read args fsm (err errors) was_read was_parsed closed valid sound =
      inr (
        inr
          (args, fsm, was_read, was_parsed, λ h. absurd (err≢ok (sound.1 h)), errors, valid, refl))

  parsed-Expands :
      (read : Result FinitomataAttrs Text) (args : FinitomataAttrs)
      (machine : Result ParsedFsm Text)
      → read ≡ ok args
      → parse_fsm args.syntax args.fsm ≡ machine
      → Good IsClosedMachine machine
      → (r : Expansion) × (parsed chars struct_name args machine ≡ some r) × Expands read r
  unfolding parsed
  parsed-Expands read args (err e) was_read was_parsed closed =
      (_, refl, inr (inl (args, e, was_read, was_parsed, refl)))
  parsed-Expands read args (ok fsm) was_read was_parsed closed =
      let (r, ends, sound) = validate-IsSound chars fsm in
      (
        checked chars fsm (config_of struct_name args) r,
        rw ends refl,
        checked-Expands read args fsm r was_read was_parsed closed ends sound,
      )

  parse_fsm-IsClosed : (syntax : Syntax) (fsm : Text) → Good IsClosedMachine (parse_fsm syntax fsm)
  unfolding parse_fsm
  parse_fsm-IsClosed mermaid fsm = parse_mermaid-IsClosed fsm
  parse_fsm-IsClosed plant_uml fsm = parse_plantuml-IsClosed fsm

  with_attrs-Expands :
      (read : Result FinitomataAttrs Text)
      → (r : Expansion) × (with_attrs chars struct_name read ≡ some r) × Expands read r
  unfolding with_attrs
  with_attrs-Expands (err e) = (_, refl, inl refl)
  with_attrs-Expands (ok args) =
      parsed-Expands (ok args) args (parse_fsm args.syntax args.fsm) refl refl
        (parse_fsm-IsClosed args.syntax args.fsm)

module _ (chars : Chars) where
  -- The item comes first: where it is not read, nothing else counts.
  abbrev pub Expanded : Result Text Text → Result FinitomataAttrs Text → Expansion → Type 0
  Expanded (err why) read r = r ≡ compile_error why
  Expanded (ok struct_name) read r = Expands chars struct_name read r

  with_item-Expanded :
      (item : Result Text Text) (read : Result FinitomataAttrs Text)
      → (r : Expansion) × (with_item chars item read ≡ some r) × Expanded item read r
  unfolding with_item
  with_item-Expanded (err why) read = (_, refl, refl)
  with_item-Expanded (ok struct_name) read = with_attrs-Expands chars struct_name read

  -- The expansion of the attribute ends, in one of three ways. It emits code only if the item,
  -- the arguments and the diagram were read and the machine is sound: it has an initial and a
  -- final state, each of its states is reached, no state has two transitions with one event, and
  -- its names begin with a letter or `_` and go on with letters, digits and `_`. Each name that
  -- is made for it is then one that `format_ident!` takes, the code is what is quoted for that
  -- machine, and `validate` of the library accepts its graph. It panics only where all of that
  -- was read and the machine is sound, and then a name that the code would have is one that
  -- `format_ident!` does not take. It is a compile error in four cases: with the item's error;
  -- with the text of the attribute's error; with that of the diagram's error after `FSM parse
  -- error: `; and, where the machine is not sound, with the errors of the macro's `validate`,
  -- joined, after `FSM validation error: `.
  pub finitomata-Expanded :
      {T I : Type 0} (syn : Syn T I) (attr item : T)
      → (r : Expansion) × (finitomata syn chars attr item ≡ some r)
        × Expanded (syn.parse_item item) (parse_finitomata_attrs syn attr) r
  unfolding finitomata
  finitomata-Expanded syn attr item =
      with_item-Expanded (syn.parse_item item) (parse_finitomata_attrs syn attr)
