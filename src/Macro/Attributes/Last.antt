-- ===== src/Macro/Attributes/Last.antt =====
-- The loop over the arguments of the attribute (finitomata_macro/src/lib.rs): each is set by the last
-- argument that has its key and a literal of its type.
use finitomata_rs.Base.{
  ◌≡◌, inl, inr, refl, sym, subst, ◌∙◌, ap, ℕ, Bool, true, false, unwrap_or, Option, none, some,
  List, [], ◌∷◌, Result, ok, err, Bool-cases,
}
use mathlib.Core.Option
use finitomata_rs.Base.Ord.{same, same_iff, list_cmp, nat_ord, list_ord}
use finitomata_rs.Base.Text.{Text, text}
use finitomata_rs.Macro.Attributes.{
  Lit, str, int, bool, other_lit, Expr, lit, other_expr, Meta, name_value, other_meta, Syn, Syntax,
  mermaid, FinitomataAttrs, Args, defaults, syntax_of, set_fsm, set_syntax, set_timer,
  set_auto_terminate, set_cache_state, set_key, set_meta, set_all, require_fsm,
  parse_finitomata_attrs, read_metas,
}

module _ {T I : Type 0} (syn : Syn T I) where
  -- The literals of each type.
  abbrev pub as_str : Lit I → Option Text
  as_str (str value) = some value
  as_str _ = none

  abbrev pub as_bool : Lit I → Option Bool
  as_bool (bool value) = some value
  as_bool _ = none

  -- An integer that is out of range counts: it is no interval.
  abbrev pub as_interval : Lit I → Option (Option ℕ)
  as_interval (int value) = some (syn.base10_parse value)
  as_interval _ = none

  abbrev pub when : {A : Type 0} → Bool → (Lit I → Option A) → Expr I → Option A
  when true pick (lit l) = pick l
  when true pick other_expr = none
  when false pick _ = none

  abbrev pub keyed : {A : Type 0} → Text → (Lit I → Option A) → Meta I → Option A
  keyed name pick (name_value (some key) value) = when (same key name) pick value
  keyed name pick _ = none

  -- The value of the last argument that has one, and `start` if there is none.
  abbrev pub last_of : {A : Type 0} → (Meta I → Option A) → List (Meta I) → A → A
  last_of value [] start = start
  last_of value (meta ∷ metas) start = last_of value metas (unwrap_or (value meta) start)

  -- What an argument sets.
  abbrev by_key : Args → Text → Expr I → Args
  by_key args key e = record {
    fsm = unwrap_or (Option.map some (when (same key (text "fsm")) as_str e)) args.fsm;
    syntax =
        unwrap_or (Option.map syntax_of (when (same key (text "syntax")) as_str e)) args.syntax;
    timer = unwrap_or (when (same key (text "timer")) as_interval e) args.timer;
    auto_terminate =
        unwrap_or (when (same key (text "auto_terminate")) as_bool e) args.auto_terminate;
    cache_state = unwrap_or (when (same key (text "cache_state")) as_bool e) args.cache_state;
  }

  IsKey : Args → Text → Type 0
  IsKey args key = (e : Expr I) → set_key syn args key e ≡ by_key args key e

  IsKey-fsm : (args : Args) → IsKey args (text "fsm")
  unfolding IsKey set_key set_fsm same list_cmp
  IsKey-fsm args (lit (str v)) = refl
  IsKey-fsm args (lit (int v)) = refl
  IsKey-fsm args (lit (bool v)) = refl
  IsKey-fsm args (lit other_lit) = refl
  IsKey-fsm args other_expr = refl

  IsKey-syntax : (args : Args) → IsKey args (text "syntax")
  unfolding IsKey set_key set_syntax same list_cmp
  IsKey-syntax args (lit (str v)) = refl
  IsKey-syntax args (lit (int v)) = refl
  IsKey-syntax args (lit (bool v)) = refl
  IsKey-syntax args (lit other_lit) = refl
  IsKey-syntax args other_expr = refl

  IsKey-timer : (args : Args) → IsKey args (text "timer")
  unfolding IsKey set_key set_timer same list_cmp
  IsKey-timer args (lit (str v)) = refl
  IsKey-timer args (lit (int v)) = refl
  IsKey-timer args (lit (bool v)) = refl
  IsKey-timer args (lit other_lit) = refl
  IsKey-timer args other_expr = refl

  IsKey-auto_terminate : (args : Args) → IsKey args (text "auto_terminate")
  unfolding IsKey set_key set_auto_terminate same list_cmp
  IsKey-auto_terminate args (lit (str v)) = refl
  IsKey-auto_terminate args (lit (int v)) = refl
  IsKey-auto_terminate args (lit (bool v)) = refl
  IsKey-auto_terminate args (lit other_lit) = refl
  IsKey-auto_terminate args other_expr = refl

  IsKey-cache_state : (args : Args) → IsKey args (text "cache_state")
  unfolding IsKey set_key set_cache_state same list_cmp
  IsKey-cache_state args (lit (str v)) = refl
  IsKey-cache_state args (lit (int v)) = refl
  IsKey-cache_state args (lit (bool v)) = refl
  IsKey-cache_state args (lit other_lit) = refl
  IsKey-cache_state args other_expr = refl

  set_key_lem : (args : Args) (key : Text) → IsKey args key
  unfolding IsKey
  set_key_lem args key = elim (Bool-cases (same key (text "fsm"))) [
    | inl e ↦ subst (IsKey args) (sym ((same_iff key (text "fsm")).0 e)) (IsKey-fsm args)
    | inr n0 ↦ elim (Bool-cases (same key (text "syntax"))) [
      | inl e ↦ subst (IsKey args) (sym ((same_iff key (text "syntax")).0 e)) (IsKey-syntax args)
      | inr n1 ↦ elim (Bool-cases (same key (text "timer"))) [
        | inl e ↦ subst (IsKey args) (sym ((same_iff key (text "timer")).0 e)) (IsKey-timer args)
        | inr n2 ↦ elim (Bool-cases (same key (text "auto_terminate"))) [
          | inl e ↦
              subst (IsKey args) (sym ((same_iff key (text "auto_terminate")).0 e))
                (IsKey-auto_terminate args)
          | inr n3 ↦ elim (Bool-cases (same key (text "cache_state"))) [
            | inl e ↦
                subst (IsKey args) (sym ((same_iff key (text "cache_state")).0 e))
                  (IsKey-cache_state args)
            | inr n4 ↦ λ e. unfold set_key in rw (n0, n1, n2, n3, n4) refl
          ]
        ]
      ]
    ]
  ]

  abbrev pub set_text : Meta I → Option (Option Text)
  set_text meta = Option.map some (keyed (text "fsm") as_str meta)

  abbrev pub set_name : Meta I → Option Syntax
  set_name meta = Option.map syntax_of (keyed (text "syntax") as_str meta)

  set_meta_lem :
      (args : Args) (meta : Meta I)
      → set_meta syn args meta ≡ record {
        fsm = unwrap_or (set_text meta) args.fsm;
        syntax = unwrap_or (set_name meta) args.syntax;
        timer = unwrap_or (keyed (text "timer") as_interval meta) args.timer;
        auto_terminate = unwrap_or (keyed (text "auto_terminate") as_bool meta) args.auto_terminate;
        cache_state = unwrap_or (keyed (text "cache_state") as_bool meta) args.cache_state;
      }
  unfolding set_meta set_key IsKey same list_cmp
  set_meta_lem args (name_value (some key) e) = set_key_lem args key e
  set_meta_lem args (name_value none e) = refl
  set_meta_lem args other_meta = refl

  -- The arguments by their last values.
  abbrev last_args : List (Meta I) → Args → Args
  last_args metas args = record {
    fsm = last_of set_text metas args.fsm;
    syntax = last_of set_name metas args.syntax;
    timer = last_of (keyed (text "timer") as_interval) metas args.timer;
    auto_terminate = last_of (keyed (text "auto_terminate") as_bool) metas args.auto_terminate;
    cache_state = last_of (keyed (text "cache_state") as_bool) metas args.cache_state;
  }

  set_all-last_args :
      (metas : List (Meta I)) (args : Args) → set_all syn args metas ≡ last_args metas args
  unfolding set_all
  set_all-last_args [] args = refl
  set_all-last_args (meta ∷ metas) args =
      ap (λ a. set_all syn a metas) (set_meta_lem args meta) ∙ set_all-last_args metas _

  abbrev pub attrs_of : List (Meta I) → Option Text → Result FinitomataAttrs Text
  attrs_of metas none = err (text "missing required `fsm` attribute")
  attrs_of metas (some fsm) = ok (record {
    fsm = fsm;
    syntax = last_of set_name metas mermaid;
    timer = last_of (keyed (text "timer") as_interval) metas none;
    auto_terminate = last_of (keyed (text "auto_terminate") as_bool) metas false;
    cache_state = last_of (keyed (text "cache_state") as_bool) metas true;
  })

  require_fsm-attrs_of :
      (metas : List (Meta I)) (fsm : Option Text)
      → require_fsm (last_args metas defaults) fsm ≡ attrs_of metas fsm
  unfolding require_fsm
  require_fsm-attrs_of metas none = refl
  require_fsm-attrs_of metas (some fsm) = refl

  -- Where `syn` reads the list of arguments, each of the five is set by the last argument that has its
  -- key and a literal of its type, whatever else stands in the list: arguments with another key, a
  -- longer path or another literal are passed over. Of the last integer for `timer`, one that is not a
  -- `u64` unsets it. With no such argument the default holds: Mermaid, no timer, no auto-termination, a
  -- cached state; but with no text for `fsm` the answer is the error that it is missing.
  pub parse_finitomata_attrs-last :
      (attr : T) (metas : List (Meta I))
      → syn.parse2 attr ≡ ok metas
      → parse_finitomata_attrs syn attr ≡ attrs_of metas (last_of set_text metas none)
  unfolding parse_finitomata_attrs read_metas
  parse_finitomata_attrs-last attr metas read = rw read (
      rw (set_all-last_args metas defaults)
        (require_fsm-attrs_of metas (last_of set_text metas none)))
