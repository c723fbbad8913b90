-- ===== src/Macro/Codegen/Table.antt =====
-- The table of the graph that the macro generates (finitomata_macro/src/codegen.rs), and what `transit`
-- of the library (finitomata/src/engine.rs) does at its edges to `[*]`.
use mathlib.Core.List.Memᴰ
use finitomata_rs.Base.{
  some_inj, ◌≡◌, refl, sym, subst, ◌∙◌, ap, ◌↔◌, inl, inr, ⊎_elim, Bool, true, ◌&&◌, some, List, [],
  ◌∷◌, map, find, Memᴰ, Memᴰ-nil, Result, ok, err, arith, Bool-cases,
}
use mathlib.Core.Option
use finitomata_rs.Base.Ord.{Ord, same, same_iff, same_refl, nat_ord, list_ord}
use finitomata_rs.Base.Text.{Text}
use finitomata_rs.Engine.{TransitOutcome, Machine, auto_terminate}
use finitomata_rs.Error.{FinitomataError}
use finitomata_rs.State.{terminated}
use finitomata_rs.Macro.Chars.{Chars}
use finitomata_rs.Macro.Codegen.{
  CodegenConfig, Generated, Variant, variant, entry_target, entry, quoted, generate, build_graph,
}
use finitomata_rs.Macro.Codegen.Idents.{generate-quoted}
use finitomata_rs.Macro.Codegen.Valid.{mem-map}
use finitomata_rs.Macro.Validation
use finitomata_rs.Macro.Validation.Sound.{IsDistinct, key, IsSound, validate-IsSound}
use finitomata_rs.Parser.{ParsedFsm, ParsedTransition}
use finitomata_rs.Transition.{allowed}
use finitomata_rs.Transition.Index.{allowed-new, first_match}

-- The names of the sources and those of the events stay apart in PascalCase.
pub record IsInjective (chars : Chars) (ts : List ParsedTransition) : Type 0 where
  pub states :
      (t u : ParsedTransition)
      → Memᴰ t ts
      → Memᴰ u ts
      → variant chars t.from ≡ variant chars u.from
      → t.from ≡ u.from
  pub events :
      (t u : ParsedTransition)
      → Memᴰ t ts
      → Memᴰ u ts
      → variant chars t.event ≡ variant chars u.event
      → t.event ≡ u.event

IsInjective-tail :
    (chars : Chars) (x : ParsedTransition) (ts : List ParsedTransition)
    → IsInjective chars (x ∷ ts)
    → IsInjective chars ts
IsInjective-tail chars x ts h = record {
  states = λ t u m n. h.states t u (Memᴰ.tail m) (Memᴰ.tail n);
  events = λ t u m n. h.events t u (Memᴰ.tail m) (Memᴰ.tail n);
}

both : (a b : Bool) → (a && b ≡ true) ↔ ((a ≡ true) × (b ≡ true))
both a b = ground arith

module _ ⦃vo : Ord Variant⦄ where
  -- The two ends of a `transit` out of the state `v` into itself, where `v` is final.
  abbrev pub IsEnded :
      {F D L P : Type 0}
      → Machine F D L Variant P
      → Variant
      → Machine F D L Variant P × Result TransitOutcome FinitomataError
      → Type 0
  IsEnded m v (m', ok outcome) =
      (outcome ≡ auto_terminate) × (m'.state.lifecycle ≡ terminated) × (m'.state.current ≡ v)
  IsEnded m v (m', err reason) = m'.state.lifecycle ≡ m.state.lifecycle

module _ ⦃vo : Ord Variant⦄ (chars : Chars) where
  find-entry :
      (ts : List ParsedTransition) (t : ParsedTransition)
      → IsDistinct (map key ts)
      → IsInjective chars ts
      → Memᴰ t ts
      → first_match (map (entry chars) ts) (variant chars t.from) (variant chars t.event)
        ≡ some (entry chars t)
  unfolding entry
  find-entry [] t d inj m = absurd (Memᴰ-nil t m)
  find-entry (x ∷ ts) t d inj m =
      ⊎_elim
        (λ e.
          subst
            (λ u.
              first_match (map (entry chars) (x ∷ ts)) (variant chars u.from)
                (variant chars u.event)
              ≡ some (entry chars u))
            (sym e)
            (rw
              (
                (both _ _).1 (same_refl (variant chars x.from), same_refl (variant chars x.event)),
                first_match,
                find,
              )
              refl))
        (λ k.
          let ih = find-entry ts t d.1 (IsInjective-tail chars x ts inj) k in
          elim (Bool-cases (
            same (variant chars x.from) (variant chars t.from)
            && same (variant chars x.event) (variant chars t.event))) [
              | inl e ↦
                  let (f, g) = (both _ _).0 e in
                  let from = inj.states x t (Memᴰ.head refl) (Memᴰ.tail k) ((same_iff _ _).0 f) in
                  let event = inj.events x t (Memᴰ.head refl) (Memᴰ.tail k) ((same_iff _ _).0 g) in
                  let eq : key x ≡ key t = cc in
                  absurd (d.0 (subst (λ y. Memᴰ y (map key ts)) (sym eq) (mem-map key ts t k)))
              | inr n ↦ rw (n, first_match, find) ih
            ])
        (Memᴰ.cases_cons m)

  allowed-quoted :
      (fsm : ParsedFsm) (config : CodegenConfig) (t : ParsedTransition)
      → Validation.validate chars fsm ≡ some (ok tt)
      → IsInjective chars fsm.transitions
      → Memᴰ t fsm.transitions
      → allowed
          (build_graph (quoted chars fsm config))
          (variant chars t.from)
          (variant chars t.event)
        ≡ some (entry_target chars t ∷ [], t.kind)
  unfolding build_graph quoted
  allowed-quoted fsm config t accepted inj m =
      let (r, answered, sound) = validate-IsSound chars fsm in
      let sound : IsSound chars fsm = sound.0 (some_inj (sym answered ∙ accepted)) in
      allowed-new _ _ (map (entry chars) fsm.transitions) (variant chars t.from)
        (variant chars t.event)
      ∙ ap (Option.map (λ t. (t.to, t.kind))) (find-entry fsm.transitions t sound.unique inj m)
      ∙ unfold entry in refl

  -- Where the macro accepts a machine, PascalCase keeps its states and its events apart and code is
  -- generated, the graph of that code has each of the machine's transitions: at the variants of the
  -- source and of the event, `allowed` answers with the one target of the entry, and with the kind of
  -- the event.
  pub allowed-generate :
      (fsm : ParsedFsm) (config : CodegenConfig) (gen : Generated) (t : ParsedTransition)
      → Validation.validate chars fsm ≡ some (ok tt)
      → IsInjective chars fsm.transitions
      → Memᴰ t fsm.transitions
      → generate chars fsm config ≡ some gen
      → allowed (build_graph gen) (variant chars t.from) (variant chars t.event)
        ≡ some (entry_target chars t ∷ [], t.kind)
  allowed-generate fsm config gen t accepted inj m generated =
      ap (λ gen. allowed (build_graph gen) (variant chars t.from) (variant chars t.event))
        (sym (generate-quoted chars fsm config gen generated))
      ∙ allowed-quoted fsm config t accepted inj m
