-- ===== src/Examples/Numbered.antt =====
-- What the machines of the examples share: the order that an enum derives, which is that of its
-- declaration, and the transitions that the attribute makes of the lines of a diagram.
use Prim.Native.Nat.{compare}
use finitomata_rs.Base.{ℕ, ◌≡◌, sym, ap, ◌∙◌, [], ◌∷◌}
use finitomata_rs.Base.Ord.{Ord, nat_ord}
use finitomata_rs.Transition.{EventKind, Transition}

-- By the number of each variant, which `back` undoes.
abbrev pub by_number :
    {A : Type 0} (number : A → ℕ) (back : ℕ → A) → ((a : A) → back (number a) ≡ a) → Ord A
by_number number back undo = record {
  cmp = λ a b. compare (number a) (number b);
  cmp_refl = λ a. nat_ord.cmp_refl (number a);
  eq_of_cmp = λ a b h. sym (undo a) ∙ ap back (nat_ord.eq_of_cmp (number a) (number b) h) ∙ undo b;
  lt_of_gt = λ a b h. nat_ord.lt_of_gt (number a) (number b) h;
  lt_trans = λ a b c h k. nat_ord.lt_trans (number a) (number b) (number c) h k;
}

abbrev pub row : {S E : Type 0} → S → E → EventKind → S → Transition S E
row from event kind to = record { from = from; to = to ∷ []; event = event; kind = kind }
