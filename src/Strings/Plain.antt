-- ===== src/Strings/Plain.antt =====
-- The operations of `str` on texts without the characters that they look for.
use mathlib.Core.List.{append-nil, append_assoc}
use finitomata_rs.Base.{
  ℕ, ◌≡◌, refl, sym, ap, ◌∙◌, subst, Bool, true, false, ◌&&◌, not, none, some, List, [], ◌∷◌, ◌++◌,
  ◌==◌, ==_iff, is_empty, if◌then◌else◌,
}
use finitomata_rs.Base.Text.{Text}
use finitomata_rs.Strings.{
  is_whitespace, trim_start, trim_end, trim, strip_prefix, strip_suffix, split_once, strip_cr,
  lines_from, lines,
}

-- Every character passes the test.
abbrev pub AreAll : (ℕ → Bool) → Text → Type 0
AreAll test [] = Unit
AreAll test (c ∷ cs) = (test c ≡ true) × AreAll test cs

pub AreAll-append :
    (test : ℕ → Bool) (s t : Text) → AreAll test s → AreAll test t → AreAll test (s ++ t)
AreAll-append test [] t h k = k
AreAll-append test (c ∷ s) t h k = (h.0, AreAll-append test s t h.1 k)

pub AreAll-weaken :
    (test other : ℕ → Bool)
    → ((c : ℕ) → test c ≡ true → other c ≡ true)
    → (s : Text) → AreAll test s
    → AreAll other s
AreAll-weaken test other f [] h = tt
AreAll-weaken test other f (c ∷ s) h = (f c h.0, AreAll-weaken test other f s h.1)

abbrev pub differs : ℕ → ℕ → Bool
differs p c = not (c == p)

abbrev pub is_solid : ℕ → Bool
is_solid c = not (is_whitespace c)

false_of_not : (b : Bool) → not b ≡ true → b ≡ false
false_of_not true h = cc
false_of_not false h = refl

eq_refl : (p : ℕ) → (p == p) ≡ true
eq_refl p = (==_iff p p).1 refl

strip_prefix-append : (p rest : Text) → strip_prefix (p ++ rest) p ≡ some rest
unfolding strip_prefix
strip_prefix-append [] [] = refl
strip_prefix-append [] (c ∷ rest) = refl
strip_prefix-append (c ∷ p) rest = rw (eq_refl c, strip_prefix) (strip_prefix-append p rest)

-- A pattern is found after a text that does not have its first character.
pub split_once-plain :
    (s rest : Text) (p : ℕ) (ps : Text)
    → AreAll (differs p) s
    → split_once (s ++ (p ∷ ps ++ rest)) (p ∷ ps) ≡ some (s, rest)
unfolding split_once strip_prefix
split_once-plain [] rest p ps h =
    rw (split_once, strip_prefix, eq_refl p, strip_prefix-append ps rest) refl
split_once-plain (c ∷ s) rest p ps h =
    rw (split_once, strip_prefix, false_of_not (c == p) h.0, split_once-plain s rest p ps h.1) refl

pub split_once-none :
    (s : Text) (p : ℕ) (ps : Text) → AreAll (differs p) s → split_once s (p ∷ ps) ≡ none
unfolding split_once strip_prefix
split_once-none [] p ps h = refl
split_once-none (c ∷ s) p ps h =
    rw (split_once, strip_prefix, false_of_not (c == p) h.0, split_once-none s p ps h.1) refl

pub strip_suffix-plain : (s : Text) (p : ℕ) → AreAll (differs p) s → strip_suffix s p ≡ none
unfolding strip_suffix
strip_suffix-plain [] p h = refl
strip_suffix-plain (c ∷ []) p h = rw (false_of_not (c == p) h.0) refl
strip_suffix-plain (c ∷ d ∷ s) p h = rw (strip_suffix-plain (d ∷ s) p h.1) refl

pub strip_suffix-append : (s : Text) (p : ℕ) → strip_suffix (s ++ p ∷ []) p ≡ some s
unfolding strip_suffix
strip_suffix-append [] p = rw (eq_refl p) refl
strip_suffix-append (c ∷ []) p = rw (strip_suffix, eq_refl p) refl
strip_suffix-append (c ∷ d ∷ s) p = rw (strip_suffix-append (d ∷ s) p) refl

pub trim_end-append :
    (s t : Text) → trim_end t ≡ t → is_empty t ≡ false → trim_end (s ++ t) ≡ s ++ t
unfolding trim_end
trim_end-append [] t h n = h
trim_end-append (c ∷ s) t h n = rw (trim_end-append s t h n, filled s) refl
  where
    filled : (s : Text) → is_empty (s ++ t) ≡ false
    filled [] = n
    filled (c ∷ s) = refl

pub trim_end-solid : (s : Text) → AreAll is_solid s → trim_end s ≡ s
unfolding trim_end
trim_end-solid [] h = refl
trim_end-solid (c ∷ s) h = rw (trim_end-solid s h.1, false_of_not (is_whitespace c) h.0) (last s)
  where
    last : (s : Text) → (if is_empty s && false then [] else c ∷ s) ≡ c ∷ s
    last [] = refl
    last (d ∷ s) = refl

pub trim_end-space : (s : Text) → AreAll is_solid s → trim_end (s ++ 32 ∷ []) ≡ s
unfolding trim_end
trim_end-space [] h = refl
trim_end-space (c ∷ s) h = rw (trim_end-space s h.1, false_of_not (is_whitespace c) h.0) (last s)
  where
    last : (s : Text) → (if is_empty s && false then [] else c ∷ s) ≡ c ∷ s
    last [] = refl
    last (d ∷ s) = refl

-- A line feed ends a line that has none, and no carriage return.
lines_from-cons :
    (begun line rest : Text)
    → AreAll (differs 10) line
    → AreAll (differs 13) (begun ++ line)
    → lines_from begun (line ++ 10 ∷ rest) ≡ (begun ++ line) ∷ lines_from [] rest
unfolding lines_from strip_cr
lines_from-cons begun [] rest h k = rw (append-nil begun) (
    rw
      (
        lines_from,
        strip_cr,
        strip_suffix-plain begun 13 (subst (AreAll (differs 13)) (append-nil begun) k),
      )
      refl)
lines_from-cons begun (c ∷ line) rest h k =
    rw (false_of_not (c == 10) h.0, lines_from)
      (lines_from-cons (begun ++ c ∷ []) line rest h.1
          (subst (AreAll (differs 13)) (sym (append_assoc begun (c ∷ []) line)) k)
        ∙ ap (λ l. l ∷ lines_from [] rest) (append_assoc begun (c ∷ []) line))

-- The lines, each with its line feed.
abbrev pub unlines : List Text → Text
unlines [] = []
unlines (line ∷ rest) = line ++ 10 ∷ unlines rest

abbrev pub AreLines : List Text → Type 0
AreLines [] = Unit
AreLines (line ∷ rest) = AreAll (differs 10) line × AreAll (differs 13) line × AreLines rest

pub lines-unlines : (ls : List Text) → AreLines ls → lines (unlines ls) ≡ ls
unfolding lines
lines-unlines [] h = unfold lines_from in refl
lines-unlines (line ∷ rest) h =
    lines_from-cons [] line (unlines rest) h.0 h.1 ∙ ap (λ l. line ∷ l) (lines-unlines rest h.2)

pub is_empty-append : (s t : Text) → is_empty s ≡ false → is_empty (s ++ t) ≡ false
is_empty-append [] t n = cc
is_empty-append (c ∷ s) t n = refl

pub trim_start-solid :
    (s t : Text) → is_empty s ≡ false → AreAll is_solid s → trim_start (s ++ t) ≡ s ++ t
unfolding trim_start
trim_start-solid [] t n h = cc
trim_start-solid (c ∷ s) t n h = rw (trim_start, false_of_not (is_whitespace c) h.0) refl

trim_start-cons : (c : ℕ) (s : Text) → is_whitespace c ≡ false → trim_start (c ∷ s) ≡ c ∷ s
unfolding trim_start
trim_start-cons c s h = rw (trim_start, h) refl

pub trim-solid : (s : Text) → AreAll is_solid s → trim s ≡ s
unfolding trim
trim-solid [] h = unfold trim_start trim_end in refl
trim-solid (c ∷ s) h =
    ap trim_end (trim_start-cons c s (false_of_not (is_whitespace c) h.0))
    ∙ trim_end-solid (c ∷ s) h
