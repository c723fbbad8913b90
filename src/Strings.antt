-- ===== src/Strings.antt =====
-- The operations of `str` that the parsers (finitomata/src/parser) call, on lists of code points.
pub mod Plain
use finitomata_rs.Base.{
  ℕ, Bool, true, false, ◌&&◌, ◌||◌, Option, none, some, List, [], ◌∷◌, ◌++◌, leb, ◌==◌, is_empty,
  if◌then◌else◌,
}
use finitomata_rs.Base.Text.{Text}

-- `char::is_whitespace`: the code points with the Unicode property White_Space.
abbrev pub is_whitespace : ℕ → Bool
is_whitespace c =
    (leb 9 c && leb c 13)
    || (c == 32)
    || (c == 133)
    || (c == 160)
    || (c == 5760)
    || (leb 8192 c && leb c 8202)
    || (c == 8232)
    || (c == 8233)
    || (c == 8239)
    || (c == 8287)
    || (c == 12288)

unfoldable pub trim_start : Text → Text
trim_start [] = []
trim_start (c ∷ cs) = elim (is_whitespace c) [ true ↦ trim_start cs | false ↦ c ∷ cs ]

unfoldable pub trim_end : Text → Text
trim_end [] = []
trim_end (c ∷ cs) =
    let rest = trim_end cs in if is_empty rest && is_whitespace c then [] else c ∷ rest

unfoldable pub trim : Text → Text
unfolding trim_start trim_end
trim s = trim_end (trim_start s)

unfoldable pub strip_prefix : Text → Text → Option Text
strip_prefix s [] = some s
strip_prefix [] (p ∷ ps) = none
strip_prefix (c ∷ cs) (p ∷ ps) = elim (c == p) [ true ↦ strip_prefix cs ps | false ↦ none ]

unfoldable pub starts_with : Text → Text → Bool
unfolding strip_prefix
starts_with s prefix = elim (strip_prefix s prefix) [ none ↦ false | some rest ↦ true ]

-- `strip_suffix` of one character.
unfoldable pub strip_suffix : Text → ℕ → Option Text
strip_suffix [] p = none
strip_suffix (c ∷ []) p = if c == p then some [] else none
strip_suffix (c ∷ d ∷ cs) p = elim (strip_suffix (d ∷ cs) p) [
  | none ↦ none
  | some rest ↦ some (c ∷ rest)
]

-- The text before the first occurrence of a pattern that is not empty, and the text after it. It is
-- `splitn(2, pattern)` where that gives two parts, and `find` of a character of one byte with the
-- slices before and after the position that it finds.
unfoldable pub split_once : Text → Text → Option (Text × Text)
unfolding strip_prefix
split_once [] pattern = none
split_once (c ∷ cs) pattern = elim (strip_prefix (c ∷ cs) pattern) [
  | some rest ↦ some ([], rest)
  | none ↦ elim (split_once cs pattern) [
    | none ↦ none
    | some (before, after) ↦ some (c ∷ before, after)
  ]
]

-- A line that ends in a line feed, without the carriage return before that.
strip_cr : Text → Text
unfolding strip_suffix
strip_cr line = elim (strip_suffix line 13) [ none ↦ line | some rest ↦ rest ]

-- `line` has the characters of the line that was begun.
lines_from : Text → Text → List Text
unfolding strip_cr
lines_from line [] = if is_empty line then [] else line ∷ []
lines_from line (c ∷ cs) = elim (c == 10) [
  | true ↦ strip_cr line ∷ lines_from [] cs
  | false ↦ lines_from (line ++ c ∷ []) cs
]

unfoldable pub lines : Text → List Text
unfolding lines_from
lines s = lines_from [] s

-- `split_whitespace().next()`
take_word : Text → Text
take_word [] = []
take_word (c ∷ cs) = elim (is_whitespace c) [ true ↦ [] | false ↦ c ∷ take_word cs ]

unfoldable pub first_word : Text → Option Text
unfolding take_word trim_start
first_word s = let word = take_word (trim_start s) in if is_empty word then none else some word

-- `trim_matches` of one character.
trim_start_matches : ℕ → Text → Text
trim_start_matches p [] = []
trim_start_matches p (c ∷ cs) = elim (c == p) [ true ↦ trim_start_matches p cs | false ↦ c ∷ cs ]

trim_end_matches : ℕ → Text → Text
trim_end_matches p [] = []
trim_end_matches p (c ∷ cs) =
    let rest = trim_end_matches p cs in if is_empty rest && (c == p) then [] else c ∷ rest

unfoldable pub trim_matches : Text → ℕ → Text
unfolding trim_start_matches trim_end_matches
trim_matches s p = trim_end_matches p (trim_start_matches p s)
