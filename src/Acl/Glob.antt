-- ===== src/Acl/Glob.antt =====
-- globToRegex of internal/matrixstate/acl.go, and the expressions that it builds.
--
-- An expression of package regexp is the list of its pieces; what is used of the package is that an
-- anchored sequence of literals and counted dots matches a whole string, that a dot matches every
-- character but a newline, that `(?i)` lets letters match in either case, and that a count above
-- 1000 does not compile. Strings are ASCII, as server names are.
use synapse_gopro_worker.Prelude.{
  ℕ, zero, suc, ◌+◌, Bool, true, false, ◌||◌, ◌&&◌, not, List, [], ◌∷◌, Option, none, some,
  if◌then◌else◌, ◌==◌, leb, Bytes, length,
}

-- A piece of the expression: `QuoteMeta` of a literal, `.{n}`, and `.{n,}`.
pub data Piece : Type 0 where
  literal : Bytes → Piece
  exactly at_least : ℕ → Piece

-- '*' and '?'
abbrev pub star : ℕ
star = 42

abbrev pub question_mark : ℕ
question_mark = 63

abbrev pub is_wildcard : ℕ → Bool
is_wildcard c = (c == star) || (c == question_mark)

-- What `.` matches.
abbrev pub is_dot : ℕ → Bool
is_dot c = not (c == 10)

-- A letter in lower case, for `(?i)`.
abbrev pub fold_case : ℕ → ℕ
fold_case c = if leb 65 c && leb c 90 then c + 32 else c

abbrev pub same_letter : ℕ → ℕ → Bool
same_letter a b = fold_case a == fold_case b

-- The loop over a run of literal characters: the run, and the rest.
unfoldable pub literal_run : Bytes → Bytes × Bytes
literal_run [] = ([], [])
literal_run (c ∷ glob) =
    let (run, rest) = literal_run glob in if is_wildcard c then ([], c ∷ glob) else (c ∷ run, rest)

-- The loop over a run of wildcards: the question marks, whether there is a star, and the rest.
unfoldable pub wildcard_run : Bytes → ℕ × Bool × Bytes
wildcard_run [] = (0, false, [])
wildcard_run (c ∷ glob) =
    let (question_marks, has_star, rest) = wildcard_run glob in
    if c == question_mark
    then (suc question_marks, has_star, rest)
    else if c == star
    then (question_marks, true, rest)
    else (0, false, c ∷ glob)

unfoldable pub put_literal : Bytes → List Piece → List Piece
put_literal [] ps = ps
put_literal (c ∷ run) ps = literal (c ∷ run) ∷ ps

-- `switch { case hasStar: …; case questionMarks > 0: … }`
unfoldable pub put_wildcards : ℕ → Bool → List Piece → List Piece
put_wildcards n true ps = at_least n ∷ ps
put_wildcards zero false ps = ps
put_wildcards (suc n) false ps = exactly (suc n) ∷ ps

-- The outer loop, with the number of rounds at most.
unfoldable pub pieces : ℕ → Bytes → List Piece
unfolding literal_run wildcard_run put_literal put_wildcards
pieces zero glob = []
pieces (suc n) [] = []
pieces (suc n) (c ∷ glob) =
    let (run, wild) = literal_run (c ∷ glob) in
    let (question_marks, has_star, rest) = wildcard_run wild in
    put_literal run (put_wildcards question_marks has_star (pieces n rest))

-- Whether package regexp compiles the piece.
abbrev pub compiles : Piece → Bool
compiles (literal l) = true
compiles (exactly n) = leb n 1000
compiles (at_least n) = leb n 1000

unfoldable pub all_compile : List Piece → Bool
all_compile [] = true
all_compile (p ∷ ps) = compiles p && all_compile ps

-- Each round takes a character, so a round for each is enough.
unfoldable pub glob_to_regex : Bytes → Option (List Piece)
unfolding pieces all_compile
glob_to_regex glob = let ps = pieces (length glob) glob in if all_compile ps then some ps else none

-- The string without its first n characters, if they are dots.
unfoldable pub skip_dots : ℕ → Bytes → Option Bytes
skip_dots zero s = some s
skip_dots (suc n) [] = none
skip_dots (suc n) (c ∷ s) = if is_dot c then skip_dots n s else none

-- Whether a test holds after some number of dots.
unfoldable pub after_dots : (Bytes → Bool) → Bytes → Bool
after_dots k [] = k []
after_dots k (c ∷ s) = k (c ∷ s) || (is_dot c && after_dots k s)

-- The string without a literal in front of it.
unfoldable pub skip_literal : Bytes → Bytes → Option Bytes
skip_literal [] s = some s
skip_literal (a ∷ l) [] = none
skip_literal (a ∷ l) (c ∷ s) = if same_letter a c then skip_literal l s else none

-- `k` on what is left, if something is.
abbrev pub on_rest : (Bytes → Bool) → Option Bytes → Bool
on_rest k none = false
on_rest k (some s) = k s

-- `re.MatchString`
unfoldable pub match_string : List Piece → Bytes → Bool
unfolding skip_dots after_dots skip_literal
match_string [] [] = true
match_string [] (c ∷ s) = false
match_string (literal l ∷ ps) s = on_rest (match_string ps) (skip_literal l s)
match_string (exactly n ∷ ps) s = on_rest (match_string ps) (skip_dots n s)
match_string (at_least n ∷ ps) s = on_rest (after_dots (match_string ps)) (skip_dots n s)
