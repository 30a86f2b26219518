-- ===== src/Acl/Collapse.antt =====
-- That collapsing the wildcards of a glob does not change what it matches.
use synapse_gopro_worker.Prelude.{
  ℕ, zero, suc, ◌≤◌, ◌≡◌, refl, sym, ap, ◌∙◌, Bool, true, false, ◌&&◌, List, [], ◌∷◌, Option, none,
  some, if◌then◌else◌, ◌==◌, arith, Bytes, length, Bool-cases, inl, inr,
}
use synapse_gopro_worker.Acl.Glob.{
  Piece, star, question_mark, is_wildcard, is_dot, same_letter, literal_run, wildcard_run,
  put_literal, put_wildcards, pieces, all_compile, glob_to_regex, skip_dots, after_dots,
  skip_literal, on_rest, match_string,
}

-- What a glob means, character by character: a star stands for any number of characters, a question
-- mark for one, and any other character for itself in either case.
unfoldable pub glob_match : Bytes → Bytes → Bool
unfolding after_dots
glob_match [] [] = true
glob_match [] (c ∷ s) = false
glob_match (g ∷ glob) s =
    let k = glob_match glob in
    if g == star
    then after_dots k s
    else if g == question_mark
    then elim s [ [] ↦ false | c ∷ s' ↦ is_dot c && k s' ]
    else elim s [ [] ↦ false | c ∷ s' ↦ same_letter g c && k s' ]

-- A test after one dot.
abbrev dot_then : (Bytes → Bool) → Bytes → Bool
dot_then k [] = false
dot_then k (c ∷ s) = is_dot c && k s

-- A test after a run of wildcards.
abbrev run_match : (Bytes → Bool) → ℕ → Bool → Bytes → Bool
run_match k n true s = on_rest (after_dots k) (skip_dots n s)
run_match k n false s = on_rest k (skip_dots n s)

after_dots-ext :
    (j k : Bytes → Bool) → ((s : Bytes) → j s ≡ k s) → (s : Bytes) → after_dots j s ≡ after_dots k s
unfolding after_dots
after_dots-ext j k e [] = e []
after_dots-ext j k e (c ∷ s) = rw (e (c ∷ s), after_dots-ext j k e s) refl

after_dots-twice : (k : Bytes → Bool) (s : Bytes) → after_dots (after_dots k) s ≡ after_dots k s
unfolding after_dots
after_dots-twice k [] = refl
after_dots-twice k (c ∷ s) = ground (arith, after_dots-twice k s)

-- A star before a question mark is a question mark before a star.
after_dots-dot_then :
    (k : Bytes → Bool) (s : Bytes) → after_dots (dot_then k) s ≡ dot_then (after_dots k) s
unfolding after_dots
after_dots-dot_then k [] = refl
after_dots-dot_then k (c ∷ []) = ground arith
after_dots-dot_then k (c ∷ d ∷ s) = ground (arith, after_dots-dot_then k (d ∷ s))

on_rest-skip_dots :
    (k : Bytes → Bool) (n : ℕ) (s : Bytes)
    → on_rest k (skip_dots (suc n) s) ≡ dot_then (λ r. on_rest k (skip_dots n r)) s
unfolding skip_dots
on_rest-skip_dots k n [] = refl
on_rest-skip_dots k n (c ∷ s) = ground arith

dot_then-ext :
    (j k : Bytes → Bool) → ((s : Bytes) → j s ≡ k s) → (s : Bytes) → dot_then j s ≡ dot_then k s
dot_then-ext j k e [] = refl
dot_then-ext j k e (c ∷ s) = rw (e s) refl

after_dots-skip_dots :
    (k : Bytes → Bool) (n : ℕ) (s : Bytes)
    → after_dots (λ r. on_rest k (skip_dots n r)) s ≡ on_rest (after_dots k) (skip_dots n s)
unfolding skip_dots
after_dots-skip_dots k zero s = refl
after_dots-skip_dots k (suc n) s =
    let j : Bytes → Bool = λ r. on_rest k (skip_dots n r) in
    after_dots-ext _ (dot_then j) (on_rest-skip_dots k n) s
    ∙ after_dots-dot_then j s
    ∙ dot_then-ext _ _ (after_dots-skip_dots k n) s
    ∙ sym (on_rest-skip_dots (after_dots k) n s)

on_rest-twice :
    (k : Bytes → Bool) (o : Option Bytes)
    → on_rest (after_dots (after_dots k)) o ≡ on_rest (after_dots k) o
on_rest-twice k none = refl
on_rest-twice k (some s) = after_dots-twice k s

after_dots-run_match :
    (k : Bytes → Bool) (n : ℕ) (b : Bool) (s : Bytes)
    → after_dots (run_match k n b) s ≡ run_match k n true s
after_dots-run_match k n false s = after_dots-skip_dots k n s
after_dots-run_match k n true s =
    after_dots-skip_dots (after_dots k) n s ∙ on_rest-twice k (skip_dots n s)

run_match-question :
    (k : Bytes → Bool) (n : ℕ) (b : Bool) (s : Bytes)
    → run_match k (suc n) b s ≡ dot_then (run_match k n b) s
run_match-question k n true s = on_rest-skip_dots (after_dots k) n s
run_match-question k n false s = on_rest-skip_dots k n s

glob_match-question :
    (glob s : Bytes) → glob_match (question_mark ∷ glob) s ≡ dot_then (glob_match glob) s
unfolding glob_match
glob_match-question glob [] = refl
glob_match-question glob (c ∷ s) = refl

glob_match-star : (glob s : Bytes) → glob_match (star ∷ glob) s ≡ after_dots (glob_match glob) s
unfolding glob_match
glob_match-star glob s = refl

-- A test after one character.
abbrev letter_then : ℕ → (Bytes → Bool) → Bytes → Bool
letter_then g k [] = false
letter_then g k (c ∷ s) = same_letter g c && k s

glob_match-letter :
    (g : ℕ) (glob s : Bytes)
    → is_wildcard g ≡ false
    → glob_match (g ∷ glob) s ≡ letter_then g (glob_match glob) s
unfolding glob_match
glob_match-letter g glob s plain =
    let no_star : (g == star) ≡ false = ground arith in
    let no_question : (g == question_mark) ≡ false = ground arith in
    rw (no_star, no_question) (letter_cases s)
  where
    letter_cases :
        (s : Bytes)
        → elim s [ [] ↦ false | c ∷ s' ↦ same_letter g c && glob_match glob s' ]
          ≡ letter_then g (glob_match glob) s
    letter_cases [] = refl
    letter_cases (c ∷ s) = refl

letter_then-skip_literal :
    (g : ℕ) (run : Bytes) (j k : Bytes → Bool)
    → ((s : Bytes) → j s ≡ on_rest k (skip_literal run s))
    → (s : Bytes) → letter_then g j s ≡ on_rest k (skip_literal (g ∷ run) s)
unfolding skip_literal
letter_then-skip_literal g run j k e [] = refl
letter_then-skip_literal g run j k e (c ∷ s) = elim (Bool-cases (same_letter g c)) [
  | inl same ↦ rw (same, e s) refl
  | inr other ↦ rw other refl
]

-- What follows a run of wildcards is matched as the run is.
glob_match-wildcard_run :
    (glob : Bytes) (s : Bytes)
    → glob_match glob s
      ≡ (let (n, b, rest) = wildcard_run glob in run_match (glob_match rest) n b s)
unfolding wildcard_run skip_dots
glob_match-wildcard_run [] s = refl
glob_match-wildcard_run (c ∷ glob) s =
    let (n, b, rest) = wildcard_run glob in
    let k = glob_match rest in
    elim (Bool-cases (c == question_mark)) [
      | inl q ↦
          let e : c ≡ question_mark = ground arith in
          rw e (
            glob_match-question glob s
            ∙ dot_then-ext _ _ (glob_match-wildcard_run glob) s
            ∙ sym (run_match-question k n b s))
      | inr no_question ↦ elim (Bool-cases (c == star)) [
        | inl q ↦
            let e : c ≡ star = ground arith in
            rw e (
              glob_match-star glob s
              ∙ after_dots-ext _ _ (glob_match-wildcard_run glob) s
              ∙ after_dots-run_match k n b s)
        | inr no_star ↦ rw (no_question, no_star) refl
      ]
    ]

length-wildcard_run :
    (glob : Bytes) → let (n, b, rest) = wildcard_run glob in length rest ≤ length glob
unfolding wildcard_run
length-wildcard_run [] = omega arith
length-wildcard_run (c ∷ glob) = ground (arith, length-wildcard_run glob)

length-wildcard_run_wild :
    (c : ℕ) (glob : Bytes)
    → is_wildcard c ≡ true
    → let (n, b, rest) = wildcard_run (c ∷ glob) in length rest ≤ length glob
unfolding wildcard_run
length-wildcard_run_wild c glob wild = ground (arith, length-wildcard_run glob)

length-literal_run : (glob : Bytes) → length (literal_run glob).1 ≤ length glob
unfolding literal_run
length-literal_run [] = omega arith
length-literal_run (c ∷ glob) = ground (arith, length-literal_run glob)

-- A round of the loop takes a character at least.
length-runs :
    (c : ℕ) (glob : Bytes)
    → let (n, b, rest) = wildcard_run (literal_run (c ∷ glob)).1 in length rest ≤ length glob
unfolding literal_run wildcard_run
length-runs c glob = elim (Bool-cases (is_wildcard c)) [
  | inl wild ↦ rw wild (length-wildcard_run_wild c glob wild)
  | inr plain ↦
      rw plain (omega (arith, length-wildcard_run (literal_run glob).1, length-literal_run glob))
]

glob_match-literal_run :
    (glob s : Bytes)
    → glob_match glob s
      ≡ (let (run, rest) = literal_run glob in on_rest (glob_match rest) (skip_literal run s))
unfolding literal_run skip_literal
glob_match-literal_run [] s = refl
glob_match-literal_run (c ∷ glob) s = elim (Bool-cases (is_wildcard c)) [
  | inl wild ↦ rw wild refl
  | inr plain ↦ rw plain (
      glob_match-letter c glob s plain
      ∙ letter_then-skip_literal c (literal_run glob).0 _ _ (glob_match-literal_run glob) s)
]

match_string-put_literal :
    (run : Bytes) (ps : List Piece) (s : Bytes)
    → match_string (put_literal run ps) s ≡ on_rest (match_string ps) (skip_literal run s)
unfolding match_string put_literal skip_literal
match_string-put_literal [] ps s = refl
match_string-put_literal (c ∷ run) ps s = refl

match_string-put_wildcards :
    (n : ℕ) (b : Bool) (ps : List Piece) (s : Bytes)
    → match_string (put_wildcards n b ps) s ≡ run_match (match_string ps) n b s
unfolding match_string put_wildcards skip_dots
match_string-put_wildcards n true ps s = refl
match_string-put_wildcards zero false ps s = refl
match_string-put_wildcards (suc n) false ps s = refl

on_rest-ext :
    (j k : Bytes → Bool) (o : Option Bytes) → ((s : Bytes) → j s ≡ k s) → on_rest j o ≡ on_rest k o
on_rest-ext j k none e = refl
on_rest-ext j k (some s) e = e s

run_match-ext :
    (j k : Bytes → Bool) (n : ℕ) (b : Bool)
    → ((s : Bytes) → j s ≡ k s)
    → (s : Bytes) → run_match j n b s ≡ run_match k n b s
run_match-ext j k n true e s = on_rest-ext _ _ (skip_dots n s) (after_dots-ext j k e)
run_match-ext j k n false e s = on_rest-ext j k (skip_dots n s) e

no_pieces : (s : Bytes) → match_string [] s ≡ glob_match [] s
unfolding match_string glob_match
no_pieces [] = refl
no_pieces (c ∷ s) = refl

-- With a round for each character, the pieces match what the glob means.
pub match_string-pieces :
    (n : ℕ) (glob : Bytes)
    → length glob ≤ n
    → (s : Bytes) → match_string (pieces n glob) s ≡ glob_match glob s
unfolding pieces
match_string-pieces zero [] h s = no_pieces s
match_string-pieces zero (c ∷ glob) h s = absurd (omega arith)
match_string-pieces (suc n) [] h s = no_pieces s
match_string-pieces (suc n) (c ∷ glob) h s =
    let (run, wild) = literal_run (c ∷ glob) in
    let (q, b, rest) = wildcard_run wild in
    match_string-put_literal run _ s
    ∙ on_rest-ext _ (glob_match wild) (skip_literal run s) (λ r.
      match_string-put_wildcards q b (pieces n rest) r
      ∙ run_match-ext _ _ q b (match_string-pieces n rest (omega (arith, length-runs c glob, h))) r
      ∙ sym (glob_match-wildcard_run wild r))
    ∙ sym (glob_match-literal_run (c ∷ glob) s)

-- If the expression compiles, it matches a name just if the glob does, wildcard by wildcard, although
-- runs of wildcards are collapsed into one count.
pub glob_to_regex-glob_match :
    (glob : Bytes) (ps : List Piece) (s : Bytes)
    → glob_to_regex glob ≡ some ps
    → match_string ps s ≡ glob_match glob s
unfolding glob_to_regex
glob_to_regex-glob_match glob ps s h = elim (Bool-cases (all_compile (pieces (length glob) glob))) [
  | inl ok ↦
      let e : pieces (length glob) glob ≡ ps = ground arith in
      ap (λ p. match_string p s) (sym e) ∙ match_string-pieces (length glob) glob (omega arith) s
  | inr bad ↦ absurd (ground arith)
]
