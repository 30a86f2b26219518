-- ===== src/Acl/Tests.antt =====
-- Access control lists, and the theorems there.
use synapse_gopro_worker.Prelude.{
  ◌≡◌, ◌↔◌, ◌⊎◌, refl, Bool, true, false, List, [], ◌∷◌, some, Bytes, bytes,
}
use synapse_gopro_worker.Acl.Glob.{Piece, literal, at_least, exactly, glob_to_regex, match_string}
use synapse_gopro_worker.Acl.Collapse.{glob_match, glob_to_regex-glob_match}
use synapse_gopro_worker.Acl.Rules.{
  text, no_text, null, boolean, array, AclContent, ip_literals_of, parse_server_acl, allowed, Names,
  IsIpLiteral, allowed_iff,
}

-- "a?**?b"
abbrev pattern_pieces : List Piece
pattern_pieces = literal (bytes "a") ∷ at_least 2 ∷ literal (bytes "b") ∷ []

glob_to_regex-glob_match_example :
    match_string pattern_pieces (bytes "AxyzB") ≡ glob_match (bytes "a?**?b") (bytes "AxyzB")
unfolding glob_to_regex
glob_to_regex-glob_match_example =
    glob_to_regex-glob_match (bytes "a?**?b") pattern_pieces (bytes "AxyzB") refl

two_question_marks : glob_to_regex (bytes "??") ≡ some (exactly 2 ∷ [])
unfolding glob_to_regex
two_question_marks = refl

abbrev rules : AclContent
rules = record {
  allow_ip_literals = some (boolean false);
  allow = some (array (text (bytes "*") ∷ no_text ∷ []));
  deny = some (array (text (bytes "*.evil.org") ∷ []));
}

abbrev no_ipv4 : Bytes → Bool
no_ipv4 name = false

denied_host : allowed no_ipv4 (some (parse_server_acl rules)) (bytes "X.Evil.org") ≡ false
unfolding allowed parse_server_acl glob_to_regex match_string
denied_host = refl

admitted_host : allowed no_ipv4 (some (parse_server_acl rules)) (bytes "evil.org") ≡ true
unfolding allowed parse_server_acl glob_to_regex match_string
admitted_host = refl

-- A null does not count as ill-typed.
null_literals : ip_literals_of (some null) ≡ false
unfolding ip_literals_of
null_literals = refl

allowed_iff_example :
    (allowed no_ipv4 (some (parse_server_acl rules)) (bytes "evil.org") ≡ true) ↔ (
      ((ip_literals_of (some (boolean false)) ≡ true) ⊎ ¬ IsIpLiteral no_ipv4 (bytes "evil.org"))
      × ¬ Names no_ipv4 (some (array (text (bytes "*.evil.org") ∷ []))) (bytes "evil.org")
      × Names no_ipv4 (some (array (text (bytes "*") ∷ no_text ∷ []))) (bytes "evil.org"))
allowed_iff_example = allowed_iff no_ipv4 rules (bytes "evil.org")
