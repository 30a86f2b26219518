-- ===== src/Acl/Rules.antt =====
-- ParseServerACL, compileGlobs and Allowed of internal/matrixstate/acl.go.
--
-- What package json makes of a field is given: nothing if the field is absent, else null, a Boolean,
-- an array or something else. Whether `net.ParseIP` reads a name as an IPv4 address is a parameter.
use synapse_gopro_worker.Prelude.{
  ◌≡◌, ◌↔◌, ◌⊎◌, inl, inr, refl, sym, ap, ◌∙◌, Bool, true, false, ◌&&◌, not, List, [], ◌∷◌, Option,
  none, some, if◌then◌else◌, ◌==◌, arith, Bytes, In, Bool-cases, Option-cases,
}
use synapse_gopro_worker.Acl.Glob.{Piece, glob_to_regex, match_string}
use synapse_gopro_worker.Acl.Collapse.{glob_match, glob_to_regex-glob_match}

pub data Item : Type 0 where
  text : Bytes → Item
  no_text : Item

pub data Field : Type 0 where
  null other : Field
  boolean : Bool → Field
  array : List Item → Field

pub record AclContent : Type 0 where
  pub allow_ip_literals : Option Field
  pub allow : Option Field
  pub deny : Option Field

pub record ServerAcl : Type 0 where
  pub allows_ip_literals : Bool
  pub allowed_names : List (List Piece)
  pub denied_names : List (List Piece)

-- Decoding null into a list or a Boolean is no error, and leaves it empty or false.
unfoldable pub items_of : Option Field → List Item
items_of (some (array items)) = items
items_of _ = []

unfoldable pub ip_literals_of : Option Field → Bool
ip_literals_of none = true
ip_literals_of (some null) = false
ip_literals_of (some other) = true
ip_literals_of (some (boolean b)) = b
ip_literals_of (some (array items)) = true

unfoldable pub compile_items : List Item → List (List Piece)
compile_items [] = []
compile_items (no_text ∷ items) = compile_items items
compile_items (text s ∷ items) = elim (glob_to_regex s) [
  | none ↦ compile_items items
  | some re ↦ re ∷ compile_items items
]

unfoldable pub compile_globs : Option Field → List (List Piece)
unfolding items_of compile_items
compile_globs raw = compile_items (items_of raw)

unfoldable pub parse_server_acl : AclContent → ServerAcl
unfolding compile_globs ip_literals_of
parse_server_acl content = record {
  allows_ip_literals = ip_literals_of content.allow_ip_literals;
  allowed_names = compile_globs content.allow;
  denied_names = compile_globs content.deny;
}

unfoldable pub matches_any : List (List Piece) → Bytes → Bool
matches_any [] name = false
matches_any (re ∷ res) name = if match_string re name then true else matches_any res name

-- `strings.HasPrefix(serverName, "[")`
unfoldable pub is_bracketed : Bytes → Bool
is_bracketed [] = false
is_bracketed (c ∷ s) = c == 91

module _ (parses_as_ipv4 : Bytes → Bool) where
  unfoldable pub allowed : Option ServerAcl → Bytes → Bool
  unfolding matches_any is_bracketed
  allowed none name = true
  allowed (some acl) name =
      if not acl.allows_ip_literals && is_bracketed name
      then false
      else if not acl.allows_ip_literals && parses_as_ipv4 name
      then false
      else if matches_any acl.denied_names name
      then false
      else matches_any acl.allowed_names name

  -- A glob of a list that matches a name: an item that is a string, and that compiles.
  abbrev pub Names : Option Field → Bytes → Type 0
  Names raw name =
      (glob : Bytes) × In (text glob) (items_of raw)
      × ((re : List Piece) × (glob_to_regex glob ≡ some re))
      × (glob_match glob name ≡ true)

  abbrev pub IsIpLiteral : Bytes → Type 0
  IsIpLiteral name = (is_bracketed name ≡ true) ⊎ (parses_as_ipv4 name ≡ true)

  abbrev text_of : Item → Bytes
  text_of (text s) = s
  text_of no_text = []

  named :
      (items : List Item) (name : Bytes)
      → matches_any (compile_items items) name ≡ true
      → (glob : Bytes) × In (text glob) items
        × ((re : List Piece) × (glob_to_regex glob ≡ some re))
        × (glob_match glob name ≡ true)
  unfolding matches_any compile_items
  named [] name h = absurd (ground arith)
  named (no_text ∷ items) name h = let (g, i, c, m) = named items name h in (g, inr i, c, m)
  named (text s ∷ items) name h =
      let rest = named items name in
      elim (Option-cases (glob_to_regex s)) [
        | inl e ↦ let (g, i, c, m) = rest (ground arith) in (g, inr i, c, m)
        | inr (re, e) ↦ elim (Bool-cases (match_string re name)) [
          | inl m ↦ (s, inl refl, (re, e), sym (glob_to_regex-glob_match s re name e) ∙ m)
          | inr miss ↦ let (g, i, c, m) = rest (ground arith) in (g, inr i, c, m)
        ]
      ]

  names :
      (items : List Item) (name glob : Bytes) (re : List Piece)
      → In (text glob) items
      → glob_to_regex glob ≡ some re
      → glob_match glob name ≡ true
      → matches_any (compile_items items) name ≡ true
  unfolding matches_any compile_items
  names [] name glob re i c m = absurd i
  names (no_text ∷ items) name glob re (inl q) c m = absurd (cc q)
  names (no_text ∷ items) name glob re (inr i) c m = names items name glob re i c m
  names (text s ∷ items) name glob re (inl q) c m =
      let e : glob_to_regex s ≡ some re = ap (λ g. glob_to_regex g) (sym (ap text_of q)) ∙ c in
      let held : match_string re name ≡ true = glob_to_regex-glob_match glob re name c ∙ m in
      ground (arith, e, held)
  names (text s ∷ items) name glob re (inr i) c m =
      let rest = names items name glob re i c m in
      elim (Option-cases (glob_to_regex s)) [
        | inl e ↦ ground (arith, e, rest)
        | inr (re', e) ↦ ground (arith, e, rest)
      ]

  opens :
      (permits bracketed ip denied admitted : Bool)
      → ((if not permits && bracketed
            then false
            else if not permits && ip
            then false
            else if denied
            then false
            else admitted)
          ≡ true)
        ↔ (((permits ≡ true) ⊎ ¬ ((bracketed ≡ true) ⊎ (ip ≡ true)))
            × (denied ≡ false)
            × (admitted ≡ true))
  opens true b i true a = (λ h. absurd (ground arith), λ (x, y, z). absurd (ground arith))
  opens true b i false a = (λ h. (inl refl, refl, h), λ (x, y, z). z)
  opens false true i d a = (λ h. absurd (ground arith), λ (x, y, z). absurd (ground arith))
  opens false false true d a = (λ h. absurd (ground arith), λ (x, y, z). absurd (ground arith))
  opens false false false true a = (λ h. absurd (ground arith), λ (x, y, z). absurd (ground arith))
  opens false false false false a = (
    λ h. (inr (λ p. elim p [ inl q ↦ ground arith | inr q ↦ ground arith ]), refl, h),
    λ (x, y, z). z,
  )

  -- A server is let in just if it is no IP literal, or the event permits those; no glob of the deny
  -- list names it; and a glob of the allow list does. Items that are no strings, and globs that do
  -- not compile, do not count.
  pub allowed_iff :
      (content : AclContent) (name : Bytes)
      → (allowed (some (parse_server_acl content)) name ≡ true) ↔ (
          ((ip_literals_of content.allow_ip_literals ≡ true) ⊎ ¬ IsIpLiteral name)
          × ¬ Names content.deny name
          × Names content.allow name)
  unfolding allowed parse_server_acl compile_globs
  allowed_iff content name =
      let denied = matches_any (compile_items (items_of content.deny)) name in
      let (out, back) =
        opens (ip_literals_of content.allow_ip_literals) (is_bracketed name) (parses_as_ipv4 name)
          denied (matches_any (compile_items (items_of content.allow)) name) in
      (
        λ h.
            let (literal, no_deny, admit) = out h in
            (
              literal,
              λ (g, i, (re, c), m).
                  absurd (ground (arith, no_deny, names (items_of content.deny) name g re i c m)),
              named (items_of content.allow) name admit,
            ),
        λ (literal, no_deny, (g, i, (re, c), m)). back (
          literal,
          (elim (Bool-cases denied) [
            | inl d ↦ absurd (no_deny (named (items_of content.deny) name d))
            | inr d ↦ d
          ]),
          names (items_of content.allow) name g re i c m,
        ),
      )
