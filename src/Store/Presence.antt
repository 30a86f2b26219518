-- ===== src/Store/Presence.antt =====
-- Who is in a room, and which event is current, said without the queries of internal/store/room.go.
use synapse_gopro_worker.Prelude.{
  ℕ, ◌≡◌, ◌≢◌, ◌↔◌, inl, inr, refl, sym, ap, true, false, [], ◌∷◌, ◌++◌, ◌==◌, Bytes, bytes,
  bytes_discrete, is_yes, All, arith, Bool-cases, ◌∙◌, ◌⊎◌,
}
use synapse_gopro_worker.Store.Filtered.{has_suffix, has_wildcard}
use synapse_gopro_worker.Store.Rooms.{same, domain_from_id}

-- A name that ends in a colon and the server, and one where that colon is the first.
abbrev pub EndsIn : Bytes → Bytes → Type 0
EndsIn server id = (a : Bytes) × (id ≡ a ++ 58 ∷ server)

abbrev pub IsUserOf : Bytes → Bytes → Type 0
IsUserOf server id = (a : Bytes) × All (λ c. c ≢ 58) a × (id ≡ a ++ 58 ∷ server)

pub same-yes : (a b : Bytes) → same a b ≡ true → a ≡ b
same-yes a b h = elim (bytes_discrete a b) [ yes e ↦ e | no n ↦ absurd (ground arith) ]

pub yes-same : (a b : Bytes) → a ≡ b → same a b ≡ true
yes-same a b e = elim (bytes_discrete a b) [ yes q ↦ ground arith | no n ↦ absurd (n e) ]

head_eq : (a b : ℕ) (s t : Bytes) → a ∷ s ≡ b ∷ t → a ≡ b
head_eq a b s t e = ground (arith, e)

tail_eq : (a b : ℕ) (s t : Bytes) → a ∷ s ≡ b ∷ t → s ≡ t
tail_eq a b s t e = ground (arith, e)

has_suffix-end : (suffix s : Bytes) → has_suffix suffix s ≡ true → (a : Bytes) × (s ≡ a ++ suffix)
unfolding has_suffix
has_suffix-end suffix [] h = ([], sym (same-yes suffix [] h))
has_suffix-end suffix (c ∷ s) h = elim (bytes_discrete suffix (c ∷ s)) [
  | yes e ↦ ([], sym e)
  | no n ↦ let (a, e) = has_suffix-end suffix s (ground (arith, h)) in (c ∷ a, ap (λ x. c ∷ x) e)
]

end-has_suffix : (suffix s a : Bytes) → s ≡ a ++ suffix → has_suffix suffix s ≡ true
unfolding has_suffix
end-has_suffix suffix [] [] e = yes-same suffix [] (sym e)
end-has_suffix suffix [] (d ∷ a) e = absurd (ground (arith, e))
end-has_suffix suffix (c ∷ s) [] e =
    let first : is_yes (bytes_discrete suffix (c ∷ s)) ≡ true = yes-same suffix (c ∷ s) (sym e) in
    rw first refl
end-has_suffix suffix (c ∷ s) (d ∷ a) e =
    let rest : has_suffix suffix s ≡ true =
      end-has_suffix suffix s a (tail_eq c d s (a ++ suffix) e) in
    ground (arith, rest)

pub IsUserOf-domain : (server id : Bytes) → IsUserOf server id → domain_from_id id ≡ server
unfolding domain_from_id
IsUserOf-domain server id ([], plain, e) = rw e refl
IsUserOf-domain server id (c ∷ a, plain, e) =
    let rest = IsUserOf-domain server (a ++ 58 ∷ server) (a, plain.1, refl) in
    let other : (c == 58) ≡ false = let n = plain.0 in ground arith in rw (e, other) rest

pub domain-IsUserOf :
    (server id : Bytes) → domain_from_id id ≡ server → EndsIn server id → IsUserOf server id
unfolding domain_from_id
domain-IsUserOf server [] h ([], e) = absurd (ground (arith, e))
domain-IsUserOf server [] h (d ∷ a, e) = absurd (ground (arith, e))
domain-IsUserOf server (c ∷ s) h ([], e) = ([], tt, e)
domain-IsUserOf server (c ∷ s) h (d ∷ a, e) = elim (Bool-cases (c == 58)) [
  | inl colon ↦
      let same_server : s ≡ server = ground (arith, colon, h) in
      ([], tt, ground (arith, colon, same_server))
  | inr other ↦
      let (b, plain, q) =
        domain-IsUserOf server s (ground (arith, other, h))
          (a, tail_eq c d s (a ++ 58 ∷ server) e) in
      (c ∷ b, (ground (arith, other), plain), ap (λ x. c ∷ x) q)
]

-- The server of an ID: what stands behind the first colon, and nothing if there is none.
abbrev pub IsDomain : Bytes → Bytes → Type 0
IsDomain server id = IsUserOf server id ⊎ (All (λ c. c ≢ 58) id × (server ≡ []))

pub domain_from_id-IsDomain : (server id : Bytes) → domain_from_id id ≡ server → IsDomain server id
unfolding domain_from_id
domain_from_id-IsDomain server [] h = inr (tt, sym h)
domain_from_id-IsDomain server (c ∷ s) h = elim (Bool-cases (c == 58)) [
  | inl colon ↦
      let same_server : s ≡ server = ground (arith, colon, h) in
      inl ([], tt, ground (arith, colon, same_server))
  | inr other ↦
      let plain : c ≢ 58 = ground (arith, other) in
      elim (domain_from_id-IsDomain server s (ground (arith, other, h))) [
        | inl (a, none_in, e) ↦ inl (c ∷ a, (plain, none_in), ap (λ x. c ∷ x) e)
        | inr (none_in, e) ↦ inr ((plain, none_in), e)
      ]
]

no_colon : (id : Bytes) → All (λ c. c ≢ 58) id → domain_from_id id ≡ []
unfolding domain_from_id
no_colon [] plain = refl
no_colon (c ∷ s) plain =
    let other : (c == 58) ≡ false = let n = plain.0 in ground arith in rw other (no_colon s plain.1)

pub IsDomain-domain : (server id : Bytes) → IsDomain server id → domain_from_id id ≡ server
IsDomain-domain server id (inl u) = IsUserOf-domain server id u
IsDomain-domain server id (inr (plain, e)) = no_colon id plain ∙ sym e

pub of_server_end :
    (server id : Bytes) → (has_suffix (bytes ":" ++ server) id ≡ true) ↔ EndsIn server id
of_server_end server id =
    (has_suffix-end (58 ∷ server) id, λ (a, e). end-has_suffix (58 ∷ server) id a e)

abbrev pub HasNoWildcard : Bytes → Type 0
HasNoWildcard s = All (λ c. (c ≢ 37) × (c ≢ 95)) s

pub has_wildcard-none : (s : Bytes) → (has_wildcard s ≡ false) ↔ HasNoWildcard s
unfolding has_wildcard
has_wildcard-none [] = (λ h. tt, λ h. refl)
has_wildcard-none (c ∷ s) =
    let (there, back) = has_wildcard-none s in
    (
      λ h. ((λ e. ground (arith, h, e), λ e. ground (arith, h, e)), there (ground (arith, h))),
      λ h. let rest = back h.1 in let n = h.0 in ground (arith, rest, n),
    )
