-- ===== src/Replication/Lines.antt =====
-- What the commands of the stream mean: the fields of an RDATA line, and the rows of `caches`.
use synapse_gopro_worker.Prelude.{
  ℕ, suc, ◌≡◌, ◌≢◌, refl, ap, ◌∙◌, true, false, List, [], ◌∷◌, ◌++◌, Option, none, some,
  if◌then◌else◌, ◌==◌, Bytes, bytes, bytes_discrete, arith, All, get_elem?, ◌↔◌, Bool-cases,
  Option-cases, inl, inr, subst, sym,
}
use synapse_gopro_worker.Replication.Commands.{
  Key, Part, cut, split_n, is_text, handle_cache_row, handle_fields, handle_rdata, handle,
  per_event, drop_key, per_event_caches, purges_all, key_text, invalidate, with_keys, cache_row,
  part_text,
}

abbrev pub HasNoSpace : Bytes → Type 0
HasNoSpace s = All (λ c. c ≢ 32) s

cut-line : (a b : Bytes) → HasNoSpace a → cut (a ++ 32 ∷ b) ≡ some (a, b)
unfolding cut
cut-line [] b h = refl
cut-line (c ∷ a) b h =
    let plain : (c == 32) ≡ false = let e = h.0 in ground arith in rw (plain, cut-line a b h.1) refl

-- RDATA <stream> <instance> <token> <row>
abbrev pub rdata_line : Bytes → Bytes → Bytes → Bytes → Bytes
rdata_line stream name token row =
    bytes "RDATA" ++ 32 ∷ (stream ++ 32 ∷ (name ++ 32 ∷ (token ++ 32 ∷ row)))

split_n-cut : (n : ℕ) (s a b : Bytes) → cut s ≡ some (a, b) → split_n (suc n) s ≡ a ∷ split_n n b
unfolding split_n
split_n-cut n s a b e = rw (e, split_n)

split_n-zero : (s : Bytes) → split_n 0 s ≡ s ∷ []
unfolding split_n
split_n-zero s = refl

split_n-fields :
    (stream name token row : Bytes)
    → HasNoSpace stream
    → HasNoSpace name
    → HasNoSpace token
    → split_n 3 (stream ++ 32 ∷ (name ++ 32 ∷ (token ++ 32 ∷ row)))
      ≡ stream ∷ name ∷ token ∷ row ∷ []
split_n-fields stream name token row s n t =
    let last = token ++ 32 ∷ row in
    let rest = name ++ 32 ∷ last in
    split_n-cut 2 (stream ++ 32 ∷ rest) stream rest (cut-line stream rest s)
    ∙ ap (λ l. stream ∷ l) (split_n-cut 1 rest name last (cut-line name last n))
    ∙ ap (λ l. stream ∷ name ∷ l) (split_n-cut 0 last token row (cut-line token row t))
    ∙ ap (λ l. stream ∷ name ∷ token ∷ l) (split_n-zero row)

module _ (decode_row : Bytes → Option (List Part)) where
  handle-cut :
      (payload command rest : Bytes)
      → cut payload ≡ some (command, rest)
      → handle decode_row payload ≡ handle_rdata decode_row command rest
  unfolding handle
  handle-cut payload command rest e = rw (e, handle)

  handle_rdata-fields :
      (rest : Bytes) (fields : List Bytes)
      → split_n 3 rest ≡ fields
      → handle_rdata decode_row (bytes "RDATA") rest ≡ handle_fields decode_row fields
  unfolding handle_rdata bytes_discrete
  handle_rdata-fields rest fields e = ap (handle_fields decode_row) e

  -- A line of four fields, of which the first three hold no space, is read back whole: a row of the
  -- stream `caches` is handled, spaces in it included, and one of another stream is not looked at.
  pub handle-rdata_line :
      (stream name token row : Bytes)
      → HasNoSpace stream
      → HasNoSpace name
      → HasNoSpace token
      → handle decode_row (rdata_line stream name token row)
        ≡ (if is_text stream (bytes "caches") then handle_cache_row decode_row row else [])
  unfolding handle_fields
  handle-rdata_line stream name token row s n t =
      let fields = stream ++ 32 ∷ (name ++ 32 ∷ (token ++ 32 ∷ row)) in
      handle-cut (bytes "RDATA" ++ 32 ∷ fields) (bytes "RDATA") fields
        (cut-line (bytes "RDATA") fields (omega arith))
      ∙ handle_rdata-fields fields (stream ∷ name ∷ token ∷ row ∷ [])
          (split_n-fields stream name token row s n t)

  -- The four cache functions for which something is dropped.
  abbrev pub IsUnlisted : Bytes → Type 0
  IsUnlisted f =
      (f ≢ bytes "ph_cache_fake")
      × (f ≢ bytes "dr_cache_fake")
      × (f ≢ bytes "_get_state_group_for_event")
      × (f ≢ bytes "have_seen_event")

  -- The text that a part is read as, and keys that can be read.
  abbrev pub IsNamed : Part → Bytes → Type 0
  IsNamed Part.null name = name ≡ []
  IsNamed (Part.text s) name = name ≡ s
  IsNamed Part.other name = ⊥
  IsNamed (Part.array ks) name = ⊥

  abbrev pub AreKeys : Part → Type 0
  AreKeys Part.null = Unit
  AreKeys (Part.array ks) = Unit
  AreKeys (Part.text s) = ⊥
  AreKeys Part.other = ⊥

  -- A row that could be read, with a name and well-formed keys, of a cache function that nothing is
  -- dropped for.
  abbrev pub PassedOver : Option (List Part) → Type 0
  PassedOver none = ⊥
  PassedOver (some []) = ⊥
  PassedOver (some (f ∷ [])) = ⊥
  PassedOver (some (f ∷ keys ∷ rest)) =
      (name : Bytes) × IsNamed f name × AreKeys keys × IsUnlisted name

  is_text-yes : (a b : Bytes) → a ≡ b → is_text a b ≡ true
  is_text-yes a b e = ground (arith, e)

  is_text-no : (a b : Bytes) → a ≢ b → is_text a b ≡ false
  is_text-no a b n = elim (bytes_discrete a b) [ yes e ↦ absurd (n e) | no m ↦ ground arith ]

  no-is_text : (a b : Bytes) → is_text a b ≡ false → a ≢ b
  no-is_text a b h e = absurd (ground (arith, h, is_text-yes a b e))

  drop_key-ne-nil : (k : Option Key) → drop_key k ≡ [] → ⊥
  unfolding drop_key key_text
  drop_key-ne-nil none h = ground arith
  drop_key-ne-nil (some Key.null) h = ground arith
  drop_key-ne-nil (some Key.other) h = ground arith
  drop_key-ne-nil (some (Key.text s)) h = ground arith

  per_event-nil : (i : Option ℕ) (keys : Option (List Key)) → per_event i keys ≡ [] → i ≡ none
  unfolding per_event
  per_event-nil none keys h = refl
  per_event-nil (some i) none h = absurd (ground arith)
  per_event-nil (some i) (some keys) h = absurd (drop_key-ne-nil (get_elem? keys i) h)

  -- A name that is written out, and compared with the table.
  table-IsUnlisted : (f : Bytes) → purges_all f ≡ false → per_event_caches f ≡ none → IsUnlisted f
  unfolding purges_all per_event_caches
  table-IsUnlisted f p q = (
    no-is_text f (bytes "ph_cache_fake") (ground (arith, p)),
    no-is_text f (bytes "dr_cache_fake") (ground (arith, p)),
    no-is_text f (bytes "_get_state_group_for_event") (ground (arith, q)),
    no-is_text f (bytes "have_seen_event") (ground (arith, q)),
  )

  IsUnlisted-table :
      (f : Bytes) → IsUnlisted f → (purges_all f ≡ false) × (per_event_caches f ≡ none)
  unfolding purges_all per_event_caches
  IsUnlisted-table f (a, b, c, d) =
      let a' = is_text-no f (bytes "ph_cache_fake") a in
      let b' = is_text-no f (bytes "dr_cache_fake") b in
      let c' = is_text-no f (bytes "_get_state_group_for_event") c in
      let d' = is_text-no f (bytes "have_seen_event") d in (rw (a', b') refl, rw (c', d') refl)

  is_text-eq : (a b : Bytes) → is_text a b ≡ true → a ≡ b
  is_text-eq a b h = elim (bytes_discrete a b) [ yes e ↦ e | no m ↦ absurd (ground arith) ]

  cs_cache_fake-IsUnlisted : IsUnlisted (bytes "cs_cache_fake")
  unfolding bytes_discrete
  cs_cache_fake-IsUnlisted =
      table-IsUnlisted (bytes "cs_cache_fake") (unfold purges_all in refl)
        (unfold per_event_caches in refl)

  invalidate-nil : (f : Bytes) (keys : Option (List Key)) → invalidate f keys ≡ [] → IsUnlisted f
  unfolding invalidate
  invalidate-nil f keys h = elim (Bool-cases (purges_all f)) [
    | inl p ↦ absurd (ground (arith, p))
    | inr q ↦ elim (Bool-cases (is_text f (bytes "cs_cache_fake"))) [
      | inl c ↦
          subst IsUnlisted (sym (is_text-eq f (bytes "cs_cache_fake") c)) cs_cache_fake-IsUnlisted
      | inr d ↦
          table-IsUnlisted f q (per_event-nil (per_event_caches f) keys (ground (arith, q, d)))
    ]
  ]

  IsUnlisted-invalidate :
      (f : Bytes) (keys : Option (List Key)) → IsUnlisted f → invalidate f keys ≡ []
  unfolding invalidate per_event
  IsUnlisted-invalidate f keys u =
      let (p, q) = IsUnlisted-table f u in
      elim (Bool-cases (is_text f (bytes "cs_cache_fake"))) [
        | inl c ↦ rw (p, c) refl
        | inr d ↦ rw (p, d, q) refl
      ]

  with_keys-nil : (f : Bytes) (keys : Part) → with_keys f keys ≡ [] → AreKeys keys × IsUnlisted f
  unfolding with_keys
  with_keys-nil f Part.null h = (tt, invalidate-nil f none h)
  with_keys-nil f (Part.array keys) h = (tt, invalidate-nil f (some keys) h)
  with_keys-nil f (Part.text s) h = absurd (ground arith)
  with_keys-nil f Part.other h = absurd (ground arith)

  IsUnlisted-with_keys :
      (f : Bytes) (keys : Part) → AreKeys keys → IsUnlisted f → with_keys f keys ≡ []
  unfolding with_keys
  IsUnlisted-with_keys f Part.null k u = IsUnlisted-invalidate f none u
  IsUnlisted-with_keys f (Part.array keys) k u = IsUnlisted-invalidate f (some keys) u
  IsUnlisted-with_keys f (Part.text s) k u = absurd k
  IsUnlisted-with_keys f Part.other k u = absurd k

  part_text-IsNamed : (f : Part) (name : Bytes) → (part_text f ≡ some name) ↔ IsNamed f name
  unfolding part_text
  part_text-IsNamed Part.null name = (λ h. ground arith, λ h. ground arith)
  part_text-IsNamed (Part.text s) name = (λ h. ground arith, λ h. ground arith)
  part_text-IsNamed Part.other name = (λ h. ground arith, λ h. absurd h)
  part_text-IsNamed (Part.array ks) name = (λ h. ground arith, λ h. absurd h)

  named_row :
      (f keys : Part) (rest : List Part) (name : Bytes)
      → part_text f ≡ some name
      → cache_row (f ∷ keys ∷ rest) ≡ with_keys name keys
  unfolding cache_row
  named_row f keys rest name e = rw (e, cache_row)

  row-nil : (row : List Part) → (cache_row row ≡ []) ↔ PassedOver (some row)
  unfolding cache_row
  row-nil [] = (λ h. ground arith, λ h. absurd h)
  row-nil (f ∷ []) = (λ h. ground arith, λ h. absurd h)
  row-nil (f ∷ keys ∷ rest) = (
    λ h. elim (Option-cases (part_text f)) [
      | inl e ↦ absurd (ground (arith, e))
      | inr (name, e) ↦
          let (k, u) = with_keys-nil name keys (ground (arith, e)) in
          (name, (part_text-IsNamed f name).0 e, k, u)
    ],
    λ (name, n, k, u).
        named_row f keys rest name ((part_text-IsNamed f name).1 n)
        ∙ IsUnlisted-with_keys name keys k u,
  )

  -- A row of the stream `caches` leaves the caches alone just if it could be read, with a name that
  -- is a string or null and keys that are an array or null, and the name is none of the two purges and
  -- of the two cache functions that are keyed by events. A row that is not understood drops something.
  pub handle_cache_row-nil :
      (row : Bytes) → (handle_cache_row decode_row row ≡ []) ↔ PassedOver (decode_row row)
  unfolding handle_cache_row
  handle_cache_row-nil row = elim (Option-cases (decode_row row)) [
    | inl e ↦ rw (e, handle_cache_row) (λ h. ground arith, λ h. absurd h)
    | inr (parts, e) ↦ rw (e, handle_cache_row) (row-nil parts)
  ]
