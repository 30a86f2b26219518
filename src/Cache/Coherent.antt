-- ===== src/Cache/Coherent.antt =====
-- The map, the list and the byte count of the cache agree, and every operation keeps that.
use synapse_gopro_worker.Prelude.{
  ℕ, zero, suc, ◌-◌, ◌≤◌, ◌<◌, ◌≡◌, inl, inr, refl, Bool, List, [], ◌∷◌, ◌++◌, none, some, ite,
  arith, All, length, lookup, sym, ap, delete, lookup-delete, Option-cases, ◌∙◌, dec_lt,
}
use synapse_gopro_worker.Cache.Lru.{Element, Lru, back, evict, evict_loop}
use synapse_gopro_worker.Cache.Elements.{
  total, Differ, Distinct, Below, by_key, id_of, remove_key, All-remove_key, Distinct-remove_key,
  element_at-by_key, total-remove_key, length-remove_key, back-by_key, back_absent, fit, fit_all,
  fit_back,
}

module _ {K V : Type 0} (dec : Discrete K) where
  pub record IsCoherent (c : Lru K V) : Type 0 where
    -- The map names the element of each key.
    pub index : (k : K) → lookup dec k c.entries ≡ id_of dec k c.order
    pub distinct : Distinct c.order
    pub fresh : Below c.next_id c.order
    pub counted : c.bytes ≡ total c.order

  pub id_of-remove_key :
      (j k : K) (l : List (Element K V))
      → Distinct l
      → id_of dec j (remove_key dec k l) ≡ ite (dec j k) none (id_of dec j l)
  unfolding id_of remove_key
  id_of-remove_key j k [] d = ground arith
  id_of-remove_key j k (f ∷ l) d = ground (arith, id_of-remove_key j k l d.1, absent f l d.0)
    where
      absent :
          (f : Element K V) (l : List (Element K V)) → All (Differ f) l → id_of dec f.key l ≡ none
      absent f [] a = refl
      absent f (g ∷ l) a = ground (arith, absent f l a.1)

  -- Taking the element of a key out of the list, the map and the byte count.
  abbrev pub Without : Element K V → Lru K V → Lru K V → Type 0
  Without e c c' =
      (c'.order ≡ remove_key dec e.key c.order)
      × (c'.entries ≡ delete dec e.key c.entries)
      × (c'.bytes ≡ c.bytes - e.size)
      × (c'.next_id ≡ c.next_id)

  pub Without-IsCoherent :
      (e : Element K V) (c c' : Lru K V)
      → IsCoherent c
      → by_key dec e.key c.order ≡ some e
      → Without e c c'
      → IsCoherent c'
  Without-IsCoherent e c c' h found (o, m, b, n) = record {
    index = λ k.
        rw (o, m)
          (lookup-delete dec k e.key c.entries
            ∙ rw (h.index k) (sym (id_of-remove_key k e.key c.order h.distinct)));
    distinct = rw o (Distinct-remove_key dec e.key c.order h.distinct);
    fresh = rw (o, n) (All-remove_key dec (λ x. x.id < c.next_id) e.key c.order h.fresh);
    counted = rw (o, b) (omega (arith, h.counted, total-remove_key dec e.key c.order e found));
  }

  evict-Without :
      (e : Element K V) (c : Lru K V)
      → IsCoherent c
      → by_key dec e.key c.order ≡ some e
      → Without e c (evict dec e c)
  unfolding evict
  evict-Without e c h found =
      ((element_at-by_key dec e.key c.order e h.distinct found).1, refl, refl, refl)

  evict_loop_stop : (n : ℕ) (c : Lru K V) → c.bytes ≤ c.max_bytes → evict_loop dec n c ≡ c
  unfolding evict_loop
  evict_loop_stop zero c h = refl
  evict_loop_stop (suc n) c h = ground arith

  evict_loop_step :
      (n : ℕ) (c : Lru K V) (e : Element K V)
      → c.max_bytes < c.bytes
      → back c.order ≡ some e
      → evict_loop dec (suc n) c ≡ evict_loop dec n (evict dec e c)
  unfolding evict_loop
  evict_loop_step n c e h b = ground arith

  abbrev pub Evicted : Lru K V → Lru K V → Type 0
  Evicted c c' = IsCoherent c' × (c'.order ≡ fit c.max_bytes c.order) × (c'.bytes ≤ c.max_bytes)

  no_bytes : (c : Lru K V) → IsCoherent c → c.order ≡ [] → c.bytes ≤ c.max_bytes
  unfolding total
  no_bytes c h e = omega (arith, h.counted ∙ ap total e)

  evict-back :
      (c : Lru K V) (e : Element K V)
      → IsCoherent c
      → c.max_bytes < c.bytes
      → back c.order ≡ some e
      → IsCoherent (evict dec e c)
        × (fit c.max_bytes (evict dec e c).order ≡ fit c.max_bytes c.order)
        × (length c.order ≡ suc (length (evict dec e c).order))
  evict-back c e h over b =
      let (found, split) = back-by_key dec c.order e h.distinct b in
      let w = evict-Without e c h found in
      let enough : c.max_bytes < total (remove_key dec e.key c.order ++ e ∷ []) =
        omega (arith, h.counted, ap total split) in
      (
        Without-IsCoherent e c _ h found w,
        ap (fit c.max_bytes) w.0
            ∙ sym (ap (fit c.max_bytes) split ∙ fit_back c.max_bytes _ e enough),
        length-remove_key dec e.key c.order e found ∙ ap (λ l. suc (length l)) (sym w.0),
      )

  evict-Evicted :
      (c : Lru K V) (e : Element K V) (c' : Lru K V)
      → fit c.max_bytes (evict dec e c).order ≡ fit c.max_bytes c.order
      → Evicted (evict dec e c) c'
      → Evicted c c'
  unfolding evict
  evict-Evicted c e c' same (h, o, b) = (h, o ∙ same, b)

  evict_done :
      (n : ℕ) (c : Lru K V) → IsCoherent c → c.bytes ≤ c.max_bytes → Evicted c (evict_loop dec n c)
  evict_done n c h fits =
      rw (evict_loop_stop n c fits)
        (h, sym (fit_all c.max_bytes c.order (omega (arith, h.counted))), fits)

  length_zero : (l : List (Element K V)) → length l ≤ 0 → l ≡ []
  length_zero [] h = refl
  length_zero (e ∷ l) h = absurd (omega arith)

  -- With a round for each element, the loop leaves a coherent cache whose list is the longest front
  -- part that fits, and whose count of bytes is within the bound.
  pub evict_loop-Evicted :
      (n : ℕ) (c : Lru K V) → IsCoherent c → length c.order ≤ n → Evicted c (evict_loop dec n c)
  evict_loop-Evicted zero c h short = evict_done zero c h (no_bytes c h (length_zero c.order short))
  evict_loop-Evicted (suc n) c h short = elim (dec_lt c.max_bytes c.bytes) [
    | no fits ↦ evict_done (suc n) c h (omega arith)
    | yes over ↦ elim (Option-cases (back c.order)) [
      | inl e ↦ absurd (omega (arith, no_bytes c h (back_absent c.order e)))
      | inr (e, b) ↦
          let (h', same, shorter) = evict-back c e h over b in
          rw (evict_loop_step n c e over b)
            (evict-Evicted c e _ same (evict_loop-Evicted n (evict dec e c) h' (omega arith)))
    ]
  ]

  -- Eviction leaves the bound and the switch alone.
  pub evict_loop_fields :
      (n : ℕ) (c : Lru K V)
      → ((evict_loop dec n c).max_bytes ≡ c.max_bytes) × ((evict_loop dec n c).armed ≡ c.armed)
  unfolding evict_loop evict
  evict_loop_fields zero c = (refl, refl)
  evict_loop_fields (suc n) c = elim (Option-cases (back c.order)) [
    | inl e ↦ ground arith
    | inr (e, b) ↦ ground (arith, evict_loop_fields n (evict dec e c))
  ]

  evict_loop-none : (n : ℕ) (c : Lru K V) → back c.order ≡ none → evict_loop dec n c ≡ c
  unfolding evict_loop
  evict_loop-none zero c h = refl
  evict_loop-none (suc n) c h = ground arith

  -- Nor does it read the switch.
  pub evict_loop-switch :
      (n : ℕ) (b : Bool) (c : Lru K V)
      → evict_loop dec n (record c { armed = b }) ≡ record (evict_loop dec n c) { armed = b }
  unfolding evict
  evict_loop-switch zero b c = unfold evict_loop in refl
  evict_loop-switch (suc n) b c =
      let c' : Lru K V = record c { armed = b } in
      let put : Lru K V → Lru K V = λ x. record x { armed = b } in
      elim (dec_lt c.max_bytes c.bytes) [
        | no fits ↦
            evict_loop_stop (suc n) c' (omega arith)
            ∙ ap put (sym (evict_loop_stop (suc n) c (omega arith)))
        | yes over ↦ elim (Option-cases (back c.order)) [
          | inl e ↦ evict_loop-none (suc n) c' e ∙ ap put (sym (evict_loop-none (suc n) c e))
          | inr (e, q) ↦
              evict_loop_step n c' e over q
              ∙ evict_loop-switch n b (evict dec e c)
              ∙ ap put (sym (evict_loop_step n c e over q))
        ]
      ]
