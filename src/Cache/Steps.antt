-- ===== src/Cache/Steps.antt =====
-- Each method keeps the cache valid and does to its contents what the specification says.
use synapse_gopro_worker.Prelude.{
  ℕ, ◌≡◌, inl, inr, refl, true, ◌∷◌, some, arith, length, lookup, sym, ap, delete, insert,
  Option-cases, Bool-cases, ltb, ◌∙◌, if◌then◌else◌,
}
use synapse_gopro_worker.Cache.Lru.{
  Element, Lru, get_locked, evict_locked, push_front, place, drop_element, remove, add_locked,
}
use synapse_gopro_worker.Cache.Elements.{
  by_key, remove_key, id_of-by_key, All-by_key, All-remove_key, element_at-by_key,
}
use synapse_gopro_worker.Cache.Coherent.{evict_loop_fields}
use synapse_gopro_worker.Cache.Methods.{
  get_locked_hit, get_locked_miss, get_locked-IsCoherent, place_hit, place_miss, place-IsCoherent,
  remove_hit, remove_miss, evict_locked-Evicted, drop_element-IsCoherent,
}
use synapse_gopro_worker.Cache.Spec.{Ideal, fitting, touched}
use synapse_gopro_worker.Cache.Refine.{
  contents, ideal, lookup-contents, delete_absent, contents-remove_key, IsSized, contents-fit,
  IsValid,
}

module _ {K V : Type 0} (dec : Discrete K) (size_of : V → ℕ) where
  -- The cache after a call is valid, shows the given list, and has the bound it had.
  pub record Refines (c : Lru K V) (s : Ideal K V) (c' : Lru K V) : Type 0 where
    pub valid : IsValid dec size_of c'
    pub shown : contents c'.order ≡ s.items
    pub switch : c'.armed ≡ s.armed
    pub bound : c'.max_bytes ≡ c.max_bytes

  evict_locked_fields :
      (c : Lru K V)
      → ((evict_locked dec c).max_bytes ≡ c.max_bytes) × ((evict_locked dec c).armed ≡ c.armed)
  unfolding evict_locked
  evict_locked_fields c = evict_loop_fields dec (length c.order) c

  pub Refines-same : (c : Lru K V) → IsValid dec size_of c → Refines c (ideal c) c
  Refines-same c v = record { valid = v; shown = refl; switch = refl; bound = refl }

  module _ (k : K) (c : Lru K V) (v : IsValid dec size_of c) where
    insert-hit :
        (e : Element K V) (value : V) (n : ℕ)
        → by_key dec k c.order ≡ some e
        → n ≡ size_of value
        → ((e.key, value) ∷ contents (remove_key dec k c.order)
            ≡ insert dec k value (contents c.order))
          × IsSized dec size_of (record e { value = value; size = n } ∷ remove_key dec k c.order)
    unfolding insert
    insert-hit e value n found sz = (
      rw (
        (id_of-by_key dec k c.order e found).1,
        contents-remove_key dec k c.order v.coherent.distinct,
      ),
      (sz, All-remove_key dec (λ x. x.size ≡ size_of x.value) k c.order v.sized),
    )

    pub get_locked_parts :
        let c' = (get_locked dec k c).0 in
        (contents c'.order ≡ touched dec size_of c.max_bytes k (contents c.order))
        × IsSized dec size_of c'.order
        × (c'.bytes ≡ c.bytes)
        × (c'.max_bytes ≡ c.max_bytes)
        × (c'.armed ≡ c.armed)
        × ((get_locked dec k c).1 ≡ lookup dec k (contents c.order))
    unfolding touched
    get_locked_parts = elim (Option-cases (by_key dec k c.order)) [
      | inl m ↦ rw (get_locked_miss dec k c v.coherent m) (
        ground (arith, lookup-contents dec k c.order),
        v.sized,
        refl,
        refl,
        refl,
        ground (arith, lookup-contents dec k c.order),
      )
      | inr (e, found) ↦
          let (shown, sized) =
            insert-hit e e.value e.size found
              (All-by_key dec (λ x. x.size ≡ size_of x.value) k c.order e v.sized found) in
          rw (get_locked_hit dec k c v.coherent e found) (
            ground (arith, lookup-contents dec k c.order, shown),
            sized,
            refl,
            refl,
            refl,
            ground (arith, lookup-contents dec k c.order),
          )
    ]

    pub get_locked-Refines :
        c.armed ≡ true
        → Refines c
            (record {
              armed = c.armed;
              items = touched dec size_of c.max_bytes k (contents c.order);
            })
            (get_locked dec k c).0
    get_locked-Refines on =
        let (shown, sized, b, m, a, _) = get_locked_parts in
        record {
          valid = record {
            coherent = get_locked-IsCoherent dec k c v.coherent;
            sized = sized;
            bounded = omega (arith, v.bounded);
            quiet = λ off. ground arith;
          };
          shown = shown;
          switch = a;
          bound = m;
        }

    place_parts :
        (value : V) (n : ℕ)
        → n ≡ size_of value
        → let c' = place dec k value n c in
          (contents c'.order ≡ insert dec k value (contents c.order))
          × IsSized dec size_of c'.order
          × (c'.max_bytes ≡ c.max_bytes)
          × (c'.armed ≡ c.armed)
    unfolding push_front
    place_parts value n sz = elim (Option-cases (by_key dec k c.order)) [
      | inl m ↦ rw (place_miss dec k c v.coherent value n m) (
        unfold insert in ap (◌∷◌ (k, value)) (sym (delete_absent dec k c.order m)),
        (sz, v.sized),
        refl,
        refl,
      )
      | inr (e, found) ↦
          let (shown, sized) = insert-hit e value n found sz in
          rw (place_hit dec k c v.coherent e found value n) (shown, sized, refl, refl)
    ]

    pub add_locked-Refines :
        (value : V)
        → c.armed ≡ true
        → Refines c
            (record {
              armed = c.armed;
              items =
                  if ltb c.max_bytes (size_of value)
                  then contents c.order
                  else fitting dec size_of c.max_bytes (insert dec k value (contents c.order));
            })
            (add_locked dec size_of k value c)
    unfolding add_locked
    add_locked-Refines value on = elim (Bool-cases (ltb c.max_bytes (size_of value))) [
      | inl big ↦ rw (big, add_locked) (Refines-same c v)
      | inr small ↦
          rw (small, add_locked)
            (let (shown, sized, m, a) = place_parts value (size_of value) refl in
              let p : Lru K V = place dec k value (size_of value) c in
              let (h, o, b) =
                evict_locked-Evicted dec p
                  (place-IsCoherent dec k value (size_of value) c v.coherent) in
              let (m', a') = evict_locked_fields p in
              let (fits, sized') = contents-fit dec size_of p.max_bytes p.order sized in
              record {
                valid = record {
                  coherent = h;
                  sized = rw o sized';
                  bounded = omega arith;
                  quiet = λ off. ground arith;
                };
                shown = ap contents o ∙ fits ∙ (λ i. fitting dec size_of (m i) (shown i));
                switch = a' ∙ a;
                bound = m' ∙ m;
              })
    ]

    pub remove-Refines :
        Refines c
          (record { armed = c.armed; items = delete dec k (contents c.order) })
          (remove dec k c)
    unfolding drop_element by_key
    remove-Refines = elim (Option-cases (by_key dec k c.order)) [
      | inl m ↦ rw (remove_miss dec k c v.coherent m) (record {
        valid = v;
        shown = sym (delete_absent dec k c.order m);
        switch = refl;
        bound = refl;
      })
      | inr (e, found) ↦
          let gone = (element_at-by_key dec k c.order e v.coherent.distinct found).1 in
          rw (remove_hit dec k c v.coherent e found) (record {
            valid = record {
              coherent = drop_element-IsCoherent dec k c v.coherent e found;
              sized =
                  rw gone (All-remove_key dec (λ x. x.size ≡ size_of x.value) k c.order v.sized);
              bounded = omega (arith, v.bounded);
              quiet = λ off. absurd (ground (arith, ap (by_key dec k) (v.quiet off)));
            };
            shown = ap contents gone ∙ contents-remove_key dec k c.order v.coherent.distinct;
            switch = refl;
            bound = refl;
          })
    ]
