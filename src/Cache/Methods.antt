-- ===== src/Cache/Methods.antt =====
-- What the methods do to a coherent cache: a key is found or missing in the list itself.
use synapse_gopro_worker.Prelude.{
  ℕ, ◌+◌, ◌-◌, ◌<◌, ◌≡◌, inl, inr, refl, ◌∷◌, none, some, arith, length, lookup, sym, ap, subst,
  delete, lookup-insert, Option-cases, ◌∙◌,
}
use synapse_gopro_worker.Cache.Lru.{
  Element, Lru, get_locked, evict_locked, push_front, place, drop_element, remove,
}
use synapse_gopro_worker.Cache.Elements.{
  total, Below, by_key, id_of, remove_key, id_of-by_key, id_of_absent, Differ-same, Below-suc,
  Differ-new, All-by_key, All-remove_key, Distinct-remove_key, Differ-remove_key, element_at-by_key,
  total-remove_key,
}
use synapse_gopro_worker.Cache.Coherent.{
  IsCoherent, id_of-remove_key, Without-IsCoherent, Evicted, evict_loop-Evicted,
}

module _ {K V : Type 0} (dec : Discrete K) where
  module _ (k : K) (c : Lru K V) (h : IsCoherent dec c) where
    pub lookup_miss : by_key dec k c.order ≡ none → lookup dec k c.entries ≡ none
    lookup_miss m = h.index k ∙ id_of_absent dec k c.order m

    module _ (e : Element K V) (found : by_key dec k c.order ≡ some e) where
      pub lookup_hit : lookup dec k c.entries ≡ some e.id
      lookup_hit = h.index k ∙ (id_of-by_key dec k c.order e found).0

      found_key : by_key dec e.key c.order ≡ some e
      found_key =
          subst (λ x. by_key dec x c.order ≡ some e) (sym (id_of-by_key dec k c.order e found).1)
            found

      -- The element goes to the front, perhaps with another value and size.
      pub front-IsCoherent :
          (e' : Element K V) (c' : Lru K V)
          → e'.id ≡ e.id
          → e'.key ≡ e.key
          → c'.order ≡ e' ∷ remove_key dec k c.order
          → c'.entries ≡ c.entries
          → c'.next_id ≡ c.next_id
          → c'.bytes + e.size ≡ c.bytes + e'.size
          → IsCoherent dec c'
      unfolding id_of total
      front-IsCoherent e' c' i q o m n b = record {
        index = λ j.
            rw (o, m)
              (h.index j
                ∙ ground (
                  arith,
                  id_of-remove_key dec j k c.order h.distinct,
                  id_of-by_key dec k c.order e found,
                ));
        distinct = rw o (
          Differ-same e e' _ i q (Differ-remove_key dec k c.order e h.distinct found),
          Distinct-remove_key dec k c.order h.distinct,
        );
        fresh =
            subst (λ m. Below m c'.order) (sym n)
              (rw o (
                rw i (All-by_key dec (λ x. x.id < c.next_id) k c.order e h.fresh found),
                All-remove_key dec (λ x. x.id < c.next_id) k c.order h.fresh,
              ));
        counted = rw o (omega (arith, h.counted, total-remove_key dec k c.order e found));
      }

      pub get_locked_hit :
          (get_locked dec k c
            ≡ (record c { order = e ∷ remove_key dec k c.order; hits = c.hits + 1 }, some e.value))
      unfolding get_locked
      get_locked_hit =
          ground (arith, lookup_hit, element_at-by_key dec k c.order e h.distinct found)

      pub place_hit :
          (v : V) (n : ℕ)
          → place dec k v n c ≡ record c {
            order = record e { value = v; size = n } ∷ remove_key dec k c.order;
            bytes = c.bytes + n - e.size;
          }
      unfolding place
      place_hit v n = ground (arith, lookup_hit, element_at-by_key dec k c.order e h.distinct found)

      pub remove_hit : remove dec k c ≡ drop_element dec k e.id e c
      unfolding remove
      remove_hit = ground (arith, lookup_hit, element_at-by_key dec k c.order e h.distinct found)

      pub drop_element-IsCoherent : IsCoherent dec (drop_element dec k e.id e c)
      unfolding drop_element
      drop_element-IsCoherent = Without-IsCoherent dec e c _ h found_key (
        (element_at-by_key dec e.key c.order e h.distinct found_key).1,
        ap (λ x. delete dec x c.entries) (sym (id_of-by_key dec k c.order e found).1),
        refl,
        refl,
      )

    pub push_front-IsCoherent :
        (v : V) (n : ℕ) → by_key dec k c.order ≡ none → IsCoherent dec (push_front dec k v n c)
    unfolding push_front id_of total
    push_front-IsCoherent v n m = record {
      index = λ j. lookup-insert dec j k c.next_id c.entries ∙ rw (h.index j);
      distinct = (
        Differ-new dec (record { id = c.next_id; key = k; value = v; size = n }) c.order h.fresh m,
        h.distinct,
      );
      fresh = (omega arith, Below-suc c.next_id c.order h.fresh);
      counted = omega (arith, h.counted);
    }

    pub get_locked_miss :
        by_key dec k c.order ≡ none
        → get_locked dec k c ≡ (record c { misses = c.misses + 1 }, none)
    unfolding get_locked
    get_locked_miss m = ground (arith, lookup_miss m)

    pub place_miss :
        (v : V) (n : ℕ) → by_key dec k c.order ≡ none → place dec k v n c ≡ push_front dec k v n c
    unfolding place
    place_miss v n m = ground (arith, lookup_miss m)

    pub remove_miss : by_key dec k c.order ≡ none → remove dec k c ≡ c
    unfolding remove
    remove_miss m = ground (arith, lookup_miss m)

  pub get_locked-IsCoherent :
      (k : K) (c : Lru K V) → IsCoherent dec c → IsCoherent dec (get_locked dec k c).0
  get_locked-IsCoherent k c h = elim (Option-cases (by_key dec k c.order)) [
    | inl m ↦
        rw (get_locked_miss k c h m)
          (record { index = h.index; distinct = h.distinct; fresh = h.fresh; counted = h.counted })
    | inr (e, found) ↦
        rw (get_locked_hit k c h e found)
          (front-IsCoherent k c h e found e _ refl refl refl refl refl refl)
  ]

  pub place-IsCoherent :
      (k : K) (v : V) (n : ℕ) (c : Lru K V) → IsCoherent dec c → IsCoherent dec (place dec k v n c)
  place-IsCoherent k v n c h = elim (Option-cases (by_key dec k c.order)) [
    | inl m ↦ rw (place_miss k c h v n m) (push_front-IsCoherent k c h v n m)
    | inr (e, found) ↦ rw (place_hit k c h e found v n) (
        front-IsCoherent k c h e found (record e { value = v; size = n }) _ refl refl refl refl refl
          (omega (arith, h.counted, total-remove_key dec k c.order e found)))
  ]

  pub remove-IsCoherent : (k : K) (c : Lru K V) → IsCoherent dec c → IsCoherent dec (remove dec k c)
  remove-IsCoherent k c h = elim (Option-cases (by_key dec k c.order)) [
    | inl m ↦ rw (remove_miss k c h m) h
    | inr (e, found) ↦ rw (remove_hit k c h e found) (drop_element-IsCoherent k c h e found)
  ]

  pub evict_locked-Evicted : (c : Lru K V) → IsCoherent dec c → Evicted dec c (evict_locked dec c)
  unfolding evict_locked
  evict_locked-Evicted c h = evict_loop-Evicted dec (length c.order) c h (omega arith)
