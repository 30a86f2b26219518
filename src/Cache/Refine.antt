-- ===== src/Cache/Refine.antt =====
-- The cache refines its specification: the list, read without numbers and sizes, is the ideal one.
use synapse_gopro_worker.Prelude.{
  ℕ, ◌-◌, ◌≤◌, ◌≡◌, refl, false, List, [], ◌∷◌, none, some, arith, All, lookup, delete, map,
}
use synapse_gopro_worker.Cache.Lru.{Element, Lru}
use synapse_gopro_worker.Cache.Elements.{Differ, Distinct, by_key, remove_key, fit}
use synapse_gopro_worker.Cache.Coherent.{IsCoherent}
use synapse_gopro_worker.Cache.Spec.{Ideal, fitting}

module _ {K V : Type 0} where
  abbrev pub contents : List (Element K V) → List (K × V)
  contents = map λ e. (e.key, e.value)

  abbrev pub ideal : Lru K V → Ideal K V
  ideal c = record { armed = c.armed; items = contents c.order }

module _ {K V : Type 0} (dec : Discrete K) where
  pub lookup-contents :
      (k : K) (l : List (Element K V))
      → lookup dec k (contents l) ≡ elim (by_key dec k l) [ none ↦ none | some e ↦ some e.value ]
  unfolding lookup by_key
  lookup-contents k [] = refl
  lookup-contents k (f ∷ l) = ground (arith, lookup-contents k l)

  pub delete_absent :
      (k : K) (l : List (Element K V))
      → by_key dec k l ≡ none
      → delete dec k (contents l) ≡ contents l
  unfolding delete by_key
  delete_absent k [] h = refl
  delete_absent k (f ∷ l) h = ground (arith, delete_absent k l)

  delete_apart :
      (f : Element K V) (l : List (Element K V))
      → All (Differ f) l
      → delete dec f.key (contents l) ≡ contents l
  unfolding delete
  delete_apart f [] a = refl
  delete_apart f (g ∷ l) a = ground (arith, delete_apart f l a.1)

  pub contents-remove_key :
      (k : K) (l : List (Element K V))
      → Distinct l
      → contents (remove_key dec k l) ≡ delete dec k (contents l)
  unfolding remove_key delete
  contents-remove_key k [] d = refl
  contents-remove_key k (f ∷ l) d =
      ground (arith, contents-remove_key k l d.1, delete_apart f l d.0)

  module _ (size_of : V → ℕ) where
    -- The size that an element carries is that of its value.
    abbrev pub IsSized : List (Element K V) → Type 0
    IsSized = All λ e. e.size ≡ size_of e.value

    pub contents-fit :
        (n : ℕ) (l : List (Element K V))
        → IsSized l
        → (contents (fit n l) ≡ fitting dec size_of n (contents l)) × IsSized (fit n l)
    unfolding fit fitting
    contents-fit n [] s = (refl, tt)
    contents-fit n (e ∷ l) s = ground (arith, s.0, contents-fit (n - e.size) l s.1)

    pub record IsValid (c : Lru K V) : Type 0 where
      pub coherent : IsCoherent dec c
      pub sized : IsSized c.order
      pub bounded : c.bytes ≤ c.max_bytes
      pub quiet : c.armed ≡ false → c.order ≡ []
