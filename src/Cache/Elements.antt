-- ===== src/Cache/Elements.antt =====
-- Facts on the list of cache elements: what a key finds, what is left without it, and the sizes.
use synapse_gopro_worker.Prelude.{
  ℕ, suc, ◌+◌, ◌-◌, ◌≤◌, ◌<◌, ◌≡◌, ◌≢◌, refl, List, [], ◌∷◌, ◌++◌, Option, none, some, ite, if_pos,
  if_neg, arith, All, length, sym, subst, ap, ◌∙◌, leb, if◌then◌else◌,
}
use synapse_gopro_worker.Cache.Lru.{Element, element_at, remove_element, back}

module _ {K V : Type 0} where
  unfoldable pub total : List (Element K V) → ℕ
  total [] = 0
  total (e ∷ l) = e.size + total l

  -- Elements and keys stand once.
  abbrev pub Differ : Element K V → Element K V → Type 0
  Differ e f = (f.id ≢ e.id) × (f.key ≢ e.key)

  abbrev pub Distinct : List (Element K V) → Type 0
  Distinct [] = Unit
  Distinct (e ∷ l) = All (Differ e) l × Distinct l

  abbrev pub Below : ℕ → List (Element K V) → Type 0
  Below n = All (λ e. e.id < n)

module _ {K V : Type 0} where
  pub Differ-same :
      (e e' : Element K V) (l : List (Element K V))
      → e'.id ≡ e.id
      → e'.key ≡ e.key
      → All (Differ e) l
      → All (Differ e') l
  Differ-same e e' [] i q a = a
  Differ-same e e' (f ∷ l) i q a =
      ((λ h. a.0.0 (h ∙ i), λ h. a.0.1 (h ∙ q)), Differ-same e e' l i q a.1)

  pub Below-suc : (n : ℕ) (l : List (Element K V)) → Below n l → Below (n + 1) l
  Below-suc n [] b = b
  Below-suc n (e ∷ l) b = (omega arith, Below-suc n l b.1)

module _ {K V : Type 0} (dec : Discrete K) where
  unfoldable pub by_key : K → List (Element K V) → Option (Element K V)
  by_key k [] = none
  by_key k (e ∷ l) = ite (dec k e.key) (some e) (by_key k l)

  unfoldable pub id_of : K → List (Element K V) → Option ℕ
  id_of k [] = none
  id_of k (e ∷ l) = ite (dec k e.key) (some e.id) (id_of k l)

  unfoldable pub remove_key : K → List (Element K V) → List (Element K V)
  remove_key k [] = []
  remove_key k (e ∷ l) = ite (dec k e.key) l (e ∷ remove_key k l)

  pub id_of-by_key :
      (k : K) (l : List (Element K V)) (e : Element K V)
      → by_key k l ≡ some e
      → (id_of k l ≡ some e.id) × (e.key ≡ k)
  unfolding by_key id_of
  id_of-by_key k [] e h = ground arith
  id_of-by_key k (f ∷ l) e h = ground (arith, id_of-by_key k l e)

  pub id_of_absent : (k : K) (l : List (Element K V)) → by_key k l ≡ none → id_of k l ≡ none
  unfolding by_key id_of
  id_of_absent k [] h = refl
  id_of_absent k (f ∷ l) h = ground (arith, id_of_absent k l)

  -- A predicate on all elements holds of the one that is found, and of those that are left.
  pub All-by_key {κ} :
      (P : Element K V → Type κ) (k : K) (l : List (Element K V)) (e : Element K V)
      → All P l
      → by_key k l ≡ some e
      → P e
  unfolding by_key
  All-by_key P k [] e a h = absurd (ground arith)
  All-by_key P k (f ∷ l) e a h = elim (dec k f.key) [
    | yes p ↦ let same : f ≡ e = ground arith in subst P same a.0
    | no p ↦ All-by_key P k l e a.1 (ground arith)
  ]

  pub All-remove_key {κ} :
      (P : Element K V → Type κ) (k : K) (l : List (Element K V)) → All P l → All P (remove_key k l)
  unfolding remove_key
  All-remove_key P k [] a = a
  All-remove_key P k (f ∷ l) a = ground (arith, All-remove_key P k l a.1)

  pub Distinct-remove_key :
      (k : K) (l : List (Element K V)) → Distinct l → Distinct (remove_key k l)
  unfolding remove_key
  Distinct-remove_key k [] d = d
  Distinct-remove_key k (f ∷ l) d =
      ground (arith, Distinct-remove_key k l d.1, All-remove_key (Differ f) k l d.0)

  -- A new element with a new key differs from all.
  pub Differ-new :
      (e : Element K V) (l : List (Element K V))
      → Below e.id l
      → by_key e.key l ≡ none
      → All (Differ e) l
  unfolding by_key
  Differ-new e [] b h = tt
  Differ-new e (f ∷ l) b h =
      ((λ q. omega (arith, b.0), λ q. absurd (ground arith)), Differ-new e l b.1 (ground arith))

  -- What is left when the key of an element that is found is taken away differs from it.
  pub Differ-remove_key :
      (k : K) (l : List (Element K V)) (e : Element K V)
      → Distinct l
      → by_key k l ≡ some e
      → All (Differ e) (remove_key k l)
  unfolding remove_key by_key
  Differ-remove_key k [] e d h = absurd (ground arith)
  Differ-remove_key k (f ∷ l) e d h = elim (dec k f.key) [
    | yes p ↦
        let same : f ≡ e = ground arith in rw (if_pos _ p) (subst (λ x. All (Differ x) l) same d.0)
    | no p ↦
        let apart = All-by_key (Differ f) k l e d.0 (ground arith) in
        rw (if_neg _ p)
          ((λ q. apart.0 (sym q), λ q. apart.1 (sym q)), Differ-remove_key k l e d.1 (ground arith))
  ]

  -- The element of a key is the one with its number.
  pub element_at-by_key :
      (k : K) (l : List (Element K V)) (e : Element K V)
      → Distinct l
      → by_key k l ≡ some e
      → (element_at e.id l ≡ some e) × (remove_element e.id l ≡ remove_key k l)
  unfolding by_key remove_key element_at remove_element
  element_at-by_key k [] e d h = ground arith
  element_at-by_key k (f ∷ l) e d h =
      ground (arith, element_at-by_key k l e d.1, All-by_key (Differ f) k l e d.0)

  pub by_key-remove_key :
      (j k : K) (l : List (Element K V))
      → Distinct l
      → by_key j (remove_key k l) ≡ ite (dec j k) none (by_key j l)
  unfolding by_key remove_key
  by_key-remove_key j k [] d = ground arith
  by_key-remove_key j k (f ∷ l) d = ground (arith, by_key-remove_key j k l d.1, absent f l d.0)
    where
      absent : (f : Element K V) (l : List (Element K V)) → All (Differ f) l → by_key f.key l ≡ none
      absent f [] a = refl
      absent f (g ∷ l) a = ground (arith, absent f l a.1)

  pub total-remove_key :
      (k : K) (l : List (Element K V)) (e : Element K V)
      → by_key k l ≡ some e
      → total l ≡ e.size + total (remove_key k l)
  unfolding by_key remove_key total
  total-remove_key k [] e h = ground arith
  total-remove_key k (f ∷ l) e h = ground (arith, total-remove_key k l e)

  pub length-remove_key :
      (k : K) (l : List (Element K V)) (e : Element K V)
      → by_key k l ≡ some e
      → length l ≡ suc (length (remove_key k l))
  unfolding by_key remove_key
  length-remove_key k [] e h = ground arith
  length-remove_key k (f ∷ l) e h = ground (arith, length-remove_key k l e)

  -- `Back` takes the last element, which its key finds.
  pub back-by_key :
      (l : List (Element K V)) (e : Element K V)
      → Distinct l
      → back l ≡ some e
      → (by_key e.key l ≡ some e) × (l ≡ remove_key e.key l ++ e ∷ [])
  unfolding back by_key remove_key
  back-by_key [] e d h = ground arith
  back-by_key (f ∷ []) e d h = ground arith
  back-by_key (f ∷ g ∷ l) e d h =
      let (found, split) = back-by_key (g ∷ l) e d.1 h in
      let apart = All-by_key (Differ f) e.key (g ∷ l) e d.0 found in
      (
        if_neg (dec e.key f.key) apart.1 _ _ ∙ found,
        ap (◌∷◌ f) split ∙ ap (λ r. r ++ e ∷ []) (sym (if_neg (dec e.key f.key) apart.1 _ _)),
      )

module _ {K V : Type 0} where
  pub back_absent : (l : List (Element K V)) → back l ≡ none → l ≡ []
  unfolding back
  back_absent [] h = refl
  back_absent (e ∷ []) h = ground arith
  back_absent (e ∷ f ∷ l) h = absurd (cons_ne (back_absent (f ∷ l) h))
    where
      cons_ne : f ∷ l ≢ []
      cons_ne h = ground arith

  pub total-append : (l m : List (Element K V)) → total (l ++ m) ≡ total l + total m
  unfolding total
  total-append [] m = omega arith
  total-append (e ∷ l) m = omega (arith, total-append l m)

  -- The longest front part whose sizes fit in `n` bytes.
  unfoldable pub fit : ℕ → List (Element K V) → List (Element K V)
  fit n [] = []
  fit n (e ∷ l) = if leb e.size n then e ∷ fit (n - e.size) l else []

  pub fit_all : (n : ℕ) (l : List (Element K V)) → total l ≤ n → fit n l ≡ l
  unfolding fit total
  fit_all n [] h = refl
  fit_all n (e ∷ l) h = ground (arith, fit_all (n - e.size) l)

  -- An element at the back that does not fit changes nothing of what fits.
  pub fit_back :
      (n : ℕ) (l : List (Element K V)) (e : Element K V)
      → n < total (l ++ e ∷ [])
      → fit n (l ++ e ∷ []) ≡ fit n l
  unfolding fit total
  fit_back n [] e h = ground arith
  fit_back n (f ∷ l) e h = ground (arith, fit_back (n - f.size) l e)
