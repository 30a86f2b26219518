-- ===== src/Cache/Lru.antt =====
-- The LRU cache of internal/cache/lru.go, over any comparable key type.
--
-- The list of package container/list is modelled with the identity of its elements: the map
-- holds the number of a list element, as the source's map holds a pointer to it, and an element
-- is read, moved and removed through that number. Sizes and byte counts are natural numbers: a
-- `Sizer` returns no negative size, and before eviction `bytes` is at most twice `max_bytes`.
-- A method of a nil cache is not modelled: it does nothing.
use synapse_gopro_worker.Prelude.{
  ℕ, zero, suc, ◌+◌, ◌-◌, Bool, true, false, ◌&&◌, List, [], ◌∷◌, Option, none, some, ltb, ite,
  if◌then◌else◌, ℕ_discrete, lookup, delete, insert, length,
}

pub record Element (K V : Type 0) : Type 0 where
  pub id : ℕ
  pub key : K
  pub value : V
  pub size : ℕ

pub record Lru (K V : Type 0) : Type 0 where
  pub max_bytes : ℕ
  pub armed : Bool
  pub entries : List (K × ℕ)
  -- The front is the most recently used.
  pub order : List (Element K V)
  pub bytes : ℕ
  pub hits : ℕ
  pub misses : ℕ
  pub evictions : ℕ
  -- The number of the next list element.
  pub next_id : ℕ

module _ {K V : Type 0} where
  -- `el.Value`
  unfoldable pub element_at : ℕ → List (Element K V) → Option (Element K V)
  element_at i [] = none
  element_at i (e ∷ l) = ite (ℕ_discrete e.id i) (some e) (element_at i l)

  -- `order.Remove(el)`
  unfoldable pub remove_element : ℕ → List (Element K V) → List (Element K V)
  remove_element i [] = []
  remove_element i (e ∷ l) = ite (ℕ_discrete e.id i) l (e ∷ remove_element i l)

  -- `order.Back()`
  unfoldable pub back : List (Element K V) → Option (Element K V)
  back [] = none
  back (e ∷ []) = some e
  back (e ∷ f ∷ l) = back (f ∷ l)

  unfoldable pub new_lru : ℕ → Lru K V
  new_lru max_bytes = record {
    max_bytes = max_bytes;
    armed = true;
    entries = [];
    order = [];
    bytes = 0;
    hits = 0;
    misses = 0;
    evictions = 0;
    next_id = 0;
  }

  unfoldable pub purge : Lru K V → Lru K V
  purge c = record c { entries = []; order = []; bytes = 0 }

  unfoldable pub set_armed : Bool → Lru K V → Lru K V
  unfolding purge
  set_armed armed c = let c' = record c { armed = armed } in if armed then c' else purge c'

  unfoldable pub enabled : Lru K V → Bool
  enabled c = ltb 0 c.max_bytes && c.armed

module _ {K V : Type 0} (dec : Discrete K) where
  -- The part of `Get` that holds the lock.
  unfoldable pub get_locked : K → Lru K V → Lru K V × Option V
  unfolding element_at remove_element
  get_locked key c = elim (lookup dec key c.entries) [
    | none ↦ (record c { misses = c.misses + 1 }, none)
    | some i ↦ elim (element_at i c.order) [
      | none ↦ (c, none)
      | some e ↦
          (record c { order = e ∷ remove_element i c.order; hits = c.hits + 1 }, some e.value)
    ]
  ]

  unfoldable pub get : K → Lru K V → Lru K V × Option V
  unfolding enabled
  get key c = if enabled c then get_locked key c else (c, none)

  -- What a round of `evictLocked` does to the element at the back.
  unfoldable pub evict : Element K V → Lru K V → Lru K V
  unfolding remove_element
  evict e c = record c {
    order = remove_element e.id c.order;
    entries = delete dec e.key c.entries;
    bytes = c.bytes - e.size;
    evictions = c.evictions + 1;
  }

  -- The loop of `evictLocked`, with the number of rounds at most: each round takes an element.
  unfoldable pub evict_loop : ℕ → Lru K V → Lru K V
  unfolding back
  evict_loop zero c = c
  evict_loop (suc n) c = elim (ltb c.max_bytes c.bytes) [
    | false ↦ c
    | true ↦ elim (back c.order) [ none ↦ c | some e ↦ evict_loop n (evict e c) ]
  ]

  unfoldable pub evict_locked : Lru K V → Lru K V
  evict_locked c = evict_loop (length c.order) c

  -- The branch of `Add` for a key that the map holds.
  unfoldable pub replace : ℕ → Element K V → V → ℕ → Lru K V → Lru K V
  unfolding remove_element
  replace i e value size c = record c {
    order = record e { value = value; size = size } ∷ remove_element i c.order;
    bytes = c.bytes + size - e.size;
  }

  unfoldable pub push_front : K → V → ℕ → Lru K V → Lru K V
  push_front key value size c = record c {
    order = record { id = c.next_id; key = key; value = value; size = size } ∷ c.order;
    entries = insert dec key c.next_id c.entries;
    bytes = c.bytes + size;
    next_id = c.next_id + 1;
  }

  -- What `Add` does before `evictLocked`.
  unfoldable pub place : K → V → ℕ → Lru K V → Lru K V
  unfolding replace push_front element_at
  place key value size c = elim (lookup dec key c.entries) [
    | none ↦ push_front key value size c
    | some i ↦ elim (element_at i c.order) [ none ↦ c | some e ↦ replace i e value size c ]
  ]

  -- What `Remove` does to an element that it finds.
  unfoldable pub drop_element : K → ℕ → Element K V → Lru K V → Lru K V
  unfolding remove_element
  drop_element key i e c = record c {
    bytes = c.bytes - e.size;
    order = remove_element i c.order;
    entries = delete dec key c.entries;
  }

  unfoldable pub remove : K → Lru K V → Lru K V
  unfolding drop_element element_at
  remove key c = elim (lookup dec key c.entries) [
    | none ↦ c
    | some i ↦ elim (element_at i c.order) [ none ↦ c | some e ↦ drop_element key i e c ]
  ]

  module _ (size_of : V → ℕ) where
    -- The part of `Add` that holds the lock.
    unfoldable pub add_locked : K → V → Lru K V → Lru K V
    unfolding place evict_locked
    add_locked key value c =
        let size = size_of value in
        if ltb c.max_bytes size then c else evict_locked (place key value size c)

    unfoldable pub add : K → V → Lru K V → Lru K V
    unfolding enabled
    add key value c = if enabled c then add_locked key value c else c
