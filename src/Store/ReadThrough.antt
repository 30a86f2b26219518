-- ===== src/Store/ReadThrough.antt =====
-- A read that asks a cache first and adds what the database answers, as GetStateGroupForEvent and
-- GetStateForGroup of internal/store/state.go and serverACL of internal/matrixstate/stateids.go do.
use synapse_gopro_worker.Prelude.{
  ℕ, ◌≡◌, refl, ap, ◌∙◌, sym, Option, none, some, arith, lookup, Bool-cases, inl, inr, subst, ◌⊎◌,
  ltb, ◌&&◌,
}
use synapse_gopro_worker.Cache.Lru.{Lru, enabled, get, add, new_lru}
use synapse_gopro_worker.Cache.Spec.{Call, gets, adds, step}
use synapse_gopro_worker.Cache.Refine.{contents, ideal, IsValid}
use synapse_gopro_worker.Cache.Run.{step-Refines, get-answer, new_lru-IsValid}
use synapse_gopro_worker.Cache.History.{Memory, note, step-Recalls}

module _ {K V : Type 0} (dec : Discrete K) (size_of : V → ℕ) where
  -- What is asked of the database if the cache has no answer.
  unfoldable pub fill : K → Option V → Lru K V → Lru K V × Option V
  fill k none c = (c, none)
  fill k (some v) c = (add dec size_of k v c, some v)

  -- The answer, from what the cache answered.
  unfoldable pub serve : (K → Option V) → K → Lru K V → Option V → Lru K V × Option V
  unfolding fill
  serve fetch k c none = fill k (fetch k) c
  serve fetch k c (some v) = (c, some v)

  unfoldable pub read_through : (K → Option V) → K → Lru K V → Lru K V × Option V
  unfolding serve
  read_through fetch k c = serve fetch k (get dec k c).0 (get dec k c).1

  -- A valid cache whose every entry has a property.
  pub record Holds (P : K → V → Type 0) (c : Lru K V) : Type 0 where
    pub valid : IsValid dec size_of c
    pub entries : (k : K) (v : V) → lookup dec k (contents c.order) ≡ some v → P k v

  -- A new cache has no entry.
  pub new_lru-Holds : (P : K → V → Type 0) (n : ℕ) → Holds P (new_lru n)
  unfolding new_lru lookup
  new_lru-Holds P n = record {
    valid = new_lru-IsValid dec size_of n;
    entries = λ k v e. absurd (ground arith);
  }

  pub get-hit :
      (P : K → V → Type 0) (k : K) (v : V) (c : Lru K V)
      → Holds P c
      → (get dec k c).1 ≡ some v
      → P k v
  get-hit P k v c h e = elim (Bool-cases (enabled c)) [
    | inl on ↦ h.entries k v (ground (arith, on, e, get-answer dec size_of k c h.valid))
    | inr off ↦ absurd (ground (arith, off, e, get-answer dec size_of k c h.valid))
  ]

  -- What the cache holds, as a memory.
  told : Lru K V → Memory K V
  told c = record { armed = c.armed; value = λ k. lookup dec k (contents c.order) }

  step-Holds :
      (P : K → V → Type 0) (call : Call K V) (c : Lru K V)
      → Holds P c
      → ((j : K) (x : V) → (note dec size_of c.max_bytes call (told c)).value j ≡ some x → P j x)
      → Holds P (step dec size_of call c)
  unfolding told
  step-Holds P call c h keeps =
      let r = step-Refines dec size_of call c h.valid in
      let m =
        step-Recalls dec size_of c.max_bytes call (ideal c) (told c)
          (record { switch = refl; known = λ k v e. e }) in
      record {
        valid = r.valid;
        entries = λ k v e. keeps k v (m.known k v (ap (lookup dec k) (sym r.shown) ∙ e));
      }

  pub get-Holds : (P : K → V → Type 0) (k : K) (c : Lru K V) → Holds P c → Holds P (get dec k c).0
  unfolding step note told
  get-Holds P k c h = step-Holds P (gets k) c h h.entries

  -- After `adds`, a value is the new one at its key, or was there before.
  noted_cases :
      (k : K) (v : V) (c : Lru K V) (j : K) (x : V)
      → (note dec size_of c.max_bytes (adds k v) (told c)).value j ≡ some x
      → (j ≡ k) × (v ≡ x) ⊎ (lookup dec j (contents c.order) ≡ some x)
  unfolding note told
  noted_cases k v c j x e = elim (Bool-cases (ltb 0 c.max_bytes && c.armed)) [
    | inr off ↦ inr (ground (arith, off))
    | inl on ↦ elim (Bool-cases (ltb c.max_bytes (size_of v))) [
      | inl big ↦ inr (ground (arith, on, big))
      | inr small ↦ elim (dec j k) [
        | yes same ↦ inl (same, ground (arith, on, small))
        | no other ↦ inr (ground (arith, on, small))
      ]
    ]
  ]

  noted :
      (P : K → V → Type 0) (k : K) (v : V) (c : Lru K V)
      → Holds P c
      → P k v
      → (j : K) (x : V) → (note dec size_of c.max_bytes (adds k v) (told c)).value j ≡ some x
      → P j x
  noted P k v c h p j x e = elim (noted_cases k v c j x e) [
    | inl (same, new) ↦ subst (P j) new (rw same p)
    | inr old ↦ h.entries j x old
  ]

  pub add-Holds :
      (P : K → V → Type 0) (k : K) (v : V) (c : Lru K V)
      → Holds P c
      → P k v
      → Holds P (add dec size_of k v c)
  unfolding step
  add-Holds P k v c h p = step-Holds P (adds k v) c h (noted P k v c h p)

  -- Every entry of the cache is what the database answers.
  abbrev pub IsHonest : (K → Option V) → Lru K V → Type 0
  IsHonest fetch = Holds (λ k v. fetch k ≡ some v)

  fill-IsHonest :
      (fetch : K → Option V) (k : K) (o : Option V) (c : Lru K V)
      → IsHonest fetch c
      → fetch k ≡ o
      → ((fill k o c).1 ≡ fetch k) × IsHonest fetch (fill k o c).0
  unfolding fill
  fill-IsHonest fetch k none c h e = (sym e, h)
  fill-IsHonest fetch k (some v) c h e = (sym e, add-Holds (λ j x. fetch j ≡ some x) k v c h e)

  serve-IsHonest :
      (fetch : K → Option V) (k : K) (hit : Option V) (c : Lru K V)
      → IsHonest fetch c
      → ((v : V) → hit ≡ some v → fetch k ≡ some v)
      → ((serve fetch k c hit).1 ≡ fetch k) × IsHonest fetch (serve fetch k c hit).0
  unfolding serve
  serve-IsHonest fetch k none c h right = fill-IsHonest fetch k (fetch k) c h refl
  serve-IsHonest fetch k (some v) c h right = (sym (right v refl), h)

  -- Reading through a cache whose entries are what the database answers gives what the database
  -- answers, and leaves such a cache.
  pub read_through-IsHonest :
      (fetch : K → Option V) (k : K) (c : Lru K V)
      → IsHonest fetch c
      → ((read_through fetch k c).1 ≡ fetch k) × IsHonest fetch (read_through fetch k c).0
  unfolding read_through
  read_through-IsHonest fetch k c h =
      serve-IsHonest fetch k (get dec k c).1 (get dec k c).0
        (get-Holds (λ j x. fetch j ≡ some x) k c h)
        (λ v e. get-hit (λ j x. fetch j ≡ some x) k v c h e)
