-- ===== src/Cache/Run.antt =====
-- Runs of the cache against runs of its specification, and against what was stored.
use synapse_gopro_worker.Prelude.{
  ℕ, ◌≡◌, inl, inr, refl, Bool, true, false, List, [], ◌∷◌, none, arith, lookup, ap, Bool-cases,
  ltb, ◌∙◌, ◌&&◌, if◌then◌else◌,
}
use synapse_gopro_worker.Cache.Lru.{Lru, new_lru, purge, set_armed, enabled, get, add}
use synapse_gopro_worker.Cache.Elements.{id_of, total}
use synapse_gopro_worker.Cache.Spec.{
  Call, gets, adds, removes, arms, purges, Ideal, step, run, ideal_step, ideal_run,
}
use synapse_gopro_worker.Cache.Refine.{contents, ideal, IsValid}
use synapse_gopro_worker.Cache.Steps.{
  Refines, Refines-same, get_locked_parts, get_locked-Refines, add_locked-Refines, remove-Refines,
}

module _ {K V : Type 0} (dec : Discrete K) (size_of : V → ℕ) where
  pub new_lru-IsValid : (n : ℕ) → IsValid dec size_of (new_lru n)
  unfolding new_lru id_of lookup total
  new_lru-IsValid n = record {
    coherent = record { index = λ k. refl; distinct = tt; fresh = tt; counted = refl };
    sized = tt;
    bounded = omega arith;
    quiet = λ off. refl;
  }

  pub purge-IsValid : (c : Lru K V) → IsValid dec size_of c → IsValid dec size_of (purge c)
  unfolding purge id_of lookup total
  purge-IsValid c v = record {
    coherent = record { index = λ k. refl; distinct = tt; fresh = tt; counted = refl };
    sized = tt;
    bounded = omega arith;
    quiet = λ off. refl;
  }

  -- A cache that differs in its switch alone.
  pub switch-IsValid :
      (c : Lru K V) (b : Bool)
      → (b ≡ false → c.order ≡ [])
      → IsValid dec size_of c
      → IsValid dec size_of (record c { armed = b })
  switch-IsValid c b q v = record {
    coherent = record {
      index = v.coherent.index;
      distinct = v.coherent.distinct;
      fresh = v.coherent.fresh;
      counted = v.coherent.counted;
    };
    sized = v.sized;
    bounded = v.bounded;
    quiet = q;
  }

  -- Each call does to the contents what the specification says, and keeps the cache valid.
  pub step-Refines :
      (call : Call K V) (c : Lru K V)
      → IsValid dec size_of c
      → Refines dec size_of c
          (ideal_step dec size_of c.max_bytes call (ideal c))
          (step dec size_of call c)
  unfolding step ideal_step get add
  step-Refines (gets k) c v = elim (Bool-cases (ltb 0 c.max_bytes && c.armed)) [
    | inl on ↦ rw (on, step, get) (get_locked-Refines dec size_of k c v (ground arith))
    | inr off ↦ rw (off, step, get) (Refines-same dec size_of c v)
  ]
  step-Refines (adds k x) c v = elim (Bool-cases (ltb 0 c.max_bytes && c.armed)) [
    | inl on ↦
        let added = add_locked-Refines dec size_of k c v x (ground arith) in
        elim (Bool-cases (ltb c.max_bytes (size_of x))) [
          | inl big ↦ rw (on, step, add, big) (rw big at added)
          | inr small ↦ rw (on, step, add, small) (rw small at added)
        ]
    | inr off ↦ rw (off, step, add) (Refines-same dec size_of c v)
  ]
  step-Refines (removes k) c v = remove-Refines dec size_of k c v
  step-Refines (arms true) c v =
      unfold set_armed in
      record {
        valid = switch-IsValid c true (λ off. ground arith) v;
        shown = refl;
        switch = refl;
        bound = refl;
      }
  step-Refines (arms false) c v =
      unfold set_armed in
      record {
        valid = switch-IsValid (purge c) false (λ off. unfold purge in refl) (purge-IsValid c v);
        shown = unfold purge in refl;
        switch = refl;
        bound = unfold purge in refl;
      }
  step-Refines purges c v =
      unfold purge in
      record { valid = purge-IsValid c v; shown = refl; switch = refl; bound = refl }

  -- From a valid cache and a specification state that shows the same, any calls keep the cache
  -- valid, its contents and its switch those of the specification, and its bound unchanged.
  pub run-Refines :
      (calls : List (Call K V)) (c : Lru K V) (s : Ideal K V) (max_bytes : ℕ)
      → IsValid dec size_of c
      → c.max_bytes ≡ max_bytes
      → contents c.order ≡ s.items
      → c.armed ≡ s.armed
      → Refines dec size_of c (ideal_run dec size_of max_bytes calls s) (run dec size_of calls c)
  unfolding run ideal_run
  run-Refines [] c s n v e shown switch = record {
    valid = v;
    shown = shown;
    switch = switch;
    bound = refl;
  }
  run-Refines (call ∷ calls) c s n v e shown switch =
      let same : ideal c ≡ s = λ i. record { armed = switch i; items = shown i } in
      let one = step-Refines call c v in
      let exact : ideal_step dec size_of c.max_bytes call (ideal c)
          ≡ ideal_step dec size_of n call s =
        λ i. ideal_step dec size_of (e i) call (same i) in
      let rest =
        run-Refines calls (step dec size_of call c) (ideal_step dec size_of n call s) n one.valid
          (one.bound ∙ e) (one.shown ∙ ap (λ x. x.items) exact)
          (one.switch ∙ ap (λ x. x.armed) exact) in
      record {
        valid = rest.valid;
        shown = rest.shown;
        switch = rest.switch;
        bound = rest.bound ∙ one.bound;
      }

  -- A lookup answers what the contents hold, when the cache is on.
  pub get-answer :
      (k : K) (c : Lru K V)
      → IsValid dec size_of c
      → (get dec k c).1 ≡ (if enabled c then lookup dec k (contents c.order) else none)
  unfolding get enabled
  get-answer k c v = ground (arith, get_locked_parts dec size_of k c v)
