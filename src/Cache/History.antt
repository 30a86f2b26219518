-- ===== src/Cache/History.antt =====
-- What a hit answers, against everything that was stored before it.
use synapse_gopro_worker.Prelude.{
  ℕ, ◌-◌, ◌≤◌, ◌≡◌, inl, inr, refl, Bool, true, false, List, [], ◌∷◌, Option, none, some, ite,
  arith, length, lookup, sym, ap, insert, Option-cases, ltb, ◌∙◌, ◌&&◌, if◌then◌else◌,
  lookup-insert, lookup-delete,
}
use synapse_gopro_worker.Cache.Lru.{
  Lru, new_lru, purge, set_armed, enabled, get, add_locked, add, evict_locked, place, element_at,
}
use synapse_gopro_worker.Cache.Coherent.{evict_loop-switch}
use synapse_gopro_worker.Cache.Spec.{
  Call, gets, adds, removes, arms, purges, Ideal, run, fitting, touched, ideal_step, ideal_run,
}
use synapse_gopro_worker.Cache.Refine.{contents, IsValid}
use synapse_gopro_worker.Cache.Steps.{add_locked-Refines}
use synapse_gopro_worker.Cache.Run.{
  new_lru-IsValid, purge-IsValid, switch-IsValid, run-Refines, get-answer,
}

-- The last value that was accepted for each key since it was last dropped on purpose.
pub record Memory (K V : Type 0) : Type 0 where
  pub armed : Bool
  pub value : K → Option V

-- Nothing has been stored yet.
abbrev pub blank : {K V : Type 0} → Memory K V
blank = record { armed = true; value = λ k. none }

module _ {K V : Type 0} (dec : Discrete K) (size_of : V → ℕ) (max_bytes : ℕ) where
  unfoldable pub note : Call K V → Memory K V → Memory K V
  note (gets k) m = m
  note (adds k v) m =
      if ltb 0 max_bytes && m.armed
      then if ltb max_bytes (size_of v)
        then m
        else record m { value = λ j. ite (dec j k) (some v) (m.value j) }
      else m
  note (removes k) m = record m { value = λ j. ite (dec j k) none (m.value j) }
  note (arms b) m = record { armed = b; value = if b then m.value else (λ _. none) }
  note purges m = record m { value = λ _. none }

  unfoldable pub note_all : List (Call K V) → Memory K V → Memory K V
  note_all [] m = m
  note_all (call ∷ calls) m = note_all calls (note call m)

  pub record Recalls (s : Ideal K V) (m : Memory K V) : Type 0 where
    pub switch : s.armed ≡ m.armed
    pub known : (k : K) (v : V) → lookup dec k s.items ≡ some v → m.value k ≡ some v

  lookup-fitting :
      (n : ℕ) (k : K) (v : V) (l : List (K × V))
      → lookup dec k (fitting dec size_of n l) ≡ some v
      → lookup dec k l ≡ some v
  unfolding fitting lookup
  lookup-fitting n k v [] h = h
  lookup-fitting n k v ((j, w) ∷ l) h = ground (arith, lookup-fitting (n - size_of w) k v l)

  lookup-touched :
      (k j : K) (l : List (K × V))
      → lookup dec j (touched dec size_of max_bytes k l) ≡ lookup dec j l
  unfolding touched
  lookup-touched k j l = elim (Option-cases (lookup dec k l)) [
    | inl e ↦ rw (e, touched)
    | inr (v, e) ↦ rw (e, touched) (lookup-insert dec j k v l ∙ ground arith)
  ]

  lookup-kept :
      (j k : K) (x v : V) (l : List (K × V))
      → lookup dec j (fitting dec size_of max_bytes (insert dec k x l)) ≡ some v
      → ite (dec j k) (some x) (lookup dec j l) ≡ some v
  lookup-kept j k x v l h =
      sym (lookup-insert dec j k x l) ∙ lookup-fitting max_bytes j v (insert dec k x l) h

  pub step-Recalls :
      (call : Call K V) (s : Ideal K V) (m : Memory K V)
      → Recalls s m
      → Recalls (ideal_step dec size_of max_bytes call s) (note call m)
  unfolding ideal_step note
  step-Recalls (gets k) s m r = record {
    switch = ground arith;
    known = λ j v h. r.known j v (ground (arith, lookup-touched k j s.items));
  }
  step-Recalls (adds k x) s m r = record {
    switch = ground arith;
    known = λ j v h. ground (arith, lookup-kept j k x v s.items, r.known j v);
  }
  step-Recalls (removes k) s m r = record {
    switch = r.switch;
    known = λ j v h. ground (arith, lookup-delete dec j k s.items, r.known j v);
  }
  step-Recalls (arms true) s m r = record { switch = refl; known = r.known }
  step-Recalls (arms false) s m r = record {
    switch = refl;
    known = λ j v h. unfold lookup in ground arith;
  }
  step-Recalls purges s m r = record {
    switch = r.switch;
    known = λ j v h. unfold lookup in ground arith;
  }

  run-Recalls :
      (calls : List (Call K V)) (s : Ideal K V) (m : Memory K V)
      → Recalls s m
      → Recalls (ideal_run dec size_of max_bytes calls s) (note_all calls m)
  unfolding ideal_run note_all
  run-Recalls [] s m r = r
  run-Recalls (call ∷ calls) s m r = run-Recalls calls _ _ (step-Recalls call s m r)

  -- After any calls on a new cache, a value that `Get` answers is the value that was accepted last
  -- for the key, and not removed, purged or disarmed away since.
  pub get-run :
      (calls : List (Call K V)) (k : K) (v : V)
      → (get dec k (run dec size_of calls (new_lru max_bytes))).1 ≡ some v
      → (note_all calls blank).value k ≡ some v
  unfolding new_lru lookup
  get-run calls k v h =
      let start : Ideal K V = record { armed = true; items = [] } in
      let r =
        run-Refines dec size_of calls (new_lru max_bytes) start max_bytes
          (new_lru-IsValid dec size_of max_bytes) refl refl refl in
      let m =
        run-Recalls calls start blank (record { switch = refl; known = λ k v h. ground arith }) in
      m.known k v
        (ap (lookup dec k) (sym r.shown) ∙ ground (arith, h, get-answer dec size_of k _ r.valid))

module _ {K V : Type 0} (dec : Discrete K) (size_of : V → ℕ) where
  add_locked-answer :
      (k : K) (v : V) (c : Lru K V)
      → IsValid dec size_of c
      → c.armed ≡ true
      → size_of v ≤ c.max_bytes
      → lookup dec k (contents (add_locked dec size_of k v c).order) ≡ some v
  unfolding fitting lookup insert
  add_locked-answer k v c i on fits =
      ap (lookup dec k) (add_locked-Refines dec size_of k c i v on).shown ∙ ground arith

  -- On a valid cache that is armed and has room for bytes, a value that fits alone is found right
  -- after it was added, whatever had to be evicted for it.
  pub get-add :
      (k : K) (v : V) (c : Lru K V)
      → IsValid dec size_of c
      → enabled c ≡ true
      → size_of v ≤ c.max_bytes
      → (get dec k (add dec size_of k v c)).1 ≡ some v
  unfolding enabled
  get-add k v c i on fits =
      let r = add_locked-Refines dec size_of k c i v (ground arith) in
      let added : add dec size_of k v c ≡ add_locked dec size_of k v c =
        unfold add in ground arith in
      rw added (
        get-answer dec size_of k _ r.valid
        ∙ ground (arith, r.bound, r.switch, add_locked-answer k v c i (ground arith) fits))

  place-switch :
      (k : K) (v : V) (n : ℕ) (b : Bool) (c : Lru K V)
      → place dec k v n (record c { armed = b }) ≡ record (place dec k v n c) { armed = b }
  unfolding place
  place-switch k v n b c = elim (Option-cases (lookup dec k c.entries)) [
    | inl e ↦ rw (e, place)
    | inr (i, e) ↦ elim (Option-cases (element_at i c.order)) [
      | inl m ↦ rw (e, place, m)
      | inr (x, m) ↦ rw (e, place, m)
    ]
  ]

  evict_locked-switch :
      (b : Bool) (c : Lru K V)
      → evict_locked dec (record c { armed = b }) ≡ record (evict_locked dec c) { armed = b }
  unfolding evict_locked
  evict_locked-switch b c = evict_loop-switch dec (length c.order) b c

  add_locked-switch :
      (k : K) (v : V) (b : Bool) (c : Lru K V)
      → size_of v ≤ c.max_bytes
      → add_locked dec size_of k v (record c { armed = b })
        ≡ record (add_locked dec size_of k v c) { armed = b }
  unfolding add_locked
  add_locked-switch k v b c fits =
      let p = place dec k v (size_of v) c in
      let small : ltb c.max_bytes (size_of v) ≡ false = ground arith in
      rw (small, add_locked)
        (ap (evict_locked dec) (place-switch k v (size_of v) b c) ∙ evict_locked-switch b p)

  -- `Add` tests the switch before it takes the lock. If a valid cache that is on is disarmed in
  -- between, a value that fits is stored in the disarmed cache all the same, and is served once the
  -- cache is armed again.
  pub get-late_add :
      (k : K) (v : V) (c : Lru K V)
      → IsValid dec size_of c
      → enabled c ≡ true
      → size_of v ≤ c.max_bytes
      → (get dec k (set_armed true (add_locked dec size_of k v (set_armed false c)))).1 ≡ some v
  unfolding enabled set_armed purge
  get-late_add k v c i on fits =
      let empty : Lru K V = record c { entries = []; order = []; bytes = 0 } in
      let valid : IsValid dec size_of empty = unfold purge in purge-IsValid dec size_of c i in
      let r = add_locked-Refines dec size_of k empty valid v (ground arith) in
      rw (add_locked-switch k v false empty fits) (
        get-answer dec size_of k _ (switch-IsValid dec size_of _ true (λ off. ground arith) r.valid)
        ∙ ground (arith, r.bound, add_locked-answer k v empty valid (ground arith) fits))
