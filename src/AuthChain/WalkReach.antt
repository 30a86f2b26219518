-- ===== src/AuthChain/WalkReach.antt =====
-- The recursive walk ends, and finds just the events that auth edges reach.
use synapse_gopro_worker.Prelude.{
  ℕ, zero, suc, ◌+◌, ◌≤◌, ◌<◌, ◌≡◌, ◌⊎◌, inl, inr, refl, sym, ap, ◌∙◌, Bool, true, false, ◌&&◌,
  List, [], ◌∷◌, some, arith, length, subst, In, Bytes, ◌↔◌, Bool-cases, take, drop, In-keep_if,
  keep_if-In, mentions, mentions-In, In-mentions,
}
use synapse_gopro_worker.AuthChain.Walk.{
  AuthEdge, AuthTables, auth_chain_batch, auth_rows, add_to_set, add_rows, query_batches, absorb,
  walk, auth_chain_ids_recursive, to_set,
}
use synapse_gopro_worker.AuthChain.Absorb.{
  Absorbed, absorb-Absorbed, absorb_progress, unseen, unseen-le, unseen_lt,
}

-- An edge to an auth event that is held.
abbrev pub Edge : AuthTables → Bytes → Bytes → Type 0
Edge t e a = (r : AuthEdge) × In r t.event_auth × (r.event_id ≡ e) × (r.auth_id ≡ a) × In a t.events

-- What the walk should find: what one edge or more lead to.
pub data AuthReaches (t : AuthTables) (ids : List Bytes) : Bytes → Type 0 where
  direct : {a : Bytes} (e : Bytes) → In e ids → Edge t e a → AuthReaches t ids a
  along : {a e : Bytes} → AuthReaches t ids e → Edge t e a → AuthReaches t ids a

both : (a b : Bool) → a ≡ true → b ≡ true → (a && b) ≡ true
both a b p q = ground arith

both_left : (a b : Bool) → (a && b) ≡ true → a ≡ true
both_left a b h = ground arith

both_right : (a b : Bool) → (a && b) ≡ true → b ≡ true
both_right a b h = ground arith

module _ {A : Type 0} where
  In-take : (n : ℕ) (a : A) (xs : List A) → In a (take n xs) → In a xs
  In-take zero a xs m = absurd m
  In-take (suc n) a [] m = m
  In-take (suc n) a (x ∷ xs) (inl q) = inl q
  In-take (suc n) a (x ∷ xs) (inr m) = inr (In-take n a xs m)

  In-drop : (n : ℕ) (a : A) (xs : List A) → In a (drop n xs) → In a xs
  In-drop zero a xs m = m
  In-drop (suc n) a [] m = m
  In-drop (suc n) a (x ∷ xs) m = inr (In-drop n a xs m)

  In-take-drop : (n : ℕ) (a : A) (xs : List A) → In a xs → In a (take n xs) ⊎ In a (drop n xs)
  In-take-drop zero a xs m = inr m
  In-take-drop (suc n) a [] m = absurd m
  In-take-drop (suc n) a (x ∷ xs) (inl q) = inl (inl q)
  In-take-drop (suc n) a (x ∷ xs) (inr m) = elim (In-take-drop n a xs m) [
    | inl k ↦ inl (inr k)
    | inr k ↦ inr k
  ]

  drop_le : (n : ℕ) (xs : List A) (k : ℕ) → length xs ≤ k → length (drop n xs) ≤ k
  drop_le zero xs k h = h
  drop_le (suc n) [] k h = h
  drop_le (suc n) (x ∷ xs) k h = drop_le n xs k (omega arith)

module _ (t : AuthTables) where
  In-add_to_set : (a x : Bytes) (s : List Bytes) → In a (add_to_set x s) ↔ ((a ≡ x) ⊎ In a s)
  unfolding add_to_set
  In-add_to_set a x s = elim (Bool-cases (mentions x s)) [
    | inl e ↦
        rw e
          (inr, λ h. elim h [ inl q ↦ subst (λ y. In y s) (sym q) (mentions-In x s e) | inr m ↦ m ])
    | inr e ↦ rw e (λ m. m, λ m. m)
  ]

  In-add_rows :
      (a : Bytes) (rows : List AuthEdge) (s : List Bytes)
      → In a (add_rows rows s) ↔ (In a s ⊎ ((r : AuthEdge) × In r rows × (r.auth_id ≡ a)))
  unfolding add_rows
  In-add_rows a [] s = (inl, λ h. elim h [ inl m ↦ m | inr (r, m, e) ↦ absurd m ])
  In-add_rows a (r ∷ rows) s =
      let one = In-add_to_set a r.auth_id s in
      let rest = In-add_rows a rows (add_to_set r.auth_id s) in
      (
        λ m. elim (rest.0 m) [
          | inl n ↦ elim (one.0 n) [ inl q ↦ inr (r, inl refl, sym q) | inr k ↦ inl k ]
          | inr (x, k, e) ↦ inr (x, inr k, e)
        ],
        λ h. elim h [
          | inl m ↦ rest.1 (inl (one.1 (inr m)))
          | inr (x, k, e) ↦ elim k [
            | inl q ↦ rest.1 (inl (one.1 (inl (sym e ∙ ap (λ y. y.auth_id) q))))
            | inr k' ↦ rest.1 (inr (x, k', e))
          ]
        ],
      )

  row-Edge :
      (a : Bytes) (ids : List Bytes)
      → ((r : AuthEdge) × In r (auth_rows t ids) × (r.auth_id ≡ a))
        ↔ ((e : Bytes) × In e ids × Edge t e a)
  unfolding auth_rows
  row-Edge a ids = (
    λ (r, m, e).
        let (k, test) = In-keep_if r _ t.event_auth m in
        (
          r.event_id,
          mentions-In r.event_id ids (both_left _ _ test),
          (
            r,
            k,
            refl,
            e,
            subst (λ y. In y t.events) e (mentions-In r.auth_id t.events (both_right _ _ test)),
          ),
        ),
    λ (e, m, g).
        let (r, k, p, q, held) = g in
        (
          r,
          keep_if-In r _ t.event_auth k (
              both _ _ (In-mentions r.event_id ids (subst (λ y. In y ids) (sym p) m))
                (In-mentions r.auth_id t.events (subst (λ y. In y t.events) (sym q) held))),
          q,
        ),
  )

  abbrev Next : List Bytes → List Bytes → Bytes → Type 0
  Next next ids a = In a next ⊎ ((e : Bytes) × In e ids × Edge t e a)

  In-query_batches :
      (n : ℕ) (a : Bytes) (ids next : List Bytes)
      → length ids ≤ n
      → In a (query_batches n t ids next) ↔ Next next ids a
  unfolding query_batches
  In-query_batches zero a [] next h = (inl, λ k. elim k [ inl m ↦ m | inr (e, m, _) ↦ absurd m ])
  In-query_batches zero a (x ∷ ids) next h = absurd (omega arith)
  In-query_batches (suc n) a [] next h = (inl, λ k. elim k [ inl m ↦ m | inr (e, m, _) ↦ absurd m ])
  In-query_batches (suc n) a (x ∷ ids) next h =
      let batch = take auth_chain_batch (x ∷ ids) in
      let rest = drop auth_chain_batch (x ∷ ids) in
      let later =
        In-query_batches n a rest (add_rows (auth_rows t batch) next)
          (drop_le 99 ids n (omega arith)) in
      let here = In-add_rows a (auth_rows t batch) next in
      let rows = row-Edge a batch in
      (
        λ m. elim (later.0 m) [
          | inl k ↦ elim (here.0 k) [
            | inl old ↦ inl old
            | inr r ↦ let (e, i, g) = rows.0 r in inr (e, In-take auth_chain_batch e (x ∷ ids) i, g)
          ]
          | inr (e, i, g) ↦ inr (e, In-drop auth_chain_batch e (x ∷ ids) i, g)
        ],
        λ k. elim k [
          | inl old ↦ later.1 (inl (here.1 (inl old)))
          | inr (e, i, g) ↦ elim (In-take-drop auth_chain_batch e (x ∷ ids) i) [
            | inl j ↦ later.1 (inl (here.1 (inr (rows.1 (e, j, g)))))
            | inr j ↦ later.1 (inr (e, j, g))
          ]
        ],
      )

module _ (t : AuthTables) (ids : List Bytes) where
  -- The invariant of the walk.
  record Loop (front results : List Bytes) : Type 0 where
    sound : (a : Bytes) → In a results → AuthReaches t ids a
    source : (a : Bytes) → In a front → In a ids ⊎ AuthReaches t ids a
    pending : (e a : Bytes) → Edge t e a → In e ids ⊎ In e results → In a results ⊎ In e front

  module _ (front results : List Bytes) (h : Loop front results) where
    next : List Bytes
    next = query_batches (length front) t front []

    after : List Bytes × List Bytes
    after = absorb next (results, [])

    absorbed : Absorbed next (results, []) after
    unfolding after
    absorbed = absorb-Absorbed next (results, [])

    next-Edge : (a : Bytes) → In a next ↔ ((e : Bytes) × In e front × Edge t e a)
    unfolding next
    next-Edge a =
        let n = In-query_batches t (length front) a front [] (omega arith) in
        (λ m. elim (n.0 m) [ inl k ↦ absurd k | inr r ↦ r ], λ r. n.1 (inr r))

    next-AuthReaches : (a : Bytes) → In a next → AuthReaches t ids a
    next-AuthReaches a m =
        let (e, i, g) = (next-Edge a).0 m in
        elim (h.source e i) [ inl start ↦ direct e start g | inr r ↦ along r g ]

    sound' : (a : Bytes) → In a after.0 → AuthReaches t ids a
    sound' a m = elim (absorbed.new a m) [
      | inl old ↦ h.sound a old
      | inr (n, _) ↦ next-AuthReaches a n
    ]

    settle : (e a : Bytes) → Edge t e a → In a results ⊎ In e front → In a after.0
    settle e a g (inl d) = absorbed.kept a d
    settle e a g (inr f) = absorbed.took a ((next-Edge a).1 (e, f, g))

    after-Loop : Loop after.1 after.0
    after-Loop = record {
      sound = sound';
      source = λ a m. elim (absorbed.front_new a m) [ inl k ↦ absurd k | inr k ↦ inr (sound' a k) ];
      pending = λ e a g k. elim k [
        | inl start ↦ inl (settle e a g (h.pending e a g (inl start)))
        | inr m ↦ elim (absorbed.new e m) [
          | inl old ↦ inl (settle e a g (h.pending e a g (inr old)))
          | inr (_, f) ↦ inr f
        ]
      ];
    }

    progress : (after.1 ≡ []) ⊎ (unseen t.event_auth after.0 < unseen t.event_auth results)
    unfolding after
    progress = elim (absorb_progress next (results, [])) [
      | inl e ↦ inl e
      | inr (a, i, n, j) ↦
          let (e, _, g) = (next-Edge a).0 i in
          inr (
            unseen_lt results _ absorbed.kept t.event_auth g.0 g.1
              (subst (λ y. mentions y results ≡ false) (sym g.3) n)
              (subst (λ y. mentions y (absorb next (results, [])).0 ≡ true) (sym g.3)
                (In-mentions a _ j)))
    ]

  -- The walk has found what the edges reach, and nothing else.
  abbrev pub Found : List Bytes → Type 0
  Found out = (a : Bytes) → In a out ↔ AuthReaches t ids a

  module _ (results : List Bytes) (h : Loop [] results) where
    settled : (e a : Bytes) → Edge t e a → In e ids ⊎ In e results → In a results
    settled e a g k = elim (h.pending e a g k) [ inl m ↦ m | inr f ↦ absurd f ]

    complete : {a : Bytes} → AuthReaches t ids a → In a results
    complete {a} (direct e m g) = settled e a g (inl m)
    complete {a} (along {e = e} r g) = settled e a g (inr (complete r))

    done-Found : Found results
    done-Found a = (h.sound a, complete)

  abbrev Finds : ℕ → List Bytes × List Bytes → Type 0
  Finds fuel s = (out : List Bytes) × (walk fuel t s.1 s.0 ≡ some out) × Found out

  walk-Found :
      (fuel : ℕ) (front results : List Bytes)
      → Loop front results
      → unseen t.event_auth results + 2 ≤ fuel
      → Finds fuel (results, front)
  unfolding walk after next
  walk-Found zero front results h enough = absurd (omega arith)
  walk-Found (suc fuel) [] results h enough = (results, refl, done-Found results h)
  walk-Found (suc zero) (x ∷ front) results h enough = absurd (omega arith)
  walk-Found (suc (suc fuel)) (x ∷ front) results h enough =
      let h' = after-Loop (x ∷ front) results h in
      elim (progress (x ∷ front) results h) [
        | inr less ↦ walk-Found (suc fuel) _ _ h' (omega arith)
        | inl none_new ↦
            let r = after (x ∷ front) results h in
            subst (λ f. Finds (suc fuel) (r.0, f)) (sym none_new)
              (r.0, refl, done-Found r.0 (subst (λ f. Loop f r.0) none_new h'))
      ]

  In-to_set : (a : Bytes) (l : List Bytes) → In a (to_set l) ↔ In a l
  unfolding to_set
  In-to_set a [] = (λ m. m, λ m. m)
  In-to_set a (x ∷ l) =
      let one = In-add_to_set t a x (to_set l) in
      let rest = In-to_set a l in
      (
        λ m. elim (one.0 m) [ inl q ↦ inl q | inr k ↦ inr (rest.0 k) ],
        λ m. elim m [ inl q ↦ one.1 (inl q) | inr k ↦ one.1 (inr (rest.1 k)) ],
      )

  -- The recursive walk ends, on every table, cycles and missing events included, and answers just
  -- the events held that one auth edge or more lead to from those that are asked for.
  pub auth_chain_ids_recursive-Found :
      (out : List Bytes) × (auth_chain_ids_recursive t ids ≡ some out) × Found out
  unfolding auth_chain_ids_recursive
  auth_chain_ids_recursive-Found =
      walk-Found (suc (suc (length t.event_auth))) (to_set ids) []
        (record {
          sound = λ a m. absurd m;
          source = λ a m. inl ((In-to_set a ids).0 m);
          pending =
              λ e a g k. elim k [ inl start ↦ inr ((In-to_set e ids).1 start) | inr m ↦ absurd m ];
        })
        (omega (arith, unseen-le t.event_auth []))
