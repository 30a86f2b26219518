-- ===== src/MissingEvents/Loops.antt =====
-- What the loop over the frontier keeps, and what it has looked at when it ends.
use synapse_gopro_worker.Prelude.{
  ℕ, zero, suc, ◌+◌, ◌-◌, ◌≤◌, ◌<◌, ◌≡◌, ◌⊎◌, ◌↔◌, inl, inr, refl, sym, true, false, List, [], ◌∷◌,
  arith, length, subst, In, Bytes, Bool-cases, leb, take, length-take,
}
use synapse_gopro_worker.MissingEvents.Walk.{
  Progress, collect, Tables, all_prev, prev_events, visit,
}
use synapse_gopro_worker.MissingEvents.Sound.{
  Grows, Grows-refl, Grows-trans, collect-Grows, collect-seen, collect-length, Missing,
  before_start, before_missing, IsSound, collect-IsSound,
}

take-In : (n : ℕ) (x : Bytes) (xs : List Bytes) → In x (take n xs) → In x xs
take-In zero x xs m = absurd m
take-In (suc n) x [] m = m
take-In (suc n) x (y ∷ xs) (inl q) = inl q
take-In (suc n) x (y ∷ xs) (inr m) = inr (take-In n x xs m)

In-take : (n : ℕ) (x : Bytes) (xs : List Bytes) → length xs ≤ n → In x xs → In x (take n xs)
In-take n x [] le m = absurd m
In-take zero x (y ∷ xs) le m = absurd (omega arith)
In-take (suc n) x (y ∷ xs) le (inl q) = inl q
In-take (suc n) x (y ∷ xs) le (inr m) = inr (In-take n x xs (omega arith) m)

-- What is known of an order, the database's or that of `sort.Strings`: it moves elements.
pub record IsSorting (sort : List Bytes → List Bytes) : Type 0 where
  pub elements : (x : Bytes) (xs : List Bytes) → In x (sort xs) ↔ In x xs
  pub as_long : (xs : List Bytes) → length (sort xs) ≡ length xs

module _ (t : Tables) (room : Bytes) (order_by : List Bytes → List Bytes)
    (ordering : IsSorting order_by) where
  visit-full :
      (limit : ℕ) (id : Bytes) (front : List Bytes) (p : Progress)
      → leb limit (length p.results) ≡ true
      → visit t room order_by limit (id ∷ front) p ≡ p
  unfolding visit
  visit-full limit id front p full = ground (arith, full)

  -- The progress after an event of the frontier.
  abbrev after_one : ℕ → Bytes → Progress → Progress
  after_one limit id p = collect (prev_events t room order_by id (limit - length p.results)) p

  visit-more :
      (limit : ℕ) (id : Bytes) (front : List Bytes) (p : Progress)
      → leb limit (length p.results) ≡ false
      → visit t room order_by limit (id ∷ front) p
        ≡ visit t room order_by limit front (after_one limit id p)
  unfolding visit
  visit-more limit id front p more = ground (arith, more)

  prev_events-length : (id : Bytes) (n : ℕ) → length (prev_events t room order_by id n) ≤ n
  unfolding prev_events
  prev_events-length id n = omega (arith, length-take n (order_by (all_prev t room id)))

  prev_events-In :
      (id : Bytes) (n : ℕ) (x : Bytes)
      → In x (prev_events t room order_by id n)
      → In x (all_prev t room id)
  unfolding prev_events
  prev_events-In id n x m =
      (ordering.elements x (all_prev t room id)).0 (take-In n x (order_by (all_prev t room id)) m)

  In-prev_events :
      (id : Bytes) (n : ℕ) (x : Bytes)
      → length (all_prev t room id) ≤ n
      → In x (all_prev t room id)
      → In x (prev_events t room order_by id n)
  unfolding prev_events
  In-prev_events id n x le m =
      In-take n x (order_by (all_prev t room id))
        (omega (arith, le, ordering.as_long (all_prev t room id)))
        ((ordering.elements x (all_prev t room id)).1 m)

  pub visit-Grows :
      (limit : ℕ) (front : List Bytes) (p : Progress)
      → Grows p (visit t room order_by limit front p)
  unfolding visit
  visit-Grows limit [] p = Grows-refl p
  visit-Grows limit (id ∷ front) p = elim (Bool-cases (leb limit (length p.results))) [
    | inl full ↦ subst (Grows p) (sym (visit-full limit id front p full)) (Grows-refl p)
    | inr more ↦ subst (Grows p) (sym (visit-more limit id front p more)) (
        Grows-trans (collect-Grows (prev_events t room order_by id (limit - length p.results)) p)
          (visit-Grows limit front (after_one limit id p)))
  ]

  -- If no event has more events before it than the budget that is left at the end, all of them are
  -- seen.
  pub visit-seen :
      (limit most : ℕ) (front : List Bytes) (p : Progress) (id x : Bytes)
      → ((y : Bytes) → length (all_prev t room y) ≤ most)
      → length (visit t room order_by limit front p).results + most ≤ limit
      → length (visit t room order_by limit front p).results < limit
      → In id front
      → In x (all_prev t room id)
      → In x (visit t room order_by limit front p).seen
  visit-seen limit most [] p id x few room_left below m behind = absurd m
  visit-seen limit most (j ∷ front) p id x few room_left below m behind =
      elim (Bool-cases (leb limit (length p.results))) [
        | inl full ↦
            let e = visit-full limit j front p full in
            absurd (ground (arith, full, subst (λ q. length q.results < limit) e below))
        | inr more ↦
            let e = visit-more limit j front p more in
            let left = subst (λ q. length q.results + most ≤ limit) e room_left in
            let under = subst (λ q. length q.results < limit) e below in
            let rest = visit-Grows limit front (after_one limit j p) in
            let first =
              collect-Grows (prev_events t room order_by j (limit - length p.results)) p in
            subst (λ q. In x q.seen) (sym e)
              (elim m [
                | inr further ↦
                    visit-seen limit most front (after_one limit j p) id x few left under further
                      behind
                | inl here ↦ rest.seen x (
                    collect-seen (prev_events t room order_by j (limit - length p.results)) p x (
                      In-prev_events j (limit - length p.results) x
                        (omega (arith, few j, left, rest.longer, first.longer))
                        (subst (λ y. In x (all_prev t room y)) here behind)))
              ])
      ]

  module _ (earliest starts : List Bytes) where
    -- An event that the walk looks behind.
    abbrev pub IsFront : Bytes → Type 0
    IsFront id = In id starts ⊎ Missing t room earliest starts id

    behind_front :
        (id : Bytes) (n : ℕ) (x : Bytes)
        → IsFront id
        → In x (prev_events t room order_by id n)
        → (In x earliest → ⊥)
        → Missing t room earliest starts x
    behind_front id n x (inl s) m new = before_start id s (prev_events-In id n x m) new
    behind_front id n x (inr y) m new = before_missing id y (prev_events-In id n x m) new

    abbrev pub IsBounded : ℕ → Progress → Type 0
    IsBounded limit p = IsSound t room earliest starts p × (length p.results ≤ limit)

    pub visit-IsBounded :
        (limit : ℕ) (front : List Bytes) (p : Progress)
        → ((id : Bytes) → In id front → IsFront id)
        → IsBounded limit p
        → IsBounded limit (visit t room order_by limit front p)
    unfolding visit
    visit-IsBounded limit [] p known s = s
    visit-IsBounded limit (id ∷ front) p known (s, le) =
        elim (Bool-cases (leb limit (length p.results))) [
          | inl full ↦ subst (IsBounded limit) (sym (visit-full limit id front p full)) (s, le)
          | inr more ↦
              let n = limit - length p.results in
              let prev = prev_events t room order_by id n in
              subst (IsBounded limit) (sym (visit-more limit id front p more)) (
                visit-IsBounded limit front (after_one limit id p) (λ j m. known j (inr m))
                  (
                    collect-IsSound t room earliest starts prev p s
                        (λ x. behind_front id n x (known id (inl refl))),
                    omega (arith, le, collect-length prev p, prev_events-length id n),
                  ))
        ]
