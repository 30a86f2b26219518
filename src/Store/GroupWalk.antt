-- ===== src/Store/GroupWalk.antt =====
-- The groups that the recursive query finds.
use synapse_gopro_worker.Prelude.{
  ℕ, zero, suc, ◌<◌, ◌≡◌, inl, inr, refl, sym, List, [], ◌∷◌, ◌++◌, some, arith, In, All, All-In,
  In-append_left, In-append_right, In-append_cases, In-map, map-In, In-keep_if, keep_if-In, keep_if,
  Option-cases, ◌↔◌,
}
use synapse_gopro_worker.Store.StateGroups.{GroupEdge, prev_groups, round, groups_from, sgs}

-- A group that the deltas of another build on, or that group itself.
pub data Before (edges : List GroupEdge) (g : ℕ) : ℕ → Type 0 where
  here : Before edges g g
  prev :
      {h p : ℕ}
      → Before edges g h
      → (e : GroupEdge) → In e edges
      → e.state_group ≡ h
      → e.prev_state_group ≡ p
      → Before edges g p

-- A group has a higher number than those it builds on.
abbrev pub IsDescending : List GroupEdge → Type 0
IsDescending edges = All (λ e. e.prev_state_group < e.state_group) edges

-- Walks join.
Before-trans :
    {edges : List GroupEdge} {g h p : ℕ} → Before edges g h → Before edges h p → Before edges g p
Before-trans w here = w
Before-trans w (prev v e i from to) = prev (Before-trans w v) e i from to

module _ (edges : List GroupEdge) where
  prev_groups-edge :
      (g p : ℕ)
      → In p (prev_groups edges g)
      → (e : GroupEdge) × In e edges × (e.state_group ≡ g) × (e.prev_state_group ≡ p)
  unfolding prev_groups
  prev_groups-edge g p m =
      let (e, i, q) = In-map (λ x. x.prev_state_group) p (keep_if _ edges) m in
      let (j, test) = In-keep_if e _ edges i in (e, j, ground arith, sym q)

  edge-prev_groups :
      (e : GroupEdge) → In e edges → In e.prev_state_group (prev_groups edges e.state_group)
  unfolding prev_groups
  edge-prev_groups e i =
      map-In (λ x. x.prev_state_group) e (keep_if _ edges) (keep_if-In e _ edges i (ground arith))

  round-edge :
      (gs : List ℕ) (p : ℕ)
      → In p (round edges gs)
      → (e : GroupEdge) × In e edges × In e.state_group gs × (e.prev_state_group ≡ p)
  unfolding round
  round-edge [] p m = absurd m
  round-edge (g ∷ gs) p m = elim (In-append_cases p (prev_groups edges g) (round edges gs) m) [
    | inl a ↦ let (e, i, s, q) = prev_groups-edge g p a in (e, i, inl s, q)
    | inr b ↦ let (e, i, s, q) = round-edge gs p b in (e, i, inr s, q)
  ]

  edge-round :
      (gs : List ℕ) (e : GroupEdge)
      → In e edges
      → In e.state_group gs
      → In e.prev_state_group (round edges gs)
  unfolding round
  edge-round [] e i s = absurd s
  edge-round (g ∷ gs) e i (inl q) =
      In-append_left e.prev_state_group (prev_groups edges g) (round edges gs)
        (rw (← q) (edge-prev_groups e i))
  edge-round (g ∷ gs) e i (inr s) =
      In-append_right e.prev_state_group (prev_groups edges g) (round edges gs)
        (edge-round gs e i s)

  -- A member of a list that is below a bound, one by one.
  each-All : (n : ℕ) (gs : List ℕ) → ((g : ℕ) → In g gs → g < n) → All (λ g. g < n) gs
  each-All n [] h = tt
  each-All n (g ∷ gs) h = (h g (inl refl), each-All n gs (λ k i. h k (inr i)))

  -- With a round for each number, the query ends.
  groups_from-total :
      (n : ℕ) (gs : List ℕ)
      → IsDescending edges
      → All (λ g. g < n) gs
      → (r : List ℕ) × (groups_from (suc n) edges gs ≡ some r)
  unfolding groups_from
  groups_from-total n [] d b = ([], refl)
  groups_from-total zero (g ∷ gs) d b = absurd (omega arith)
  groups_from-total (suc n) (g ∷ gs) d b =
      let below : All (λ p. p < n) (round edges (g ∷ gs)) =
        each-All n (round edges (g ∷ gs)) (λ p m.
          let (e, i, s, q) = round-edge (g ∷ gs) p m in
          omega (arith, All-In _ e edges d i, All-In _ e.state_group (g ∷ gs) b s, q)) in
      let (r, e) = groups_from-total n (round edges (g ∷ gs)) d below in
      ((g ∷ gs) ++ r, rw (e, groups_from))

  -- A round of a query that ends: the groups at hand, and what the rounds after it find.
  groups_from-cons :
      (n g : ℕ) (gs r : List ℕ)
      → groups_from (suc n) edges (g ∷ gs) ≡ some r
      → (more : List ℕ) × (groups_from n edges (round edges (g ∷ gs)) ≡ some more)
        × (r ≡ (g ∷ gs) ++ more)
  unfolding groups_from
  groups_from-cons n g gs r h = elim (Option-cases (groups_from n edges (round edges (g ∷ gs)))) [
    | inl e ↦ absurd (ground (arith, e))
    | inr (more, e) ↦ (more, e, ground (arith, e))
  ]

  groups_from-start :
      (n : ℕ) (gs r : List ℕ) → groups_from n edges gs ≡ some r → (g : ℕ) → In g gs → In g r
  unfolding groups_from
  groups_from-start zero gs r h g i = absurd (ground arith)
  groups_from-start (suc n) [] r h g i = absurd i
  groups_from-start (suc n) (k ∷ gs) r h g i =
      let (more, e, q) = groups_from-cons n k gs r h in rw q (In-append_left g (k ∷ gs) more i)

  groups_from-Before :
      (n : ℕ) (gs r : List ℕ)
      → groups_from n edges gs ≡ some r
      → (h : ℕ) → In h r
      → (g : ℕ) × In g gs × Before edges g h
  unfolding groups_from
  groups_from-Before zero gs r e h i = absurd (ground arith)
  groups_from-Before (suc n) [] r e h i = let same : r ≡ [] = ground arith in absurd (rw same at i)
  groups_from-Before (suc n) (k ∷ gs) r e h i =
      let (more, rest, q) = groups_from-cons n k gs r e in
      let held : In h ((k ∷ gs) ++ more) = rw q at i in
      elim (In-append_cases h (k ∷ gs) more held) [
        | inl a ↦ (h, a, here)
        | inr b ↦
            let (p, j, walk) = groups_from-Before n (round edges (k ∷ gs)) more rest h b in
            let (x, at_x, from, to) = round-edge (k ∷ gs) p j in
            (x.state_group, from, Before-trans (prev here x at_x refl to) walk)
      ]

  groups_from-prev :
      (n : ℕ) (gs r : List ℕ)
      → groups_from n edges gs ≡ some r
      → (e : GroupEdge) → In e edges
      → In e.state_group r
      → In e.prev_state_group r
  unfolding groups_from
  groups_from-prev zero gs r h e at_e i = absurd (ground arith)
  groups_from-prev (suc n) [] r h e at_e i =
      let same : r ≡ [] = ground arith in absurd (rw same at i)
  groups_from-prev (suc n) (k ∷ gs) r h e at_e i =
      let (more, rest, q) = groups_from-cons n k gs r h in
      let held : In e.state_group ((k ∷ gs) ++ more) = rw q at i in
      rw q (
        In-append_right e.prev_state_group (k ∷ gs) more
          (elim (In-append_cases e.state_group (k ∷ gs) more held) [
            | inl a ↦
                groups_from-start n (round edges (k ∷ gs)) more rest e.prev_state_group
                  (edge-round (k ∷ gs) e at_e a)
            | inr b ↦ groups_from-prev n (round edges (k ∷ gs)) more rest e at_e b
          ]))

  Before-In :
      (r : List ℕ) (g h : ℕ)
      → ((e : GroupEdge) → In e edges → In e.state_group r → In e.prev_state_group r)
      → In g r
      → Before edges g h
      → In h r
  Before-In r g h closed i here = i
  Before-In r g h closed i (prev {h = k} walk e at_e from to) =
      let held : In k r = Before-In r g k closed i walk in rw (← to) (closed e at_e (rw from held))

  -- If groups have higher numbers than those they build on, the query ends, and finds just the groups
  -- that a group builds on, itself included.
  pub sgs-Before :
      (g : ℕ)
      → IsDescending edges
      → (r : List ℕ) × (sgs edges g ≡ some r) × ((h : ℕ) → In h r ↔ Before edges g h)
  unfolding sgs
  sgs-Before g d =
      let (r, e) = groups_from-total (suc g) (g ∷ []) d (omega arith) in
      (
        r,
        e,
        λ h. (
          (λ i. only (groups_from-Before (suc (suc g)) (g ∷ []) r e h i)),
          (λ walk.
              Before-In r g h (groups_from-prev (suc (suc g)) (g ∷ []) r e)
                (groups_from-start (suc (suc g)) (g ∷ []) r e g (inl refl)) walk),
        ),
      )
    where
      only : {h : ℕ} → (k : ℕ) × In k (g ∷ []) × Before edges k h → Before edges g h
      only (k, inl same, walk) = rw (← same) walk
      only (k, inr m, walk) = absurd m
