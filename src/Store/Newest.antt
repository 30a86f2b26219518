-- ===== src/Store/Newest.antt =====
-- Which row answers for a key of the state at a group.
use synapse_gopro_worker.Prelude.{
  ℕ, ◌≤◌, ◌≡◌, ◌≢◌, inl, inr, refl, sym, ap, ◌∙◌, Bool, true, false, ◌&&◌, List, [], ◌∷◌, Option,
  none, some, arith, In, In-keep_if, keep_if-In, keep_if, is_yes, ℕ_discrete, Bool-cases, lookup,
  lookup-insert, if◌then◌else◌, Bytes, subst, ◌↔◌,
}
use synapse_gopro_worker.Store.Types.{StateKey, StateKey-discrete, StateMap}
use synapse_gopro_worker.Store.StateGroups.{
  StateRow, GroupTables, Best, better, newest, scan, has_group, state_where,
}
use synapse_gopro_worker.Store.GroupWalk.{Before, IsDescending, sgs-Before}

abbrev pub find : StateKey → Best → Option (ℕ × Bytes)
find k best = lookup StateKey-discrete k best

-- A row of the key that no row of the key has a higher group than, or no row of the key.
abbrev IsBest : StateKey → List StateRow → Option (ℕ × Bytes) → Type 0
IsBest k rows none = (r : StateRow) → In r rows → r.key ≢ k
IsBest k rows (some (g, id)) =
    ((r : StateRow) × In r rows × (r.key ≡ k) × (r.state_group ≡ g) × (r.event_id ≡ id))
    × ((r : StateRow) → In r rows → r.key ≡ k → r.state_group ≤ g)

-- A row of another key changes nothing.
other_row :
    (k : StateKey) (r : StateRow) (rows : List StateRow) (o : Option (ℕ × Bytes))
    → r.key ≢ k
    → IsBest k rows o
    → IsBest k (r ∷ rows) o
other_row k r rows none other h = apart
  where
    apart : (y : StateRow) → In y (r ∷ rows) → y.key ≢ k
    apart y (inl q) same = other (ap (λ z. z.key) (sym q) ∙ same)
    apart y (inr i) same = h y i same
other_row k r rows (some (g, id)) other ((x, i, a, b, c), top) = ((x, inr i, a, b, c), above)
  where
    above : (y : StateRow) → In y (r ∷ rows) → y.key ≡ k → y.state_group ≤ g
    above y (inl q) same = absurd (other (ap (λ z. z.key) (sym q) ∙ same))
    above y (inr j) same = top y j same

-- A row of the key that the best one is not below.
lower_row :
    (k : StateKey) (r : StateRow) (rows : List StateRow) (g : ℕ) (id : Bytes)
    → r.state_group ≤ g
    → IsBest k rows (some (g, id))
    → IsBest k (r ∷ rows) (some (g, id))
lower_row k r rows g id low ((x, i, a, b, c), top) = ((x, inr i, a, b, c), above)
  where
    above : (y : StateRow) → In y (r ∷ rows) → y.key ≡ k → y.state_group ≤ g
    above y (inl q) same = rw q low
    above y (inr j) same = top y j same

-- A row of the key that is better than the best one.
higher_row :
    (k : StateKey) (r : StateRow) (rows : List StateRow) (o : Option (ℕ × Bytes))
    → r.key ≡ k
    → better r o ≡ true
    → IsBest k rows o
    → IsBest k (r ∷ rows) (some (r.state_group, r.event_id))
unfolding better
higher_row k r rows none same up h = ((r, inl refl, same, refl, refl), above)
  where
    above : (y : StateRow) → In y (r ∷ rows) → y.key ≡ k → y.state_group ≤ r.state_group
    above y (inl q) e = rw q (omega arith)
    above y (inr j) e = absurd (h y j e)
higher_row k r rows (some (g, id)) same up (held, top) = ((r, inl refl, same, refl, refl), above)
  where
    above : (y : StateRow) → In y (r ∷ rows) → y.key ≡ k → y.state_group ≤ r.state_group
    above y (inl q) e = rw q (omega arith)
    above y (inr j) e = ground (arith, top y j e)

not_better :
    (k : StateKey) (r : StateRow) (rows : List StateRow) (o : Option (ℕ × Bytes))
    → better r o ≡ false
    → IsBest k rows o
    → IsBest k (r ∷ rows) o
unfolding better
not_better k r rows none up h = absurd (ground arith)
not_better k r rows (some (g, id)) up h = lower_row k r rows g id (ground arith) h

pub newest-cons :
    (r : StateRow) (rows : List StateRow) (k : StateKey)
    → find k (newest (r ∷ rows)) ≡ (
        if better r (find r.key (newest rows))
        then (if is_yes (StateKey-discrete k r.key)
            then some (r.state_group, r.event_id)
            else find k (newest rows))
        else find k (newest rows))
unfolding newest
newest-cons r rows k =
    ground
      (arith, lookup-insert StateKey-discrete k r.key (r.state_group, r.event_id) (newest rows))

newest-IsBest : (rows : List StateRow) (k : StateKey) → IsBest k rows (find k (newest rows))
unfolding newest lookup
newest-IsBest [] k = λ r i. absurd i
newest-IsBest (r ∷ rows) k =
    let ih = newest-IsBest rows k in
    let step = newest-cons r rows k in
    elim (StateKey-discrete k r.key) [
      | no other ↦
          let e : find k (newest (r ∷ rows)) ≡ find k (newest rows) = ground (arith, step) in
          subst (IsBest k (r ∷ rows)) (sym e) (other_row k r rows _ (λ q. other (sym q)) ih)
      | yes same ↦ elim (Bool-cases (better r (find k (newest rows)))) [
        | inl up ↦
            let e : find k (newest (r ∷ rows)) ≡ some (r.state_group, r.event_id) =
              ground (arith, step) in
            subst (IsBest k (r ∷ rows)) (sym e) (higher_row k r rows _ (sym same) up ih)
        | inr stay ↦
            let e : find k (newest (r ∷ rows)) ≡ find k (newest rows) = ground (arith, step) in
            subst (IsBest k (r ∷ rows)) (sym e) (not_better k r rows _ stay ih)
      ]
    ]

abbrev pub event_of : Option (ℕ × Bytes) → Option Bytes
event_of none = none
event_of (some (n, id)) = some id

pub lookup-scan :
    (k : StateKey) (best : Best) → lookup StateKey-discrete k (scan best) ≡ event_of (find k best)
unfolding lookup scan
lookup-scan k [] = refl
lookup-scan k ((j, (g, id)) ∷ best) = ground (arith, lookup-scan k best)

has_group-In : (g : ℕ) (gs : List ℕ) → has_group g gs ≡ true → In g gs
unfolding has_group
has_group-In g [] h = absurd (ground arith)
has_group-In g (k ∷ gs) h = elim (ℕ_discrete g k) [
  | yes e ↦ inl e
  | no other ↦ inr (has_group-In g gs (ground arith))
]

In-has_group : (g : ℕ) (gs : List ℕ) → In g gs → has_group g gs ≡ true
unfolding has_group
In-has_group g [] i = absurd i
In-has_group g (k ∷ gs) (inl e) = ground arith
In-has_group g (k ∷ gs) (inr i) = ground (arith, In-has_group g gs i)

module _ (test : StateRow → Bool) (t : GroupTables) (g : ℕ) where
  -- A row that counts: of a group that the group builds on, and one that passes the test.
  pub record Counts (r : StateRow) : Type 0 where
    pub held : In r t.state_groups_state
    pub built_on : Before t.state_group_edges g r.state_group
    pub passes : test r ≡ true

  -- The event of a key is that of a row that counts and that no row that counts has a higher group
  -- than; without one, no row that counts has the key.
  abbrev pub IsNewest : StateKey → Option Bytes → Type 0
  IsNewest k none = (r : StateRow) → Counts r → r.key ≢ k
  IsNewest k (some id) =
      (r : StateRow) × Counts r
      × (r.key ≡ k)
      × (r.event_id ≡ id)
      × ((other : StateRow) → Counts other → other.key ≡ k → other.state_group ≤ r.state_group)

  module _ (gs : List ℕ) (same : (h : ℕ) → In h gs ↔ Before t.state_group_edges g h) where
    abbrev chosen : StateRow → Bool
    chosen r = has_group r.state_group gs && test r

    Counts-In : (r : StateRow) → Counts r → In r (keep_if chosen t.state_groups_state)
    Counts-In r c =
        let there : has_group r.state_group gs ≡ true =
          In-has_group r.state_group gs ((same r.state_group).1 c.built_on) in
        keep_if-In r chosen t.state_groups_state c.held (ground (arith, there, c.passes))

    In-Counts : (r : StateRow) → In r (keep_if chosen t.state_groups_state) → Counts r
    In-Counts r i =
        let (held, passed) = In-keep_if r chosen t.state_groups_state i in
        record {
          held = held;
          built_on =
              (same r.state_group).0 (has_group-In r.state_group gs (ground (arith, passed)));
          passes = ground (arith, passed);
        }

    IsBest-IsNewest :
        (k : StateKey) (o : Option (ℕ × Bytes))
        → IsBest k (keep_if chosen t.state_groups_state) o
        → IsNewest k (event_of o)
    IsBest-IsNewest k none h = λ r c. h r (Counts-In r c)
    IsBest-IsNewest k (some (n, id)) ((r, i, a, b, c), top) =
        (r, In-Counts r i, a, c, λ x counts e. omega (arith, top x (Counts-In x counts) e, b))

  -- If groups have higher numbers than those they build on, the query ends, and answers for each key
  -- the event of the highest group that has it, among the group and those it builds on and the rows
  -- that pass the test.
  pub state_where-IsNewest :
      IsDescending t.state_group_edges
      → (m : StateMap) × (state_where test t g ≡ some m)
        × ((k : StateKey) → IsNewest k (lookup StateKey-discrete k m))
  unfolding state_where
  state_where-IsNewest d =
      let (gs, e, same) = sgs-Before t.state_group_edges g d in
      let rows = keep_if (λ r. has_group r.state_group gs && test r) t.state_groups_state in
      (
        scan (newest rows),
        rw (e, state_where),
        λ k.
            subst (IsNewest k) (sym (lookup-scan k (newest rows)))
              (IsBest-IsNewest gs same k (find k (newest rows)) (newest-IsBest rows k)),
      )
