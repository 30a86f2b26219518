-- ===== src/Store/Keyed.antt =====
-- That the state at a group has each key once, so that its entries are what a lookup answers.
use synapse_gopro_worker.Prelude.{
  ℕ, ◌≡◌, ◌≢◌, inl, inr, sym, ap, Bool, List, [], ◌∷◌, some, arith, In, All, All-In, Option-cases,
  Bool-cases, lookup, insert, delete, if_pos, if_neg, keep_if, ◌&&◌,
}
use mathlib.Core.Path.{ap₂}
use synapse_gopro_worker.Store.Types.{StateKey, StateKey-discrete, StateMap}
use synapse_gopro_worker.Store.StateGroups.{
  StateRow, GroupTables, Best, better, newest, scan, has_group, sgs, state_where,
}

module _ {V : Type 0} where
  -- Each key stands once.
  abbrev pub IsKeyed : List (StateKey × V) → Type 0
  IsKeyed [] = Unit
  IsKeyed ((k, v) ∷ m) = All (λ e. e.0 ≢ k) m × IsKeyed m

  All-delete :
      (k j : StateKey) (m : List (StateKey × V))
      → All (λ e. e.0 ≢ j) m
      → All (λ e. e.0 ≢ j) (delete StateKey-discrete k m)
  unfolding delete
  All-delete k j [] a = tt
  All-delete k j ((i, v) ∷ m) a = elim (StateKey-discrete k i) [
    | yes e ↦ rw (if_pos _ e) (All-delete k j m a.1)
    | no other ↦ rw (if_neg _ other) (a.0, All-delete k j m a.1)
  ]

  delete-apart :
      (k : StateKey) (m : List (StateKey × V)) → All (λ e. e.0 ≢ k) (delete StateKey-discrete k m)
  unfolding delete
  delete-apart k [] = tt
  delete-apart k ((i, v) ∷ m) = elim (StateKey-discrete k i) [
    | yes e ↦ rw (if_pos _ e) (delete-apart k m)
    | no other ↦ rw (if_neg _ other) ((λ q. other (sym q)), delete-apart k m)
  ]

  delete-IsKeyed :
      (k : StateKey) (m : List (StateKey × V)) → IsKeyed m → IsKeyed (delete StateKey-discrete k m)
  unfolding delete
  delete-IsKeyed k [] h = tt
  delete-IsKeyed k ((i, v) ∷ m) h = elim (StateKey-discrete k i) [
    | yes e ↦ rw (if_pos _ e) (delete-IsKeyed k m h.1)
    | no other ↦ rw (if_neg _ other) (All-delete k i m h.0, delete-IsKeyed k m h.1)
  ]

  insert-IsKeyed :
      (k : StateKey) (v : V) (m : List (StateKey × V))
      → IsKeyed m
      → IsKeyed (insert StateKey-discrete k v m)
  unfolding insert
  insert-IsKeyed k v m h = (delete-apart k m, delete-IsKeyed k m h)

  pub lookup-In :
      (k : StateKey) (v : V) (m : List (StateKey × V))
      → lookup StateKey-discrete k m ≡ some v
      → In (k, v) m
  unfolding lookup
  lookup-In k v [] h = absurd (ground arith)
  lookup-In k v ((j, w) ∷ m) h = elim (StateKey-discrete k j) [
    | yes e ↦ let q : v ≡ w = ground (arith, e) in inl (ap₂ (λ a b. (a, b)) e q)
    | no other ↦ inr (lookup-In k v m (ground arith))
  ]

  pub In-lookup :
      (k : StateKey) (v : V) (m : List (StateKey × V))
      → IsKeyed m
      → In (k, v) m
      → lookup StateKey-discrete k m ≡ some v
  unfolding lookup
  In-lookup k v [] h i = absurd i
  In-lookup k v ((j, w) ∷ m) h (inl q) =
      let same : k ≡ j = ap (λ e. e.0) q in
      let value : v ≡ w = ap (λ e. e.1) q in ground (arith, same, value)
  In-lookup k v ((j, w) ∷ m) h (inr i) =
      let other : k ≢ j = All-In (λ e. e.0 ≢ j) (k, v) m h.0 i in
      ground (arith, other, In-lookup k v m h.1 i)

newest-IsKeyed : (rows : List StateRow) → IsKeyed (newest rows)
unfolding newest
newest-IsKeyed [] = tt
newest-IsKeyed (r ∷ rows) =
    elim (Bool-cases (better r (lookup StateKey-discrete r.key (newest rows)))) [
      | inl up ↦
          rw up
            (insert-IsKeyed r.key (r.state_group, r.event_id) (newest rows) (newest-IsKeyed rows))
      | inr stay ↦ rw stay (newest-IsKeyed rows)
    ]

scan-apart : (k : StateKey) (best : Best) → All (λ e. e.0 ≢ k) best → All (λ e. e.0 ≢ k) (scan best)
unfolding scan
scan-apart k [] a = tt
scan-apart k ((j, (g, id)) ∷ best) a = (a.0, scan-apart k best a.1)

scan-IsKeyed : (best : Best) → IsKeyed best → IsKeyed (scan best)
unfolding scan
scan-IsKeyed [] h = tt
scan-IsKeyed ((j, (g, id)) ∷ best) h = (scan-apart j best h.0, scan-IsKeyed best h.1)

-- The answer of a query has each key once.
pub state_where-IsKeyed :
    (test : StateRow → Bool) (t : GroupTables) (g : ℕ) (m : StateMap)
    → state_where test t g ≡ some m
    → IsKeyed m
unfolding state_where
state_where-IsKeyed test t g m h = elim (Option-cases (sgs t.state_group_edges g)) [
  | inl no_groups ↦ absurd (ground (arith, no_groups))
  | inr (gs, found) ↦
      let rows = keep_if (λ r. has_group r.state_group gs && test r) t.state_groups_state in
      let shown : scan (newest rows) ≡ m = ground (arith, found) in
      rw (← shown) (scan-IsKeyed (newest rows) (newest-IsKeyed rows))
]
