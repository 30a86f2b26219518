-- ===== src/Store/Views.antt =====
-- That a filtered view, from whichever source, says what the query says.
use synapse_gopro_worker.Prelude.{
  ℕ, ◌≡◌, inl, inr, refl, sym, ap, ◌∙◌, Bool, true, false, ◌&&◌, List, [], ◌∷◌, Option, none, some,
  arith, keep_if, is_yes, Option-cases, Bool-cases, lookup, if◌then◌else◌, Bytes,
}
use synapse_gopro_worker.Store.Types.{StateKey, StateKey-discrete, StateMap}
use synapse_gopro_worker.Store.StateGroups.{
  StateRow, GroupTables, Best, better, newest, scan, has_group, sgs, state_where, state_for_group,
}
use synapse_gopro_worker.Store.Newest.{find, newest-cons, event_of, lookup-scan}
use synapse_gopro_worker.Store.Filtered.{filter_state, filtered_state}

-- Two state maps that answer alike.
abbrev pub Agree : StateMap → StateMap → Type 0
Agree m n = (k : StateKey) → lookup StateKey-discrete k m ≡ lookup StateKey-discrete k n

if_event :
    (b : Bool) (o : Option (ℕ × Bytes))
    → (if b then event_of o else none) ≡ event_of (if b then o else none)
if_event true o = refl
if_event false o = refl

module _ (test : StateKey → Bool) where
  pub lookup-filter_state :
      (k : StateKey) (m : StateMap)
      → lookup StateKey-discrete k (filter_state test m)
        ≡ (if test k then lookup StateKey-discrete k m else none)
  unfolding lookup filter_state
  lookup-filter_state k [] = ground arith
  lookup-filter_state k ((j, id) ∷ m) = elim (StateKey-discrete k j) [
    | yes e ↦ ground (arith, e, ap test e, lookup-filter_state k m)
    | no other ↦ ground (arith, lookup-filter_state k m)
  ]

  module _ (p : StateRow → Bool) where
    abbrev picked : List StateRow → Best
    picked rows = newest (keep_if (λ r. p r && test r.key) rows)

    abbrev whole : List StateRow → Best
    whole rows = newest (keep_if (λ r. p r && true) rows)

    -- Where the row counts, it has the key that is asked for or another one.
    join_rows :
        (k : StateKey) (r : StateRow) (b : Bool) (o : Option (ℕ × Bytes))
        → test r.key ≡ true
        → (if b
            then (if is_yes (StateKey-discrete k r.key)
                then some (r.state_group, r.event_id)
                else (if test k then o else none))
            else (if test k then o else none))
          ≡ (if test k
              then (if b
                  then (if is_yes (StateKey-discrete k r.key)
                      then some (r.state_group, r.event_id)
                      else o)
                  else o)
              else none)
    join_rows k r b o passes = elim (StateKey-discrete k r.key) [
      | yes same ↦ let held : test k ≡ true = ap test same ∙ passes in ground (arith, held)
      | no other ↦ ground arith
    ]

    passing :
        (r : StateRow) (rows : List StateRow) (k : StateKey)
        → test r.key ≡ true
        → find k (picked rows) ≡ (if test k then find k (whole rows) else none)
        → find r.key (picked rows) ≡ (if test r.key then find r.key (whole rows) else none)
        → find k (newest (r ∷ keep_if (λ x. p x && test x.key) rows))
          ≡ (if test k then find k (newest (r ∷ keep_if (λ x. p x && true) rows)) else none)
    passing r rows k passes here there =
        let bests : find r.key (picked rows) ≡ find r.key (whole rows) = ground (arith, there) in
        newest-cons r (keep_if (λ x. p x && test x.key) rows) k
        ∙ rw (bests, here, newest-cons r (keep_if (λ x. p x && true) rows) k)
            (join_rows k r (better r (find r.key (whole rows))) (find k (whole rows)) passes)

    failing :
        (r : StateRow) (rows : List StateRow) (k : StateKey)
        → test r.key ≡ false
        → find k (picked rows) ≡ (if test k then find k (whole rows) else none)
        → find k (picked rows)
          ≡ (if test k then find k (newest (r ∷ keep_if (λ x. p x && true) rows)) else none)
    failing r rows k fails here = elim (StateKey-discrete k r.key) [
      | yes same ↦ ground (arith, here, ap test same)
      | no other ↦ ground (arith, here, newest-cons r (keep_if (λ x. p x && true) rows) k)
    ]

    newest-filter :
        (rows : List StateRow) (k : StateKey)
        → find k (picked rows) ≡ (if test k then find k (whole rows) else none)
    unfolding newest lookup
    newest-filter [] k = ground arith
    newest-filter (r ∷ rows) k = elim (Bool-cases (p r)) [
      | inr skip ↦ rw skip (newest-filter rows k)
      | inl take ↦ elim (Bool-cases (test r.key)) [
        | inl passes ↦
            rw (take, passes)
              (passing r rows k passes (newest-filter rows k) (newest-filter rows r.key))
        | inr fails ↦ rw (take, fails) (failing r rows k fails (newest-filter rows k))
      ]
    ]

  -- Filtering the state at a group answers what the filtered query does.
  pub filter_state-filtered_state :
      (t : GroupTables) (g : ℕ) (m : StateMap)
      → state_for_group t g ≡ some m
      → (n : StateMap) × (filtered_state test t g ≡ some n) × Agree (filter_state test m) n
  unfolding state_for_group filtered_state state_where
  filter_state-filtered_state t g m e = elim (Option-cases (sgs t.state_group_edges g)) [
    | inl no_groups ↦ absurd (ground (arith, no_groups))
    | inr (gs, found) ↦
        let p : StateRow → Bool = λ r. has_group r.state_group gs in
        let rows = t.state_groups_state in
        let shown : scan (whole p rows) ≡ m = ground (arith, found) in
        (
          scan (picked p rows),
          rw (found, state_where),
          λ k.
              ap (λ x. lookup StateKey-discrete k (filter_state test x)) (sym shown)
              ∙ lookup-filter_state k (scan (whole p rows))
              ∙ ap (λ x. if test k then x else none) (lookup-scan k (whole p rows))
              ∙ if_event (test k) (find k (whole p rows))
              ∙ ap event_of (sym (newest-filter p rows k))
              ∙ sym (lookup-scan k (picked p rows)),
        )
  ]
