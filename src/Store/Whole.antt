-- ===== src/Store/Whole.antt =====
-- What a filtered query says, in terms of the whole state at a group.
use synapse_gopro_worker.Prelude.{
  ℕ, ◌≡◌, inl, inr, sym, ap, ◌∙◌, Bool, none, some, arith, Option-cases, lookup, if◌then◌else◌,
}
use synapse_gopro_worker.Store.Types.{StateKey, StateKey-discrete, StateMap}
use synapse_gopro_worker.Store.StateGroups.{GroupTables, sgs, state_where, state_for_group}
use synapse_gopro_worker.Store.Filtered.{filtered_state}
use synapse_gopro_worker.Store.Views.{lookup-filter_state, filter_state-filtered_state}

module _ (test : StateKey → Bool) (t : GroupTables) (g : ℕ) where
  -- The part of a state whose keys pass the test.
  abbrev pub IsPart : StateMap → StateMap → Type 0
  IsPart n m =
      (k : StateKey)
      → lookup StateKey-discrete k n ≡ (if test k then lookup StateKey-discrete k m else none)

  pub state_for_group-IsPart :
      (m : StateMap)
      → state_for_group t g ≡ some m
      → (n : StateMap) × (filtered_state test t g ≡ some n) × IsPart n m
  state_for_group-IsPart m e =
      let (n, found, agree) = filter_state-filtered_state test t g m e in
      (n, found, λ k. sym (agree k) ∙ lookup-filter_state test k m)

  pub filtered_state-whole :
      (n : StateMap)
      → filtered_state test t g ≡ some n
      → (m : StateMap) × (state_for_group t g ≡ some m) × IsPart n m
  unfolding state_for_group filtered_state state_where
  filtered_state-whole n e = elim (Option-cases (state_for_group t g)) [
    | inl nothing ↦ elim (Option-cases (sgs t.state_group_edges g)) [
      | inl no_groups ↦ absurd (ground (arith, no_groups, e))
      | inr (gs, found) ↦ absurd (ground (arith, found, nothing))
    ]
    | inr (m, whole) ↦
        let (k, found, part) = state_for_group-IsPart m whole in
        let same_part : k ≡ n = ground (arith, found, e) in
        (m, whole, λ j. ap (lookup StateKey-discrete j) (sym same_part) ∙ part j)
  ]
