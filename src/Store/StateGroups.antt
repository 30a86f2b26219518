-- ===== src/Store/StateGroups.antt =====
-- The state at a state group: stateGroupQuery and the filtered walks of internal/store/state.go.
--
-- A table is the list of its rows. `WITH RECURSIVE` repeats a query for the groups that the round
-- before found, until it finds none; `DISTINCT ON … ORDER BY … DESC` keeps a row of the highest group
-- for each key.
use synapse_gopro_worker.Prelude.{
  ℕ, zero, suc, Bool, true, false, ◌&&◌, List, [], ◌∷◌, ◌++◌, map, Option, none, some,
  if◌then◌else◌, ltb, Bytes, ℕ_discrete, is_yes, mentions, keep_if, lookup, insert,
}
use synapse_gopro_worker.Store.Types.{StateKey, StateKey-discrete, StateMap}

-- A row of state_group_edges, and one of state_groups_state.
pub record GroupEdge : Type 0 where
  pub state_group : ℕ
  pub prev_state_group : ℕ

pub record StateRow : Type 0 where
  pub state_group : ℕ
  pub key : StateKey
  pub event_id : Bytes

pub record GroupTables : Type 0 where
  pub state_group_edges : List GroupEdge
  pub state_groups_state : List StateRow

-- The groups before a group.
unfoldable pub prev_groups : List GroupEdge → ℕ → List ℕ
prev_groups edges g =
    map (λ e. e.prev_state_group) (keep_if (λ e. is_yes (ℕ_discrete e.state_group g)) edges)

-- A round of the recursive query.
unfoldable pub round : List GroupEdge → List ℕ → List ℕ
unfolding prev_groups
round edges [] = []
round edges (g ∷ gs) = prev_groups edges g ++ round edges gs

-- The recursive query, on fuel: `none` means that the fuel ran out.
unfoldable pub groups_from : ℕ → List GroupEdge → List ℕ → Option (List ℕ)
unfolding round
groups_from zero edges gs = none
groups_from (suc n) edges [] = some []
groups_from (suc n) edges (g ∷ gs) = elim (groups_from n edges (round edges (g ∷ gs))) [
  | none ↦ none
  | some more ↦ some ((g ∷ gs) ++ more)
]

-- A group is above the groups before it, so a round for each number up to the group is enough.
unfoldable pub sgs : List GroupEdge → ℕ → Option (List ℕ)
unfolding groups_from
sgs edges g = groups_from (suc (suc g)) edges (g ∷ [])

-- Whether a list of groups holds a group.
unfoldable pub has_group : ℕ → List ℕ → Bool
has_group g [] = false
has_group g (h ∷ gs) = if is_yes (ℕ_discrete g h) then true else has_group g gs

-- A key's best row so far: its group and its event.
abbrev pub Best : Type 0
Best = List (StateKey × (ℕ × Bytes))

unfoldable pub better : StateRow → Option (ℕ × Bytes) → Bool
better r none = true
better r (some (g, id)) = ltb g r.state_group

-- `DISTINCT ON (type, state_key) … ORDER BY type, state_key, state_group DESC`
unfoldable pub newest : List StateRow → Best
unfolding better
newest [] = []
newest (r ∷ rows) =
    let best = newest rows in
    if better r (lookup StateKey-discrete r.key best)
    then insert StateKey-discrete r.key (r.state_group, r.event_id) best
    else best

-- The map that the rows of the answer are scanned into.
unfoldable pub scan : Best → StateMap
scan [] = []
scan ((k, (g, id)) ∷ best) = (k, id) ∷ scan best

-- The query with a test on the rows: `WHERE …`.
unfoldable pub state_where : (StateRow → Bool) → GroupTables → ℕ → Option StateMap
unfolding sgs has_group newest scan
state_where test t g = elim (sgs t.state_group_edges g) [
  | none ↦ none
  | some gs ↦
      some
        (scan (newest (keep_if (λ r. has_group r.state_group gs && test r) t.state_groups_state)))
]

-- stateGroupQuery
unfoldable pub state_for_group : GroupTables → ℕ → Option StateMap
unfolding state_where
state_for_group = state_where (λ r. true)

-- stateGroupFilteredQuery: `WHERE type = ANY($2)`
unfoldable pub state_of_types : List Bytes → GroupTables → ℕ → Option StateMap
unfolding state_where
state_of_types types = state_where (λ r. mentions r.key.event_type types)
