-- ===== src/Store/CachedViews.antt =====
-- That the caches in front of a filtered view do not change what is answered.
use synapse_gopro_worker.Prelude.{ℕ, ◌≡◌, refl, sym, subst, Bool, Option, none, some, ℕ_discrete}
use synapse_gopro_worker.Cache.Lru.{get}
use synapse_gopro_worker.Store.Types.{
  StateKey, StateMap, FilteredStateKey, FilteredStateKey-discrete,
}
use synapse_gopro_worker.Store.Caches.{Caches, size_of_state_map}
use synapse_gopro_worker.Store.ReadThrough.{Holds, get-hit, get-Holds, add-Holds}
use synapse_gopro_worker.Store.StateGroups.{GroupTables, state_for_group}
use synapse_gopro_worker.Store.GroupWalk.{IsDescending}
use synapse_gopro_worker.Store.Newest.{state_where-IsNewest}
use synapse_gopro_worker.Store.Views.{Agree, filter_state-filtered_state}
use synapse_gopro_worker.Store.Filtered.{
  filter_state, filtered_state, keep_filtered, from_database, from_whole, from_view,
  cached_filtered_state,
}

-- What the filter of a key means.
module _ (t : GroupTables) (meaning : FilteredStateKey → StateKey → Bool) where
  abbrev pub IsView : FilteredStateKey → StateMap → Type 0
  IsView key m = (n : StateMap) × (filtered_state (meaning key) t key.group ≡ some n) × Agree m n

  -- Every cached map is the state at its group, and every cached view agrees with its query.
  pub record AreSound (c : Caches) : Type 0 where
    pub groups :
        Holds ℕ_discrete size_of_state_map (λ g m. state_for_group t g ≡ some m) c.state_groups
    pub views : Holds FilteredStateKey-discrete size_of_state_map IsView c.filtered_state

  -- An answer that agrees with the query, and caches that are still sound.
  pub record Answers (key : FilteredStateKey) (r : Caches × Option StateMap) : Type 0 where
    pub sound : AreSound r.0
    pub answer : (m : StateMap) × (r.1 ≡ some m) × IsView key m

  keep_filtered-Answers :
      (key : FilteredStateKey) (m : StateMap) (c : Caches)
      → AreSound c
      → IsView key m
      → Answers key (keep_filtered key m c)
  unfolding keep_filtered
  keep_filtered-Answers key m c s v = record {
    sound = record {
      groups = s.groups;
      views =
          add-Holds FilteredStateKey-discrete size_of_state_map IsView key m c.filtered_state
            s.views v;
    };
    answer = (m, refl, v);
  }

  module _ (descending : IsDescending t.state_group_edges) (key : FilteredStateKey) where
    query-total : (n : StateMap) × (filtered_state (meaning key) t key.group ≡ some n)
    unfolding filtered_state
    query-total =
        let (n, e, best) = state_where-IsNewest (λ r. meaning key r.key) t key.group descending in
        (n, e)

    from_whole-Answers :
        (whole : Option StateMap) (c : Caches)
        → AreSound c
        → ((m : StateMap) → whole ≡ some m → state_for_group t key.group ≡ some m)
        → Answers key (from_whole (meaning key) t key whole c)
    unfolding from_whole from_database
    from_whole-Answers none c s right =
        let (n, e) = query-total in
        subst (λ o. Answers key (from_database key o c)) (sym e)
          (keep_filtered-Answers key n c s (n, e, λ k. refl))
    from_whole-Answers (some m) c s right =
        keep_filtered-Answers key (filter_state (meaning key) m) c s
          (filter_state-filtered_state (meaning key) t key.group m (right m refl))

    from_view-Answers :
        (view : Option StateMap) (c : Caches)
        → AreSound c
        → ((m : StateMap) → view ≡ some m → IsView key m)
        → Answers key (from_view (meaning key) t key view c)
    unfolding from_view
    from_view-Answers (some m) c s right = record { sound = s; answer = (m, refl, right m refl) }
    from_view-Answers none c s right =
        let is_state : ℕ → StateMap → Type 0 = λ g m. state_for_group t g ≡ some m in
        from_whole-Answers (get ℕ_discrete key.group c.state_groups).1
          (record c { state_groups = (get ℕ_discrete key.group c.state_groups).0 })
          (record {
            groups =
                get-Holds ℕ_discrete size_of_state_map is_state key.group c.state_groups s.groups;
            views = s.views;
          })
          (λ m e.
            get-hit ℕ_discrete size_of_state_map is_state key.group m c.state_groups s.groups e)

    -- If groups have higher numbers than those they build on, and the caches hold what the queries
    -- answer, a filtered view is answered that agrees with its query, whether it comes from the cache
    -- of views, from the whole map or from the database; and the caches hold such answers still.
    pub cached_filtered_state-Answers :
        (test : StateKey → Bool) (c : Caches)
        → meaning key ≡ test
        → AreSound c
        → Answers key (cached_filtered_state test t key c)
    unfolding cached_filtered_state
    cached_filtered_state-Answers test c same s = rw (← same) (
        from_view-Answers (get FilteredStateKey-discrete key c.filtered_state).1
          (record c { filtered_state = (get FilteredStateKey-discrete key c.filtered_state).0 })
          (record {
            groups = s.groups;
            views =
                get-Holds FilteredStateKey-discrete size_of_state_map IsView key c.filtered_state
                  s.views;
          })
          (λ m e.
            get-hit FilteredStateKey-discrete size_of_state_map IsView key m c.filtered_state
              s.views e))
