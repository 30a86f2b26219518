-- ===== src/Replication/Switches.antt =====
-- The switches of the five caches, under what the subscriber and the requests do to them.
use synapse_gopro_worker.Prelude.{
  ℕ, All, ◌≡◌, refl, ap, ◌∙◌, Bool, List, [], ◌∷◌, Bytes, bytes_discrete, ℕ_discrete, arith, true,
}
use synapse_gopro_worker.Cache.Lru.{Lru, new_lru}
use synapse_gopro_worker.Cache.Spec.{
  Call, gets, adds, removes, arms, purges, Ideal, ideal_step, step as step_lru,
}
use synapse_gopro_worker.Cache.Refine.{IsValid, ideal}
use synapse_gopro_worker.Cache.Run.{step-Refines, new_lru-IsValid}
use synapse_gopro_worker.Store.Types.{Event, StateMap, FilteredStateKey, FilteredStateKey-discrete}
use synapse_gopro_worker.Store.Caches.{
  Caches, set_caches_armed, purge_caches, drop_event, size_of_event, size_of_state_map, size_of_ids,
  new_caches, mb, Settings,
}
use synapse_gopro_worker.Replication.Commands.{CachesCall, arm_all, purge_all, drop_one}
use synapse_gopro_worker.Replication.Subscriber.{
  Use, gets_state_group, adds_state_group, gets_event, adds_event, gets_event_state_group,
  adds_event_state_group, gets_auth_chain, adds_auth_chain, gets_filtered_state,
  adds_filtered_state, use_caches, apply_call, apply_calls,
}

module _ {K V : Type 0} (dec : Discrete K) (size_of : V → ℕ) where
  -- A valid cache whose switch is in a given position.
  pub record IsSwitched (on : Bool) (c : Lru K V) : Type 0 where
    pub valid : IsValid dec size_of c
    pub switch : c.armed ≡ on

  -- Where a call leaves the switch.
  abbrev pub switched : Call K V → Bool → Bool
  switched (arms b) on = b
  switched _ on = on

  ideal_step-armed :
      (n : ℕ) (call : Call K V) (s : Ideal K V)
      → (ideal_step dec size_of n call s).armed ≡ switched call s.armed
  unfolding ideal_step
  ideal_step-armed n (gets k) s = ground arith
  ideal_step-armed n (adds k v) s = ground arith
  ideal_step-armed n (removes k) s = refl
  ideal_step-armed n (arms b) s = refl
  ideal_step-armed n purges s = refl

  step-IsSwitched :
      (call : Call K V) (on : Bool) (c : Lru K V)
      → IsSwitched on c
      → IsSwitched (switched call on) (step_lru dec size_of call c)
  step-IsSwitched call on c i =
      let r = step-Refines dec size_of call c i.valid in
      record {
        valid = r.valid;
        switch =
            r.switch ∙ ideal_step-armed c.max_bytes call (ideal c) ∙ ap (switched call) i.switch;
      }

-- All five switches are in a given position.
pub record AreSwitched (on : Bool) (c : Caches) : Type 0 where
  pub state_groups : IsSwitched ℕ_discrete size_of_state_map on c.state_groups
  pub events : IsSwitched bytes_discrete size_of_event on c.events
  pub event_state_group : IsSwitched bytes_discrete (λ _. 64) on c.event_state_group
  pub auth_chains : IsSwitched bytes_discrete size_of_ids on c.auth_chains
  pub filtered_state : IsSwitched FilteredStateKey-discrete size_of_state_map on c.filtered_state

pub set_caches_armed-AreSwitched :
    (b on : Bool) (c : Caches) → AreSwitched on c → AreSwitched b (set_caches_armed b c)
unfolding set_caches_armed step_lru
set_caches_armed-AreSwitched b on c a = record {
  state_groups =
      step-IsSwitched ℕ_discrete size_of_state_map (arms b) on c.state_groups a.state_groups;
  events = step-IsSwitched bytes_discrete size_of_event (arms b) on c.events a.events;
  event_state_group =
      step-IsSwitched bytes_discrete (λ _. 64) (arms b) on c.event_state_group a.event_state_group;
  auth_chains = step-IsSwitched bytes_discrete size_of_ids (arms b) on c.auth_chains a.auth_chains;
  filtered_state =
      step-IsSwitched FilteredStateKey-discrete size_of_state_map (arms b) on c.filtered_state
        a.filtered_state;
}

pub purge_caches-AreSwitched :
    (on : Bool) (c : Caches) → AreSwitched on c → AreSwitched on (purge_caches c)
unfolding purge_caches step_lru
purge_caches-AreSwitched on c a = record {
  state_groups =
      step-IsSwitched ℕ_discrete size_of_state_map purges on c.state_groups a.state_groups;
  events = step-IsSwitched bytes_discrete size_of_event purges on c.events a.events;
  event_state_group =
      step-IsSwitched bytes_discrete (λ _. 64) purges on c.event_state_group a.event_state_group;
  auth_chains = step-IsSwitched bytes_discrete size_of_ids purges on c.auth_chains a.auth_chains;
  filtered_state =
      step-IsSwitched FilteredStateKey-discrete size_of_state_map purges on c.filtered_state
        a.filtered_state;
}

pub drop_event-AreSwitched :
    (id : Bytes) (on : Bool) (c : Caches) → AreSwitched on c → AreSwitched on (drop_event id c)
unfolding drop_event step_lru
drop_event-AreSwitched id on c a = record {
  state_groups = a.state_groups;
  events = step-IsSwitched bytes_discrete size_of_event (removes id) on c.events a.events;
  event_state_group =
      step-IsSwitched bytes_discrete (λ _. 64) (removes id) on c.event_state_group
        a.event_state_group;
  auth_chains = a.auth_chains;
  filtered_state = a.filtered_state;
}

module _ {on : Bool} {c : Caches} (a : AreSwitched on c) where
  put_state_groups :
      {l : Lru ℕ StateMap}
      → IsSwitched ℕ_discrete size_of_state_map on l
      → AreSwitched on (record c { state_groups = l })
  put_state_groups i = record {
    state_groups = i;
    events = a.events;
    event_state_group = a.event_state_group;
    auth_chains = a.auth_chains;
    filtered_state = a.filtered_state;
  }

  put_events :
      {l : Lru Bytes Event}
      → IsSwitched bytes_discrete size_of_event on l
      → AreSwitched on (record c { events = l })
  put_events i = record {
    state_groups = a.state_groups;
    events = i;
    event_state_group = a.event_state_group;
    auth_chains = a.auth_chains;
    filtered_state = a.filtered_state;
  }

  put_event_state_group :
      {l : Lru Bytes ℕ}
      → IsSwitched bytes_discrete (λ _. 64) on l
      → AreSwitched on (record c { event_state_group = l })
  put_event_state_group i = record {
    state_groups = a.state_groups;
    events = a.events;
    event_state_group = i;
    auth_chains = a.auth_chains;
    filtered_state = a.filtered_state;
  }

  put_auth_chains :
      {l : Lru Bytes (List Bytes)}
      → IsSwitched bytes_discrete size_of_ids on l
      → AreSwitched on (record c { auth_chains = l })
  put_auth_chains i = record {
    state_groups = a.state_groups;
    events = a.events;
    event_state_group = a.event_state_group;
    auth_chains = i;
    filtered_state = a.filtered_state;
  }

  put_filtered_state :
      {l : Lru FilteredStateKey StateMap}
      → IsSwitched FilteredStateKey-discrete size_of_state_map on l
      → AreSwitched on (record c { filtered_state = l })
  put_filtered_state i = record {
    state_groups = a.state_groups;
    events = a.events;
    event_state_group = a.event_state_group;
    auth_chains = a.auth_chains;
    filtered_state = i;
  }

  pub use_caches-AreSwitched : (u : Use) → AreSwitched on (use_caches u c)
  unfolding use_caches step_lru
  use_caches-AreSwitched (gets_state_group k) =
      put_state_groups
        (step-IsSwitched ℕ_discrete size_of_state_map (gets k) on c.state_groups a.state_groups)
  use_caches-AreSwitched (adds_state_group k v) =
      put_state_groups
        (step-IsSwitched ℕ_discrete size_of_state_map (adds k v) on c.state_groups a.state_groups)
  use_caches-AreSwitched (gets_event k) =
      put_events (step-IsSwitched bytes_discrete size_of_event (gets k) on c.events a.events)
  use_caches-AreSwitched (adds_event k v) =
      put_events (step-IsSwitched bytes_discrete size_of_event (adds k v) on c.events a.events)
  use_caches-AreSwitched (gets_event_state_group k) =
      put_event_state_group (
        step-IsSwitched bytes_discrete (λ _. 64) (gets k) on c.event_state_group
          a.event_state_group)
  use_caches-AreSwitched (adds_event_state_group k v) = put_event_state_group (
      step-IsSwitched bytes_discrete (λ _. 64) (adds k v) on c.event_state_group
        a.event_state_group)
  use_caches-AreSwitched (gets_auth_chain k) =
      put_auth_chains
        (step-IsSwitched bytes_discrete size_of_ids (gets k) on c.auth_chains a.auth_chains)
  use_caches-AreSwitched (adds_auth_chain k v) =
      put_auth_chains
        (step-IsSwitched bytes_discrete size_of_ids (adds k v) on c.auth_chains a.auth_chains)
  use_caches-AreSwitched (gets_filtered_state k) = put_filtered_state (
      step-IsSwitched FilteredStateKey-discrete size_of_state_map (gets k) on c.filtered_state
        a.filtered_state)
  use_caches-AreSwitched (adds_filtered_state k v) = put_filtered_state (
      step-IsSwitched FilteredStateKey-discrete size_of_state_map (adds k v) on c.filtered_state
        a.filtered_state)

-- A command of the stream leaves the switches as they are.
abbrev pub IsMild : CachesCall → Type 0
IsMild (arm_all b) = ⊥
IsMild purge_all = Unit
IsMild (drop_one id) = Unit

pub apply_calls-AreSwitched :
    (xs : List CachesCall) (on : Bool) (c : Caches)
    → All IsMild xs
    → AreSwitched on c
    → AreSwitched on (apply_calls xs c)
unfolding apply_calls apply_call
apply_calls-AreSwitched [] on c mild a = a
apply_calls-AreSwitched (arm_all b ∷ xs) on c mild a = absurd mild.0
apply_calls-AreSwitched (purge_all ∷ xs) on c mild a =
    apply_calls-AreSwitched xs on (purge_caches c) mild.1 (purge_caches-AreSwitched on c a)
apply_calls-AreSwitched (drop_one id ∷ xs) on c mild a =
    apply_calls-AreSwitched xs on (drop_event id c) mild.1 (drop_event-AreSwitched id on c a)

pub new_caches-AreSwitched : (s : Settings) → AreSwitched true (new_caches s)
unfolding new_caches new_lru mb
new_caches-AreSwitched s = record {
  state_groups = record { valid = new_lru-IsValid ℕ_discrete size_of_state_map _; switch = refl };
  events = record { valid = new_lru-IsValid bytes_discrete size_of_event _; switch = refl };
  event_state_group = record { valid = new_lru-IsValid bytes_discrete (λ _. 64) _; switch = refl };
  auth_chains = record { valid = new_lru-IsValid bytes_discrete size_of_ids _; switch = refl };
  filtered_state = record {
    valid = new_lru-IsValid FilteredStateKey-discrete size_of_state_map _;
    switch = refl;
  };
}
