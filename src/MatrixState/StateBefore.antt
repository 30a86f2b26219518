-- ===== src/MatrixState/StateBefore.antt =====
-- That /state_ids answers the state before the event, and only to whom it may.
use synapse_gopro_worker.Prelude.{
  ℕ, ◌≡◌, ◌⊎◌, ◌↔◌, inl, inr, refl, sym, ap, ◌∙◌, true, false, List, [], ◌∷◌, Option, none, some,
  arith, In, Option-cases, Bool-cases, lookup, if◌then◌else◌, ite, Bytes, bytes_discrete, is_yes,
}
use synapse_gopro_worker.Store.Types.{Event, StateKey, StateKey-discrete, StateMap, is_empty}
use synapse_gopro_worker.Store.StateGroups.{state_for_group}
use synapse_gopro_worker.Store.Keyed.{IsKeyed, lookup-In, In-lookup, state_where-IsKeyed}
use synapse_gopro_worker.Store.Rooms.{
  Database, same, get_event, get_state_group_for_event, get_state_for_group,
}
use synapse_gopro_worker.MatrixState.Errors.{ok}
use synapse_gopro_worker.MatrixState.StateIds.{
  own_key, is_skipped, collect_ids, ids_of_state, ids_of_group, ids_of_event, state_ids_for_event,
}

-- An event of the state that is not skipped, or what the skipped one replaced.
abbrev IsCollected : Option StateKey → Bytes → StateMap → Bytes → Type 0
IsCollected skip replacement m x =
    ((k : StateKey) × (is_skipped skip k ≡ false) × In (k, x) m)
    ⊎ ((k : StateKey) × (id : Bytes) × (is_skipped skip k ≡ true)
        × In (k, id) m
        × (is_empty replacement ≡ false)
        × (x ≡ replacement))

one_more :
    (skip : Option StateKey) (replacement : Bytes) (m : StateMap) (x : Bytes) (k : StateKey)
    (id : Bytes)
    → IsCollected skip replacement m x
    → IsCollected skip replacement ((k, id) ∷ m) x
one_more skip r m x k id (inl (j, stays, i)) = inl (j, stays, inr i)
one_more skip r m x k id (inr (j, other, skipped, i, there, q)) =
    inr (j, other, skipped, inr i, there, q)

one_further :
    (skip : Option StateKey) (replacement : Bytes) (m : StateMap) (x : Bytes) (k : StateKey)
    (id : Bytes)
    → In x (collect_ids skip replacement m)
    → In x (collect_ids skip replacement ((k, id) ∷ m))
unfolding collect_ids
one_further skip r m x k id i = elim (Bool-cases (is_skipped skip k)) [
  | inr stays ↦ rw stays (inr i)
  | inl skipped ↦ elim (Bool-cases (is_empty r)) [
    | inl gone ↦ rw (skipped, gone) i
    | inr there ↦ rw (skipped, there) (inr i)
  ]
]

collect_ids-IsCollected :
    (skip : Option StateKey) (replacement : Bytes) (m : StateMap) (x : Bytes)
    → In x (collect_ids skip replacement m)
    → IsCollected skip replacement m x
unfolding collect_ids
collect_ids-IsCollected skip r [] x i = absurd i
collect_ids-IsCollected skip r ((k, id) ∷ m) x i =
    let rest = collect_ids-IsCollected skip r m x in
    elim (Bool-cases (is_skipped skip k)) [
      | inr stays ↦ elim (rw stays at i) [
        | inl q ↦ inl (k, stays, inl (ap (λ y. (k, y)) q))
        | inr j ↦ one_more skip r m x k id (rest j)
      ]
      | inl skipped ↦ elim (Bool-cases (is_empty r)) [
        | inl gone ↦ one_more skip r m x k id (rest (rw (skipped, gone) at i))
        | inr there ↦ elim (rw (skipped, there) at i) [
          | inl q ↦ inr (k, id, skipped, inl refl, there, q)
          | inr j ↦ one_more skip r m x k id (rest j)
        ]
      ]
    ]

IsCollected-collect_ids :
    (skip : Option StateKey) (replacement : Bytes) (m : StateMap) (x : Bytes)
    → IsCollected skip replacement m x
    → In x (collect_ids skip replacement m)
unfolding collect_ids
IsCollected-collect_ids skip r [] x (inl (k, s, i)) = absurd i
IsCollected-collect_ids skip r [] x (inr (k, id, s, i, e, q)) = absurd i
IsCollected-collect_ids skip r ((j, w) ∷ m) x (inl (k, stays, inr i)) =
    one_further skip r m x j w (IsCollected-collect_ids skip r m x (inl (k, stays, i)))
IsCollected-collect_ids skip r ((j, w) ∷ m) x (inr (k, id, skipped, inr i, there, q)) =
    one_further skip r m x j w
      (IsCollected-collect_ids skip r m x (inr (k, id, skipped, i, there, q)))
IsCollected-collect_ids skip r ((j, w) ∷ m) x (inl (k, stays, inl q)) =
    let here : is_skipped skip j ≡ false = ap (λ e. is_skipped skip e.0) (sym q) ∙ stays in
    rw here (inl (ap (λ e. e.1) q))
IsCollected-collect_ids skip r ((j, w) ∷ m) x (inr (k, id, skipped, inl q, there, e)) =
    let here : is_skipped skip j ≡ true = ap (λ y. is_skipped skip y.0) (sym q) ∙ skipped in
    rw (here, there) (inl e)

module _ (replaces_state : Bytes → Bytes) where
  -- What the state map of an event's group is to the state before the event: the same, but for the
  -- event itself at its own key if it is a state event; and unsigned.replaces_state names the event
  -- that stood there, if there was one.
  abbrev pub Continues : Option StateKey → Bytes → Bytes → StateMap → StateMap → Type 0
  Continues none replacement id m before =
      (k : StateKey) → lookup StateKey-discrete k m ≡ lookup StateKey-discrete k before
  Continues (some own) replacement id m before =
      ((k : StateKey)
        → lookup StateKey-discrete k m
          ≡ ite (StateKey-discrete k own) (some id) (lookup StateKey-discrete k before))
      × (lookup StateKey-discrete own before
          ≡ (if is_empty replacement then none else some replacement))

  collected_before :
      (skip : Option StateKey) (replacement id : Bytes) (m before : StateMap) (x : Bytes)
      → IsKeyed m
      → Continues skip replacement id m before
      → IsCollected skip replacement m x
      → (k : StateKey) × (lookup StateKey-discrete k before ≡ some x)
  unfolding is_skipped
  collected_before none r id m before x keyed c (inl (k, stays, i)) =
      (k, sym (c k) ∙ In-lookup k x m keyed i)
  collected_before none r id m before x keyed c (inr (k, other, skipped, i, there, q)) =
      absurd (ground arith)
  collected_before (some own) r id m before x keyed c (inl (k, stays, i)) =
      (k, ground (arith, c.0 k, In-lookup k x m keyed i))
  collected_before (some own) r id m before x keyed c (inr (k, other, skipped, i, there, q)) =
      (own, ground (arith, c.1))

  collected :
      (skip : Option StateKey) (replacement id : Bytes) (m before : StateMap) (x : Bytes)
      (k : StateKey)
      → Continues skip replacement id m before
      → lookup StateKey-discrete k before ≡ some x
      → IsCollected skip replacement m x
  unfolding is_skipped
  collected none r id m before x k c h = inl (k, refl, lookup-In k x m (c k ∙ h))
  collected (some own) r id m before x k c h = elim (StateKey-discrete k own) [
    | no other ↦ inl (k, ground arith, lookup-In k x m (ground (arith, c.0 k)))
    | yes e ↦
        let held : (if is_empty r then none else some r) ≡ some x =
          sym c.1 ∙ ap (λ j. lookup StateKey-discrete j before) (sym e) ∙ h in
        let there : is_empty r ≡ false = ground arith in
        let told : r ≡ x = ground (arith, there) in
        inr (own, id, ground arith, lookup-In own id m (ground (arith, c.0 own)), there, sym told)
  ]

  ids_of_event-ok :
      (db : Database) (room id : Bytes) (ev : Event) (g : ℕ) (m : StateMap)
      → ev.room_id ≡ room
      → ev.rejected_reason ≡ []
      → ev.outlier ≡ false
      → get_state_group_for_event db id ≡ some g
      → get_state_for_group db g ≡ some m
      → ids_of_event replaces_state db room id ev
        ≡ ok (collect_ids (own_key ev) (replaces_state ev.json) m)
  unfolding ids_of_event ids_of_group ids_of_state is_empty
  ids_of_event-ok db room id ev g m here accepted inside group state =
      let a : same ev.room_id room ≡ true = ground arith in
      let b : is_yes (bytes_discrete ev.rejected_reason []) ≡ true = ground arith in
      rw (a, b, inside, group, ids_of_group, state, ids_of_state)

  state_ids_for_event-found :
      (db : Database) (room id : Bytes) (ev : Event)
      → get_event db id ≡ some ev
      → state_ids_for_event replaces_state db room id ≡ ids_of_event replaces_state db room id ev
  unfolding state_ids_for_event
  state_ids_for_event-found db room id ev found = rw (found, state_ids_for_event)

  -- For an event that is held, of the room, not rejected and no outlier, whose state group is known:
  -- if the state at the group is the state before the event with the event put in at its own key, and
  -- unsigned.replaces_state says what stood there, then just the events of the state before it are
  -- answered.
  pub state_ids_for_event-before :
      (db : Database) (room id : Bytes) (ev : Event) (g : ℕ) (m before : StateMap)
      → get_event db id ≡ some ev
      → ev.room_id ≡ room
      → ev.rejected_reason ≡ []
      → ev.outlier ≡ false
      → get_state_group_for_event db id ≡ some g
      → get_state_for_group db g ≡ some m
      → Continues (own_key ev) (replaces_state ev.json) id m before
      → (ids : List Bytes) × (state_ids_for_event replaces_state db room id ≡ ok ids)
        × ((x : Bytes) → In x ids ↔ ((k : StateKey) × (lookup StateKey-discrete k before ≡ some x)))
  unfolding state_ids_for_event ids_of_event ids_of_group ids_of_state get_state_for_group
      state_for_group
  state_ids_for_event-before db room id ev g m before found here accepted inside group state c =
      let skip = own_key ev in
      let r = replaces_state ev.json in
      let keyed : IsKeyed m = state_where-IsKeyed (λ x. true) db.groups g m state in
      (
        collect_ids skip r m,
        state_ids_for_event-found db room id ev found
            ∙ ids_of_event-ok db room id ev g m here accepted inside group state,
        λ x. (
          λ i. collected_before skip r id m before x keyed c (collect_ids-IsCollected skip r m x i),
          λ (k, h). IsCollected-collect_ids skip r m x (collected skip r id m before x k c h),
        ),
      )

  -- What an answer shows of the event.
  pub record IsAnswerable (db : Database) (room id : Bytes) : Type 0 where
    pub event : Event
    pub held : get_event db id ≡ some event
    pub in_room : event.room_id ≡ room
    pub accepted : event.rejected_reason ≡ []
    pub inside : event.outlier ≡ false
    pub group : ℕ
    pub grouped : get_state_group_for_event db id ≡ some group

  same-eq : (a b : Bytes) → same a b ≡ true → a ≡ b
  same-eq a b h = elim (bytes_discrete a b) [ yes e ↦ e | no other ↦ absurd (ground arith) ]

  ids_of_event-IsAnswerable :
      (db : Database) (room id : Bytes) (ev : Event) (ids : List Bytes)
      → get_event db id ≡ some ev
      → ids_of_event replaces_state db room id ev ≡ ok ids
      → IsAnswerable db room id
  unfolding ids_of_event ids_of_group is_empty
  ids_of_event-IsAnswerable db room id ev ids found h = elim (Bool-cases (same ev.room_id room)) [
    | inr other ↦ absurd (ground (arith, other))
    | inl here ↦ elim (Bool-cases (same ev.rejected_reason [])) [
      | inr bad ↦ absurd (ground (arith, here, bad))
      | inl good ↦ elim (Bool-cases ev.outlier) [
        | inl out ↦ absurd (ground (arith, here, good, out))
        | inr inside ↦ elim (Option-cases (get_state_group_for_event db id)) [
          | inl none_known ↦ absurd (ground (arith, here, good, inside, none_known))
          | inr (g, known) ↦ record {
            event = ev;
            held = found;
            in_room = same-eq ev.room_id room here;
            accepted = same-eq ev.rejected_reason [] good;
            inside = inside;
            group = g;
            grouped = known;
          }
        ]
      ]
    ]
  ]

  pub state_ids_for_event-IsAnswerable :
      (db : Database) (room id : Bytes) (ids : List Bytes)
      → state_ids_for_event replaces_state db room id ≡ ok ids
      → IsAnswerable db room id
  unfolding state_ids_for_event
  state_ids_for_event-IsAnswerable db room id ids h = elim (Option-cases (get_event db id)) [
    | inl gone ↦ absurd (ground (arith, gone))
    | inr (ev, found) ↦
        ids_of_event-IsAnswerable db room id ev ids found
          (sym (state_ids_for_event-found db room id ev found) ∙ h)
  ]
