-- ===== src/MatrixState/Private.antt =====
-- Which events a server may see, and what /event serves of the others.
use synapse_gopro_worker.Prelude.{
  ◌≡◌, inl, inr, refl, true, List, [], ◌∷◌, some, Bytes, bytes_discrete, In, arith, Bool-cases,
  subst, Option, ◌∙◌, ℕ, false, sym, Option-cases, if◌then◌else◌, ◌⊎◌, ◌↔◌, none,
}
use synapse_gopro_worker.Store.Types.{Event, StateKey, StateMap}
use synapse_gopro_worker.Store.Rooms.{
  Database, same, domain_from_id, find_event, get_state_group_for_event,
}
use synapse_gopro_worker.MatrixState.Visibility.{
  Membership, opens, any_opens, members_at, is_restricted, memberships, membership_at, shared,
  with_setting, setting_in, visibility_at, at_state, at_group, history_visibility_type,
}
use synapse_gopro_worker.MatrixState.Errors.{ok}
use synapse_gopro_worker.Store.Filtered.{filtered_state, of_server, of_types, has_wildcard}

any_opens-In :
    (vis : Bytes) (ms : List Membership)
    → any_opens vis ms ≡ true
    → (m : Membership) × In m ms × (opens vis m.membership ≡ true)
unfolding any_opens
any_opens-In vis [] h = absurd (ground arith)
any_opens-In vis (m ∷ ms) h = elim (Bool-cases (opens vis m.membership)) [
  | inl e ↦ (m, inl refl, e)
  | inr e ↦ let (n, i, o) = any_opens-In vis ms (ground (arith, h, e)) in (n, inr i, o)
]

In-any_opens :
    (vis : Bytes) (ms : List Membership) (m : Membership)
    → In m ms
    → opens vis m.membership ≡ true
    → any_opens vis ms ≡ true
unfolding any_opens
In-any_opens vis [] m i h = absurd i
In-any_opens vis (n ∷ ms) m (inl q) h =
    let e : opens vis n.membership ≡ true = subst (λ x. opens vis x.membership ≡ true) q h in
    rw e refl
In-any_opens vis (n ∷ ms) m (inr i) h = let rest = In-any_opens vis ms m i h in ground (arith, rest)

module _ (sender_of : Bytes → Option Bytes) (history_visibility_of : Bytes → Bytes)
    (membership_of : Bytes → Bytes) (db : Database) (server : Bytes) where
  -- A user of the server whose membership opens an event under a setting.
  abbrev pub Member : Bytes → StateMap → Type 0
  Member vis s =
      (k : StateKey) × (id : Bytes) × (e : Event) × In (k, id) s
      × (same (domain_from_id k.state_key) server ≡ true)
      × (find_event id db.events ≡ some e)
      × (opens vis (membership_of e.json) ≡ true)

  Member-cons :
      (vis : Bytes) (s : StateMap) (x : StateKey × Bytes) → Member vis s → Member vis (x ∷ s)
  Member-cons vis s x (k, id, e, i, d, f, o) = (k, id, e, inr i, d, f, o)

  abbrev listed : StateMap → List Membership
  listed = memberships sender_of history_visibility_of membership_of server db.events

  -- A key that is not the server's, or whose event is not held, changes nothing.
  passed_over :
      (vis : Bytes) (k : StateKey) (id : Bytes) (s : StateMap)
      → (same (domain_from_id k.state_key) server ≡ false) ⊎ (find_event id db.events ≡ none)
      → any_opens vis (listed ((k, id) ∷ s)) ≡ any_opens vis (listed s)
  unfolding memberships membership_at
  passed_over vis k id s (inl other) = rw other refl
  passed_over vis k id s (inr gone) = elim (Bool-cases (same (domain_from_id k.state_key) server)) [
    | inl own ↦ rw (own, gone) refl
    | inr other ↦ rw other refl
  ]

  looked_at :
      (vis : Bytes) (k : StateKey) (id : Bytes) (s : StateMap) (e : Event)
      → same (domain_from_id k.state_key) server ≡ true
      → find_event id db.events ≡ some e
      → any_opens vis (listed ((k, id) ∷ s))
        ≡ (if opens vis (membership_of e.json) then true else any_opens vis (listed s))
  unfolding memberships membership_at any_opens
  looked_at vis k id s e own found = rw (own, found) refl

  listed-Member : (vis : Bytes) (s : StateMap) → any_opens vis (listed s) ≡ true → Member vis s
  unfolding memberships any_opens
  listed-Member vis [] h = absurd (ground arith)
  listed-Member vis ((k, id) ∷ s) h =
      let rest : any_opens vis (listed s) ≡ true → Member vis ((k, id) ∷ s) =
        λ r. Member-cons vis s (k, id) (listed-Member vis s r) in
      elim (Bool-cases (same (domain_from_id k.state_key) server)) [
        | inr other ↦ rest (sym (passed_over vis k id s (inl other)) ∙ h)
        | inl own ↦ elim (Option-cases (find_event id db.events)) [
          | inl gone ↦ rest (sym (passed_over vis k id s (inr gone)) ∙ h)
          | inr (e, found) ↦ elim (Bool-cases (opens vis (membership_of e.json))) [
            | inl o ↦ (k, id, e, inl refl, own, found, o)
            | inr o ↦ rest (ground (arith, looked_at vis k id s e own found, h, o))
          ]
        ]
      ]

  more_listed :
      (vis : Bytes) (k : StateKey) (id : Bytes) (s : StateMap)
      → any_opens vis (listed s) ≡ true
      → any_opens vis (listed ((k, id) ∷ s)) ≡ true
  more_listed vis k id s h = elim (Bool-cases (same (domain_from_id k.state_key) server)) [
    | inr other ↦ passed_over vis k id s (inl other) ∙ h
    | inl own ↦ elim (Option-cases (find_event id db.events)) [
      | inl gone ↦ passed_over vis k id s (inr gone) ∙ h
      | inr (e, found) ↦ ground (arith, looked_at vis k id s e own found, h)
    ]
  ]

  Member-listed : (vis : Bytes) (s : StateMap) → Member vis s → any_opens vis (listed s) ≡ true
  Member-listed vis [] (k, id, e, i, d, f, o) = absurd i
  Member-listed vis ((j, jd) ∷ s) (k, id, e, inr i, d, f, o) =
      more_listed vis j jd s (Member-listed vis s (k, id, e, i, d, f, o))
  Member-listed vis ((j, jd) ∷ s) (k, id, e, inl q, d, f, o) =
      let own : same (domain_from_id j.state_key) server ≡ true =
        subst (λ x. same (domain_from_id x.0.state_key) server ≡ true) q d in
      let found : find_event jd db.events ≡ some e =
        subst (λ x. find_event x.1 db.events ≡ some e) q f in
      ground (arith, looked_at vis j jd s e own found, o)

  -- Whether the setting and the memberships open an event.
  abbrev pub IsOpen : Bytes × List Membership → Type 0
  IsOpen (vis, ms) = (is_restricted vis ≡ false) ⊎ (any_opens vis ms ≡ true)

  abbrev pub OpenUnder : ℕ → Bytes → Type 0
  OpenUnder g vis =
      (is_restricted vis ≡ false)
      ⊎ ((s : StateMap) × (filtered_state (of_server server) db.groups g ≡ some s) × Member vis s)

  members_at-IsOpen :
      (vis : Bytes) (o : Option StateMap) (r : Bytes × List Membership)
      → members_at sender_of history_visibility_of membership_of server db.events vis o ≡ ok r
      → IsOpen r ↔ ((is_restricted vis ≡ false) ⊎ ((s : StateMap) × (o ≡ some s) × Member vis s))
  unfolding members_at
  members_at-IsOpen vis none r h = absurd (ground arith)
  members_at-IsOpen vis (some s) r h =
      let e : (vis, listed s) ≡ r = ground (arith, h) in
      subst
        (λ x.
          IsOpen x
          ↔ ((is_restricted vis ≡ false) ⊎ ((n : StateMap) × (some s ≡ some n) × Member vis n)))
        e
        (
          λ p. elim p [ inl a ↦ inl a | inr b ↦ inr (s, refl, listed-Member vis s b) ],
          λ p. elim p [
            | inl a ↦ inl a
            | inr (n, q, m) ↦
                let same_state : s ≡ n = ground (arith, q) in
                inr (Member-listed vis s (subst (Member vis) (sym same_state) m))
          ],
        )

  with_setting-IsOpen :
      (g : ℕ) (vis : Bytes) (r : Bytes × List Membership)
      → with_setting sender_of history_visibility_of membership_of db g server vis ≡ ok r
      → IsOpen r ↔ OpenUnder g vis
  unfolding with_setting
  with_setting-IsOpen g vis r h = elim (Bool-cases (is_restricted vis)) [
    | inr open_to_all ↦
        let e : (vis, []) ≡ r = ground (arith, h, open_to_all) in
        subst (λ x. IsOpen x ↔ OpenUnder g vis) e (λ p. inl open_to_all, λ p. inl open_to_all)
    | inl restricted ↦ elim (Bool-cases (has_wildcard server)) [
      | inl wild ↦ absurd (ground (arith, h, restricted, wild))
      | inr plain ↦
          members_at-IsOpen vis (filtered_state (of_server server) db.groups g) r
            (ground (arith, h, restricted, plain))
    ]
  ]

  abbrev pub setting : StateMap → Bytes
  setting = setting_in sender_of history_visibility_of membership_of db.events

  -- The state of the setting, at a group that may be unknown: then the event is open.
  abbrev pub OpenAt : Option ℕ → Type 0
  OpenAt none = Unit
  OpenAt (some g) =
      (s : StateMap) × (filtered_state (of_types (history_visibility_type ∷ [])) db.groups g
        ≡ some s)
      × OpenUnder g (setting s)

  at_state-IsOpen :
      (g : ℕ) (o : Option StateMap) (r : Bytes × List Membership)
      → at_state sender_of history_visibility_of membership_of db g server o ≡ ok r
      → IsOpen r ↔ ((s : StateMap) × (o ≡ some s) × OpenUnder g (setting s))
  unfolding at_state
  at_state-IsOpen g none r h = absurd (ground arith)
  at_state-IsOpen g (some s) r h =
      let (there, back) = with_setting-IsOpen g (setting s) r h in
      (
        λ p. (s, refl, there p),
        λ (n, q, p).
            let same_state : s ≡ n = ground (arith, q) in
            back (subst (λ x. OpenUnder g (setting x)) (sym same_state) p),
      )

  shared-IsOpen : (r : Bytes × List Membership) → ok (shared, []) ≡ ok r → IsOpen r
  unfolding is_restricted bytes_discrete
  shared-IsOpen r h = let e : (shared, []) ≡ r = ground (arith, h) in subst IsOpen e (inl refl)

  at_group-IsOpen :
      (o : Option ℕ) (r : Bytes × List Membership)
      → at_group sender_of history_visibility_of membership_of db server o ≡ ok r
      → IsOpen r ↔ OpenAt o
  unfolding at_group
  at_group-IsOpen none r h = (λ p. tt, λ p. shared-IsOpen r h)
  at_group-IsOpen (some g) r h =
      at_state-IsOpen g (filtered_state (of_types (history_visibility_type ∷ [])) db.groups g) r h

  -- An event without a known state, or whose history visibility is open, or that a membership of
  -- the server opens.
  abbrev pub IsOpenEvent : Event → Type 0
  IsOpenEvent ev = (ev.outlier ≡ true) ⊎ OpenAt (get_state_group_for_event db ev.event_id)

  pub visibility_at-IsOpen :
      (ev : Event) (r : Bytes × List Membership)
      → visibility_at sender_of history_visibility_of membership_of db ev server ≡ ok r
      → IsOpen r ↔ IsOpenEvent ev
  unfolding visibility_at
  visibility_at-IsOpen ev r h = elim (Bool-cases ev.outlier) [
    | inl out ↦ (λ p. inl out, λ p. shared-IsOpen r (ground (arith, h, out)))
    | inr inside ↦
        let (there, back) =
          at_group-IsOpen (get_state_group_for_event db ev.event_id) r
            (ground (arith, h, inside)) in
        (
          λ p. inr (there p),
          λ p. elim p [ inl out ↦ absurd (ground (arith, out, inside)) | inr q ↦ back q ],
        )
  ]
