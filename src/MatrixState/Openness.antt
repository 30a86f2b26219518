-- ===== src/MatrixState/Openness.antt =====
-- Which events are open to a server, said by the rules of history visibility on the whole state.
use synapse_gopro_worker.Prelude.{
  ℕ, ◌≡◌, ◌≢◌, ◌⊎◌, ◌↔◌, inl, inr, refl, sym, ap, ◌∙◌, true, false, List, [], ◌∷◌, Option, none,
  some, if◌then◌else◌, Bytes, bytes, lookup, arith, Bool-cases, Option-cases,
}
use synapse_gopro_worker.Store.Types.{Event, StateKey, StateKey-discrete, StateMap, is_empty}
use synapse_gopro_worker.Store.StateGroups.{state_for_group}
use synapse_gopro_worker.Store.Presence.{IsUserOf, same-yes, yes-same}
use synapse_gopro_worker.Store.Rooms.{Database, same, find_event, state_group_of}
use synapse_gopro_worker.MatrixState.Visibility.{is_restricted, opens, setting_of, setting_in}

-- The two settings that close an event to servers that were not there.
abbrev pub IsOpenSetting : Bytes → Type 0
IsOpenSetting v = (v ≢ bytes "invited") × (v ≢ bytes "joined")

-- A membership that opens an event under a setting: whoever has joined, and under `invited` also
-- whoever is invited.
abbrev pub Opens : Bytes → Bytes → Type 0
Opens v m = (m ≡ bytes "join") ⊎ ((m ≡ bytes "invite") × (v ≡ bytes "invited"))

pub no-same : (a b : Bytes) → same a b ≡ false → a ≢ b
no-same a b h e = ground (arith, h, yes-same a b e)

pub not-same : (a b : Bytes) → a ≢ b → same a b ≡ false
not-same a b n = elim (Bool-cases (same a b)) [ inl e ↦ absurd (n (same-yes a b e)) | inr e ↦ e ]

pub is_restricted-IsOpenSetting : (v : Bytes) → (is_restricted v ≡ false) ↔ IsOpenSetting v
unfolding is_restricted
is_restricted-IsOpenSetting v = (
  λ h. (
    no-same v (bytes "invited") (ground (arith, h)),
    no-same v (bytes "joined") (ground (arith, h)),
  ),
  λ (a, b).
      let a' = not-same v (bytes "invited") a in
      let b' = not-same v (bytes "joined") b in rw (a', b') refl,
)

pub opens-Opens : (v m : Bytes) → (opens v m ≡ true) ↔ Opens v m
unfolding opens
opens-Opens v m = (
  λ h. elim (Bool-cases (same m (bytes "join"))) [
    | inl j ↦ inl (same-yes m (bytes "join") j)
    | inr n ↦ inr (
      same-yes m (bytes "invite") (ground (arith, h, n)),
      same-yes v (bytes "invited") (ground (arith, h, n)),
    )
  ],
  λ o. elim o [
    | inl j ↦ let j' = yes-same m (bytes "join") j in rw j' refl
    | inr (i, q) ↦
        let i' = yes-same m (bytes "invite") i in
        let q' = yes-same v (bytes "invited") q in ground (arith, i', q')
  ],
)

-- The state group that the first row of an event gives, if there is one.
abbrev pub HasGroup : Bytes → List (Bytes × Option ℕ) → Option ℕ → Type 0
HasGroup id [] o = o ≡ none
HasGroup id ((e, g) ∷ rows) o = ((e ≡ id) × (o ≡ g)) ⊎ ((e ≢ id) × HasGroup id rows o)

pub state_group_of-HasGroup :
    (id : Bytes) (rows : List (Bytes × Option ℕ)) (o : Option ℕ)
    → (o ≡ state_group_of id rows) ↔ HasGroup id rows o
unfolding state_group_of
state_group_of-HasGroup id [] o = (λ h. h, λ h. h)
state_group_of-HasGroup id ((e, g) ∷ rows) o =
    let (there, back) = state_group_of-HasGroup id rows o in
    elim (Bool-cases (same e id)) [
      | inl own ↦ (
        λ h. inl (same-yes e id own, ground (arith, h, own)),
        λ h. elim h [
          | inl (q, f) ↦ ground (arith, own, f)
          | inr (n, f) ↦ absurd (n (same-yes e id own))
        ],
      )
      | inr other ↦ (
        λ h. inr (no-same e id other, there (ground (arith, h, other))),
        λ h. elim h [
          | inl (q, f) ↦ absurd (no-same e id other q)
          | inr (n, f) ↦ let rest = back f in ground (arith, other, rest)
        ],
      )
    ]

abbrev pub member_key : Bytes → StateKey
member_key user = record { event_type = bytes "m.room.member"; state_key = user }

abbrev pub setting_key : StateKey
setting_key = record { event_type = bytes "m.room.history_visibility"; state_key = [] }

module _ (sender_of : Bytes → Option Bytes) (history_visibility_of : Bytes → Bytes)
    (membership_of : Bytes → Bytes) (db : Database) (server : Bytes) where
  -- The setting that a state's event says, if it says one; `shared` otherwise.
  abbrev pub Says : StateMap → Bytes → Type 0
  Says m v =
      (id : Bytes) × (e : Event) × (lookup StateKey-discrete setting_key m ≡ some id)
      × (find_event id db.events ≡ some e)
      × (history_visibility_of e.json ≡ v)
      × (v ≢ [])

  abbrev pub IsSetting : StateMap → Bytes → Type 0
  IsSetting m v = Says m v ⊎ (((x : Bytes) → Says m x → ⊥) × (v ≡ bytes "shared"))

  -- A user of the server whose membership in a state opens an event under a setting.
  abbrev pub HasOpener : StateMap → Bytes → Type 0
  HasOpener m v =
      (user : Bytes) × (id : Bytes) × (e : Event) × IsUserOf server user
      × (lookup StateKey-discrete (member_key user) m ≡ some id)
      × (find_event id db.events ≡ some e)
      × Opens v (membership_of e.json)

  -- An event is open to a server if it is an outlier, or its state group is not known; and otherwise if
  -- the state at its group has an open setting, or someone who opens the event.
  abbrev pub IsOpenAt : Option ℕ → Type 0
  IsOpenAt none = Unit
  IsOpenAt (some g) =
      (m : StateMap) × (v : Bytes) × (state_for_group db.groups g ≡ some m)
      × IsSetting m v
      × (IsOpenSetting v ⊎ HasOpener m v)

  abbrev pub IsOpenTo : Event → Type 0
  IsOpenTo ev =
      (ev.outlier ≡ true)
      ⊎ ((o : Option ℕ) × HasGroup ev.event_id db.event_to_state_groups o × IsOpenAt o)

  abbrev pub setting : StateMap → Bytes
  setting = setting_in sender_of history_visibility_of membership_of db.events

  setting_from :
      (s : StateMap) (o : Option Bytes)
      → lookup StateKey-discrete setting_key s ≡ o
      → setting s ≡ elim o [
        | none ↦ bytes "shared"
        | some id ↦
            setting_of sender_of history_visibility_of membership_of (find_event id db.events)
      ]
  unfolding setting_in
  setting_from s o e = rw (e, setting_in) refl

  read_setting :
      (o : Option Event)
      → setting_of sender_of history_visibility_of membership_of o ≡ elim o [
        | none ↦ bytes "shared"
        | some ev ↦
            if is_empty (history_visibility_of ev.json)
            then bytes "shared"
            else history_visibility_of ev.json
      ]
  unfolding setting_of
  read_setting none = refl
  read_setting (some ev) = refl

  empty-eq : (b : Bytes) → is_empty b ≡ true → b ≡ []
  unfolding is_empty
  empty-eq b h = same-yes b [] h

  nonempty : (b : Bytes) → is_empty b ≡ false → b ≢ []
  unfolding is_empty
  nonempty b h = no-same b [] h

  pub setting-IsSetting :
      (s m : StateMap)
      → lookup StateKey-discrete setting_key s ≡ lookup StateKey-discrete setting_key m
      → IsSetting m (setting s)
  setting-IsSetting s m e = elim (Option-cases (lookup StateKey-discrete setting_key m)) [
    | inl nothing ↦ inr (
      λ x (id, ev, at_id, f, h, n). ground (arith, nothing, at_id),
      setting_from s none (e ∙ nothing),
    )
    | inr (id, there) ↦
        let first = setting_from s (some id) (e ∙ there) in
        let told = read_setting (find_event id db.events) in
        elim (Option-cases (find_event id db.events)) [
          | inl lost ↦ inr (
            λ x (jd, ev, at_jd, f, h, n).
                let same_id : jd ≡ id = ground (arith, there, at_jd) in
                ground (arith, lost, ap (λ y. find_event y db.events) same_id, f),
            first
                ∙ ap (setting_of sender_of history_visibility_of membership_of) lost
                ∙ read_setting none,
          )
          | inr (ev, held) ↦
              let read =
                first
                ∙ ap (setting_of sender_of history_visibility_of membership_of) held
                ∙ read_setting (some ev) in
              elim (Bool-cases (is_empty (history_visibility_of ev.json))) [
                | inr full ↦
                    let value : setting s ≡ history_visibility_of ev.json =
                      ground (arith, read, full) in
                    inl (
                      id,
                      ev,
                      there,
                      held,
                      sym value,
                      λ q. nonempty (history_visibility_of ev.json) full (sym value ∙ q),
                    )
                | inl empty ↦ inr (
                  λ x (jd, f, at_jd, found, h, n).
                      let same_id : jd ≡ id = ground (arith, there, at_jd) in
                      let same_event : f ≡ ev =
                        ground (arith, held, ap (λ y. find_event y db.events) same_id, found) in
                      n (
                        sym h
                        ∙ ap (λ y. history_visibility_of y.json) same_event
                        ∙ empty-eq (history_visibility_of ev.json) empty),
                  ground (arith, read, empty),
                )
              ]
        ]
  ]

  pub IsSetting-unique : (m : StateMap) (v w : Bytes) → IsSetting m v → IsSetting m w → v ≡ w
  IsSetting-unique m v w (inr (n, e)) (inr (k, f)) = e ∙ sym f
  IsSetting-unique m v w (inr (n, e)) (inl f) = absurd (n w f)
  IsSetting-unique m v w (inl e) (inr (n, f)) = absurd (n v e)
  IsSetting-unique m v w (inl (id, e, at_id, f, h, n)) (inl (jd, d, at_jd, g, k, o)) =
      let same_id : id ≡ jd = ground (arith, at_id, at_jd) in
      let same_event : e ≡ d = ground (arith, f, ap (λ y. find_event y db.events) same_id, g) in
      sym h ∙ ap (λ y. history_visibility_of y.json) same_event ∙ k
