-- ===== src/MatrixState/Rendered.antt =====
-- What /get_missing_events shows, and to whom.
use synapse_gopro_worker.Prelude.{
  ℕ, ◌≡◌, ◌⊎◌, inl, inr, refl, sym, Bool, true, false, List, [], ◌∷◌, Option, none, some, Bytes,
  arith, Bool-cases, subst, In,
}
use synapse_gopro_worker.Store.Types.{Event, is_empty}
use synapse_gopro_worker.Store.Rooms.{Database, find_event}
use synapse_gopro_worker.MatrixState.Errors.{Outcome, ok, ◌>>=◌, >>=-eq-ok}
use synapse_gopro_worker.MatrixState.Visibility.{event_visible_in_room}
use synapse_gopro_worker.MatrixState.Serving.{body_of, or_failed}
use synapse_gopro_worker.MatrixState.Seen.{event_visible_in_room_iff}
use synapse_gopro_worker.MatrixState.Shown.{MayShow, body_of-MayShow, or_failed-ok}
use synapse_gopro_worker.MatrixState.MissingEvents.{
  missing_event_body, put, render_all, render_held, render,
}

module _ (sender_of : Bytes → Option Bytes) (history_visibility_of : Bytes → Bytes)
    (membership_of : Bytes → Bytes) (redact_event : Event → Option Bytes)
    (apply_pdu_json_rules : ℕ → Bytes → Option Bytes) (withheld : Bytes → Bool)
    (depth_in_canonical_range : Bytes → Bool) (db : Database) (origin local : Bytes) (now : ℕ) where
  abbrev body_for : Event → Bool → Outcome Bytes
  body_for ev partial =
      missing_event_body sender_of history_visibility_of membership_of redact_event
        apply_pdu_json_rules db ev origin local partial now

  abbrev pub ShownAs : Event → Bool → Bytes → Type 0
  ShownAs ev partial b =
      (body : Bytes) × MayShow sender_of history_visibility_of membership_of redact_event
        apply_pdu_json_rules db origin local ev partial body
      × (apply_pdu_json_rules now body ≡ some b)

  missing_event_body-ok :
      (ev : Event) (partial : Bool) (b : Bytes) → body_for ev partial ≡ ok b → ShownAs ev partial b
  unfolding missing_event_body
  missing_event_body-ok ev partial b h =
      let (visible, seen, rest) =
        >>=-eq-ok
          (event_visible_in_room sender_of history_visibility_of membership_of db ev origin local
            partial)
          (λ visible.
            body_of sender_of history_visibility_of membership_of redact_event apply_pdu_json_rules
              ev visible
            >>= λ body. or_failed (apply_pdu_json_rules now body))
          b h in
      let (body, made, last) =
        >>=-eq-ok
          (body_of sender_of history_visibility_of membership_of redact_event apply_pdu_json_rules
            ev visible)
          (λ body. or_failed (apply_pdu_json_rules now body)) b rest in
      (
        body,
        body_of-MayShow sender_of history_visibility_of membership_of redact_event
            apply_pdu_json_rules db origin local ev partial visible body
            (event_visible_in_room_iff sender_of history_visibility_of membership_of db origin ev
              local partial visible seen).0
            made,
        or_failed-ok (apply_pdu_json_rules now body) b last,
      )

  -- A rendered event: one that was found and is held, was not rejected and is not withheld, and that
  -- is shown in the form in which the server may see it.
  pub record IsRendered (ids : List Bytes) (partial : Bool) (b : Bytes) : Type 0 where
    pub id : Bytes
    pub event : Event
    pub found : In id ids
    pub held : find_event id db.events ≡ some event
    pub accepted : is_empty event.rejected_reason ≡ true
    pub authorised : withheld id ≡ false
    pub shown : ShownAs event partial b
    pub in_range : depth_in_canonical_range b ≡ true

  IsRendered-cons :
      (x : Bytes) (ids : List Bytes) (partial : Bool) (b : Bytes)
      → IsRendered ids partial b
      → IsRendered (x ∷ ids) partial b
  IsRendered-cons x ids partial b r = record {
    id = r.id;
    event = r.event;
    found = inr r.found;
    held = r.held;
    accepted = r.accepted;
    authorised = r.authorised;
    shown = r.shown;
    in_range = r.in_range;
  }

  abbrev pub AreRendered : List Bytes → Bool → List Bytes → Type 0
  AreRendered ids partial bs = (b : Bytes) → In b bs → IsRendered ids partial b

  abbrev put_in_range : Bytes → List Bytes → List Bytes
  put_in_range =
      put sender_of history_visibility_of membership_of redact_event apply_pdu_json_rules withheld
        depth_in_canonical_range

  put-In :
      (b : Bytes) (bs : List Bytes) (x : Bytes)
      → In x (put_in_range b bs)
      → ((x ≡ b) × (depth_in_canonical_range b ≡ true)) ⊎ In x bs
  unfolding put
  put-In b bs x i = elim (Bool-cases (depth_in_canonical_range b)) [
    | inl good ↦ elim (rw good at i) [ inl q ↦ inl (q, good) | inr j ↦ inr j ]
    | inr bad ↦ inr (rw bad at i)
  ]

  render-AreRendered :
      (id : Bytes) (ids : List Bytes) (partial : Bool) (ev : Event) (rest : Outcome (List Bytes))
      (bs : List Bytes)
      → find_event id db.events ≡ some ev
      → ((cs : List Bytes) → rest ≡ ok cs → AreRendered (id ∷ ids) partial cs)
      → render sender_of history_visibility_of membership_of redact_event apply_pdu_json_rules
          withheld depth_in_canonical_range id ev
          (body_for ev partial)
          rest
        ≡ ok bs
      → AreRendered (id ∷ ids) partial bs
  unfolding render
  render-AreRendered id ids partial ev rest bs held ih h =
      elim (Bool-cases (is_empty ev.rejected_reason)) [
        | inr bad ↦ ih bs (ground (arith, bad, h))
        | inl good ↦ elim (Bool-cases (withheld id)) [
          | inl kept_back ↦ ih bs (ground (arith, good, kept_back, h))
          | inr free ↦
              let chain : (body_for ev partial >>= λ b. rest >>= λ cs. ok (put_in_range b cs))
                  ≡ ok bs =
                ground (arith, good, free, h) in
              let (b, made, more) =
                >>=-eq-ok (body_for ev partial) (λ b. rest >>= λ cs. ok (put_in_range b cs)) bs
                  chain in
              let (cs, others, end) = >>=-eq-ok rest (λ cs. ok (put_in_range b cs)) bs more in
              let same_list : put_in_range b cs ≡ bs = ground (arith, end) in
              subst (AreRendered (id ∷ ids) partial) same_list (λ x i. elim (put-In b cs x i) [
                | inr j ↦ ih cs others x j
                | inl (q, deep) ↦ subst (IsRendered (id ∷ ids) partial) (sym q) (record {
                  id = id;
                  event = ev;
                  found = inl refl;
                  held = held;
                  accepted = good;
                  authorised = free;
                  shown = missing_event_body-ok ev partial b made;
                  in_range = deep;
                })
              ])
        ]
      ]

  render_held-AreRendered :
      (id : Bytes) (ids : List Bytes) (partial : Bool) (o : Option Event)
      (rest : Outcome (List Bytes)) (bs : List Bytes)
      → find_event id db.events ≡ o
      → ((cs : List Bytes) → rest ≡ ok cs → AreRendered (id ∷ ids) partial cs)
      → render_held sender_of history_visibility_of membership_of redact_event apply_pdu_json_rules
          withheld depth_in_canonical_range db origin local partial now id o rest
        ≡ ok bs
      → AreRendered (id ∷ ids) partial bs
  unfolding render_held
  render_held-AreRendered id ids partial none rest bs held ih h = ih bs h
  render_held-AreRendered id ids partial (some ev) rest bs held ih h =
      render-AreRendered id ids partial ev rest bs held ih h

  abbrev pub render_ids : Bool → List Bytes → Outcome (List Bytes)
  render_ids partial ids =
      render_all sender_of history_visibility_of membership_of redact_event apply_pdu_json_rules
        withheld depth_in_canonical_range db origin local partial now ids

  pub render_all-AreRendered :
      (partial : Bool) (ids bs : List Bytes)
      → render_ids partial ids ≡ ok bs
      → AreRendered ids partial bs
  unfolding render_all
  render_all-AreRendered partial [] bs h =
      let e : [] ≡ bs = ground (arith, h) in subst (AreRendered [] partial) e (λ x i. absurd i)
  render_all-AreRendered partial (id ∷ ids) bs h =
      render_held-AreRendered id ids partial (find_event id db.events) (render_ids partial ids) bs
        refl
        (λ cs e b i. IsRendered-cons id ids partial b (render_all-AreRendered partial ids cs e b i))
        h
