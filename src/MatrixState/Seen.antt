-- ===== src/MatrixState/Seen.antt =====
-- What a server is shown of an event.
use synapse_gopro_worker.Prelude.{
  mentions-In, In-mentions, In, ◌⊎◌, ◌≡◌, ◌↔◌, inl, inr, refl, Bool, true, false, ◌&&◌, not, List,
  Option, some, none, Bytes, mentions, arith, Bool-cases, ◌∙◌, sym, subst,
}
use synapse_gopro_worker.Store.Types.{Event}
use synapse_gopro_worker.Store.Rooms.{Database, same, domain_from_id}
use synapse_gopro_worker.MatrixState.Errors.{ok, >>=-eq-ok}
use synapse_gopro_worker.MatrixState.Visibility.{
  Membership, is_restricted, event_visible_to_server, visible_from, event_visible_in_room,
  visibility_at,
}
use synapse_gopro_worker.Store.Presence.{
  IsDomain, domain_from_id-IsDomain, IsDomain-domain, same-yes, yes-same,
}
use synapse_gopro_worker.MatrixState.Openness.{IsOpenTo}
use synapse_gopro_worker.MatrixState.Opened.{IsOpenEvent-IsOpenTo}
use synapse_gopro_worker.MatrixState.Private.{IsOpen, visibility_at-IsOpen}

module _ (sender_of : Bytes → Option Bytes) (history_visibility_of : Bytes → Bytes)
    (membership_of : Bytes → Bytes) (db : Database) (server : Bytes) where
  event_visible_to_server_iff :
      (sender vis : Bytes) (erased : List Bytes) (invisible : Bool) (ms : List Membership)
      → (event_visible_to_server sender vis erased invisible ms ≡ true) ↔ (
          (mentions sender erased ≡ false)
          × (invisible ≡ false)
          × IsOpen sender_of history_visibility_of membership_of db server (vis, ms))
  unfolding event_visible_to_server
  event_visible_to_server_iff sender vis erased invisible ms =
      elim (Bool-cases (is_restricted vis)) [
        | inl closed ↦ (
          λ h. (ground (arith, h), ground (arith, h), inr (ground (arith, h, closed))),
          λ (a, b, o). elim o [
            | inl e ↦ absurd (ground (arith, e, closed))
            | inr e ↦ ground (arith, a, b, e)
          ],
        )
        | inr open_to_all ↦ (
          λ h. (ground (arith, h), ground (arith, h), inl open_to_all),
          λ (a, b, o). ground (arith, a, b, open_to_all),
        )
      ]

  -- The sender of an event is not erased, and is local if the room's state is partial, and the event
  -- is open to the server.
  abbrev pub MaySee : Event → Bytes → Bool → Type 0
  MaySee ev local partial =
      (sender : Bytes) × (sender_of ev.json ≡ some sender)
      × (In sender db.erased_users → ⊥)
      × ((partial ≡ false) ⊎ IsDomain local sender)
      × IsOpenTo sender_of history_visibility_of membership_of db server ev

  abbrev remote : Bool → Bytes → Bytes → Bool
  remote partial sender local = partial && not (same (domain_from_id sender) local)

  remote-IsDomain :
      (partial : Bool) (sender local : Bytes)
      → (remote partial sender local ≡ false) ↔ ((partial ≡ false) ⊎ IsDomain local sender)
  remote-IsDomain false sender local = (λ h. inl refl, λ h. refl)
  remote-IsDomain true sender local = (
    λ h. inr (
        domain_from_id-IsDomain local sender
          (same-yes (domain_from_id sender) local (ground (arith, h)))),
    λ h. elim h [
      | inl never ↦ absurd (ground (arith, never))
      | inr d ↦
          let e = yes-same (domain_from_id sender) local (IsDomain-domain local sender d) in
          rw e refl
    ],
  )

  mentions-none : (x : Bytes) (xs : List Bytes) → (mentions x xs ≡ false) ↔ (In x xs → ⊥)
  mentions-none x xs = (
    λ h m. ground (arith, h, In-mentions x xs m),
    λ n. elim (Bool-cases (mentions x xs)) [ inl e ↦ absurd (n (mentions-In x xs e)) | inr e ↦ e ],
  )

  abbrev verdict : Bytes → Bytes → Bool → Bytes × List Membership → Bool
  verdict sender local partial (vis, ms) =
      event_visible_to_server sender vis db.erased_users
        (partial && not (same (domain_from_id sender) local)) ms

  visible_from-MaySee :
      (ev : Event) (local : Bytes) (partial : Bool) (o : Option Bytes) (b : Bool)
      → sender_of ev.json ≡ o
      → visible_from sender_of history_visibility_of membership_of db ev server local partial o
        ≡ ok b
      → (b ≡ true) ↔ MaySee ev local partial
  unfolding visible_from
  visible_from-MaySee ev local partial none b told h = absurd (ground arith)
  visible_from-MaySee ev local partial (some sender) b told h =
      let (r, found, e) =
        >>=-eq-ok (visibility_at sender_of history_visibility_of membership_of db ev server)
          (λ r. ok (verdict sender local partial r)) b h in
      let same_verdict : verdict sender local partial r ≡ b = ground (arith, e) in
      let (there, back) =
        event_visible_to_server_iff sender r.0 db.erased_users
          (partial && not (same (domain_from_id sender) local)) r.1 in
      let (opened, unopened) =
        visibility_at-IsOpen sender_of history_visibility_of membership_of db server ev r found in
      let (listed, unlisted) = mentions-none sender db.erased_users in
      let (near, near') = remote-IsDomain partial sender local in
      let (rules, rules') =
        IsOpenEvent-IsOpenTo sender_of history_visibility_of membership_of db server ev in
      (
        λ q.
            let (a, c, o) = there (same_verdict ∙ q) in
            (sender, told, listed a, near c, rules (opened o)),
        λ (s, named, a, c, o).
            let e_sender : s ≡ sender = ground (arith, named, told) in
            sym same_verdict
            ∙ back (
              unlisted (subst (λ x. In x db.erased_users → ⊥) e_sender a),
              near' (subst (λ x. (partial ≡ false) ⊎ IsDomain local x) e_sender c),
              unopened (rules' o),
            ),
      )

  -- Where it is said whether a server may see an event, it is said that it may just if the sender is
  -- not erased, nor remote to a room with partial state, and the event is open to the server: its
  -- state is not known, or the state's history visibility is neither `invited` nor `joined`, or a
  -- member of the server has joined in that state, or is invited in it and the setting `invited`.
  pub event_visible_in_room_iff :
      (ev : Event) (local : Bytes) (partial : Bool) (b : Bool)
      → event_visible_in_room sender_of history_visibility_of membership_of db ev server local
          partial
        ≡ ok b
      → (b ≡ true) ↔ MaySee ev local partial
  unfolding event_visible_in_room
  event_visible_in_room_iff ev local partial b h =
      visible_from-MaySee ev local partial (sender_of ev.json) b refl h
