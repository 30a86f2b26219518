-- ===== src/MatrixState/Opened.antt =====
-- That the code's reading of the filtered state says which events are open.
use synapse_gopro_worker.Prelude.{
  ℕ, ◌≡◌, ◌⊎◌, ◌↔◌, inl, inr, refl, ap, subst, ◌∙◌, true, [], ◌∷◌, Option, none, some, Bytes, bytes,
  bytes_discrete, lookup, arith, mentions,
}
use synapse_gopro_worker.Store.Types.{Event, StateKey, StateKey-discrete, StateMap}
use synapse_gopro_worker.Store.StateGroups.{state_for_group}
use synapse_gopro_worker.Store.Filtered.{of_types, of_server, filtered_state}
use synapse_gopro_worker.Store.Whole.{IsPart, state_for_group-IsPart, filtered_state-whole}
use synapse_gopro_worker.Store.Keyed.{lookup-In, In-lookup, state_where-IsKeyed, IsKeyed}
use synapse_gopro_worker.Store.Presence.{
  EndsIn, same-yes, yes-same, IsUserOf-domain, domain-IsUserOf, of_server_end,
}
use synapse_gopro_worker.Store.Rooms.{
  Database, domain_from_id, state_group_of, get_state_group_for_event,
}
use synapse_gopro_worker.MatrixState.Visibility.{history_visibility_type}
use synapse_gopro_worker.MatrixState.Private.{Member, OpenUnder, OpenAt, IsOpenEvent}
use synapse_gopro_worker.MatrixState.Openness.{
  IsOpenSetting, is_restricted-IsOpenSetting, opens-Opens, state_group_of-HasGroup, member_key,
  setting_key, IsSetting, HasOpener, IsOpenAt, IsOpenTo, setting, setting-IsSetting,
  IsSetting-unique,
}

of_server-keys :
    (server : Bytes) (k : StateKey)
    → (of_server server k ≡ true)
      ↔ ((k.event_type ≡ bytes "m.room.member") × EndsIn server k.state_key)
unfolding of_server
of_server-keys server k =
    let (there, back) = of_server_end server k.state_key in
    (
      λ h. (
        same-yes k.event_type (bytes "m.room.member") (ground (arith, h)),
        there (ground (arith, h)),
      ),
      λ (a, b).
          let a' = yes-same k.event_type (bytes "m.room.member") a in
          let b' = back b in ground (arith, a', b'),
    )

of_types-setting : of_types (history_visibility_type ∷ []) setting_key ≡ true
unfolding of_types mentions bytes_discrete
of_types-setting = refl

module _ (sender_of : Bytes → Option Bytes) (history_visibility_of : Bytes → Bytes)
    (membership_of : Bytes → Bytes) (db : Database) (server : Bytes) where
  abbrev Opener : StateMap → Bytes → Type 0
  Opener = HasOpener sender_of history_visibility_of membership_of db server

  abbrev Filtered : Bytes → StateMap → Type 0
  Filtered = Member sender_of history_visibility_of membership_of db server

  module _ (n m : StateMap) (v : Bytes) (keyed : IsKeyed n) (g : ℕ)
      (part : IsPart (of_server server) db.groups g n m) where
    Filtered-Opener : Filtered v n → Opener m v
    Filtered-Opener (k, id, e, i, d, f, o) =
        let found = In-lookup k id n keyed i in
        let at_k = part k in
        let passes : of_server server k ≡ true = ground (arith, found, at_k) in
        let (is_member, ends) = (of_server-keys server k).0 passes in
        let held : lookup StateKey-discrete k m ≡ some id = ground (arith, found, at_k, passes) in
        let same_key : k ≡ member_key k.state_key =
          ap (λ t. record { event_type = t; state_key = k.state_key }) is_member in
        (
          k.state_key,
          id,
          e,
          domain-IsUserOf server k.state_key (same-yes (domain_from_id k.state_key) server d) ends,
          subst (λ x. lookup StateKey-discrete x m ≡ some id) same_key held,
          f,
          (opens-Opens v (membership_of e.json)).0 o,
        )

    Opener-Filtered : Opener m v → Filtered v n
    Opener-Filtered (user, id, e, (a, plain, q), held, f, o) =
        let k = member_key user in
        let passes : of_server server k ≡ true = (of_server-keys server k).1 (refl, (a, q)) in
        let at_k = part k in
        let found : lookup StateKey-discrete k n ≡ some id = ground (arith, at_k, passes, held) in
        (
          k,
          id,
          e,
          lookup-In k id n found,
          yes-same (domain_from_id user) server (IsUserOf-domain server user (a, plain, q)),
          f,
          (opens-Opens v (membership_of e.json)).1 o,
        )

  abbrev Under : ℕ → Bytes → Type 0
  Under = OpenUnder sender_of history_visibility_of membership_of db server

  OpenUnder-whole :
      (g : ℕ) (m : StateMap) (v : Bytes)
      → state_for_group db.groups g ≡ some m
      → Under g v ↔ (IsOpenSetting v ⊎ Opener m v)
  OpenUnder-whole g m v whole =
      let (a, b) = is_restricted-IsOpenSetting v in
      let (n, found, part) = state_for_group-IsPart (of_server server) db.groups g m whole in
      let keyed : IsKeyed n =
        unfold filtered_state in
        state_where-IsKeyed (λ r. of_server server r.key) db.groups g n found in
      (
        λ u. elim u [
          | inl free ↦ inl (a free)
          | inr (s, got, member) ↦
              let same_part : s ≡ n = ground (arith, found, got) in
              inr (Filtered-Opener n m v keyed g part (subst (Filtered v) same_part member))
        ],
        λ u. elim u [
          | inl free ↦ inl (b free)
          | inr opener ↦ inr (n, found, Opener-Filtered n m v keyed g part opener)
        ],
      )

  abbrev At : Option ℕ → Type 0
  At = OpenAt sender_of history_visibility_of membership_of db server

  abbrev RulesAt : Option ℕ → Type 0
  RulesAt = IsOpenAt sender_of history_visibility_of membership_of db server

  abbrev shown_setting : StateMap → Bytes
  shown_setting = setting sender_of history_visibility_of membership_of db server

  settled :
      (g : ℕ) (s m : StateMap)
      → IsPart (of_types (history_visibility_type ∷ [])) db.groups g s m
      → IsSetting sender_of history_visibility_of membership_of db server m (shown_setting s)
  settled g s m part =
      setting-IsSetting sender_of history_visibility_of membership_of db server s m
        (part setting_key ∙ rw of_types-setting refl)

  OpenAt-RulesAt : (o : Option ℕ) → At o ↔ RulesAt o
  OpenAt-RulesAt none = (λ h. tt, λ h. tt)
  OpenAt-RulesAt (some g) = (
    λ (s, found, under).
        let (m, whole, part) =
          filtered_state-whole (of_types (history_visibility_type ∷ [])) db.groups g s found in
        (
          m,
          shown_setting s,
          whole,
          settled g s m part,
          (OpenUnder-whole g m (shown_setting s) whole).0 under,
        ),
    λ (m, v, whole, says, opened).
        let (s, found, part) =
          state_for_group-IsPart (of_types (history_visibility_type ∷ [])) db.groups g m whole in
        let same_setting : v ≡ shown_setting s =
          IsSetting-unique sender_of history_visibility_of membership_of db server m v
            (shown_setting s) says (settled g s m part) in
        (s, found, subst (Under g) same_setting ((OpenUnder-whole g m v whole).1 opened)),
  )

  pub IsOpenEvent-IsOpenTo :
      (ev : Event)
      → IsOpenEvent sender_of history_visibility_of membership_of db server ev
        ↔ IsOpenTo sender_of history_visibility_of membership_of db server ev
  unfolding get_state_group_for_event
  IsOpenEvent-IsOpenTo ev =
      let id = ev.event_id in
      let rows = db.event_to_state_groups in
      let o = state_group_of id rows in
      (
        λ h. elim h [
          | inl out ↦ inl out
          | inr a ↦ inr (o, (state_group_of-HasGroup id rows o).0 refl, (OpenAt-RulesAt o).0 a)
        ],
        λ h. elim h [
          | inl out ↦ inl out
          | inr (p, has, a) ↦
              inr (subst At ((state_group_of-HasGroup id rows p).1 has) ((OpenAt-RulesAt p).1 a))
        ],
      )
