-- ===== src/MissingEvents/Answers.antt =====
-- What the walk answers: events that are missing, and all of them where the budget leaves room.
use synapse_gopro_worker.Prelude.{
  ℕ, zero, suc, ◌-◌, ◌≤◌, ◌<◌, ◌≡◌, inl, inr, refl, sym, ◌∙◌, true, false, List, [], ◌∷◌, arith,
  length, subst, In, Bytes, Bool-cases, leb, some, min, Bool, ◌↔◌, ap,
}
use synapse_gopro_worker.MissingEvents.Walk.{
  Progress, Tables, visit, walk_back, get_missing_events, start_events, missing_up_to,
  max_missing_events, answer,
}
use synapse_gopro_worker.MissingEvents.Sound.{Distinct, Grows, Missing, IsSound}
use synapse_gopro_worker.MissingEvents.Loops.{
  IsSorting, visit-Grows, IsFront, IsBounded, visit-IsBounded,
}

module _ (t : Tables) (room : Bytes) (order_by sort : List Bytes → List Bytes)
    (ordering : IsSorting order_by) (sorting : IsSorting sort) where
  abbrev pub fresh : List Bytes → List Bytes → Progress
  fresh seen results = record { seen = seen; next = []; results = results }

  -- The progress after a round.
  abbrev pub round_of : ℕ → List Bytes → Bytes → List Bytes → List Bytes → Progress
  round_of limit seen id front results =
      visit t room order_by limit (sort (id ∷ front)) (fresh seen results)

  pub walk_back-full :
      (n limit : ℕ) (id : Bytes) (front seen results : List Bytes)
      → leb limit (length results) ≡ true
      → walk_back t room order_by sort (suc n) limit (id ∷ front) seen results ≡ some results
  unfolding walk_back
  walk_back-full n limit id front seen results full = ground (arith, full)

  pub walk_back-more :
      (n limit : ℕ) (id : Bytes) (front seen results : List Bytes)
      → leb limit (length results) ≡ false
      → walk_back t room order_by sort (suc n) limit (id ∷ front) seen results
        ≡ walk_back t room order_by sort n limit
            (round_of limit seen id front results).next
            (round_of limit seen id front results).seen
            (round_of limit seen id front results).results
  unfolding walk_back
  walk_back-more n limit id front seen results more = ground (arith, more)

  pub round-Grows :
      (limit : ℕ) (seen : List Bytes) (id : Bytes) (front results : List Bytes)
      → Grows (fresh seen results) (round_of limit seen id front results)
  round-Grows limit seen id front results =
      visit-Grows t room order_by ordering limit (sort (id ∷ front)) (fresh seen results)

  -- Each round but the last finds an event.
  pub walk_back-total :
      (n limit : ℕ) (front seen results : List Bytes)
      → 1 ≤ n
      → (1 ≤ length front → suc (suc (limit - length results)) ≤ n)
      → (out : List Bytes) × (walk_back t room order_by sort n limit front seen results ≡ some out)
  unfolding walk_back
  walk_back-total zero limit front seen results one enough = absurd (omega arith)
  walk_back-total (suc n) limit [] seen results one enough = (results, refl)
  walk_back-total (suc n) limit (id ∷ front) seen results one enough =
      let fuel = enough (omega arith) in
      elim (Bool-cases (leb limit (length results))) [
        | inl full ↦ (results, walk_back-full n limit id front seen results full)
        | inr more ↦
            let g = round-Grows limit seen id front results in
            let p = round_of limit seen id front results in
            let (out, e) =
              walk_back-total n limit p.next p.seen p.results (omega (arith, fuel)) (λ found.
                let under : length results < limit = ground (arith, more) in
                omega (arith, fuel, found, g.together, under)) in
            (out, walk_back-more n limit id front seen results more ∙ e)
      ]

  module _ (earliest starts : List Bytes) where
    -- What is answered of the events found.
    pub record IsPart (limit : ℕ) (ids : List Bytes) : Type 0 where
      pub bounded : length ids ≤ limit
      pub distinct : Distinct ids
      pub missing : (x : Bytes) → In x ids → Missing t room earliest starts x

    IsBounded-IsPart :
        (limit : ℕ) (p : Progress)
        → IsBounded t room order_by ordering earliest starts limit p
        → IsPart limit p.results
    IsBounded-IsPart limit p (s, le) = record {
      bounded = le;
      distinct = s.distinct;
      missing = s.missing;
    }

    pub anew :
        (p : Progress)
        → IsSound t room earliest starts p
        → IsSound t room earliest starts (fresh p.seen p.results)
    anew p s = record {
      recorded = s.recorded;
      held = s.held;
      known = s.known;
      missing = s.missing;
      distinct = s.distinct;
      queued = λ x m. absurd m;
    }

    abbrev pub AreFront : List Bytes → Type 0
    AreFront front =
        (id : Bytes) → In id front → IsFront t room order_by ordering earliest starts id

    pub round-IsBounded :
        (limit : ℕ) (seen : List Bytes) (id : Bytes) (front results : List Bytes)
        → AreFront (id ∷ front)
        → IsBounded t room order_by ordering earliest starts limit (fresh seen results)
        → IsBounded t room order_by ordering earliest starts limit
            (round_of limit seen id front results)
    round-IsBounded limit seen id front results known s =
        visit-IsBounded t room order_by ordering earliest starts limit (sort (id ∷ front))
          (fresh seen results) (λ j m. known j ((sorting.elements j (id ∷ front)).0 m)) s

    pub walk_back-IsPart :
        (n limit : ℕ) (front seen results out : List Bytes)
        → AreFront front
        → IsBounded t room order_by ordering earliest starts limit (fresh seen results)
        → walk_back t room order_by sort n limit front seen results ≡ some out
        → IsPart limit out
    unfolding walk_back
    walk_back-IsPart zero limit front seen results out known s e = absurd (ground arith)
    walk_back-IsPart (suc n) limit [] seen results out known s e =
        subst (IsPart limit) (ground (arith, e)) (IsBounded-IsPart limit (fresh seen results) s)
    walk_back-IsPart (suc n) limit (id ∷ front) seen results out known s e =
        elim (Bool-cases (leb limit (length results))) [
          | inl full ↦
              let same = walk_back-full n limit id front seen results full in
              subst (IsPart limit) (ground (arith, sym same ∙ e))
                (IsBounded-IsPart limit (fresh seen results) s)
          | inr more ↦
              let p = round_of limit seen id front results in
              let (sound, le) = round-IsBounded limit seen id front results known s in
              walk_back-IsPart n limit p.next p.seen p.results out
                (λ j m. inr (sound.missing j (sound.queued j m))) (anew p sound, le)
                (sym (walk_back-more n limit id front seen results more) ∙ e)
        ]

  module _ (earliest latest : List Bytes) where
    abbrev pub starts_of : List Bytes
    starts_of = start_events t room earliest latest

    -- The answer for a limit: the events found, and whether the walk stopped at the limit.
    pub record IsAnswer (limit : ℕ) (r : List Bytes × Bool) : Type 0 where
      pub part : IsPart earliest starts_of limit r.0
      pub truncated : (r.1 ≡ true) ↔ ((1 ≤ limit) × (length r.0 ≡ limit))

    pub start-IsBounded :
        (limit : ℕ)
        → IsBounded t room order_by ordering earliest starts_of limit (fresh earliest [])
    start-IsBounded limit = (
      record {
        recorded = λ x m. inl m;
        held = λ x m. m;
        known = λ x m. absurd m;
        missing = λ x m. absurd m;
        distinct = tt;
        queued = λ x m. absurd m;
      },
      omega arith,
    )

    missing_up_to-IsAnswer :
        (limit : ℕ)
        → (r : List Bytes × Bool) × (missing_up_to t room order_by sort limit earliest latest
            ≡ some r)
          × IsAnswer limit r
    unfolding missing_up_to
    missing_up_to-IsAnswer zero = (
      ([], false),
      refl,
      record {
        part = record { bounded = omega arith; distinct = tt; missing = λ x m. absurd m };
        truncated = (λ h. ground arith, λ h. absurd (omega (arith, h.0)));
      },
    )
    missing_up_to-IsAnswer (suc k) =
        let (out, e) =
          walk_back-total (suc (suc (suc k))) (suc k) starts_of earliest [] (omega arith)
            (λ found. omega arith) in
        let part =
          walk_back-IsPart earliest starts_of (suc (suc (suc k))) (suc k) starts_of earliest [] out
            (λ id m. inl m) (start-IsBounded (suc k)) e in
        let le = part.bounded in
        (
          (out, leb (suc k) (length out)),
          ap (answer (suc k)) e,
          record {
            part = part;
            truncated = (λ h. (omega arith, ground (arith, h, le)), λ h. ground (arith, h.1));
          },
        )

    -- Whatever the tables hold, cycles included, the walk ends and answers no more events than the
    -- limit and twenty, each once, each of them behind the events that are asked about and none of
    -- them held already; and it says that it is truncated just if it found as many as it may.
    pub get_missing_events-IsAnswer :
        (limit : ℕ)
        → (r : List Bytes × Bool) × (get_missing_events t room order_by sort earliest latest limit
            ≡ some r)
          × IsAnswer (min limit max_missing_events) r
    unfolding get_missing_events
    get_missing_events-IsAnswer limit = missing_up_to-IsAnswer (min limit max_missing_events)
