-- ===== src/MissingEvents/Complete.antt =====
-- When the walk answers all that is missing.
use synapse_gopro_worker.Prelude.{
  ℕ, zero, suc, ◌+◌, ◌≤◌, ◌<◌, ◌≡◌, ◌⊎◌, inl, inr, sym, ◌∙◌, List, [], ◌∷◌, arith, length, subst,
  In, Bytes, Bool-cases, leb, some, ap, false, min, ◌-◌,
}
use synapse_gopro_worker.MissingEvents.Walk.{
  Tables, all_prev, walk_back, get_missing_events, missing_up_to, start_events, max_missing_events,
  answer,
}
use synapse_gopro_worker.MissingEvents.Sound.{Missing, before_start, before_missing, IsSound}
use synapse_gopro_worker.MissingEvents.Loops.{IsSorting, visit-seen, IsBounded}
use synapse_gopro_worker.MissingEvents.Answers.{
  fresh, round_of, walk_back-full, walk_back-more, round-Grows, AreFront, anew, round-IsBounded,
  walk_back-total, start-IsBounded,
}

module _ (t : Tables) (room : Bytes) (order_by sort : List Bytes → List Bytes)
    (ordering : IsSorting order_by) (sorting : IsSorting sort) where
  walk_back-longer :
      (n limit : ℕ) (front seen results out : List Bytes)
      → walk_back t room order_by sort n limit front seen results ≡ some out
      → length results ≤ length out
  unfolding walk_back
  walk_back-longer zero limit front seen results out e = absurd (ground arith)
  walk_back-longer (suc n) limit [] seen results out e =
      let same : results ≡ out = ground (arith, e) in omega (arith, ap length same)
  walk_back-longer (suc n) limit (id ∷ front) seen results out e =
      elim (Bool-cases (leb limit (length results))) [
        | inl full ↦
            let same =
              walk_back-full t room order_by sort ordering sorting n limit id front seen results
                full in
            let kept : results ≡ out = ground (arith, sym same ∙ e) in omega (arith, ap length kept)
        | inr more ↦
            let p = round_of t room order_by sort ordering sorting limit seen id front results in
            let rest = walk_back-longer n limit p.next p.seen p.results out (
              sym (
                walk_back-more t room order_by sort ordering sorting n limit id front seen results
                  more)
              ∙ e) in
            omega (
              arith,
              rest,
              (round-Grows t room order_by sort ordering sorting limit seen id front
                  results).longer,
            )
      ]

  module _ (earliest starts : List Bytes) (most : ℕ)
      (few : (y : Bytes) → length (all_prev t room y) ≤ most) where
    -- An event whose events before it are all seen.
    abbrev Settled : List Bytes → Bytes → Type 0
    Settled seen y = (x : Bytes) → In x (all_prev t room y) → In x seen

    -- Every event found is still to be looked behind, or settled.
    abbrev AreSettled : List Bytes → List Bytes → List Bytes → Type 0
    AreSettled front seen results =
        (y : Bytes) → In y starts ⊎ In y results → In y front ⊎ Settled seen y

    round-AreSettled :
        (limit : ℕ) (seen : List Bytes) (id : Bytes) (front results : List Bytes)
        → (length
                (round_of t room order_by sort ordering sorting limit seen id front results).results
              + most
            ≤ limit)
        → length
            (round_of t room order_by sort ordering sorting limit seen id front results).results
          < limit
        → AreSettled (id ∷ front) seen results
        → AreSettled
            (round_of t room order_by sort ordering sorting limit seen id front results).next
            (round_of t room order_by sort ordering sorting limit seen id front results).seen
            (round_of t room order_by sort ordering sorting limit seen id front results).results
    round-AreSettled limit seen id front results left under h =
        let p = round_of t room order_by sort ordering sorting limit seen id front results in
        let g = round-Grows t room order_by sort ordering sorting limit seen id front results in
        let old : (y : Bytes) → In y starts ⊎ In y results → In y p.next ⊎ Settled p.seen y =
          λ y from. inr (elim (h y from) [
            | inr settled ↦ λ x m. g.seen x (settled x m)
            | inl at_front ↦ λ x m.
                visit-seen t room order_by ordering limit most (sort (id ∷ front))
                  (fresh t room order_by sort ordering sorting seen results) y x few left under
                  ((sorting.elements y (id ∷ front)).1 at_front) m
          ]) in
        λ y from. elim from [
          | inl s ↦ old y (inl s)
          | inr r ↦ elim (g.later y r) [ inl o ↦ old y (inr o) | inr n ↦ inl n ]
        ]

    -- The events before those that are answered are answered, or held already.
    abbrev IsClosed : List Bytes → Type 0
    IsClosed out =
        (y x : Bytes) → In y starts ⊎ In y out → In x (all_prev t room y) → In x earliest ⊎ In x out

    settled-IsClosed :
        (seen results : List Bytes)
        → IsSound t room earliest starts (fresh t room order_by sort ordering sorting seen results)
        → AreSettled [] seen results
        → IsClosed results
    settled-IsClosed seen results s h y x from m = elim (h y from) [
      | inl nowhere ↦ absurd nowhere
      | inr settled ↦ s.recorded x (settled x m)
    ]

    walk_back-IsClosed :
        (n limit : ℕ) (front seen results out : List Bytes)
        → length out + most ≤ limit
        → length out < limit
        → AreFront t room order_by sort ordering sorting earliest starts front
        → IsBounded t room order_by ordering earliest starts limit
            (fresh t room order_by sort ordering sorting seen results)
        → AreSettled front seen results
        → walk_back t room order_by sort n limit front seen results ≡ some out
        → IsClosed out
    unfolding walk_back
    walk_back-IsClosed zero limit front seen results out left under known s h e =
        absurd (ground arith)
    walk_back-IsClosed (suc n) limit [] seen results out left under known s h e =
        subst IsClosed (ground (arith, e)) (settled-IsClosed seen results s.0 h)
    walk_back-IsClosed (suc n) limit (id ∷ front) seen results out left under known s h e =
        elim (Bool-cases (leb limit (length results))) [
          | inl full ↦
              let longer = walk_back-longer (suc n) limit (id ∷ front) seen results out e in
              absurd (ground (arith, full, longer, under))
          | inr more ↦
              let p = round_of t room order_by sort ordering sorting limit seen id front results in
              let rest =
                sym (
                  walk_back-more t room order_by sort ordering sorting n limit id front seen results
                    more)
                ∙ e in
              let longer = walk_back-longer n limit p.next p.seen p.results out rest in
              let (sound, le) =
                round-IsBounded t room order_by sort ordering sorting earliest starts limit seen id
                  front results known s in
              walk_back-IsClosed n limit p.next p.seen p.results out left under
                (λ j m. inr (sound.missing j (sound.queued j m)))
                (anew t room order_by sort ordering sorting earliest starts p sound, le)
                (round-AreSettled limit seen id front results (omega (arith, longer, left))
                  (omega (arith, longer, under)) h)
                rest
        ]

    IsClosed-Missing :
        (out : List Bytes)
        → IsClosed out
        → (x : Bytes) → Missing t room earliest starts x
        → In x out
    IsClosed-Missing out closed x (before_start s m b new) = elim (closed s x (inl m) b) [
      | inl old ↦ absurd (new old)
      | inr found ↦ found
    ]
    IsClosed-Missing out closed x (before_missing y m b new) =
        elim (closed y x (inr (IsClosed-Missing out closed y m)) b) [
          | inl old ↦ absurd (new old)
          | inr found ↦ found
        ]

  missing_up_to-complete :
      (earliest latest : List Bytes) (limit : ℕ) (ids : List Bytes)
      → 1 ≤ limit
      → missing_up_to t room order_by sort limit earliest latest ≡ some (ids, false)
      → ((y : Bytes) → length ids + length (all_prev t room y) ≤ limit)
      → (x : Bytes) → Missing t room earliest (start_events t room earliest latest) x
      → In x ids
  unfolding missing_up_to
  missing_up_to-complete earliest latest zero ids one e few x m = absurd (omega (arith, one))
  missing_up_to-complete earliest latest (suc k) ids one e few x m =
      let starts = start_events t room earliest latest in
      let (out, found) =
        walk_back-total t room order_by sort ordering sorting (suc (suc (suc k))) (suc k) starts
          earliest [] (omega arith) (λ some_front. omega arith) in
      let told : some (out, leb (suc k) (length out)) ≡ some (ids, false) =
        sym (ap (answer (suc k)) found) ∙ e in
      let same : out ≡ ids = ground (arith, told) in
      let under : length out < suc k = ground (arith, told) in
      let most = suc k - length out in
      let few_left : (y : Bytes) → length (all_prev t room y) ≤ most =
        λ y. omega (arith, few y, ap length same) in
      subst (In x) same (
        IsClosed-Missing earliest starts most few_left out
          (walk_back-IsClosed earliest starts most few_left (suc (suc (suc k))) (suc k) starts
            earliest [] out (omega (arith, under)) under (λ id i. inl i)
            (start-IsBounded t room order_by sort ordering sorting earliest latest (suc k))
            (λ y from. elim from [ inl i ↦ inl i | inr nowhere ↦ absurd nowhere ]) found)
          x m)

  -- If the walk does not say that it is truncated, and no event of the room has more events before it
  -- than are left of the limit at the end, all events are answered that are behind those asked about
  -- along events that are not held already.
  pub get_missing_events-complete :
      (earliest latest : List Bytes) (limit : ℕ) (ids : List Bytes)
      → 1 ≤ limit
      → get_missing_events t room order_by sort earliest latest limit ≡ some (ids, false)
      → ((y : Bytes) → length ids + length (all_prev t room y) ≤ min limit max_missing_events)
      → (x : Bytes) → Missing t room earliest (start_events t room earliest latest) x
      → In x ids
  unfolding get_missing_events
  get_missing_events-complete earliest latest limit ids one e few x m =
      missing_up_to-complete earliest latest (min limit max_missing_events) ids (omega (arith, one))
        e few x m
