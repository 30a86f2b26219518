-- ===== src/AuthChain/Answer.antt =====
-- What GetAuthChainIDs answers: the auth chain that the index describes, or that it does not cover
-- the events.
use synapse_gopro_worker.Prelude.{
  ◌≤◌, ◌<◌, ◌≡◌, ◌≢◌, inl, inr, refl, sym, true, List, [], ◌∷◌, some, arith, subst, In, All, Bytes,
  map, ◌↔◌, Bool-cases, All-In, In-keep_if, keep_if-In, In-map, map-In, mentions-In, In-mentions,
}
use synapse_gopro_worker.AuthChain.Cover.{Link, Position, ChainMap, at}
use synapse_gopro_worker.AuthChain.Reach.{materialise_chains-IsFurthest}
use synapse_gopro_worker.AuthChain.Query.{
  positions_of, start_chains, covers, own_chains, selected, found, no_chain_cover_index,
  compute_auth_chain, InAuthChain, within-InAuthChain, InAuthChain-within,
}

covers_all : (seen ids : List Bytes) → ((e : Bytes) → In e ids → In e seen) → covers seen ids ≡ true
unfolding covers
covers_all seen [] h = refl
covers_all seen (x ∷ ids) h =
    rw (In-mentions x seen (h x (inl refl))) (covers_all seen ids (λ e m. h e (inr m)))

covers-In : (seen ids : List Bytes) (e : Bytes) → covers seen ids ≡ true → In e ids → In e seen
unfolding covers
covers-In seen [] e h m = absurd m
covers-In seen (x ∷ ids) e h (inl p) =
    subst (λ y. In y seen) (sym p) (mentions-In x seen (ground arith))
covers-In seen (x ∷ ids) e h (inr m) = covers-In seen ids e (ground arith) m

selected_iff :
    (chains : ChainMap) (positions : List Position) (p : Position)
    → 0 < p.seq
    → In p (selected chains positions) ↔ (In p positions × (p.seq ≤ at chains p.chain_id))
unfolding selected at
selected_iff chains positions p pos = (
  λ m. let (i, e) = In-keep_if p _ positions m in (i, ground arith),
  λ h. keep_if-In p _ positions h.0 (ground arith),
)

pos_of :
    (chains : ChainMap) (positions : List Position) (p : Position)
    → All (λ p. 0 < p.seq) positions
    → In p (selected chains positions)
    → 0 < p.seq
unfolding selected
pos_of chains positions p numbered m =
    All-In (λ p. 0 < p.seq) p positions numbered (In-keep_if p _ positions m).0

module _ (links : List Link) (positions : List Position) (room : Bytes) (ids : List Bytes) where
  -- The rows of the events that are asked for.
  abbrev pub rows : List Position
  rows = positions_of ids positions

  row_iff : (p : Position) → In p rows ↔ (In p positions × In p.event_id ids)
  unfolding positions_of
  row_iff p = (
    λ m. let (i, e) = In-keep_if p _ positions m in (i, mentions-In p.event_id ids e),
    λ h. keep_if-In p _ positions h.0 (In-mentions p.event_id ids h.1),
  )

  -- If every event has a position, and the numbers of links and positions are positive, the loop
  -- ends and the answer is the auth chain: an event is in it just if it has a position before a
  -- starting event of its chain, or at or below a point that the links reach.
  pub compute_auth_chain-found :
      ((e : Bytes) → In e ids → (p : Position) × In p positions × (p.event_id ≡ e))
      → All (λ l. 0 < l.origin_seq) links
      → All (λ p. 0 < p.seq) positions
      → (out : List Bytes) × (compute_auth_chain links positions room ids ≡ some (found out))
        × ((e : Bytes)
            → In e out
              ↔ ((p : Position) × In p positions × (p.event_id ≡ e) × InAuthChain links rows p))
  unfolding compute_auth_chain
  compute_auth_chain-found held positive numbered =
      let (chains, walked, furthest) =
        materialise_chains-IsFurthest links (start_chains rows []) positive in
      let limits = own_chains (start_chains rows []) chains in
      let event : Position → Bytes = λ p. p.event_id in
      let covered : covers (map event rows) ids ≡ true = covers_all (map event rows) ids λ e m.
        let (p, i, q) = held e m in
        subst (λ y. In y (map event rows)) q
          (map-In event p rows ((row_iff p).1 (i, subst (λ y. In y ids) (sym q) m))) in
      let pos =
        λ (p : Position) (i : In p positions). All-In (λ p. 0 < p.seq) p positions numbered i in
      (
        map event (selected limits positions),
        rw (covered, walked),
        λ e. (
          λ m.
              let (p, i, q) = In-map event e (selected limits positions) m in
              let (j, h) =
                (selected_iff limits positions p (pos_of limits positions p numbered i)).0 i in
              (p, j, sym q, within-InAuthChain links rows chains furthest p (pos p j) h),
          λ (p, j, q, c).
              subst (λ y. In y (map event (selected limits positions))) q
                (map-In event p (selected limits positions) (
                  (selected_iff limits positions p (pos p j)).1
                    (j, InAuthChain-within links rows chains furthest p c))),
        ),
      )

  -- If an event that is asked for has no position, the index is reported not to cover the room, and
  -- no answer is made up from the rest.
  pub compute_auth_chain-missing :
      (e : Bytes)
      → In e ids
      → ((p : Position) → In p positions → p.event_id ≢ e)
      → compute_auth_chain links positions room ids ≡ some (no_chain_cover_index room)
  unfolding compute_auth_chain
  compute_auth_chain-missing e m absent =
      elim (Bool-cases (covers (map (λ p. p.event_id) rows) ids)) [
        | inr no_cover ↦ rw no_cover
        | inl covered ↦
            let (p, i, q) = In-map (λ p. p.event_id) e rows (covers-In _ ids e covered m) in
            absurd (absent p ((row_iff p).0 i).0 (sym q))
      ]
