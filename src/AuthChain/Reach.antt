-- ===== src/AuthChain/Reach.antt =====
-- materialiseChains finds how far every chain can be reached along the links, and it terminates.
use synapse_gopro_worker.Prelude.{
  ℕ, zero, suc, ◌+◌, ◌≤◌, ◌<◌, ◌≡◌, ◌⊎◌, inl, inr, refl, sym, List, [], ◌∷◌, some, arith, length,
  subst, lookup, In, All, All-In,
}
use synapse_gopro_worker.AuthChain.Cover.{
  Link, ChainMap, at, links_from, scan_links, generation, materialise_loop, materialise_chains,
}
use synapse_gopro_worker.AuthChain.Scan.{
  Scanned, Followed, scan_links-Scanned, scan_links-Followed, scan_links_sound, unreached,
  unreached-le, scan_links_progress, links_from-sub, In-links_from,
}

-- Sequence number `n` of chain `c` can be reached: a link leads to it from at or below a starting
-- point, or from at or below a point that can be reached.
pub data Reaches (links : List Link) (start : ChainMap) : ℕ → ℕ → Type 0 where
  from_start :
      {c n : ℕ} (l : Link)
      → In l links
      → l.origin_seq ≤ at start l.origin_chain
      → l.target_chain ≡ c
      → l.target_seq ≡ n
      → Reaches links start c n
  along :
      {c n m d : ℕ} (l : Link)
      → Reaches links start d m
      → In l links
      → l.origin_chain ≡ d
      → l.origin_seq ≤ m
      → l.target_chain ≡ c
      → l.target_seq ≡ n
      → Reaches links start c n

-- The furthest point of each chain.
pub record IsFurthest (links : List Link) (start reachable : ChainMap) : Type 0 where
  pub sound : (c : ℕ) → 0 < at reachable c → Reaches links start c (at reachable c)
  pub complete : (c n : ℕ) → Reaches links start c n → n ≤ at reachable c

module _ (links : List Link) (start : ChainMap) (positive : All (λ l. 0 < l.origin_seq) links) where
  -- The invariant of the loop.
  record Loop (frontier reachable : ChainMap) : Type 0 where
    sound : (c : ℕ) → 0 < at reachable c → Reaches links start c (at reachable c)
    source :
        (c : ℕ)
        → 0 < at frontier c
        → (at frontier c ≤ at start c) ⊎ Reaches links start c (at frontier c)
    pending :
        (l : Link)
        → In l links
        → (l.origin_seq ≤ at start l.origin_chain) ⊎ (l.origin_seq ≤ at reachable l.origin_chain)
        → (l.target_seq ≤ at reachable l.target_chain) ⊎ (l.origin_seq ≤ at frontier l.origin_chain)

  positive_origin : (l : Link) → In l links → 0 < l.origin_seq
  positive_origin l m = All-In (λ x. 0 < x.origin_seq) l links positive m

  module _ (frontier reachable : ChainMap) (h : Loop frontier reachable) where
    after : ChainMap × ChainMap
    after = scan_links frontier (links_from frontier links) (reachable, [])

    start-Scanned : Scanned frontier reachable (reachable, [])
    unfolding at lookup
    start-Scanned = record {
      grows = λ c. omega arith;
      exact = λ c. inl refl;
      noted = λ c. inl refl;
    }

    scanned : Scanned frontier reachable after
    unfolding after
    scanned = scan_links-Scanned frontier reachable (links_from frontier links) _ start-Scanned

    along_frontier :
        (l : Link)
        → In l (links_from frontier links)
        → l.origin_seq ≤ at frontier l.origin_chain
        → Reaches links start l.target_chain l.target_seq
    along_frontier l m e =
        let m' = links_from-sub frontier links l m in
        elim (h.source l.origin_chain (omega (arith, positive_origin l m'))) [
          | inl s ↦ from_start l m' (omega arith) refl refl
          | inr r ↦ along l r m' refl e refl refl
        ]

    sound' : (c : ℕ) → 0 < at after.0 c → Reaches links start c (at after.0 c)
    unfolding after
    sound' =
        scan_links_sound frontier reachable (Reaches links start) (links_from frontier links)
          (reachable, []) along_frontier h.sound

    followed : (l : Link) → In l links → Followed frontier after.0 l
    unfolding after
    followed l m e =
        scan_links-Followed frontier reachable (links_from frontier links) (reachable, []) l
          (In-links_from frontier links l m (omega (arith, positive_origin l m))) e

    old_pending :
        (l : Link)
        → In l links
        → (l.target_seq ≤ at reachable l.target_chain) ⊎ (l.origin_seq ≤ at frontier l.origin_chain)
        → l.target_seq ≤ at after.0 l.target_chain
    old_pending l m (inl d) = omega (arith, scanned.grows l.target_chain)
    old_pending l m (inr p) = followed l m p

    after-Loop : Loop after.1 after.0
    after-Loop = record {
      sound = sound';
      source = λ c p. elim (scanned.exact c) [
        | inl z ↦ absurd (omega arith)
        | inr q ↦ inr (subst (Reaches links start c) (sym q) (sound' c (omega arith)))
      ];
      pending = λ l m e. elim e [
        | inl s ↦ inl (old_pending l m (h.pending l m (inl s)))
        | inr r ↦ elim (scanned.noted l.origin_chain) [
          | inl same ↦ inl (old_pending l m (h.pending l m (inr (omega arith))))
          | inr noted ↦ inr (omega arith)
        ]
      ];
    }

    progress : (after ≡ (reachable, [])) ⊎ (unreached links after.0 < unreached links reachable)
    unfolding after
    progress =
        scan_links_progress frontier links (links_from frontier links) (reachable, [])
          (links_from-sub frontier links)

  module _ (reachable : ChainMap) (h : Loop [] reachable) where
    settled :
        (l : Link)
        → In l links
        → (l.origin_seq ≤ at start l.origin_chain) ⊎ (l.origin_seq ≤ at reachable l.origin_chain)
        → l.target_seq ≤ at reachable l.target_chain
    unfolding at lookup
    settled l m e = elim (h.pending l m e) [
      | inl d ↦ d
      | inr p ↦ absurd (omega (arith, positive_origin l m))
    ]

    complete : {c n : ℕ} → Reaches links start c n → n ≤ at reachable c
    complete {n} (from_start l m e tc ts) =
        subst (λ c. n ≤ at reachable c) tc (omega (arith, ts, settled l m (inl e)))
    complete {n} (along l r m oc e tc ts) =
        let far : l.origin_seq ≤ at reachable l.origin_chain =
          subst (λ d. l.origin_seq ≤ at reachable d) (sym oc) (omega (arith, e, complete r)) in
        subst (λ c. n ≤ at reachable c) tc (omega (arith, ts, settled l m (inr far)))

    done-IsFurthest : IsFurthest links start reachable
    done-IsFurthest = record { sound = h.sound; complete = λ c n r. complete r }

  abbrev Furthest : ℕ → ChainMap × ChainMap → Type 0
  Furthest fuel s =
      (r : ChainMap) × (materialise_loop fuel links s.1 s.0 ≡ some r) × IsFurthest links start r

  materialise_loop-Furthest :
      (fuel : ℕ) (frontier reachable : ChainMap)
      → Loop frontier reachable
      → unreached links reachable + 2 ≤ fuel
      → (r : ChainMap) × (materialise_loop fuel links frontier reachable ≡ some r)
        × IsFurthest links start r
  unfolding materialise_loop generation after
  materialise_loop-Furthest zero frontier reachable h enough = absurd (omega arith)
  materialise_loop-Furthest (suc fuel) [] reachable h enough =
      (reachable, refl, done-IsFurthest reachable h)
  materialise_loop-Furthest (suc zero) (c ∷ frontier) reachable h enough = absurd (omega arith)
  materialise_loop-Furthest (suc (suc fuel)) (c ∷ frontier) reachable h enough =
      elim (progress (c ∷ frontier) reachable h) [
        | inl same ↦
            let h' : Loop [] reachable =
              subst (λ y. Loop y.1 y.0) same (after-Loop (c ∷ frontier) reachable h) in
            subst (Furthest (suc fuel)) (sym same) (reachable, refl, done-IsFurthest reachable h')
        | inr less ↦
            materialise_loop-Furthest (suc fuel) _ _ (after-Loop (c ∷ frontier) reachable h)
              (omega arith)
      ]

  start-Loop : Loop start []
  unfolding at lookup
  start-Loop = record {
    sound = λ c p. absurd (omega arith);
    source = λ c p. inl (omega arith);
    pending =
        λ l m e. elim e [ inl s ↦ inr s | inr r ↦ absurd (omega (arith, positive_origin l m)) ];
  }

  -- If the origins of the links are positive, the walk over the links ends, and gives for every
  -- chain the furthest sequence number that can be reached from the starting points, whatever the
  -- order of the rows.
  pub materialise_chains-IsFurthest :
      (r : ChainMap) × (materialise_chains links start ≡ some r) × IsFurthest links start r
  unfolding materialise_chains
  materialise_chains-IsFurthest =
      materialise_loop-Furthest (suc (suc (length links))) start [] start-Loop
        (omega (arith, unreached-le links []))
