-- ===== src/AuthChain/Scan.antt =====
-- What one generation of materialiseChains does to the two maps.
use synapse_gopro_worker.Prelude.{
  ℕ, ◌+◌, ◌≤◌, ◌<◌, ◌≡◌, ◌⊎◌, inl, inr, refl, sym, ap, ◌∙◌, true, List, [], ◌∷◌, if◌then◌else◌,
  arith, length, Bool-cases, ltb, subst, lookup, insert, lookup-insert, ℕ_discrete, ite, In,
}
use synapse_gopro_worker.AuthChain.Cover.{
  Link, ChainMap, or_zero, at, raise, is_some, links_from, scan_link, scan_links,
}

pub at-insert :
    (m : ChainMap) (c d n : ℕ) → at (insert ℕ_discrete c n m) d ≡ ite (ℕ_discrete d c) n (at m d)
unfolding at
at-insert m c d n = ap or_zero (lookup-insert ℕ_discrete d c n m) ∙ ground arith

pub at-raise :
    (m : ChainMap) (c d n : ℕ)
    → at (raise c n m) d ≡ (if ltb (at m d) n then ite (ℕ_discrete d c) n (at m d) else at m d)
unfolding raise
at-raise m c d n = ground (arith, at-insert m c d n)

-- What the rows that have been scanned leave, compared with the map before the generation.
pub record Scanned (frontier before : ChainMap) (s : ChainMap × ChainMap) : Type 0 where
  pub grows : (c : ℕ) → at before c ≤ at s.0 c
  pub exact : (c : ℕ) → (at s.1 c ≡ 0) ⊎ (at s.1 c ≡ at s.0 c)
  -- A chain that got further is in the next frontier, with how far it got.
  pub noted : (c : ℕ) → (at s.0 c ≡ at before c) ⊎ (at s.1 c ≡ at s.0 c)

-- The link has been followed, if its origin can be reached.
abbrev pub Followed : ChainMap → ChainMap → Link → Type 0
Followed frontier reachable l =
    l.origin_seq ≤ at frontier l.origin_chain → l.target_seq ≤ at reachable l.target_chain

module _ (frontier before : ChainMap) where
  scan_link-Scanned :
      (l : Link) (s : ChainMap × ChainMap)
      → Scanned frontier before s
      → Scanned frontier before (scan_link frontier l s)
  unfolding scan_link
  scan_link-Scanned l (r, n) h = record {
    grows = λ c. ground (arith, h.grows c, at-insert r l.target_chain c l.target_seq);
    exact = λ c. ground (
      arith,
      h.exact c,
      at-insert r l.target_chain c l.target_seq,
      at-raise n l.target_chain c l.target_seq,
    );
    noted = λ c. ground (
      arith,
      h.noted c,
      h.exact c,
      at-insert r l.target_chain c l.target_seq,
      at-raise n l.target_chain c l.target_seq,
    );
  }

  scan_link_grows :
      (l : Link) (s : ChainMap × ChainMap) (c : ℕ) → at s.0 c ≤ at (scan_link frontier l s).0 c
  unfolding scan_link
  scan_link_grows l (r, n) c = ground (arith, at-insert r l.target_chain c l.target_seq)

  scan_link-Followed :
      (l : Link) (s : ChainMap × ChainMap) → Followed frontier (scan_link frontier l s).0 l
  unfolding scan_link
  scan_link-Followed l (r, n) e =
      ground (arith, at-insert r l.target_chain l.target_chain l.target_seq)

  scan_links_grows :
      (ls : List Link) (s : ChainMap × ChainMap) (c : ℕ)
      → at s.0 c ≤ at (scan_links frontier ls s).0 c
  unfolding scan_links
  scan_links_grows [] s c = omega arith
  scan_links_grows (l ∷ ls) s c =
      omega (arith, scan_link_grows l s c, scan_links_grows ls (scan_link frontier l s) c)

  pub scan_links-Scanned :
      (ls : List Link) (s : ChainMap × ChainMap)
      → Scanned frontier before s
      → Scanned frontier before (scan_links frontier ls s)
  unfolding scan_links
  scan_links-Scanned [] s h = h
  scan_links-Scanned (l ∷ ls) s h =
      scan_links-Scanned ls (scan_link frontier l s) (scan_link-Scanned l s h)

  pub scan_links-Followed :
      (ls : List Link) (s : ChainMap × ChainMap) (l : Link)
      → In l ls
      → Followed frontier (scan_links frontier ls s).0 l
  unfolding scan_links
  scan_links-Followed [] s l m e = absurd m
  scan_links-Followed (x ∷ ls) s l (inl q) e =
      let f : Followed frontier (scan_link frontier x s).0 l =
        subst (Followed frontier (scan_link frontier x s).0) (sym q) (scan_link-Followed x s) in
      omega (arith, f e, scan_links_grows ls (scan_link frontier x s) l.target_chain)
  scan_links-Followed (x ∷ ls) s l (inr m) e = scan_links-Followed ls (scan_link frontier x s) l m e

  -- A point that a link reaches is either an old one, or the link's target.
  scan_link_cases :
      (l : Link) (s : ChainMap × ChainMap) (c : ℕ)
      → (at (scan_link frontier l s).0 c ≡ at s.0 c)
        ⊎ ((l.origin_seq ≤ at frontier l.origin_chain)
            × (l.target_chain ≡ c)
            × (l.target_seq ≡ at (scan_link frontier l s).0 c))
  unfolding scan_link
  scan_link_cases l (r, n) c = ground (arith, at-insert r l.target_chain c l.target_seq)

  -- A property of all reached points carries over, if it passes along links.
  pub scan_links_sound {ℓ} :
      (P : ℕ → ℕ → Type ℓ) (ls : List Link) (s : ChainMap × ChainMap)
      → ((l : Link)
          → In l ls
          → l.origin_seq ≤ at frontier l.origin_chain
          → P l.target_chain l.target_seq)
      → ((c : ℕ) → 0 < at s.0 c → P c (at s.0 c))
      → (c : ℕ) → 0 < at (scan_links frontier ls s).0 c
      → P c (at (scan_links frontier ls s).0 c)
  unfolding scan_links
  scan_links_sound P [] s along base c h = base c h
  scan_links_sound P (l ∷ ls) s along base c h =
      scan_links_sound P ls (scan_link frontier l s) (λ x m. along x (inr m)) one c h
    where
      one : (c : ℕ) → 0 < at (scan_link frontier l s).0 c → P c (at (scan_link frontier l s).0 c)
      one c h = elim (scan_link_cases l s c) [
        | inl old ↦ subst (P c) (sym old) (base c (omega arith))
        | inr (e, tc, ts) ↦ subst (P c) ts (subst (λ d. P d l.target_seq) tc (along l (inl refl) e))
      ]

-- The links whose target has not been reached yet.
unfoldable pub unreached : List Link → ChainMap → ℕ
unreached [] r = 0
unreached (l ∷ ls) r = (if ltb (at r l.target_chain) l.target_seq then 1 else 0) + unreached ls r

pub unreached-le : (ls : List Link) (r : ChainMap) → unreached ls r ≤ length ls
unfolding unreached
unreached-le [] r = omega arith
unreached-le (l ∷ ls) r = ground (arith, unreached-le ls r)

module _ (r r' : ChainMap) (grows : (c : ℕ) → at r c ≤ at r' c) where
  unreached_mono : (ls : List Link) → unreached ls r' ≤ unreached ls r
  unfolding unreached
  unreached_mono [] = omega arith
  unreached_mono (l ∷ ls) = ground (arith, grows l.target_chain, unreached_mono ls)

  unreached_lt :
      (ls : List Link) (l : Link)
      → In l ls
      → at r l.target_chain < l.target_seq
      → l.target_seq ≤ at r' l.target_chain
      → unreached ls r' < unreached ls r
  unfolding unreached
  unreached_lt [] l m before after = absurd m
  unreached_lt (x ∷ ls) l (inl q) before after =
      let b : at r x.target_chain < x.target_seq =
        subst (λ y. at r y.target_chain < y.target_seq) q before in
      let a : x.target_seq ≤ at r' x.target_chain =
        subst (λ y. y.target_seq ≤ at r' y.target_chain) q after in
      ground (arith, a, b, unreached_mono ls)
  unreached_lt (x ∷ ls) l (inr m) before after =
      ground (arith, grows x.target_chain, unreached_lt ls l m before after)

module _ (frontier : ChainMap) (all : List Link) where
  scan_link_step :
      (l : Link) (s : ChainMap × ChainMap)
      → (scan_link frontier l s ≡ s)
        ⊎ ((at s.0 l.target_chain < l.target_seq)
            × (l.target_seq ≤ at (scan_link frontier l s).0 l.target_chain))
  unfolding scan_link
  scan_link_step l (r, n) = ground (arith, at-insert r l.target_chain l.target_chain l.target_seq)

  scan_link_progress :
      (l : Link) (s : ChainMap × ChainMap)
      → In l all
      → (scan_link frontier l s ≡ s)
        ⊎ (unreached all (scan_link frontier l s).0 < unreached all s.0)
  scan_link_progress l s m = elim (scan_link_step l s) [
    | inl same ↦ inl same
    | inr (before, after) ↦
        inr (unreached_lt s.0 _ (scan_link_grows frontier [] l s) all l m before after)
  ]

  -- A scan either follows no link to a new point, or leaves fewer links unreached.
  pub scan_links_progress :
      (ls : List Link) (s : ChainMap × ChainMap)
      → ((l : Link) → In l ls → In l all)
      → (scan_links frontier ls s ≡ s)
        ⊎ (unreached all (scan_links frontier ls s).0 < unreached all s.0)
  unfolding scan_links
  scan_links_progress [] s sub = inl refl
  scan_links_progress (l ∷ ls) s sub =
      let rest = scan_links_progress ls (scan_link frontier l s) (λ x m. sub x (inr m)) in
      elim (scan_link_progress l s (sub l (inl refl))) [
        | inl same ↦
            subst
              (λ y.
                (scan_links frontier ls y ≡ s)
                ⊎ (unreached all (scan_links frontier ls y).0 < unreached all s.0))
              (sym same) (scan_links_progress ls s (λ x m. sub x (inr m)))
        | inr less ↦ elim rest [
          | inl same' ↦ inr (subst (λ y. unreached all y.0 < unreached all s.0) (sym same') less)
          | inr less' ↦ inr (omega arith)
        ]
      ]

pub links_from-sub :
    (frontier : ChainMap) (ls : List Link) (l : Link) → In l (links_from frontier ls) → In l ls
unfolding links_from
links_from-sub frontier [] l m = m
links_from-sub frontier (x ∷ ls) l m =
    elim (Bool-cases (is_some (lookup ℕ_discrete x.origin_chain frontier))) [
      | inl e ↦ elim (let m' : In l (x ∷ links_from frontier ls) = rw e at m in m') [
        | inl q ↦ inl q
        | inr r ↦ inr (links_from-sub frontier ls l r)
      ]
      | inr e ↦ inr (links_from-sub frontier ls l (rw e at m))
    ]

-- A link whose origin the frontier reaches is among its rows.
pub In-links_from :
    (frontier : ChainMap) (ls : List Link) (l : Link)
    → In l ls
    → 0 < at frontier l.origin_chain
    → In l (links_from frontier ls)
unfolding links_from at
In-links_from frontier [] l m h = m
In-links_from frontier (x ∷ ls) l (inl q) h =
    let held : is_some (lookup ℕ_discrete x.origin_chain frontier) ≡ true =
      subst (λ y. is_some (lookup ℕ_discrete y.origin_chain frontier) ≡ true) q (ground arith) in
    rw held (inl q)
In-links_from frontier (x ∷ ls) l (inr m) h =
    elim (Bool-cases (is_some (lookup ℕ_discrete x.origin_chain frontier))) [
      | inl e ↦ rw e (inr (In-links_from frontier ls l m h))
      | inr e ↦ rw e (In-links_from frontier ls l m h)
    ]
