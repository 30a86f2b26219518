-- ===== src/AuthChain/Query.antt =====
-- GetAuthChainIDs of internal/store/authchain.go around materialiseChains: the starting points, the
-- check that the index covers them, and the events that are selected.
use synapse_gopro_worker.Prelude.{
  ℕ, ◌-◌, ◌≤◌, ◌<◌, ◌≡◌, ◌⊎◌, inl, inr, refl, sym, ap, ◌∙◌, Bool, true, false, List, [], ◌∷◌,
  Option, none, some, if◌then◌else◌, arith, leb, subst, lookup, ℕ_discrete, In, Bytes, keep_if, map,
  delete, insert, max, dec_le, mentions, ite,
}
use synapse_gopro_worker.AuthChain.Cover.{Link, Position, ChainMap, at, raise, materialise_chains}
use synapse_gopro_worker.AuthChain.Scan.{at-raise, at-insert}
use synapse_gopro_worker.AuthChain.Reach.{Reaches, IsFurthest}

-- `WHERE event_id = ANY($1)`
unfoldable pub positions_of : List Bytes → List Position → List Position
positions_of ids = keep_if λ p. mentions p.event_id ids

-- Step 1: the furthest starting point of each chain.
unfoldable pub start_chains : List Position → ChainMap → ChainMap
start_chains [] m = m
start_chains (p ∷ ps) m = start_chains ps (raise p.chain_id p.seq m)

-- Whether every event has a chain position.
unfoldable pub covers : List Bytes → List Bytes → Bool
covers seen [] = true
covers seen (id ∷ ids) = if mentions id seen then covers seen ids else false

-- Step 3: a starting event reaches what is before it in its own chain.
unfoldable pub own_chains : ChainMap → ChainMap → ChainMap
own_chains [] chains = chains
own_chains ((c, n) ∷ rest) chains =
    own_chains rest (if leb n 1 then chains else raise c (n - 1) chains)

-- Step 4: the rows at or below the furthest point of their chain.
unfoldable pub selected : ChainMap → List Position → List Position
selected chains =
    keep_if λ p. elim (lookup ℕ_discrete p.chain_id chains) [ none ↦ false | some n ↦ leb p.seq n ]

pub data Chain : Type 0 where
  found : List Bytes → Chain
  no_chain_cover_index : Bytes → Chain

-- The computation of an answer that is not cached. `none` means that the fuel ran out.
unfoldable pub compute_auth_chain : List Link → List Position → Bytes → List Bytes → Option Chain
compute_auth_chain links positions room ids =
    let rows = positions_of ids positions in
    let starts = start_chains rows [] in
    if covers (map (λ p. p.event_id) rows) ids
    then elim (materialise_chains links starts) [
      | none ↦ none
      | some chains ↦
          some (found (map (λ p. p.event_id) (selected (own_chains starts chains) positions)))
    ]
    else some (no_chain_cover_index room)

-- The largest number that a chain has in a list.
top : ChainMap → ℕ → ℕ
top [] d = 0
top ((c, n) ∷ m) d = max (ite (ℕ_discrete d c) n 0) (top m d)

top-delete :
    (c d : ℕ) (m : ChainMap) → top (delete ℕ_discrete c m) d ≡ ite (ℕ_discrete d c) 0 (top m d)
unfolding top delete
top-delete c d [] = ground arith
top-delete c d ((e, n) ∷ m) = ground (arith, top-delete c d m)

abbrev IsKeyed : ChainMap → Type 0
IsKeyed m = (d : ℕ) → top m d ≡ at m d

raise-IsKeyed : (c n : ℕ) (m : ChainMap) → IsKeyed m → IsKeyed (raise c n m)
unfolding raise insert top
raise-IsKeyed c n m k d = ground (arith, top-delete c d m, at-insert m c d n, k d)

start_chains-IsKeyed : (ps : List Position) (m : ChainMap) → IsKeyed m → IsKeyed (start_chains ps m)
unfolding start_chains
start_chains-IsKeyed [] m k = k
start_chains-IsKeyed (p ∷ ps) m k =
    start_chains-IsKeyed ps (raise p.chain_id p.seq m) (raise-IsKeyed p.chain_id p.seq m k)

at-own_chains :
    (l chains : ChainMap) (d : ℕ) → at (own_chains l chains) d ≡ max (at chains d) (top l d - 1)
unfolding own_chains top
at-own_chains [] chains d = ground arith
at-own_chains ((c, n) ∷ l) chains d =
    at-own_chains l (if leb n 1 then chains else raise c (n - 1) chains) d
    ∙ ground (arith, at-raise chains c d (n - 1))

raise_le : (c d n : ℕ) (m : ChainMap) → at m d ≤ at (raise c n m) d
raise_le c d n m = ground (arith, at-raise m c d n)

raise_self : (c d n : ℕ) (m : ChainMap) → c ≡ d → n ≤ at (raise c n m) d
raise_self c d n m e = ground (arith, at-raise m c d n)

raise_cases :
    (c d n : ℕ) (m : ChainMap)
    → (at (raise c n m) d ≡ at m d) ⊎ ((c ≡ d) × (at (raise c n m) d ≡ n))
raise_cases c d n m = ground (arith, at-raise m c d n)

start_chains_le : (ps : List Position) (m : ChainMap) (d : ℕ) → at m d ≤ at (start_chains ps m) d
unfolding start_chains
start_chains_le [] m d = omega arith
start_chains_le (q ∷ ps) m d =
    omega (arith, raise_le q.chain_id d q.seq m, start_chains_le ps (raise q.chain_id q.seq m) d)

-- A starting row is at or below the starting point of its chain.
pub start_chains_bound :
    (ps : List Position) (m : ChainMap) (p : Position)
    → In p ps
    → p.seq ≤ at (start_chains ps m) p.chain_id
unfolding start_chains
start_chains_bound [] m p i = absurd i
start_chains_bound (q ∷ ps) m p (inl e) = omega (
  arith,
  ap (λ x. x.seq) e,
  raise_self q.chain_id p.chain_id q.seq m (sym (ap (λ x. x.chain_id) e)),
  start_chains_le ps (raise q.chain_id q.seq m) p.chain_id,
)
start_chains_bound (q ∷ ps) m p (inr i) = start_chains_bound ps (raise q.chain_id q.seq m) p i

-- A starting point is the sequence number of a starting row.
start_chains_attained :
    (ps : List Position) (m : ChainMap) (d : ℕ)
    → (at (start_chains ps m) d ≡ at m d)
      ⊎ ((p : Position) × In p ps × (p.chain_id ≡ d) × (at (start_chains ps m) d ≡ p.seq))
unfolding start_chains
start_chains_attained [] m d = inl refl
start_chains_attained (q ∷ ps) m d = elim (start_chains_attained ps (raise q.chain_id q.seq m) d) [
  | inr (p, i, e, f) ↦ inr (p, inr i, e, f)
  | inl same ↦ elim (raise_cases q.chain_id d q.seq m) [
    | inl old ↦ inl (same ∙ old)
    | inr (e, new) ↦ inr (q, inl refl, e, same ∙ new)
  ]
]

-- What the answer should hold: the events before a starting event in its chain, and those at or
-- below a point that the links reach.
abbrev pub InAuthChain : List Link → List Position → Position → Type 0
InAuthChain links rows p =
    ((q : Position) × In q rows × (q.chain_id ≡ p.chain_id) × (p.seq < q.seq))
    ⊎ ((n : ℕ) × Reaches links (start_chains rows []) p.chain_id n × (p.seq ≤ n))

module _ (links : List Link) (rows : List Position) where
  module _ (chains : ChainMap) (furthest : IsFurthest links (start_chains rows []) chains) where
    abbrev pub starts : ChainMap
    starts = start_chains rows []

    limit : (d : ℕ) → at (own_chains starts chains) d ≡ max (at chains d) (at starts d - 1)
    unfolding top at lookup
    limit d =
        at-own_chains starts chains d
        ∙ ap (λ n. max (at chains d) (n - 1)) (start_chains-IsKeyed rows [] (λ d. refl) d)

    pub within-InAuthChain :
        (p : Position)
        → 0 < p.seq
        → p.seq ≤ at (own_chains starts chains) p.chain_id
        → InAuthChain links rows p
    unfolding at lookup
    within-InAuthChain p pos h = elim (dec_le p.seq (at chains p.chain_id)) [
      | yes reached ↦ inr (at chains p.chain_id, furthest.sound p.chain_id (omega arith), reached)
      | no beyond ↦
          let own : p.seq < at (start_chains rows []) p.chain_id =
            omega (arith, limit p.chain_id) in
          elim (start_chains_attained rows [] p.chain_id) [
            | inl empty ↦ absurd (omega arith)
            | inr (q, i, e, f) ↦ inl (q, i, e, omega arith)
          ]
    ]

    pub InAuthChain-within :
        (p : Position) → InAuthChain links rows p → p.seq ≤ at (own_chains starts chains) p.chain_id
    InAuthChain-within p (inl (q, i, e, below)) = omega (
      arith,
      limit p.chain_id,
      subst (λ d. q.seq ≤ at (start_chains rows []) d) e (start_chains_bound rows [] q i),
    )
    InAuthChain-within p (inr (n, r, below)) =
        omega (arith, limit p.chain_id, furthest.complete p.chain_id n r)
