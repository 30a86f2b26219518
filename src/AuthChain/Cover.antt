-- ===== src/AuthChain/Cover.antt =====
-- GetAuthChainIDs and materialiseChains of internal/store/authchain.go.
--
-- A table is the list of its rows, in the order in which the database gives them; what is proved
-- holds for every order. Chain and sequence numbers are natural numbers. Maps from chains read 0 at
-- a chain that they lack, as in Go.
use synapse_gopro_worker.Prelude.{
  ℕ, zero, suc, Bool, true, false, List, [], ◌∷◌, Option, none, some, if◌then◌else◌, ltb, lookup,
  insert, ℕ_discrete, Bytes, keep_if, length,
}

-- A row of event_auth_chain_links.
pub record Link : Type 0 where
  pub origin_chain : ℕ
  pub origin_seq : ℕ
  pub target_chain : ℕ
  pub target_seq : ℕ

-- A row of event_auth_chains.
pub record Position : Type 0 where
  pub event_id : Bytes
  pub chain_id : ℕ
  pub seq : ℕ

abbrev pub ChainMap : Type 0
ChainMap = List (ℕ × ℕ)

abbrev pub or_zero : Option ℕ → ℕ
or_zero none = 0
or_zero (some n) = n

-- `m[chain]`
unfoldable pub at : ChainMap → ℕ → ℕ
at m c = or_zero (lookup ℕ_discrete c m)

-- `if seq > m[chain] { m[chain] = seq }`
unfoldable pub raise : ℕ → ℕ → ChainMap → ChainMap
raise c n m = if ltb (at m c) n then insert ℕ_discrete c n m else m

abbrev pub is_some {ℓ} : {A : Type ℓ} → Option A → Bool
is_some none = false
is_some (some a) = true

-- `WHERE origin_chain_id = ANY($1)`
unfoldable pub links_from : ChainMap → List Link → List Link
links_from frontier = keep_if λ l. is_some (lookup ℕ_discrete l.origin_chain frontier)

-- The body of the loop over the rows: what is reachable, and the next frontier.
unfoldable pub scan_link : ChainMap → Link → ChainMap × ChainMap → ChainMap × ChainMap
unfolding raise
scan_link frontier l (reachable, next) =
    if ltb (at frontier l.origin_chain) l.origin_seq
    then (reachable, next)
    else if ltb (at reachable l.target_chain) l.target_seq
    then (
      insert ℕ_discrete l.target_chain l.target_seq reachable,
      raise l.target_chain l.target_seq next,
    )
    else (reachable, next)

unfoldable pub scan_links : ChainMap → List Link → ChainMap × ChainMap → ChainMap × ChainMap
scan_links frontier [] s = s
scan_links frontier (l ∷ ls) s = scan_links frontier ls (scan_link frontier l s)

-- One generation: the frontier's links, from an empty next frontier.
unfoldable pub generation : List Link → ChainMap → ChainMap → ChainMap × ChainMap
unfolding links_from
generation links frontier reachable =
    scan_links frontier (links_from frontier links) (reachable, [])

-- The loop of `materialiseChains`, on fuel: `none` means that the fuel ran out.
unfoldable pub materialise_loop : ℕ → List Link → ChainMap → ChainMap → Option ChainMap
materialise_loop zero links frontier reachable = none
materialise_loop (suc n) links [] reachable = some reachable
materialise_loop (suc n) links (c ∷ frontier) reachable =
    let (reachable', next) = generation links (c ∷ frontier) reachable in
    materialise_loop n links next reachable'

-- A generation with a next frontier uses up a link, so this fuel is enough.
unfoldable pub materialise_chains : List Link → ChainMap → Option ChainMap
materialise_chains links event_chains =
    materialise_loop (suc (suc (length links))) links event_chains []
