-- ===== src/AuthChain/Tests.antt =====
-- Auth chains of small rooms, and the theorems there.
use synapse_gopro_worker.Prelude.{
  ◌≡◌, ◌≢◌, refl, inl, inr, List, [], ◌∷◌, some, arith, Bytes, bytes, lookup, bytes_discrete, ◌↔◌,
  In, delete, insert, ℕ_discrete, mentions,
}
use synapse_gopro_worker.AuthChain.Cover.{
  Link, Position, ChainMap, materialise_chains, materialise_loop, generation, scan_links, scan_link,
  at, raise,
}
use synapse_gopro_worker.AuthChain.Reach.{IsFurthest, materialise_chains-IsFurthest}
use synapse_gopro_worker.AuthChain.Query.{
  found, no_chain_cover_index, compute_auth_chain, InAuthChain, positions_of, start_chains,
  own_chains, selected, covers,
}
use synapse_gopro_worker.AuthChain.Answer.{
  rows, compute_auth_chain-found, compute_auth_chain-missing,
}
use synapse_gopro_worker.AuthChain.Walk.{
  AuthTables, auth_chain_ids_recursive, walk, query_batches, absorb,
}
use synapse_gopro_worker.AuthChain.WalkReach.{Found, auth_chain_ids_recursive-Found}

program : Unit {0}
unfolding materialise_chains materialise_loop generation scan_links scan_link at raise lookup insert
    delete ℕ_discrete bytes_discrete compute_auth_chain positions_of start_chains own_chains
    selected covers mentions auth_chain_ids_recursive walk query_batches absorb
program = tt

-- Chain 1 holds a and b, chain 2 holds c and d; d links to a.
abbrev positions : List Position
positions =
    record { event_id = bytes "a"; chain_id = 1; seq = 1 }
    ∷ record { event_id = bytes "b"; chain_id = 1; seq = 2 }
    ∷ record { event_id = bytes "c"; chain_id = 2; seq = 1 }
    ∷ record { event_id = bytes "d"; chain_id = 2; seq = 2 }
    ∷ []

abbrev links : List Link
links = record { origin_chain = 2; origin_seq = 2; target_chain = 1; target_seq = 1 } ∷ []

abbrev room : Bytes
room = bytes "!r"

-- The auth chain of d: c before it, and a by the link.
chain_of_d :
    compute_auth_chain links positions room (bytes "d" ∷ [])
    ≡ some (found (bytes "a" ∷ bytes "c" ∷ []))
unfolding program
chain_of_d = refl

materialise_chains-IsFurthest_example :
    (r : ChainMap) × (materialise_chains links ((2, 2) ∷ []) ≡ some r)
    × IsFurthest links ((2, 2) ∷ []) r
materialise_chains-IsFurthest_example =
    materialise_chains-IsFurthest links ((2, 2) ∷ []) (omega arith)

d_is_held : (e : Bytes) → In e (bytes "d" ∷ []) → (p : Position) × In p positions × (p.event_id ≡ e)
d_is_held e (inl q) = (
  record { event_id = bytes "d"; chain_id = 2; seq = 2 },
  inr (inr (inr (inl refl))),
  ground (arith, q),
)
d_is_held e (inr m) = absurd m

compute_auth_chain-found_example :
    (out : List Bytes) × (compute_auth_chain links positions room (bytes "d" ∷ [])
      ≡ some (found out))
    × ((e : Bytes)
        → In e out ↔ (
            (p : Position) × In p positions
            × (p.event_id ≡ e)
            × InAuthChain links (rows links positions room (bytes "d" ∷ [])) p))
compute_auth_chain-found_example =
    compute_auth_chain-found links positions room (bytes "d" ∷ []) d_is_held (omega arith)
      (omega arith)

x_is_missing : (p : Position) → In p positions → p.event_id ≢ bytes "x"
x_is_missing p (inl e) q = ground (arith, e, q)
x_is_missing p (inr (inl e)) q = ground (arith, e, q)
x_is_missing p (inr (inr (inl e))) q = ground (arith, e, q)
x_is_missing p (inr (inr (inr (inl e)))) q = ground (arith, e, q)
x_is_missing p (inr (inr (inr (inr m)))) q = absurd m

compute_auth_chain-missing_example :
    compute_auth_chain links positions room (bytes "x" ∷ []) ≡ some (no_chain_cover_index room)
compute_auth_chain-missing_example =
    compute_auth_chain-missing links positions room (bytes "x" ∷ []) (bytes "x") (inl refl)
      x_is_missing

-- A cycle, and an edge to an event that is not held.
abbrev tables : AuthTables
tables = record {
  event_auth =
      record { event_id = bytes "a"; auth_id = bytes "b" }
      ∷ record { event_id = bytes "b"; auth_id = bytes "a" }
      ∷ record { event_id = bytes "b"; auth_id = bytes "gone" }
      ∷ [];
  events = bytes "a" ∷ bytes "b" ∷ [];
}

walks_a_cycle : auth_chain_ids_recursive tables (bytes "a" ∷ []) ≡ some (bytes "a" ∷ bytes "b" ∷ [])
unfolding program
walks_a_cycle = refl

auth_chain_ids_recursive-Found_example :
    (out : List Bytes) × (auth_chain_ids_recursive tables (bytes "a" ∷ []) ≡ some out)
    × Found tables (bytes "a" ∷ []) out
auth_chain_ids_recursive-Found_example = auth_chain_ids_recursive-Found tables (bytes "a" ∷ [])
