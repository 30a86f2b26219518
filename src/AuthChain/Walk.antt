-- ===== src/AuthChain/Walk.antt =====
-- GetAuthChainIDsRecursive and GetAuthChainIDsWithFallback of internal/store/authchain.go. A set of
-- event IDs is the list of its elements.
use synapse_gopro_worker.Prelude.{
  ℕ, zero, suc, Bool, true, false, ◌&&◌, List, [], ◌∷◌, Option, none, some, if◌then◌else◌, Bytes,
  mentions, keep_if, length, take, drop,
}
use synapse_gopro_worker.AuthChain.Cover.{Link, Position}
use synapse_gopro_worker.AuthChain.Query.{found, no_chain_cover_index, compute_auth_chain}

-- A row of event_auth.
pub record AuthEdge : Type 0 where
  pub event_id : Bytes
  pub auth_id : Bytes

-- The tables that the walk reads: event_auth, and the IDs in events.
pub record AuthTables : Type 0 where
  pub event_auth : List AuthEdge
  pub events : List Bytes

abbrev pub auth_chain_batch : ℕ
auth_chain_batch = 100

-- The rows of the query for one batch: `a.event_id = ANY($1)`, joined with events.
unfoldable pub auth_rows : AuthTables → List Bytes → List AuthEdge
auth_rows t ids = keep_if (λ a. mentions a.event_id ids && mentions a.auth_id t.events) t.event_auth

unfoldable pub add_to_set : Bytes → List Bytes → List Bytes
add_to_set id s = if mentions id s then s else id ∷ s

unfoldable pub add_rows : List AuthEdge → List Bytes → List Bytes
unfolding add_to_set
add_rows [] next = next
add_rows (a ∷ rows) next = add_rows rows (add_to_set a.auth_id next)

-- The loop over the batches of a frontier, with the number of rounds at most.
unfoldable pub query_batches : ℕ → AuthTables → List Bytes → List Bytes → List Bytes
unfolding add_rows auth_rows
query_batches zero t ids next = next
query_batches (suc n) t [] next = next
query_batches (suc n) t (id ∷ ids) next =
    let batch = take auth_chain_batch (id ∷ ids) in
    query_batches n t (drop auth_chain_batch (id ∷ ids)) (add_rows (auth_rows t batch) next)

-- The loop that keeps what is new, for the results and for the next frontier.
unfoldable pub absorb : List Bytes → List Bytes × List Bytes → List Bytes × List Bytes
absorb [] s = s
absorb (id ∷ ids) (results, front) =
    absorb ids (if mentions id results then (results, front) else (id ∷ results, id ∷ front))

-- The walk, on fuel: `none` means that the fuel ran out.
unfoldable pub walk : ℕ → AuthTables → List Bytes → List Bytes → Option (List Bytes)
walk zero t front results = none
walk (suc n) t [] results = some results
walk (suc n) t (id ∷ front) results =
    let next = query_batches (length (id ∷ front)) t (id ∷ front) [] in
    let (results', front') = absorb next (results, []) in walk n t front' results'

-- The set of the events that are asked for.
unfoldable pub to_set : List Bytes → List Bytes
unfolding add_to_set
to_set [] = []
to_set (id ∷ ids) = add_to_set id (to_set ids)

-- A generation with a next frontier finds a new auth event, so this fuel is enough.
unfoldable pub auth_chain_ids_recursive : AuthTables → List Bytes → Option (List Bytes)
unfolding to_set
auth_chain_ids_recursive t ids = walk (suc (suc (length t.event_auth))) t (to_set ids) []

-- The answer, and whether the walk was used.
unfoldable pub auth_chain_ids_with_fallback :
    List Link → List Position → AuthTables → Bytes → List Bytes → Option (List Bytes × Bool)
auth_chain_ids_with_fallback links positions t room ids =
    elim (compute_auth_chain links positions room ids) [
      | none ↦ none
      | some c ↦ elim c [
        | found out ↦ some (out, false)
        | no_chain_cover_index r ↦ elim (auth_chain_ids_recursive t ids) [
          | none ↦ none
          | some out ↦ some (out, true)
        ]
      ]
    ]
