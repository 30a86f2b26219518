-- ===== src/Cache/Tests.antt =====
-- Runs of the cache at concrete inputs, and the theorems there.
use synapse_gopro_worker.Prelude.{
  ℕ, ◌≡◌, refl, true, false, List, [], ◌∷◌, some, ℕ_discrete as dec, arith, lookup, delete, insert,
}
use synapse_gopro_worker.Cache.Lru.{
  Lru, evict, new_lru, set_armed, enabled, get, get_locked, add, add_locked, remove, evict_loop,
  purge,
}
use synapse_gopro_worker.Cache.Elements.{id_of, total}
use synapse_gopro_worker.Cache.Coherent.{IsCoherent, Evicted, evict_loop-Evicted}
use synapse_gopro_worker.Cache.Spec.{Call, gets, adds, step, run, fitting, ideal_run, ideal_step}
use synapse_gopro_worker.Cache.Refine.{contents}
use synapse_gopro_worker.Cache.Steps.{Refines}
use synapse_gopro_worker.Cache.Run.{new_lru-IsValid, run-Refines}
use synapse_gopro_worker.Cache.History.{note_all, note, blank, get-run, get-add, get-late_add}

program : Unit {0}
unfolding evict add_locked evict_loop get_locked new_lru set_armed get add remove purge step run dec
    lookup delete insert note_all note fitting ideal_run ideal_step
program = tt

-- A value takes as many bytes as it is large.
abbrev bytes_of : ℕ → ℕ
bytes_of v = v

abbrev calls : List (Call ℕ ℕ)
calls = adds 1 4 ∷ adds 2 5 ∷ gets 1 ∷ adds 3 6 ∷ []

-- The least recently used key goes: 1 was read, so 2 is evicted.
evicts_oldest : contents (run dec bytes_of calls (new_lru 10)).order ≡ (3, 6) ∷ (1, 4) ∷ []
unfolding program
evicts_oldest = refl

oversized_is_kept_out :
    (get dec 1 (add dec bytes_of 1 11 (add dec bytes_of 1 4 (new_lru 10)))).1 ≡ some 4
unfolding program
oversized_is_kept_out = refl

get-run_example : (note_all dec bytes_of 10 calls blank).value 1 ≡ some 4
unfolding program
get-run_example = get-run dec bytes_of 10 calls 1 4 refl

run-Refines_example :
    Refines dec bytes_of
      (new_lru 10)
      (ideal_run dec bytes_of 10 calls (record { armed = true; items = [] }))
      (run dec bytes_of calls (new_lru 10))
unfolding new_lru
run-Refines_example =
    run-Refines dec bytes_of calls (new_lru 10) (record { armed = true; items = [] }) 10
      (new_lru-IsValid dec bytes_of 10) refl refl refl

get-add_example : (get dec 1 (add dec bytes_of 1 4 (new_lru 10))).1 ≡ some 4
unfolding new_lru enabled
get-add_example =
    get-add dec bytes_of 1 4 (new_lru 10) (new_lru-IsValid dec bytes_of 10) refl (omega arith)

get-late_add_example :
    (get dec 1 (set_armed true (add_locked dec bytes_of 1 4 (set_armed false (new_lru 10))))).1
    ≡ some 4
unfolding new_lru enabled
get-late_add_example =
    get-late_add dec bytes_of 1 4 (new_lru 10) (new_lru-IsValid dec bytes_of 10) refl (omega arith)

-- Two elements of four and five bytes, in a cache of six.
abbrev crowded : Lru ℕ ℕ
crowded = record {
  max_bytes = 6;
  armed = true;
  entries = (2, 1) ∷ (1, 0) ∷ [];
  order =
      record { id = 1; key = 2; value = 5; size = 5 }
      ∷ record { id = 0; key = 1; value = 4; size = 4 }
      ∷ [];
  bytes = 9;
  hits = 0;
  misses = 0;
  evictions = 0;
  next_id = 2;
}

crowded-IsCoherent : IsCoherent dec crowded
unfolding lookup id_of total
crowded-IsCoherent = record {
  index = λ k. refl;
  distinct = omega arith;
  fresh = omega arith;
  counted = refl;
}

evict_loop-Evicted_example : Evicted dec crowded (evict_loop dec 2 crowded)
evict_loop-Evicted_example = evict_loop-Evicted dec 2 crowded crowded-IsCoherent (omega arith)
