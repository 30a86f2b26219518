-- ===== src/Cache/Spec.antt =====
-- What the cache promises: a list of keys and values, most recently used first, of which the
-- longest front part that fits in the size bound is kept.
use synapse_gopro_worker.Prelude.{
  ℕ, ◌-◌, Bool, ◌&&◌, List, [], ◌∷◌, none, some, ltb, leb, if◌then◌else◌, lookup, delete, insert,
}
use synapse_gopro_worker.Cache.Lru.{Lru, purge, set_armed, get, add, remove}

-- A call of a method that changes the cache.
pub data Call (K V : Type 0) : Type 0 where
  gets : K → Call K V
  adds : K → V → Call K V
  removes : K → Call K V
  arms : Bool → Call K V
  purges : Call K V

pub record Ideal (K V : Type 0) : Type 0 where
  pub armed : Bool
  pub items : List (K × V)

module _ {K V : Type 0} (dec : Discrete K) (size_of : V → ℕ) where
  unfoldable pub step : Call K V → Lru K V → Lru K V
  step (gets k) c = (get dec k c).0
  step (adds k v) c = add dec size_of k v c
  step (removes k) c = remove dec k c
  step (arms b) c = set_armed b c
  step purges c = purge c

  unfoldable pub run : List (Call K V) → Lru K V → Lru K V
  run [] c = c
  run (call ∷ calls) c = run calls (step call c)

  -- The longest front part whose sizes add up to `n` at most.
  unfoldable pub fitting : ℕ → List (K × V) → List (K × V)
  fitting n [] = []
  fitting n ((k, v) ∷ l) = if leb (size_of v) n then (k, v) ∷ fitting (n - size_of v) l else []

  module _ (max_bytes : ℕ) where
    abbrev pub serves : Ideal K V → Bool
    serves s = ltb 0 max_bytes && s.armed

    unfoldable pub touched : K → List (K × V) → List (K × V)
    touched k l = elim (lookup dec k l) [ none ↦ l | some v ↦ insert dec k v l ]

    unfoldable pub ideal_step : Call K V → Ideal K V → Ideal K V
    unfolding touched
    ideal_step (gets k) s = if serves s then record s { items = touched k s.items } else s
    ideal_step (adds k v) s =
        if serves s
        then if ltb max_bytes (size_of v)
          then s
          else record s { items = fitting max_bytes (insert dec k v s.items) }
        else s
    ideal_step (removes k) s = record s { items = delete dec k s.items }
    ideal_step (arms b) s = record { armed = b; items = if b then s.items else [] }
    ideal_step purges s = record s { items = [] }

    unfoldable pub ideal_run : List (Call K V) → Ideal K V → Ideal K V
    ideal_run [] s = s
    ideal_run (call ∷ calls) s = ideal_run calls (ideal_step call s)
