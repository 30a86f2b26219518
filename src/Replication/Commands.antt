-- ===== src/Replication/Commands.antt =====
-- What a replication command makes the subscriber do: handle, handleCacheRow and malformed.
--
-- The calls of the interface `Caches` are data. What package json makes of a row is a parameter:
-- its elements if it is an array or null, and nothing otherwise. Counters and logs are left out.
use synapse_gopro_worker.Prelude.{
  ℕ, zero, suc, Bool, ◌||◌, List, [], ◌∷◌, Option, none, some, if◌then◌else◌, ◌==◌, Bytes, bytes,
  bytes_discrete, is_yes, get_elem?,
}

-- A call of the interface `Caches`.
pub data CachesCall : Type 0 where
  arm_all : Bool → CachesCall
  purge_all : CachesCall
  drop_one : Bytes → CachesCall

-- An element of the array of keys, and one of a row.
pub data Key : Type 0 where
  null other : Key
  text : Bytes → Key

pub data Part : Type 0 where
  null other : Part
  text : Bytes → Part
  array : List Key → Part

-- `strings.Cut(s, " ")`: what stands before the first space and after it, if there is one.
unfoldable pub cut : Bytes → Option (Bytes × Bytes)
cut [] = none
cut (c ∷ s) =
    let rest = cut s in
    if c == 32 then some ([], s) else elim rest [ none ↦ none | some (a, b) ↦ some (c ∷ a, b) ]

-- `strings.SplitN(s, " ", n + 1)`
unfoldable pub split_n : ℕ → Bytes → List Bytes
unfolding cut
split_n zero s = s ∷ []
split_n (suc n) s = elim (cut s) [ none ↦ s ∷ [] | some (a, b) ↦ a ∷ split_n n b ]

abbrev pub is_text : Bytes → Bytes → Bool
is_text a b = is_yes (bytes_discrete a b)

-- `perEventCaches`
unfoldable pub per_event_caches : Bytes → Option ℕ
per_event_caches f =
    if is_text f (bytes "_get_state_group_for_event")
    then some 0
    else if is_text f (bytes "have_seen_event")
    then some 1
    else none

unfoldable pub purges_all : Bytes → Bool
purges_all f = is_text f (bytes "ph_cache_fake") || is_text f (bytes "dr_cache_fake")

-- `json.Unmarshal` into a string: null leaves it empty.
unfoldable pub key_text : Key → Option Bytes
key_text null = some []
key_text other = none
key_text (text s) = some s

unfoldable pub part_text : Part → Option Bytes
part_text null = some []
part_text other = none
part_text (text s) = some s
part_text (array ks) = none

-- A row that is not understood.
abbrev pub malformed : List CachesCall
malformed = purge_all ∷ []

unfoldable pub drop_key : Option Key → List CachesCall
unfolding key_text
drop_key none = malformed
drop_key (some k) = elim (key_text k) [ none ↦ malformed | some id ↦ drop_one id ∷ [] ]

-- The last branch of the switch.
unfoldable pub per_event : Option ℕ → Option (List Key) → List CachesCall
unfolding drop_key
per_event none keys = []
per_event (some index) none = purge_all ∷ []
per_event (some index) (some keys) = drop_key (get_elem? keys index)

-- The switch on the name of the cache function; no keys stand for `nullKeys`.
unfoldable pub invalidate : Bytes → Option (List Key) → List CachesCall
unfolding per_event per_event_caches purges_all
invalidate f keys =
    if purges_all f
    then purge_all ∷ []
    else if is_text f (bytes "cs_cache_fake")
    then []
    else per_event (per_event_caches f) keys

unfoldable pub with_keys : Bytes → Part → List CachesCall
unfolding invalidate
with_keys f null = invalidate f none
with_keys f (array keys) = invalidate f (some keys)
with_keys f (text s) = malformed
with_keys f other = malformed

unfoldable pub cache_row : List Part → List CachesCall
unfolding with_keys part_text
cache_row [] = malformed
cache_row (f ∷ []) = malformed
cache_row (f ∷ keys ∷ rest) = elim (part_text f) [
  | none ↦ malformed
  | some name ↦ with_keys name keys
]

module _ (decode_row : Bytes → Option (List Part)) where
  unfoldable pub handle_cache_row : Bytes → List CachesCall
  unfolding cache_row
  handle_cache_row row = elim (decode_row row) [ none ↦ malformed | some parts ↦ cache_row parts ]

  -- The fields of an RDATA command: stream, instance, token and row.
  unfoldable pub handle_fields : List Bytes → List CachesCall
  unfolding handle_cache_row
  handle_fields (stream ∷ name ∷ token ∷ row ∷ []) =
      if is_text stream (bytes "caches") then handle_cache_row row else []
  handle_fields _ = malformed

  unfoldable pub handle_rdata : Bytes → Bytes → List CachesCall
  unfolding handle_fields split_n
  handle_rdata command rest =
      if is_text command (bytes "RDATA") then handle_fields (split_n 3 rest) else []

  unfoldable pub handle : Bytes → List CachesCall
  unfolding handle_rdata
  handle payload = elim (cut payload) [
    | none ↦ handle_rdata payload []
    | some (command, rest) ↦ handle_rdata command rest
  ]
