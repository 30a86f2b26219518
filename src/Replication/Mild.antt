-- ===== src/Replication/Mild.antt =====
-- That no command of the stream turns the caches on or off.
use synapse_gopro_worker.Prelude.{
  ℕ, All, Option-cases, none, some, inl, inr, get_elem?, ◌≡◌, refl, List, [], ◌∷◌, Option, Bytes,
  bytes, Bool-cases,
}
use synapse_gopro_worker.Replication.Commands.{
  Part, handle, handle_rdata, handle_cache_row, with_keys, cache_row, cut, drop_key, handle_fields,
  invalidate, per_event, part_text, key_text, Key, is_text, split_n, purges_all, per_event_caches,
}
use synapse_gopro_worker.Replication.Switches.{IsMild}

pub drop_key-IsMild : (k : Option Key) → All IsMild (drop_key k)
unfolding drop_key key_text
drop_key-IsMild none = (tt, tt)
drop_key-IsMild (some Key.null) = (tt, tt)
drop_key-IsMild (some Key.other) = (tt, tt)
drop_key-IsMild (some (Key.text s)) = (tt, tt)

pub per_event-IsMild : (i : Option ℕ) (keys : Option (List Key)) → All IsMild (per_event i keys)
unfolding per_event
per_event-IsMild none keys = tt
per_event-IsMild (some i) none = (tt, tt)
per_event-IsMild (some i) (some keys) = drop_key-IsMild (get_elem? keys i)

pub invalidate-IsMild : (f : Bytes) (keys : Option (List Key)) → All IsMild (invalidate f keys)
unfolding invalidate
invalidate-IsMild f keys = elim (Bool-cases (purges_all f)) [
  | inl p ↦ rw p (tt, tt)
  | inr q ↦ elim (Bool-cases (is_text f (bytes "cs_cache_fake"))) [
    | inl p ↦ rw (q, p) tt
    | inr r ↦ rw (q, r) (per_event-IsMild (per_event_caches f) keys)
  ]
]

pub with_keys-IsMild : (f : Bytes) (keys : Part) → All IsMild (with_keys f keys)
unfolding with_keys
with_keys-IsMild f Part.null = invalidate-IsMild f none
with_keys-IsMild f (Part.array keys) = invalidate-IsMild f (some keys)
with_keys-IsMild f (Part.text s) = (tt, tt)
with_keys-IsMild f Part.other = (tt, tt)

pub cache_row-IsMild : (row : List Part) → All IsMild (cache_row row)
unfolding cache_row part_text
cache_row-IsMild [] = (tt, tt)
cache_row-IsMild (f ∷ []) = (tt, tt)
cache_row-IsMild (Part.null ∷ keys ∷ rest) = with_keys-IsMild [] keys
cache_row-IsMild (Part.other ∷ keys ∷ rest) = (tt, tt)
cache_row-IsMild (Part.text s ∷ keys ∷ rest) = with_keys-IsMild s keys
cache_row-IsMild (Part.array ks ∷ keys ∷ rest) = (tt, tt)

module _ (decode_row : Bytes → Option (List Part)) where
  pub decoded-IsMild :
      (row : Bytes) (o : Option (List Part))
      → decode_row row ≡ o
      → All IsMild (handle_cache_row decode_row row)
  unfolding handle_cache_row
  decoded-IsMild row none e = rw (e, handle_cache_row) (tt, tt)
  decoded-IsMild row (some parts) e = rw (e, handle_cache_row) (cache_row-IsMild parts)

  pub handle_fields-IsMild : (fields : List Bytes) → All IsMild (handle_fields decode_row fields)
  unfolding handle_fields
  handle_fields-IsMild [] = (tt, tt)
  handle_fields-IsMild (a ∷ []) = (tt, tt)
  handle_fields-IsMild (a ∷ b ∷ []) = (tt, tt)
  handle_fields-IsMild (a ∷ b ∷ c ∷ []) = (tt, tt)
  handle_fields-IsMild (a ∷ b ∷ c ∷ d ∷ []) = elim (Bool-cases (is_text a (bytes "caches"))) [
    | inl e ↦ rw e (decoded-IsMild d (decode_row d) refl)
    | inr e ↦ rw e tt
  ]
  handle_fields-IsMild (a ∷ b ∷ c ∷ d ∷ e ∷ rest) = (tt, tt)

  pub handle_rdata-IsMild :
      (command rest : Bytes) → All IsMild (handle_rdata decode_row command rest)
  unfolding handle_rdata
  handle_rdata-IsMild command rest = elim (Bool-cases (is_text command (bytes "RDATA"))) [
    | inl e ↦ rw e (handle_fields-IsMild (split_n 3 rest))
    | inr e ↦ rw e tt
  ]

  pub handle-IsMild : (payload : Bytes) → All IsMild (handle decode_row payload)
  unfolding handle
  handle-IsMild payload = elim (Option-cases (cut payload)) [
    | inl e ↦ rw (e, handle) (handle_rdata-IsMild payload [])
    | inr ((command, rest), e) ↦ rw (e, handle) (handle_rdata-IsMild command rest)
  ]
