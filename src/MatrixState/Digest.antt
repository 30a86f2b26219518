-- ===== src/MatrixState/Digest.antt =====
-- The digest of the events of a streamed /state, `digestAccumulator` of internal/matrixstate/state.go.
--
-- SHA-256 is a parameter, as the number that the bytes of a hash stand for.
use synapse_gopro_worker.Prelude.{
  ℕ, zero, suc, ◌+◌, ◌/◌, ◌%◌, ◌^◌, ◌≡◌, refl, ap, ◌∙◌, List, [], ◌∷◌, ◌++◌, Bytes, arith, length,
}
use mathlib.Core.List.{Perm, Permᴰ}
use mathlib.Core.Logic.{∥∥₁_elim}
use native.Mathlib.Nat.{ℕ_set}

pub record DigestAccumulator : Type 0 where
  pub sum : ℕ
  pub count : ℕ

-- The last bytes of a number, in big-endian order.
unfoldable pub big_endian : ℕ → ℕ → Bytes
big_endian zero n = []
big_endian (suc k) n = big_endian k (n / 256) ++ (n % 256) ∷ []

unfoldable pub digest : DigestAccumulator → Bytes
unfolding big_endian
digest d = big_endian 32 (d.sum % 2 ^ 256)

module _ (sha256 : Bytes → ℕ) where
  unfoldable pub add_event : Bytes → DigestAccumulator → DigestAccumulator
  add_event canonical d = record { sum = d.sum + sha256 canonical; count = d.count + 1 }

  -- The calls for the events that are written, from a new accumulator.
  unfoldable pub add_events : List Bytes → DigestAccumulator → DigestAccumulator
  unfolding add_event
  add_events [] d = d
  add_events (e ∷ es) d = add_events es (add_event e d)

  abbrev pub new_accumulator : DigestAccumulator
  new_accumulator = record { sum = 0; count = 0 }

  -- The sum of the contributions.
  abbrev pub total : List Bytes → ℕ
  total [] = 0
  total (e ∷ es) = sha256 e + total es

  add_events-total :
      (es : List Bytes) (d : DigestAccumulator)
      → add_events es d ≡ record { sum = d.sum + total es; count = d.count + length es }
  unfolding add_events
  add_events-total [] d = ground arith
  add_events-total (e ∷ es) d = ground (arith, add_events-total es (add_event e d))

  Permᴰ-total : {xs ys : List Bytes} → Permᴰ xs ys → total xs ≡ total ys
  Permᴰ-total Permᴰ.nil = refl
  Permᴰ-total (Permᴰ.cons e p) = omega (arith, ap sha256 e, Permᴰ-total p)
  Permᴰ-total (Permᴰ.swap e f) = omega (arith, ap sha256 e, ap sha256 f)
  Permᴰ-total (Permᴰ.trans p q) = Permᴰ-total p ∙ Permᴰ-total q

  Permᴰ-length : {xs ys : List Bytes} → Permᴰ xs ys → length xs ≡ length ys
  Permᴰ-length Permᴰ.nil = refl
  Permᴰ-length (Permᴰ.cons e p) = ap suc (Permᴰ-length p)
  Permᴰ-length (Permᴰ.swap e f) = refl
  Permᴰ-length (Permᴰ.trans p q) = Permᴰ-length p ∙ Permᴰ-length q

  -- The digest and the count of what was written do not depend on its order.
  pub add_events-perm :
      (xs ys : List Bytes)
      → Perm xs ys
      → (digest (add_events xs new_accumulator) ≡ digest (add_events ys new_accumulator))
        × ((add_events xs new_accumulator).count ≡ (add_events ys new_accumulator).count)
  unfolding digest
  add_events-perm xs ys p =
      let same_total : total xs ≡ total ys = ∥∥₁_elim p (ℕ_set _ _) Permᴰ-total in
      let same_length : length xs ≡ length ys = ∥∥₁_elim p (ℕ_set _ _) Permᴰ-length in
      let first = add_events-total xs new_accumulator in
      let second = add_events-total ys new_accumulator in
      let same : add_events xs new_accumulator ≡ add_events ys new_accumulator =
        ground (arith, first, second, same_total, same_length) in
      (ap digest same, ap (λ d. d.count) same)
