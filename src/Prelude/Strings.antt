-- ===== src/Prelude/Strings.antt =====
-- Go strings as lists of bytes, with the functions of package strings that the worker calls.
use Prim.Native.Char.{code}
use Prim.Native.String.{String}
use Prim.Native.Nat.{ℕ}
use mathlib.Core.List.{List, [], ◌∷◌}
use mathlib.Core.Bool.{Bool, true, false}
use mathlib.Core.Logic.{inl, inr, ite}
use mathlib.Core.Path.{◌≡◌}
use native.Mathlib.Decide.{ℕ_discrete}
use native.Mathlib.Omega.{arith}
use synapse_gopro_worker.Prelude.Lists.{In}

-- A Go string: its bytes.
abbrev pub Bytes : Type 0
Bytes = List ℕ

-- A literal: its code points are its bytes, since every literal here is ASCII.
abbrev pub bytes : String → Bytes
bytes String.[] = []
bytes (String.◌∷◌ c s) = code c ∷ bytes s

unfoldable pub bytes_discrete : Discrete Bytes
unfolding ℕ_discrete
bytes_discrete = hlevel ℕ_discrete

-- Whether a list of strings, or a set of them, holds a string.
unfoldable pub mentions : Bytes → List Bytes → Bool
mentions e [] = false
mentions e (x ∷ xs) = ite (bytes_discrete e x) true (mentions e xs)

pub mentions-In : (e : Bytes) (xs : List Bytes) → mentions e xs ≡ true → In e xs
unfolding mentions
mentions-In e [] h = absurd (ground arith)
mentions-In e (x ∷ xs) h = elim (bytes_discrete e x) [
  | yes p ↦ inl p
  | no p ↦ inr (mentions-In e xs (ground arith))
]

pub In-mentions : (e : Bytes) (xs : List Bytes) → In e xs → mentions e xs ≡ true
unfolding mentions
In-mentions e [] m = absurd m
In-mentions e (x ∷ xs) (inl p) = ground arith
In-mentions e (x ∷ xs) (inr m) = ground (arith, In-mentions e xs m)
