-- ===== src/RateLimit/Counting.antt =====
-- How many requests are in a phase, and which of them the queue holds.
use synapse_gopro_worker.Prelude.{
  ℕ, suc, ◌+◌, ◌≡◌, ◌≢◌, inl, inr, refl, Bool, true, false, List, [], ◌∷◌, ◌++◌, some,
  if◌then◌else◌, ◌==◌, arith, length, Bool-cases, All,
}
use synapse_gopro_worker.RateLimit.Host.{has_waiter, drop_waiter}
use synapse_gopro_worker.RateLimit.Threads.{
  Phase, asleep, ready, waiting, granted, running, done, Thread, phase_of, set_phase,
}

abbrev pub is_phase : Phase → Phase → Bool
is_phase asleep asleep = true
is_phase ready ready = true
is_phase waiting waiting = true
is_phase granted granted = true
is_phase running running = true
is_phase done done = true
is_phase _ _ = false

abbrev pub one_if : Bool → ℕ
one_if b = if b then 1 else 0

unfoldable pub count : Phase → List Thread → ℕ
count p [] = 0
count p (t ∷ ts) = one_if (is_phase t.phase p) + count p ts

pub count-set_phase :
    (p : Phase) (i : ℕ) (q r : Phase) (ts : List Thread)
    → phase_of i ts ≡ some q
    → count p (set_phase i r ts) + one_if (is_phase q p) ≡ count p ts + one_if (is_phase r p)
unfolding count set_phase phase_of
count-set_phase p i q r [] h = absurd (ground arith)
count-set_phase p i q r (t ∷ ts) h = elim (Bool-cases (t.id == i)) [
  | inl e ↦ let same : t.phase ≡ q = ground arith in rw (e, same, set_phase) (omega arith)
  | inr e ↦ rw (e, set_phase) (omega (arith, count-set_phase p i q r ts (ground arith)))
]

pub count_done :
    (p : Phase)
    → is_phase done p ≡ false
    → (ts : List Thread) → All (λ t. t.phase ≡ done) ts
    → count p ts ≡ 0
unfolding count
count_done p other [] a = refl
count_done p other (t ∷ ts) a = rw (a.0, other, count) (omega (arith, count_done p other ts a.1))

pub phase_of-set_phase :
    (i j : ℕ) (q r : Phase) (ts : List Thread)
    → phase_of i ts ≡ some q
    → phase_of j (set_phase i r ts) ≡ (if i == j then some r else phase_of j ts)
unfolding set_phase phase_of
phase_of-set_phase i j q r [] h = absurd (ground arith)
phase_of-set_phase i j q r (t ∷ ts) h = ground (arith, phase_of-set_phase i j q r ts)

pub has_waiter-append :
    (i j : ℕ) (ws : List ℕ)
    → has_waiter i (ws ++ j ∷ []) ≡ (if j == i then true else has_waiter i ws)
unfolding has_waiter
has_waiter-append i j [] = refl
has_waiter-append i j (w ∷ ws) = ground (arith, has_waiter-append i j ws)

-- A number stands once in the queue.
abbrev pub Unique : List ℕ → Type 0
Unique [] = Unit
Unique (w ∷ ws) = (has_waiter w ws ≡ false) × Unique ws

pub Unique-append :
    (j : ℕ) (ws : List ℕ) → has_waiter j ws ≡ false → Unique ws → Unique (ws ++ j ∷ [])
unfolding has_waiter
Unique-append j [] h u = (refl, tt)
Unique-append j (w ∷ ws) h u =
    (ground (arith, has_waiter-append w j ws), Unique-append j ws (ground arith) u.1)

pub has_waiter-drop_waiter :
    (i j : ℕ) (ws : List ℕ)
    → Unique ws
    → has_waiter i (drop_waiter j ws) ≡ (if i == j then false else has_waiter i ws)
unfolding has_waiter drop_waiter
has_waiter-drop_waiter i j [] u = ground arith
has_waiter-drop_waiter i j (w ∷ ws) u = ground (arith, u.0, has_waiter-drop_waiter i j ws u.1)

pub Unique-drop_waiter : (j : ℕ) (ws : List ℕ) → Unique ws → Unique (drop_waiter j ws)
unfolding drop_waiter
Unique-drop_waiter j [] u = tt
Unique-drop_waiter j (w ∷ ws) u =
    ground (arith, u, has_waiter-drop_waiter w j ws u.1, Unique-drop_waiter j ws u.1)

pub length-drop_waiter :
    (j : ℕ) (ws : List ℕ) → has_waiter j ws ≡ true → length ws ≡ suc (length (drop_waiter j ws))
unfolding has_waiter drop_waiter
length-drop_waiter j [] h = absurd (ground arith)
length-drop_waiter j (w ∷ ws) h = ground (arith, length-drop_waiter j ws)

-- The queue holds the requests that wait, each once.
pub record Queues (ws : List ℕ) (ts : List Thread) : Type 0 where
  pub once : Unique ws
  pub waits : (i : ℕ) → has_waiter i ws ≡ true → phase_of i ts ≡ some waiting
  pub held : (i : ℕ) → phase_of i ts ≡ some waiting → has_waiter i ws ≡ true

module _ (ws : List ℕ) (ts : List Thread) (h : Queues ws ts) where
  -- A request that does not wait goes to a phase where it does not wait.
  pub Queues-move :
      (i : ℕ) (q r : Phase)
      → phase_of i ts ≡ some q
      → q ≢ waiting
      → r ≢ waiting
      → Queues ws (set_phase i r ts)
  Queues-move i q r e nq nr = record {
    once = h.once;
    waits = λ j m. ground (arith, phase_of-set_phase i j q r ts e, h.waits j m);
    held = λ j m. ground (arith, phase_of-set_phase i j q r ts e, h.held j);
  }

  pub Queues-join :
      (i : ℕ) (q : Phase)
      → phase_of i ts ≡ some q
      → q ≢ waiting
      → Queues (ws ++ i ∷ []) (set_phase i waiting ts)
  Queues-join i q e nq = record {
    once = Unique-append i ws (absent (has_waiter i ws) refl) h.once;
    waits = λ j m.
        ground (arith, phase_of-set_phase i j q waiting ts e, h.waits j, has_waiter-append j i ws);
    held = λ j m.
        ground (arith, phase_of-set_phase i j q waiting ts e, h.held j, has_waiter-append j i ws);
  }
    where
      absent : (b : Bool) → has_waiter i ws ≡ b → has_waiter i ws ≡ false
      absent true m = absurd (ground (arith, h.waits i m))
      absent false m = m

  pub Queues-leave :
      (i : ℕ) (r : Phase)
      → phase_of i ts ≡ some waiting
      → r ≢ waiting
      → Queues (drop_waiter i ws) (set_phase i r ts)
  Queues-leave i r e nr = record {
    once = Unique-drop_waiter i ws h.once;
    waits = λ j m. ground (
      arith,
      phase_of-set_phase i j waiting r ts e,
      h.waits j,
      has_waiter-drop_waiter j i ws h.once,
    );
    held = λ j m. ground (
      arith,
      phase_of-set_phase i j waiting r ts e,
      h.held j,
      has_waiter-drop_waiter j i ws h.once,
    );
  }
