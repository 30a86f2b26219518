-- ===== src/MissingEvents/Sound.antt =====
-- What the loops of the walk keep: all that is found is missing, and stands once.
use synapse_gopro_worker.Prelude.{
  ◌≤◌, ◌⊎◌, inl, inr, List, [], ◌∷◌, ◌++◌, arith, length, In, Bytes, In-append_left, subst,
  mentions, length-append, ◌+◌, ◌≡◌, refl, In-append_right, false, sym, In-mentions, Bool-cases,
  mentions-In, In-append_cases,
}
use synapse_gopro_worker.MissingEvents.Walk.{Progress, collect, keep, Tables, all_prev}

-- Every element stands once.
abbrev pub Distinct : List Bytes → Type 0
Distinct [] = Unit
Distinct (x ∷ xs) = (In x xs → ⊥) × Distinct xs

-- One progress after another.
pub record Grows (p q : Progress) : Type 0 where
  pub seen : (x : Bytes) → In x p.seen → In x q.seen
  pub next : (x : Bytes) → In x p.next → In x q.next
  pub later : (x : Bytes) → In x q.results → In x p.results ⊎ In x q.next
  pub longer : length p.results ≤ length q.results
  pub together : length q.next + length p.results ≡ length p.next + length q.results

pub Grows-refl : (p : Progress) → Grows p p
Grows-refl p = record {
  seen = λ x m. m;
  next = λ x m. m;
  later = λ x m. inl m;
  longer = omega arith;
  together = omega arith;
}

pub Grows-trans : {p q r : Progress} → Grows p q → Grows q r → Grows p r
Grows-trans g h = record {
  seen = λ x m. h.seen x (g.seen x m);
  next = λ x m. h.next x (g.next x m);
  later = λ x m. elim (h.later x m) [
    | inr n ↦ inr n
    | inl o ↦ elim (g.later x o) [ inl k ↦ inl k | inr n ↦ inr (h.next x n) ]
  ];
  longer = omega (arith, g.longer, h.longer);
  together = omega (arith, g.together, h.together);
}

-- What `keep` makes of a new event.
abbrev added : Bytes → Progress → Progress
added e p = record { seen = e ∷ p.seen; next = p.next ++ e ∷ []; results = e ∷ p.results }

keep_cases :
    (e : Bytes) (p : Progress)
    → ((keep e p ≡ p) × In e p.seen) ⊎ ((keep e p ≡ added e p) × (mentions e p.seen ≡ false))
unfolding keep
keep_cases e p = elim (Bool-cases (mentions e p.seen)) [
  | inl old ↦ inl (rw old refl, mentions-In e p.seen old)
  | inr new ↦ inr (rw new refl, new)
]

added-Grows : (e : Bytes) (p : Progress) → Grows p (added e p)
added-Grows e p = record {
  seen = λ x m. inr m;
  next = λ x m. In-append_left x p.next (e ∷ []) m;
  later = λ x m. elim m [ inl q ↦ inr (In-append_right x p.next (e ∷ []) (inl q)) | inr o ↦ inl o ];
  longer = omega arith;
  together = omega (arith, length-append p.next (e ∷ []));
}

keep-Grows : (e : Bytes) (p : Progress) → Grows p (keep e p)
keep-Grows e p = elim (keep_cases e p) [
  | inl (same, old) ↦ subst (Grows p) (sym same) (Grows-refl p)
  | inr (new, m) ↦ subst (Grows p) (sym new) (added-Grows e p)
]

keep-seen : (e : Bytes) (p : Progress) → In e (keep e p).seen
keep-seen e p = elim (keep_cases e p) [
  | inl (same, old) ↦ subst (λ q. In e q.seen) (sym same) old
  | inr (new, m) ↦ subst (λ q. In e q.seen) (sym new) (inl refl)
]

keep-length : (e : Bytes) (p : Progress) → length (keep e p).results ≤ 1 + length p.results
keep-length e p = elim (keep_cases e p) [
  | inl (same, old) ↦ rw same (omega arith)
  | inr (new, m) ↦ rw new (omega arith)
]

pub collect-Grows : (prev : List Bytes) (p : Progress) → Grows p (collect prev p)
unfolding collect
collect-Grows [] p = Grows-refl p
collect-Grows (e ∷ prev) p = Grows-trans (keep-Grows e p) (collect-Grows prev (keep e p))

pub collect-seen :
    (prev : List Bytes) (p : Progress) (x : Bytes) → In x prev → In x (collect prev p).seen
unfolding collect
collect-seen [] p x m = absurd m
collect-seen (e ∷ prev) p x (inl q) =
    (collect-Grows prev (keep e p)).seen x
      (subst (λ y. In y (keep e p).seen) (sym q) (keep-seen e p))
collect-seen (e ∷ prev) p x (inr m) = collect-seen prev (keep e p) x m

pub collect-length :
    (prev : List Bytes) (p : Progress)
    → length (collect prev p).results ≤ length prev + length p.results
unfolding collect
collect-length [] p = omega arith
collect-length (e ∷ prev) p = omega (arith, collect-length prev (keep e p), keep-length e p)

module _ (t : Tables) (room : Bytes) (earliest starts : List Bytes) where
  -- An event that is behind those that are asked about, along events that are not held already.
  pub data Missing : Bytes → Type 0 where
    before_start :
        (s : Bytes) {x : Bytes}
        → In s starts
        → In x (all_prev t room s)
        → (In x earliest → ⊥)
        → Missing x
    before_missing :
        (y : Bytes) {x : Bytes}
        → Missing y
        → In x (all_prev t room y)
        → (In x earliest → ⊥)
        → Missing x

  -- What holds throughout the walk.
  pub record IsSound (p : Progress) : Type 0 where
    pub recorded : (x : Bytes) → In x p.seen → In x earliest ⊎ In x p.results
    pub held : (x : Bytes) → In x earliest → In x p.seen
    pub known : (x : Bytes) → In x p.results → In x p.seen
    pub missing : (x : Bytes) → In x p.results → Missing x
    pub distinct : Distinct p.results
    pub queued : (x : Bytes) → In x p.next → In x p.results

  added-IsSound :
      (e : Bytes) (p : Progress)
      → IsSound p
      → mentions e p.seen ≡ false
      → Missing e
      → IsSound (added e p)
  added-IsSound e p s new m = record {
    recorded = λ x i. elim i [
      | inl q ↦ inr (inl q)
      | inr o ↦ elim (s.recorded x o) [ inl h ↦ inl h | inr k ↦ inr (inr k) ]
    ];
    held = λ x i. inr (s.held x i);
    known = λ x i. elim i [ inl q ↦ inl q | inr o ↦ inr (s.known x o) ];
    missing = λ x i. elim i [ inl q ↦ subst Missing (sym q) m | inr o ↦ s.missing x o ];
    distinct = (λ i. absurd (ground (arith, new, In-mentions e p.seen (s.known e i))), s.distinct);
    queued = λ x i. elim (In-append_cases x p.next (e ∷ []) i) [
      | inl o ↦ inr (s.queued x o)
      | inr n ↦ elim n [ inl q ↦ inl q | inr none ↦ absurd none ]
    ];
  }

  keep-IsSound :
      (e : Bytes) (p : Progress)
      → IsSound p
      → ((In e earliest → ⊥) → Missing e)
      → IsSound (keep e p)
  keep-IsSound e p s behind = elim (keep_cases e p) [
    | inl (same, old) ↦ subst IsSound (sym same) s
    | inr (new, m) ↦
        let found : Missing e =
          behind (λ i. absurd (ground (arith, m, In-mentions e p.seen (s.held e i)))) in
        subst IsSound (sym new) (added-IsSound e p s m found)
  ]

  pub collect-IsSound :
      (prev : List Bytes) (p : Progress)
      → IsSound p
      → ((x : Bytes) → In x prev → (In x earliest → ⊥) → Missing x)
      → IsSound (collect prev p)
  unfolding collect
  collect-IsSound [] p s behind = s
  collect-IsSound (e ∷ prev) p s behind =
      collect-IsSound prev (keep e p) (keep-IsSound e p s (behind e (inl refl)))
        (λ x i. behind x (inr i))
