-- ===== src/AuthChain/Absorb.antt =====
-- The loop of the recursive walk that keeps what is new.
use synapse_gopro_worker.Prelude.{
  ℕ, ◌+◌, ◌≤◌, ◌<◌, ◌≡◌, ◌⊎◌, inl, inr, refl, sym, true, false, List, [], ◌∷◌, if◌then◌else◌, arith,
  length, subst, In, Bytes, Bool-cases, mentions, mentions-In, In-mentions,
}
use synapse_gopro_worker.AuthChain.Walk.{AuthEdge, absorb}

-- One round of the loop.
abbrev absorb_one : Bytes → List Bytes × List Bytes → List Bytes × List Bytes
absorb_one x s = if mentions x s.0 then (s.0, s.1) else (x ∷ s.0, x ∷ s.1)

absorb_one_old : (x : Bytes) (s : List Bytes × List Bytes) → In x s.0 → absorb_one x s ≡ s
absorb_one_old x s m = rw (In-mentions x s.0 m)

absorb_one_cases :
    (x : Bytes) (s : List Bytes × List Bytes)
    → ((absorb_one x s ≡ s) × In x s.0)
      ⊎ ((absorb_one x s ≡ (x ∷ s.0, x ∷ s.1)) × (mentions x s.0 ≡ false))
absorb_one_cases x s = elim (Bool-cases (mentions x s.0)) [
  | inl e ↦ inl (ground arith, mentions-In x s.0 e)
  | inr e ↦ inr (ground arith, e)
]

-- To prove a property of the loop: it is kept by an old element and by a new one.
absorb_rule {ℓ} :
    (P : List Bytes → List Bytes × List Bytes → List Bytes × List Bytes → Type ℓ)
    → ((s : List Bytes × List Bytes) → P [] s s)
    → ((x : Bytes) (xs : List Bytes) (s r : List Bytes × List Bytes)
        → In x s.0
        → P xs s r
        → P (x ∷ xs) s r)
    → ((x : Bytes) (xs : List Bytes) (s r : List Bytes × List Bytes)
        → mentions x s.0 ≡ false
        → P xs (x ∷ s.0, x ∷ s.1) r
        → P (x ∷ xs) s r)
    → (xs : List Bytes) (s : List Bytes × List Bytes) → P xs s (absorb xs s)
unfolding absorb
absorb_rule P nil old new [] s = nil s
absorb_rule P nil old new (x ∷ xs) s =
    let rest = absorb_rule P nil old new xs (absorb_one x s) in
    elim (absorb_one_cases x s) [
      | inl (e, m) ↦ old x xs s _ m (subst (λ y. P xs y (absorb xs (absorb_one x s))) e rest)
      | inr (e, m) ↦ new x xs s _ m (subst (λ y. P xs y (absorb xs (absorb_one x s))) e rest)
    ]

pub record Absorbed (next : List Bytes) (s r : List Bytes × List Bytes) : Type 0 where
  pub kept : (a : Bytes) → In a s.0 → In a r.0
  pub took : (a : Bytes) → In a next → In a r.0
  pub front_kept : (a : Bytes) → In a s.1 → In a r.1
  pub new : (a : Bytes) → In a r.0 → In a s.0 ⊎ (In a next × In a r.1)
  pub front_new : (a : Bytes) → In a r.1 → In a s.1 ⊎ In a r.0

pub absorb-Absorbed :
    (next : List Bytes) (s : List Bytes × List Bytes) → Absorbed next s (absorb next s)
absorb-Absorbed =
    absorb_rule Absorbed
      (λ s. record {
        kept = λ a m. m;
        took = λ a m. absurd m;
        front_kept = λ a m. m;
        new = λ a m. inl m;
        front_new = λ a m. inl m;
      })
      (λ x xs s r m h. record {
        kept = h.kept;
        took = λ a k. elim k [
          | inl q ↦ subst (λ y. In y r.0) (sym q) (h.kept x m)
          | inr j ↦ h.took a j
        ];
        front_kept = h.front_kept;
        new = λ a k. elim (h.new a k) [ inl j ↦ inl j | inr (i, f) ↦ inr (inr i, f) ];
        front_new = h.front_new;
      })
      (λ x xs s r m h. record {
        kept = λ a k. h.kept a (inr k);
        took = λ a k. elim k [ inl q ↦ h.kept a (inl q) | inr j ↦ h.took a j ];
        front_kept = λ a k. h.front_kept a (inr k);
        new = λ a k. elim (h.new a k) [
          | inl j ↦ elim j [ inl q ↦ inr (inl q, h.front_kept a (inl q)) | inr j' ↦ inl j' ]
          | inr (i, f) ↦ inr (inr i, f)
        ];
        front_new = λ a k. elim (h.front_new a k) [
          | inl j ↦ elim j [ inl q ↦ inr (h.kept a (inl q)) | inr j' ↦ inl j' ]
          | inr i ↦ inr i
        ];
      })

-- Either the frontier stays, or something new was found.
pub absorb_progress :
    (next : List Bytes) (s : List Bytes × List Bytes)
    → ((absorb next s).1 ≡ s.1)
      ⊎ ((a : Bytes) × In a next × (mentions a s.0 ≡ false) × In a (absorb next s).0)
absorb_progress next s =
    (absorb_rule
      (λ xs s r.
        ((r.1 ≡ s.1) ⊎ ((a : Bytes) × In a xs × (mentions a s.0 ≡ false) × In a r.0))
        × ((a : Bytes) → In a s.0 → In a r.0))
      (λ s. (inl refl, λ a m. m))
      (λ x xs s r m h. (elim h.0 [ inl e ↦ inl e | inr (a, i, n, j) ↦ inr (a, inr i, n, j) ], h.1))
      (λ x xs s r m h. (inr (x, inl refl, m, h.1 x (inl refl)), λ a k. h.1 a (inr k))) next s).0

-- The edges whose auth event has not been found.
unfoldable pub unseen : List AuthEdge → List Bytes → ℕ
unseen [] r = 0
unseen (e ∷ es) r = (if mentions e.auth_id r then 0 else 1) + unseen es r

pub unseen-le : (es : List AuthEdge) (r : List Bytes) → unseen es r ≤ length es
unfolding unseen
unseen-le [] r = omega arith
unseen-le (e ∷ es) r = ground (arith, unseen-le es r)

module _ (r r' : List Bytes) (grows : (a : Bytes) → In a r → In a r') where
  seen_mono : (a : Bytes) → mentions a r ≡ true → mentions a r' ≡ true
  seen_mono a h = In-mentions a r' (grows a (mentions-In a r h))

  unseen_mono : (es : List AuthEdge) → unseen es r' ≤ unseen es r
  unfolding unseen
  unseen_mono [] = omega arith
  unseen_mono (e ∷ es) = ground (arith, seen_mono e.auth_id, unseen_mono es)

  pub unseen_lt :
      (es : List AuthEdge) (e : AuthEdge)
      → In e es
      → mentions e.auth_id r ≡ false
      → mentions e.auth_id r' ≡ true
      → unseen es r' < unseen es r
  unfolding unseen
  unseen_lt [] e m before after = absurd m
  unseen_lt (x ∷ es) e (inl q) before after =
      let b : mentions x.auth_id r ≡ false = subst (λ y. mentions y.auth_id r ≡ false) q before in
      let a : mentions x.auth_id r' ≡ true = subst (λ y. mentions y.auth_id r' ≡ true) q after in
      ground (arith, a, b, unseen_mono es)
  unseen_lt (x ∷ es) e (inr m) before after =
      ground (arith, seen_mono x.auth_id, unseen_lt es e m before after)
