-- ===== src/Tls/Laws/Queued.antt =====
-- The queue of servers and their sessions in the boring backend
-- (rvpn/crates/rvpn-tls/src/resumption.rs).
use r_vpn_core.Common.{
  ℕ, suc, ◌+◌, ◌≤◌, ◌<◌, ◌≡◌, ◌≢◌, ◌⊎◌, refl, ap, sym, ◌∙◌, inl, inr, true, false, List, [], ◌∷◌,
  ◌++◌, some, arith, ltb, ltb→le, le→ltb, Bool-cases, if◌then◌else◌, length, length-append,
}
use mathlib.Core.Path.{subst}
use r_vpn_core.Common.Texts.{Text, same_text, same_text_iff}
use r_vpn_core.Common.Maps.{get, remove, put, contains_key}
use r_vpn_core.Tls.Rustls.{retain_other}
use r_vpn_core.Tls.Boring.{BoringState, evict_sessions}

abbrev pub count_name : Text → List Text → ℕ
count_name k [] = 0
count_name k (n ∷ ns) = if same_text n k then suc (count_name k ns) else count_name k ns

count_name-append :
    (k n : Text) (ns : List Text)
    → count_name k (ns ++ (n ∷ [])) ≡ count_name k ns + (if same_text n k then 1 else 0)
count_name-append k n [] = ground arith
count_name-append k n (x ∷ ns) = ground (arith, count_name-append k n ns)

pub length-retain_other :
    (k : Text) (ns : List Text) → length (retain_other k ns) + count_name k ns ≡ length ns
unfolding retain_other
length-retain_other k [] = omega arith
length-retain_other k (n ∷ ns) = ground (arith, length-retain_other k ns)

pub count_name-retain_other_self :
    (k : Text) (ns : List Text) → count_name k (retain_other k ns) ≡ 0
unfolding retain_other
count_name-retain_other_self k [] = refl
count_name-retain_other_self k (n ∷ ns) = elim (Bool-cases (same_text n k)) [
  | inl e ↦ rw e (count_name-retain_other_self k ns)
  | inr e ↦ rw (e, e) (count_name-retain_other_self k ns)
]

pub count_name-retain_other_ne :
    (k j : Text) (ns : List Text) → j ≢ k → count_name j (retain_other k ns) ≡ count_name j ns
unfolding retain_other
count_name-retain_other_ne k j [] other = refl
count_name-retain_other_ne k j (n ∷ ns) other = elim (Bool-cases (same_text n k)) [
  | inl e ↦
      let miss : same_text n j ≡ false = elim (Bool-cases (same_text n j)) [
        | inl f ↦ absurd (other (sym ((same_text_iff n j).0 f) ∙ (same_text_iff n k).0 e))
        | inr f ↦ f
      ] in
      rw (e, miss) (count_name-retain_other_ne k j ns other)
  | inr e ↦ rw (e, count_name-retain_other_ne k j ns other)
]

pub same_cases :
    (n k : Text) → ((n ≡ k) × (same_text n k ≡ true)) ⊎ ((k ≢ n) × (same_text n k ≡ false))
same_cases n k = elim (Bool-cases (same_text n k)) [
  | inl e ↦ inl ((same_text_iff n k).0 e, e)
  | inr e ↦ inr (λ eq. cc ((same_text_iff n k).1 (sym eq), e), e)
]

pub count_name-retain_other-le :
    (j k : Text) (ns : List Text) → count_name j (retain_other k ns) ≤ count_name j ns
unfolding retain_other
count_name-retain_other-le j k [] = omega arith
count_name-retain_other-le j k (n ∷ ns) = ground (arith, count_name-retain_other-le j k ns)

-- The keys after a session was recorded.
count_name-put_self :
    (name : Text) (ks : List Text) → count_name name (name ∷ retain_other name ks) ≡ 1
count_name-put_self name ks =
    rw ((same_text_iff name name).1 refl, count_name-retain_other_self name ks)

count_name-put_ne :
    (name k : Text) (ks : List Text)
    → k ≢ name
    → same_text name k ≡ false
    → count_name k (name ∷ retain_other name ks) ≡ count_name k ks
count_name-put_ne name k ks ne e = rw (e, count_name-retain_other_ne name k ks ne)

module _ {S : Type 0} where
  abbrev pub keys : List (Text × S) → List Text
  keys [] = []
  keys ((k, v) ∷ m) = k ∷ keys m

  pub keys-remove : (k : Text) (m : List (Text × S)) → keys (remove k m) ≡ retain_other k (keys m)
  unfolding remove retain_other
  keys-remove k [] = refl
  keys-remove k ((j, v) ∷ m) = elim (Bool-cases (same_text j k)) [
    | inl e ↦ rw e (keys-remove k m)
    | inr e ↦ rw (e, keys-remove k m)
  ]

  length-keys : (m : List (Text × S)) → length (keys m) ≡ length m
  length-keys [] = refl
  length-keys ((k, v) ∷ m) = ap suc (length-keys m)

  contains_key-count :
      (k : Text) (m : List (Text × S)) → contains_key k m ≡ false → count_name k (keys m) ≡ 0
  unfolding contains_key get
  contains_key-count k [] e = refl
  contains_key-count k ((j, v) ∷ m) e = elim (Bool-cases (same_text j k)) [
    | inl f ↦ absurd (ground (arith, e, f))
    | inr f ↦ rw f (contains_key-count k m (rw (contains_key, f) at e))
  ]

  contains_key-count_pos :
      (k : Text) (m : List (Text × S)) → contains_key k m ≡ true → 0 < count_name k (keys m)
  unfolding contains_key get
  contains_key-count_pos k [] e = cc
  contains_key-count_pos k ((j, v) ∷ m) e = elim (Bool-cases (same_text j k)) [
    | inl f ↦ rw f (omega arith)
    | inr f ↦ rw f (contains_key-count_pos k m (rw (contains_key, f) at e))
  ]

  -- The queue has each server that has a session once, and nothing else.
  pub record IsQueued (order : List Text) (sessions : List (Text × S)) : Type 0 where
    pub same : (k : Text) → count_name k order ≡ count_name k (keys sessions)
    pub once : (k : Text) → count_name k (keys sessions) ≤ 1
    pub sizes : length order ≡ length sessions

  pub length-remove :
      (k : Text) (m : List (Text × S)) → length (remove k m) + count_name k (keys m) ≡ length m
  length-remove k m = omega (
    arith,
    length-keys (remove k m),
    length-keys m,
    ap length (keys-remove k m),
    length-retain_other k (keys m),
  )

  pop-IsQueued :
      (old : Text) (rest : List Text) (m : List (Text × S))
      → IsQueued (old ∷ rest) m
      → IsQueued rest (remove old m)
  pop-IsQueued old rest m q =
      let hit = (same_text_iff old old).1 refl in
      let first : suc (count_name old rest) ≡ count_name old (keys m) = rw hit at (q.same old) in
      record {
        same = λ k. rw (keys-remove old m) (elim (same_cases old k) [
          | inl (eq, e) ↦
              rw (← eq, count_name-retain_other_self old (keys m))
                (omega (arith, first, q.once old))
          | inr (ne, e) ↦ rw (count_name-retain_other_ne old k (keys m) ne) (rw e at (q.same k))
        ]);
        once = λ k. rw (keys-remove old m) (elim (same_cases old k) [
          | inl (eq, e) ↦ rw (← eq, count_name-retain_other_self old (keys m)) (omega arith)
          | inr (ne, e) ↦ rw (count_name-retain_other_ne old k (keys m) ne) (q.once k)
        ]);
        sizes = omega (arith, q.sizes, length-remove old m, first, q.once old);
      }

  pub evict_sessions_lem :
      (capacity : ℕ) (order : List Text) (m : List (Text × S))
      → IsQueued order m
      → (b : BoringState S) × (evict_sessions capacity order m ≡ some b)
        × IsQueued b.order b.sessions
        × (length b.sessions ≤ capacity)
  unfolding evict_sessions
  evict_sessions_lem capacity [] m q =
      let fits = le→ltb capacity (length m) (omega (arith, q.sizes)) in
      (record { order = []; sessions = m }, rw fits, q, omega (arith, q.sizes))
  evict_sessions_lem capacity (old ∷ rest) m q = elim (Bool-cases (ltb capacity (length m))) [
    | inl over ↦
        let (b, e, r, bound) =
          evict_sessions_lem capacity rest (remove old m) (pop-IsQueued old rest m q) in
        (b, rw (over, evict_sessions) e, r, bound)
    | inr fits ↦ (
      record { order = old ∷ rest; sessions = m },
      rw (fits, evict_sessions),
      q,
      ltb→le capacity (length m) fits,
    )
  ]

  put-IsQueued :
      (name : Text) (session : S) (order : List Text) (m : List (Text × S))
      → ((k : Text) → k ≢ name → count_name k order ≡ count_name k (keys m))
      → count_name name order ≡ 1
      → ((k : Text) → count_name k (keys m) ≤ 1)
      → length order ≡ suc (length (remove name m))
      → IsQueued order (put name session m)
  put-IsQueued name session order m others mine once sizes = record {
    same = λ k. rw (keys-remove name m) (elim (same_cases name k) [
      | inl (eq, e) ↦
          subst (λ j. count_name j order ≡ count_name j (name ∷ retain_other name (keys m))) eq
            (mine ∙ sym (count_name-put_self name (keys m)))
      | inr (ne, e) ↦ others k ne ∙ sym (count_name-put_ne name k (keys m) ne e)
    ]);
    once = λ k. rw (keys-remove name m) (elim (same_cases name k) [
      | inl (eq, e) ↦
          subst (λ j. count_name j (name ∷ retain_other name (keys m)) ≤ 1) eq
            (omega (arith, count_name-put_self name (keys m)))
      | inr (ne, e) ↦ omega (arith, count_name-put_ne name k (keys m) ne e, once k)
    ]);
    sizes = sizes;
  }

  pub known-IsQueued :
      (name : Text) (session : S) (b : BoringState S)
      → contains_key name b.sessions ≡ true
      → IsQueued b.order b.sessions
      → IsQueued b.order (put name session b.sessions)
  known-IsQueued name session b known q =
      let present = contains_key-count_pos name b.sessions known in
      put-IsQueued name session b.order b.sessions (λ k ne. q.same k)
        (omega (arith, present, q.same name, q.once name)) q.once
        (omega (arith, q.sizes, length-remove name b.sessions, present, q.once name))

  pub unknown-IsQueued :
      (name : Text) (session : S) (b : BoringState S)
      → contains_key name b.sessions ≡ false
      → IsQueued b.order b.sessions
      → IsQueued (b.order ++ (name ∷ [])) (put name session b.sessions)
  unknown-IsQueued name session b unknown q =
      let absent = contains_key-count name b.sessions unknown in
      let hit = (same_text_iff name name).1 refl in
      put-IsQueued name session (b.order ++ (name ∷ [])) b.sessions
        (λ k ne. elim (same_cases name k) [
          | inl (eq, e) ↦ absurd (ne (sym eq))
          | inr (_, e) ↦ rw (count_name-append k name b.order, e) (omega (arith, q.same k))
        ])
        (rw (count_name-append name name b.order, hit) (omega (arith, absent, q.same name))) q.once
        (omega (
          arith,
          q.sizes,
          length-remove name b.sessions,
          absent,
          length-append b.order (name ∷ []),
        ))
