-- ===== src/Tls/Laws/Leak.antt =====
-- A server whose last ticket was taken is never evicted again
-- (rvpn/crates/rvpn-tls/src/resumption.rs).
use r_vpn_core.Common.{
  ℕ, ◌+◌, ◌≤◌, ◌≡◌, ◌≢◌, refl, ap, sym, inl, inr, false, List, [], ◌∷◌, none, arith, le→ltb,
  Bool-cases, length, All,
}
use r_vpn_core.Common.Texts.{Text, same_text, same_text_iff}
use r_vpn_core.Common.Maps.{
  get, get-put_self, remove-put_self, remove_absent, contains_key_absent, contains_key-put_self,
}
use r_vpn_core.Tls.Rustls.{
  RustlsState, new_rustls, retain_other, evict, note_server, forget_if_empty, insert_tls13_ticket,
  take_tls13_ticket,
}

abbrev pub Distinct : List Text → Type 0
Distinct [] = Unit {0}
Distinct (name ∷ names) = All (λ n. n ≢ name) names × Distinct names

module _ {G S T : Type 0} where
  -- The store knows nothing of the server, and no server waits for eviction.
  record Unknown (name : Text) (s : RustlsState G S T) : Type 0 where
    queue : s.order ≡ []
    no_hint : get name s.kx_hints ≡ none
    no_tls12 : get name s.tls12 ≡ none
    no_tls13 : get name s.tls13 ≡ none

  insert_fresh :
      (capacity : ℕ) (name : Text) (t : T) (s : RustlsState G S T)
      → 1 ≤ capacity
      → Unknown name s
      → insert_tls13_ticket capacity name t s
        ≡ record s { order = name ∷ []; tls13 = (name, t ∷ []) ∷ s.tls13 }
  unfolding insert_tls13_ticket note_server evict
  insert_fresh capacity name t s enough u =
      rw
        (
          contains_key_absent name s.kx_hints u.no_hint,
          contains_key_absent name s.tls12 u.no_tls12,
          contains_key_absent name s.tls13 u.no_tls13,
          u.queue,
        )
        (rw (evict, le→ltb capacity 1 enough, u.no_tls13, remove_absent name s.tls13 u.no_tls13)
          refl)

  take_last :
      (name : Text) (t : T) (s : RustlsState G S T)
      → Unknown name s
      → (take_tls13_ticket name
          (record s { order = name ∷ []; tls13 = (name, t ∷ []) ∷ s.tls13 })).1
        ≡ record s { order = []; tls13 = (name, []) ∷ s.tls13 }
  unfolding take_tls13_ticket forget_if_empty retain_other
  take_last name t s u =
      rw
        (
          get-put_self name (t ∷ []) s.tls13,
          remove-put_self name (t ∷ []) s.tls13,
          remove_absent name s.tls13 u.no_tls13,
          forget_if_empty,
          contains_key_absent name s.kx_hints u.no_hint,
          contains_key_absent name s.tls12 u.no_tls12,
          get-put_self {V = List T} name [] s.tls13,
          retain_other,
          (same_text_iff name name).1 refl,
        )
        refl

  insert_known :
      (capacity : ℕ) (name : Text) (t : T) (s : RustlsState G S T)
      → Unknown name s
      → insert_tls13_ticket capacity name t (record s { order = []; tls13 = (name, []) ∷ s.tls13 })
        ≡ record s { order = []; tls13 = (name, t ∷ []) ∷ s.tls13 }
  unfolding insert_tls13_ticket note_server evict
  insert_known capacity name t s u =
      rw
        (
          contains_key_absent name s.kx_hints u.no_hint,
          contains_key_absent name s.tls12 u.no_tls12,
          contains_key-put_self {V = List T} name [] s.tls13,
        )
        (rw
          (
            get-put_self {V = List T} name [] s.tls13,
            remove-put_self {V = List T} name [] s.tls13,
            remove_absent name s.tls13 u.no_tls13,
          )
          refl)

  -- A ticket comes in and is taken, and another one comes in, for each of the servers.
  abbrev pub renew_each : ℕ → List Text → T → T → RustlsState G S T → RustlsState G S T
  renew_each capacity [] t t' s = s
  renew_each capacity (name ∷ names) t t' s = renew_each capacity names t t' (
      insert_tls13_ticket capacity name t'
        (take_tls13_ticket name (insert_tls13_ticket capacity name t s)).1)

  renew_one :
      (capacity : ℕ) (name : Text) (t t' : T) (s : RustlsState G S T)
      → 1 ≤ capacity
      → Unknown name s
      → insert_tls13_ticket capacity name t'
          (take_tls13_ticket name (insert_tls13_ticket capacity name t s)).1
        ≡ record s { order = []; tls13 = (name, t' ∷ []) ∷ s.tls13 }
  renew_one capacity name t t' s enough u =
      rw (insert_fresh capacity name t s enough u, take_last name t s u)
        (insert_known capacity name t' s u)

  Unknown-next :
      (name : Text) (names : List Text) (t : T) (s : RustlsState G S T)
      → All (λ n. n ≢ name) names
      → All (λ n. Unknown n s) names
      → All (λ n. Unknown n (record s { order = []; tls13 = (name, t ∷ []) ∷ s.tls13 })) names
  unfolding get
  Unknown-next name [] t s other u = tt
  Unknown-next name (n ∷ ns) t s other u = (
    record {
      queue = refl;
      no_hint = u.0.no_hint;
      no_tls12 = u.0.no_tls12;
      no_tls13 =
          let miss : same_text name n ≡ false = elim (Bool-cases (same_text name n)) [
            | inl e ↦ absurd (other.0 (sym ((same_text_iff name n).0 e)))
            | inr e ↦ e
          ] in
          rw (get, miss) u.0.no_tls13;
    },
    Unknown-next name ns t s other.1 u.1,
  )

  renew_each_lem :
      (capacity : ℕ) (names : List Text) (t t' : T) (s : RustlsState G S T)
      → 1 ≤ capacity
      → Distinct names
      → s.order ≡ []
      → All (λ n. Unknown n s) names
      → let after = renew_each capacity names t t' s in
        (after.order ≡ []) × (length after.tls13 ≡ length names + length s.tls13)
  renew_each_lem capacity [] t t' s enough distinct empty u = (empty, omega arith)
  renew_each_lem capacity (name ∷ names) t t' s enough distinct empty u =
      let s' : RustlsState G S T = record s { order = []; tls13 = (name, t' ∷ []) ∷ s.tls13 } in
      let ih =
        renew_each_lem capacity names t t' s' enough distinct.1 refl
          (Unknown-next name names t' s distinct.0 u.1) in
      let step : renew_each capacity (name ∷ names) t t' s ≡ renew_each capacity names t t' s' =
        ap (renew_each capacity names t t') (renew_one capacity name t t' s enough u.0) in
      rw step (ih.0, omega (arith, ih.1))

module _ (G S T : Type 0) where
  new-Unknown : (names : List Text) → All (λ n. Unknown {G = G} {S = S} {T = T} n new_rustls) names
  unfolding get
  new-Unknown [] = tt
  new-Unknown (n ∷ ns) =
      (record { queue = refl; no_hint = refl; no_tls12 = refl; no_tls13 = refl }, new-Unknown ns)

  -- Whatever the capacity is: when for each of any number of different servers a ticket comes in and
  -- is taken and another one comes in, a new store ends with as many entries as there are servers and
  -- with an empty queue.
  pub renew_each-unbounded :
      (capacity : ℕ) (names : List Text) (t t' : T)
      → 1 ≤ capacity
      → Distinct names
      → let after = renew_each capacity names t t' (new_rustls {G = G} {S = S}) in
        (after.order ≡ []) × (length after.tls13 ≡ length names)
  renew_each-unbounded capacity names t t' enough distinct =
      let r =
        renew_each_lem capacity names t t' (new_rustls {G = G} {S = S}) enough distinct refl
          (new-Unknown names) in
      (r.0, omega (arith, r.1))
