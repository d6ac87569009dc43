-- ===== src/Codec/Laws/Sound.antt =====
-- What a decoder of rvpn/crates/rvpn-core/src/protocol/codec.rs accepts: a connect request and a DNS
-- query have one encoding only, and every message that is returned is within its ranges.
use r_vpn_core.Common.{
  ℕ, ◌^◌, ◌%◌, ◌<◌, ◌≡◌, refl, ap, sym, ◌∙◌, Bool, true, List, [], ◌∷◌, ◌++◌, append_assoc,
  append-nil, take-append-drop, All, All-split, arith, inl, inr, length, length-take, length-drop,
  All-take, All-drop, take, drop, ok, Result-cases, ◌≤◌,
}
use r_vpn_core.Common.Bytes.{IsByte, to_be, from_be, to_be-from_be, from_be-lt}
use r_vpn_core.Codec.Messages.{ProxyConnect, DnsQuery, Field, type_proxy_connect}
use r_vpn_core.Codec.Reader.{
  Reader, ◌>>=◌, pure, require, expect_type, read_byte, read_bytes, read_be, run,
}
use r_vpn_core.Codec.Proxy.{
  to_string, read_proxy_connect, encode_proxy_connect, decode_proxy_connect,
}
use r_vpn_core.Codec.Dns.{read_dns_query, encode_dns_query, decode_dns_query}
use r_vpn_core.Codec.Laws.Proxy.{FitsProxyConnect, decode-encode_proxy_connect}
use r_vpn_core.Codec.Laws.Dns.{FitsDnsQuery}
use r_vpn_core.Codec.Laws.Extends.{>>=-eq-ok}

type_inv : (k : ℕ) (s t : List ℕ) → expect_type k s ≡ ok (tt, t) → (s ≡ k ∷ t)
unfolding expect_type
type_inv k [] t h = cc
type_inv k (b ∷ s) t h = ground arith

byte_inv : (f : Field) (s t : List ℕ) (b : ℕ) → read_byte f s ≡ ok (b, t) → s ≡ b ∷ t
unfolding read_byte
byte_inv f [] t b h = cc
byte_inv f (x ∷ s) t b h = ground arith

bytes_inv :
    (n : ℕ) (f : Field) (s t bs : List ℕ)
    → read_bytes n f s ≡ ok (bs, t)
    → (s ≡ bs ++ t) × (length bs ≡ n)
unfolding read_bytes
bytes_inv n f s t bs h = ground (arith, take-append-drop n s, length-take n s)

-- Whatever `m` accepts, it took some `xs` off the front with `P a xs` for its result `a`.
record Sound {ℓ κ} {A : Type ℓ} (m : Reader A) (P : A → List ℕ → Type κ) : Type (ℓ ⊔ κ) where
  apply :
      (s t : List ℕ) (a : A)
      → All IsByte s
      → m s ≡ ok (a, t)
      → (xs : List ℕ) × (s ≡ xs ++ t) × P a xs

Sound-bind {ℓ κ μ ν} :
    {A : Type ℓ} {B : Type κ} {m : Reader A} {f : A → Reader B} (P : A → List ℕ → Type μ)
    {Q : B → List ℕ → Type ν}
    → Sound m P
    → ((a : A) (xs : List ℕ) → P a xs → Sound (f a) (λ b ys. Q b (xs ++ ys)))
    → Sound (m >>= f) Q
Sound-bind {m} {f} P hm hf = record {
  apply = λ s t b hs e.
      let (a, u, first, second) = >>=-eq-ok m f s t e in
      let (xs, cut, p) = hm.apply s u a hs first in
      let (ys, cut', q) = (hf a xs p).apply u t b (All-split IsByte xs u (rw cut at hs)).1 second in
      (xs ++ ys, rw append_assoc (rw (← cut') cut), q);
}

Sound-pure {ℓ κ} : {A : Type ℓ} (a : A) (P : A → List ℕ → Type κ) → P a [] → Sound (pure a) P
unfolding pure
Sound-pure a P h = record {
  apply =
      λ s t b hs e. let same : a ≡ b = cc e in let rest : s ≡ t = cc e in ([], rest, rw same at h);
}

Sound-type : (k : ℕ) → Sound (expect_type k) (λ _ xs. xs ≡ k ∷ [])
unfolding expect_type
Sound-type k = record { apply = λ s t a hs e. (k ∷ [], type_inv k s t e, refl) }

run_inv {ℓ} :
    {A : Type ℓ} (m : Reader A) (bytes : List ℕ) (a : A)
    → run m bytes ≡ ok a
    → (rest : List ℕ) × (m bytes ≡ ok (a, rest))
unfolding run
run_inv m bytes a h = elim (Result-cases (m bytes)) [
  | inl ((b, t), e) ↦ (t, e ∙ ap (λ c. ok (c, t)) (cc (rw (e, run) at h)))
  | inr (x, e) ↦ absurd (cc (rw (e, run) at h))
]

Sound-IsByte : (f : Field) → Sound (read_byte f) (λ b xs. IsByte b × (xs ≡ b ∷ []))
Sound-IsByte f = record {
  apply = λ s t b hs e. let cut = byte_inv f s t b e in (b ∷ [], cut, ((rw cut at hs).0, refl));
}

abbrev IsSlice : ℕ → List ℕ → List ℕ → Type 0
IsSlice n bs xs = All IsByte bs × (length bs ≡ n) × (xs ≡ bs)

Sound-bytes : (n : ℕ) (f : Field) → Sound (read_bytes n f) (IsSlice n)
Sound-bytes n f = record {
  apply = λ s t bs hs e.
      let (cut, len) = bytes_inv n f s t bs e in
      (bs, cut, ((All-split IsByte bs t (rw cut at hs)).0, len, refl));
}

abbrev IsBe : ℕ → ℕ → List ℕ → Type 0
IsBe width v xs = (v < 256 ^ width) × (xs ≡ to_be width v)

Sound-IsBe : (width : ℕ) (f : Field) → Sound (read_be width f) (IsBe width)
unfolding read_be
Sound-IsBe width f = Sound-bind (IsSlice width) (Sound-bytes width f) λ bs xs (hb, len, e).
    Sound-pure (from_be bs) _
      (from_be-lt width bs len hb, rw (append-nil, e) (sym (to_be-from_be width bs len hb)))

-- The request that a decoder sees if the length of the host is given as `n`.
abbrev misread : ProxyConnect → ℕ → ProxyConnect
misread m n = record {
  connection_id = m.connection_id;
  host = take n m.host;
  port = from_be (take 2 (drop n m.host));
}

regroup :
    (id host port left given rest : List ℕ) (n : ℕ)
    → (id ++ (n ∷ ((host ++ (port ++ left)) ++ given))) ++ rest
      ≡ (id ++ (n ∷ (host ++ port))) ++ (left ++ (given ++ rest))
regroup id host port left given rest n = simp append_assoc

module _ (is_utf8 : List ℕ → Bool) where
  string_inv :
      (f : Field) (bs s t r : List ℕ)
      → to_string is_utf8 f bs s ≡ ok (r, t)
      → (bs ≡ r) × (s ≡ t) × (is_utf8 r ≡ true)
  unfolding to_string ◌>>=◌ require pure
  string_inv f bs s t r h = ground arith

  Sound-string :
      (f : Field) (bs : List ℕ)
      → Sound (to_string is_utf8 f bs) (λ r xs. (bs ≡ r) × (is_utf8 r ≡ true) × (xs ≡ []))
  Sound-string f bs = record {
    apply = λ s t r hs e.
        let (same, rest, text) = string_inv f bs s t r e in ([], rest, (same, text, refl));
  }

  connect-Sound :
      Sound
        (read_proxy_connect is_utf8)
        (λ m xs. FitsProxyConnect is_utf8 m × (xs ≡ encode_proxy_connect m))
  unfolding read_proxy_connect encode_proxy_connect
  connect-Sound = Sound-bind _ (Sound-type _) λ _ xs1 e1.
      Sound-bind (IsBe 8) (Sound-IsBe 8 _) λ id xs2 (h2, e2).
        Sound-bind _ (Sound-IsByte _) λ len xs3 (h3, e3).
          Sound-bind (IsSlice len) (Sound-bytes len _) λ bs xs4 (h4, l4, e4).
            Sound-bind _ (Sound-string _ bs) λ host xs5 (same, text, e5).
              Sound-bind (IsBe 2) (Sound-IsBe 2 _) λ port xs6 (h6, e6).
                let size : length host % 2 ^ 8 ≡ len = omega (arith, ap length same) in
                Sound-pure _ _ (
                  record { id = h2; utf8 = text; fits = omega (arith, ap length same); port = h6 },
                  rw (e1, e2, e3, e4, e5, e6, append-nil, size, same),
                )

  -- Whenever `decode_proxy_connect` accepts bytes, the request is within its ranges, and the bytes
  -- are its encoding followed by some rest.
  pub decode-sound_proxy_connect :
      (bytes : List ℕ) (m : ProxyConnect)
      → All IsByte bytes
      → decode_proxy_connect is_utf8 bytes ≡ ok m
      → FitsProxyConnect is_utf8 m × ((rest : List ℕ) × (bytes ≡ encode_proxy_connect m ++ rest))
  unfolding decode_proxy_connect
  decode-sound_proxy_connect bytes m hb h =
      let (rest, e) = run_inv _ bytes m h in
      let (xs, cut, (fits, exact)) = connect-Sound.apply bytes rest m hb e in
      (fits, (rest, rw exact at cut))

  query-Sound :
      Sound (read_dns_query is_utf8) (λ m xs. FitsDnsQuery is_utf8 m × (xs ≡ encode_dns_query m))
  unfolding read_dns_query encode_dns_query
  query-Sound = Sound-bind _ (Sound-type _) λ _ xs1 e1.
      Sound-bind (IsBe 8) (Sound-IsBe 8 _) λ id xs2 (h2, e2).
        Sound-bind (IsBe 2) (Sound-IsBe 2 _) λ query_type xs3 (h3, e3).
          Sound-bind _ (Sound-IsByte _) λ len xs4 (h4, e4).
            Sound-bind (IsSlice len) (Sound-bytes len _) λ bs xs5 (h5, l5, e5).
              Sound-bind _ (Sound-string _ bs) λ domain xs6 (same, text, e6).
                let size : length domain % 2 ^ 8 ≡ len = omega (arith, ap length same) in
                Sound-pure _ _ (
                  record {
                    id = h2;
                    query_type = h3;
                    utf8 = text;
                    fits = omega (arith, ap length same);
                  },
                  rw (e1, e2, e3, e4, e5, e6, append-nil, size, same),
                )

  -- Whenever `decode_dns_query` accepts bytes, the query is within its ranges, and the bytes are
  -- its encoding followed by some rest.
  pub decode-sound_dns_query :
      (bytes : List ℕ) (m : DnsQuery)
      → All IsByte bytes
      → decode_dns_query is_utf8 bytes ≡ ok m
      → FitsDnsQuery is_utf8 m × ((rest : List ℕ) × (bytes ≡ encode_dns_query m ++ rest))
  unfolding decode_dns_query
  decode-sound_dns_query bytes m hb h =
      let (rest, e) = run_inv _ bytes m h in
      let (xs, cut, (fits, exact)) = query-Sound.apply bytes rest m hb e in
      (fits, (rest, rw exact at cut))

  -- The bytes of a request with an overlong host, divided as the decoder divides them.
  encode_proxy_connect-cut :
      (m : ProxyConnect) (n : ℕ) (rest : List ℕ)
      → n ≡ length m.host % 256
      → All IsByte m.host
      → 256 ≤ length m.host
      → encode_proxy_connect m ++ rest
        ≡ encode_proxy_connect (misread m n) ++ (drop 2 (drop n m.host) ++ (to_be 2 m.port ++ rest))
  unfolding encode_proxy_connect
  encode_proxy_connect-cut m n rest e hb long =
      let host = take n m.host in
      let tail = drop n m.host in
      let size : length host % 256 ≡ length m.host % 256 = omega (arith, length-take n m.host) in
      let pair : length (take 2 tail) ≡ 2 =
        omega (arith, length-take 2 tail, length-drop n m.host) in
      let port =
        to_be-from_be 2 (take 2 tail) pair (All-take IsByte 2 tail (All-drop IsByte n m.host hb)) in
      let whole : host ++ (take 2 tail ++ drop 2 tail) ≡ m.host =
        ap (host ++◌) (take-append-drop 2 tail) ∙ take-append-drop n m.host in
      let joined =
        regroup (to_be 8 m.connection_id) host (take 2 tail) (drop 2 tail) (to_be 2 m.port) rest
          (length m.host % 256) in
      rw (size, port) (ap (type_proxy_connect ∷◌) (rw whole at joined))

  -- A connect request with a 64-bit id and a host of 256 bytes or more is written with the low
  -- byte of the host's length: if the first bytes of the host, as many as that, are UTF-8, it is
  -- decoded, whatever follows it, to a request for another destination, with those bytes as the host
  -- and the next two bytes of the host as the port.
  pub decode_proxy_connect-long_host :
      (m : ProxyConnect) (rest : List ℕ)
      → m.connection_id < 2 ^ 64
      → All IsByte m.host
      → 256 ≤ length m.host
      → is_utf8 (take (length m.host % 256) m.host) ≡ true
      → decode_proxy_connect is_utf8 (encode_proxy_connect m ++ rest)
        ≡ ok (record {
          connection_id = m.connection_id;
          host = take (length m.host % 256) m.host;
          port = from_be (take 2 (drop (length m.host % 256) m.host));
        })
  decode_proxy_connect-long_host m rest small hb long text =
      let n = length m.host % 256 in
      let tail = drop n m.host in
      let pair : length (take 2 tail) ≡ 2 =
        omega (arith, length-take 2 tail, length-drop n m.host) in
      let bytes = All-take IsByte 2 tail (All-drop IsByte n m.host hb) in
      rw (encode_proxy_connect-cut m n rest refl hb long) (
        decode-encode_proxy_connect is_utf8 (misread m n) _ (record {
          id = small;
          utf8 = text;
          fits = omega (arith, length-take n m.host);
          port = from_be-lt 2 (take 2 tail) pair bytes;
        }))
