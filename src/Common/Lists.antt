-- ===== src/Common/Lists.antt =====
-- Lists measured and indexed by native numbers, under the library's names. A slice `&v[a..b]` is
-- `take (b - a) (drop a v)`.
use Prim.Native.Nat.{ℕ, zero, suc, ◌+◌, ◌-◌, ◌≤◌, min}
use mathlib.Core.Path.{◌≡◌, refl, sym, ap, ◌∙◌}
use mathlib.Core.List.{List, [], ◌∷◌, ◌++◌}
use mathlib.Core.Option.{Option, none, some}
use native.Mathlib.Omega.{arith}

module _ {ℓ} {A : Type ℓ} where
  abbrev pub length : List A → ℕ
  length [] = 0
  length (x ∷ xs) = suc (length xs)

  abbrev pub get_elem? : List A → ℕ → Option A
  get_elem? [] i = none
  get_elem? (x ∷ xs) zero = some x
  get_elem? (x ∷ xs) (suc i) = get_elem? xs i

  abbrev pub get_or : List A → ℕ → A → A
  get_or [] i d = d
  get_or (x ∷ xs) zero d = x
  get_or (x ∷ xs) (suc i) d = get_or xs i d

  -- A write out of bounds changes nothing.
  abbrev pub set : List A → ℕ → A → List A
  set [] i v = []
  set (x ∷ xs) zero v = v ∷ xs
  set (x ∷ xs) (suc i) v = x ∷ set xs i v

  abbrev pub take : ℕ → List A → List A
  take zero xs = []
  take (suc n) [] = []
  take (suc n) (x ∷ xs) = x ∷ take n xs

  abbrev pub drop : ℕ → List A → List A
  drop zero xs = xs
  drop (suc n) [] = []
  drop (suc n) (x ∷ xs) = drop n xs

  abbrev pub replicate : ℕ → A → List A
  replicate zero a = []
  replicate (suc n) a = a ∷ replicate n a

  abbrev pub All {κ} : (A → Type κ) → List A → Type κ
  All P [] = Unit {κ}
  All P (x ∷ xs) = P x × All P xs

module _ {ℓ} {A : Type ℓ} where
  pub length-append : (xs ys : List A) → length (xs ++ ys) ≡ length xs + length ys
  length-append [] ys = omega arith
  length-append (x ∷ xs) ys = omega (arith, length-append xs ys)

  pub take-append-drop : (n : ℕ) (xs : List A) → take n xs ++ drop n xs ≡ xs
  take-append-drop zero xs = refl
  take-append-drop (suc n) [] = refl
  take-append-drop (suc n) (x ∷ xs) = ap (◌∷◌ x) (take-append-drop n xs)

  pub length-take : (n : ℕ) (xs : List A) → length (take n xs) ≡ min n (length xs)
  length-take zero xs = omega arith
  length-take (suc n) [] = omega arith
  length-take (suc n) (x ∷ xs) = omega (arith, length-take n xs)

  pub length-drop : (n : ℕ) (xs : List A) → length (drop n xs) ≡ length xs - n
  length-drop zero xs = omega arith
  length-drop (suc n) [] = omega arith
  length-drop (suc n) (x ∷ xs) = omega (arith, length-drop n xs)

  -- A prefix of known length is cut off exactly.
  pub take-append : (n : ℕ) (xs ys : List A) → length xs ≡ n → take n (xs ++ ys) ≡ xs
  take-append zero [] ys h = refl
  take-append zero (x ∷ xs) ys h = absurd (omega arith)
  take-append (suc n) [] ys h = absurd (omega arith)
  take-append (suc n) (x ∷ xs) ys h = ap (◌∷◌ x) (take-append n xs ys (omega arith))

  pub take-length : (n : ℕ) (xs : List A) → length xs ≡ n → take n xs ≡ xs
  take-length zero [] h = refl
  take-length zero (x ∷ xs) h = absurd (omega arith)
  take-length (suc n) [] h = refl
  take-length (suc n) (x ∷ xs) h = ap (◌∷◌ x) (take-length n xs (omega arith))

  pub drop-append : (n : ℕ) (xs ys : List A) → length xs ≡ n → drop n (xs ++ ys) ≡ ys
  drop-append zero [] ys h = refl
  drop-append zero (x ∷ xs) ys h = absurd (omega arith)
  drop-append (suc n) [] ys h = absurd (omega arith)
  drop-append (suc n) (x ∷ xs) ys h = drop-append n xs ys (omega arith)

  drop-nil : (n : ℕ) → drop {A = A} n [] ≡ []
  drop-nil zero = refl
  drop-nil (suc n) = refl

  pub drop-drop : (n m : ℕ) (xs : List A) → drop m (drop n xs) ≡ drop (n + m) xs
  drop-drop zero m xs = let e : zero + m ≡ m = omega arith in rw e
  drop-drop (suc n) m [] = drop-nil m ∙ sym (drop-nil (suc n + m))
  drop-drop (suc n) m (x ∷ xs) =
      let e : suc n + m ≡ suc (n + m) = omega arith in rw e (drop-drop n m xs)

  -- A cut that ends within the first list.
  pub take-append_le : (n : ℕ) (xs ys : List A) → n ≤ length xs → take n (xs ++ ys) ≡ take n xs
  take-append_le zero xs ys h = refl
  take-append_le (suc n) [] ys h = absurd (omega arith)
  take-append_le (suc n) (x ∷ xs) ys h = ap (◌∷◌ x) (take-append_le n xs ys (omega arith))

  pub drop-append_le :
      (n : ℕ) (xs ys : List A) → n ≤ length xs → drop n (xs ++ ys) ≡ drop n xs ++ ys
  drop-append_le zero xs ys h = refl
  drop-append_le (suc n) [] ys h = absurd (omega arith)
  drop-append_le (suc n) (x ∷ xs) ys h = drop-append_le n xs ys (omega arith)

  -- A cut past a prefix of known length is a cut of what follows it.
  pub take-append_add :
      (k n : ℕ) (xs ys : List A) → length xs ≡ k → take (k + n) (xs ++ ys) ≡ xs ++ take n ys
  take-append_add k n [] ys h = let e : k + n ≡ n = omega arith in rw e
  take-append_add zero n (x ∷ xs) ys h = absurd (omega arith)
  take-append_add (suc k) n (x ∷ xs) ys h =
      let e : suc k + n ≡ suc (k + n) = omega arith in
      rw e (ap (◌∷◌ x) (take-append_add k n xs ys (omega arith)))

  pub drop-append_add :
      (k n : ℕ) (xs ys : List A) → length xs ≡ k → drop (k + n) (xs ++ ys) ≡ drop n ys
  drop-append_add k n [] ys h = let e : k + n ≡ n = omega arith in rw e
  drop-append_add zero n (x ∷ xs) ys h = absurd (omega arith)
  drop-append_add (suc k) n (x ∷ xs) ys h =
      let e : suc k + n ≡ suc (k + n) = omega arith in
      rw e (drop-append_add k n xs ys (omega arith))

  pub length-replicate : (n : ℕ) (a : A) → length (replicate n a) ≡ n
  length-replicate zero a = refl
  length-replicate (suc n) a = ap suc (length-replicate n a)

  pub length-set : (xs : List A) (i : ℕ) (v : A) → length (set xs i v) ≡ length xs
  length-set [] i v = refl
  length-set (x ∷ xs) zero v = refl
  length-set (x ∷ xs) (suc i) v = ap suc (length-set xs i v)

  pub All-append {κ} : (P : A → Type κ) (xs ys : List A) → All P xs → All P ys → All P (xs ++ ys)
  All-append P [] ys h k = k
  All-append P (x ∷ xs) ys h k = (h.0, All-append P xs ys h.1 k)

  pub All-split {κ} : (P : A → Type κ) (xs ys : List A) → All P (xs ++ ys) → All P xs × All P ys
  All-split P [] ys h = (tt, h)
  All-split P (x ∷ xs) ys h = let (hx, hy) = All-split P xs ys h.1 in ((h.0, hx), hy)

  pub All-take {κ} : (P : A → Type κ) (n : ℕ) (xs : List A) → All P xs → All P (take n xs)
  All-take P zero xs h = tt
  All-take P (suc n) [] h = tt
  All-take P (suc n) (x ∷ xs) h = (h.0, All-take P n xs h.1)

  pub All-drop {κ} : (P : A → Type κ) (n : ℕ) (xs : List A) → All P xs → All P (drop n xs)
  All-drop P zero xs h = h
  All-drop P (suc n) [] h = tt
  All-drop P (suc n) (x ∷ xs) h = All-drop P n xs h.1
