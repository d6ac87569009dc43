-- ===== src/Common/Bytes.antt =====
-- `to_be_bytes`, `from_be_bytes`, `to_le_bytes` and `from_le_bytes` of the unsigned integers. A byte
-- is a number below 256; the width is the number of bytes.
use r_vpn_core.Common.Lists.{length, length-append, All, All-append}
use Prim.Native.Nat.{ℕ, zero, suc, ◌+◌, ◌*◌, ◌/◌, ◌%◌, ◌^◌, ◌<◌}
use mathlib.Core.Path.{◌≡◌, refl, sym, ap}
use mathlib.Core.List.{List, [], ◌∷◌, ◌++◌}
use native.Mathlib.Nat.{pow-suc}
use native.Mathlib.Omega.{arith}

abbrev pub IsByte : ℕ → Type 0
IsByte b = b < 256

unfoldable pub to_be : ℕ → ℕ → List ℕ
to_be zero v = []
to_be (suc width) v = to_be width (v / 256) ++ (v % 256 ∷ [])

unfoldable pub from_be_acc : ℕ → List ℕ → ℕ
from_be_acc acc [] = acc
from_be_acc acc (b ∷ bs) = from_be_acc (acc * 256 + b) bs

unfoldable pub from_be : List ℕ → ℕ
unfolding from_be_acc
from_be bs = from_be_acc 0 bs

unfoldable pub to_le : ℕ → ℕ → List ℕ
to_le zero v = []
to_le (suc width) v = v % 256 ∷ to_le width (v / 256)

unfoldable pub from_le : List ℕ → ℕ
from_le [] = 0
from_le (b ∷ bs) = b + 256 * from_le bs

pub length-to_be : (width v : ℕ) → length (to_be width v) ≡ width
unfolding to_be
length-to_be zero v = refl
length-to_be (suc width) v =
    omega
      (arith, length-append (to_be width (v / 256)) (v % 256 ∷ []), length-to_be width (v / 256))

pub to_be-IsByte : (width v : ℕ) → All IsByte (to_be width v)
unfolding to_be
to_be-IsByte zero v = tt
to_be-IsByte (suc width) v =
    All-append IsByte (to_be width (v / 256)) _ (to_be-IsByte width (v / 256)) (omega arith)

from_be_acc-snoc :
    (acc : ℕ) (xs : List ℕ) (b : ℕ)
    → from_be_acc acc (xs ++ (b ∷ [])) ≡ from_be_acc acc xs * 256 + b
unfolding from_be_acc
from_be_acc-snoc acc [] b = refl
from_be_acc-snoc acc (x ∷ xs) b = from_be_acc-snoc (acc * 256 + x) xs b

from_be_acc_split :
    (acc : ℕ) (bs : List ℕ) → from_be_acc acc bs ≡ acc * 256 ^ length bs + from_be_acc 0 bs
unfolding from_be_acc
from_be_acc_split acc [] = omega arith
from_be_acc_split acc (b ∷ bs) = omega (
  arith,
  from_be_acc_split (acc * 256 + b) bs,
  from_be_acc_split (0 * 256 + b) bs,
  ap (λ (t : ℕ). acc * t) (pow-suc 256 (length bs)),
)

-- The first byte counts most.
pub from_be-cons : (b : ℕ) (bs : List ℕ) → from_be (b ∷ bs) ≡ b * 256 ^ length bs + from_be bs
unfolding from_be from_be_acc
from_be-cons b bs = omega (arith, from_be_acc_split (0 * 256 + b) bs)

-- Reading back what was written gives the value, if it fits.
pub from_be-to_be : (width v : ℕ) → v < 256 ^ width → from_be (to_be width v) ≡ v
unfolding from_be to_be
from_be-to_be zero v h = omega arith
from_be-to_be (suc width) v h = omega (
  arith,
  from_be_acc-snoc 0 (to_be width (v / 256)) (v % 256),
  from_be-to_be width (v / 256) (omega (arith, pow-suc 256 width)),
)

snoc_cases :
    (n : ℕ) (xs : List ℕ)
    → length xs ≡ suc n
    → (ys : List ℕ) × (b : ℕ) × (xs ≡ ys ++ (b ∷ [])) × (length ys ≡ n)
snoc_cases n [] h = absurd (omega arith)
snoc_cases zero (x ∷ []) h = ([], x, refl, refl)
snoc_cases zero (x ∷ y ∷ xs) h = absurd (omega arith)
snoc_cases (suc n) (x ∷ xs) h = extend (snoc_cases n xs (omega arith))
  where
    extend :
        (ys : List ℕ) × (b : ℕ) × (xs ≡ ys ++ (b ∷ [])) × (length ys ≡ n)
        → (ys : List ℕ) × (b : ℕ) × (x ∷ xs ≡ ys ++ (b ∷ [])) × (length ys ≡ suc n)
    extend (ys, b, e, l) = (x ∷ ys, b, ap (◌∷◌ x) e, ap suc l)

All-snoc : (ys : List ℕ) (b : ℕ) → All IsByte (ys ++ (b ∷ [])) → All IsByte ys × IsByte b
All-snoc [] b h = (tt, h.0)
All-snoc (y ∷ ys) b h = let (hy, hb) = All-snoc ys b h.1 in ((h.0, hy), hb)

-- The bytes that a value was read from are the bytes that it is written as.
pub to_be-from_be :
    (width : ℕ) (bs : List ℕ) → length bs ≡ width → All IsByte bs → to_be width (from_be bs) ≡ bs
unfolding to_be from_be
to_be-from_be zero [] l h = refl
to_be-from_be zero (b ∷ bs) l h = absurd (omega arith)
to_be-from_be (suc width) bs l h =
    let (ys, b, e, k) = snoc_cases width bs l in
    let (hy, hb) = All-snoc ys b (rw e at h) in
    let joined : from_be_acc 0 bs ≡ from_be ys * 256 + b = rw e (from_be_acc-snoc 0 ys b) in
    let high : from_be_acc 0 bs / 256 ≡ from_be ys = omega arith in
    let low : from_be_acc 0 bs % 256 ≡ b = omega arith in
    rw (high, low, to_be-from_be width ys k hy) (sym e)

pub from_be-lt :
    (width : ℕ) (bs : List ℕ) → length bs ≡ width → All IsByte bs → from_be bs < 256 ^ width
unfolding from_be
from_be-lt zero [] l h = omega arith
from_be-lt zero (b ∷ bs) l h = absurd (omega arith)
from_be-lt (suc width) bs l h =
    let (ys, b, e, k) = snoc_cases width bs l in
    let (hy, hb) = All-snoc ys b (rw e at h) in
    let joined : from_be_acc 0 bs ≡ from_be ys * 256 + b = rw e (from_be_acc-snoc 0 ys b) in
    omega (arith, from_be-lt width ys k hy, pow-suc 256 width)

pub length-to_le : (width v : ℕ) → length (to_le width v) ≡ width
unfolding to_le
length-to_le zero v = refl
length-to_le (suc width) v = ap suc (length-to_le width (v / 256))

pub from_le-to_le : (width v : ℕ) → v < 256 ^ width → from_le (to_le width v) ≡ v
unfolding from_le to_le
from_le-to_le zero v h = omega arith
from_le-to_le (suc width) v h =
    omega (arith, from_le-to_le width (v / 256) (omega (arith, pow-suc 256 width)))
