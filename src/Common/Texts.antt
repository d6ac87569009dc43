-- ===== src/Common/Texts.antt =====
-- Texts as their bytes, compared as a whole.
use r_vpn_core.Common.Tests.{◌==◌}
use Prim.Native.Nat.{ℕ}
use mathlib.Core.Bool.{Bool, true, false, ◌&&◌}
use mathlib.Core.List.{List, [], ◌∷◌}
use mathlib.Core.Logic.{◌↔◌}
use mathlib.Core.Path.{◌≡◌, refl}
use native.Mathlib.Omega.{arith}

abbrev pub Text : Type 0
Text = List ℕ

unfoldable pub same_text : Text → Text → Bool
same_text [] [] = true
same_text [] (y ∷ ys) = false
same_text (x ∷ xs) [] = false
same_text (x ∷ xs) (y ∷ ys) = (x == y) && same_text xs ys

same_text-eq : (s t : Text) → same_text s t ≡ true → s ≡ t
unfolding same_text
same_text-eq [] [] e = refl
same_text-eq [] (y ∷ ys) e = cc
same_text-eq (x ∷ xs) [] e = cc
same_text-eq (x ∷ xs) (y ∷ ys) e = ground (arith, same_text-eq xs ys)

same_text_refl : (s : Text) → same_text s s ≡ true
unfolding same_text
same_text_refl [] = refl
same_text_refl (x ∷ xs) = ground (arith, same_text_refl xs)

pub same_text_iff : (s t : Text) → (same_text s t ≡ true) ↔ (s ≡ t)
same_text_iff s t = (same_text-eq s t, λ e. rw e (same_text_refl t))
