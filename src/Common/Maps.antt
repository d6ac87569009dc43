-- ===== src/Common/Maps.antt =====
-- Maps from texts, as lists with at most one entry for a key where they are built by `put`.
use r_vpn_core.Common.Tests.{if◌then◌else◌, Bool-cases}
use r_vpn_core.Common.Texts.{Text, same_text, same_text_iff}
use mathlib.Core.Bool.{Bool, true, false}
use mathlib.Core.List.{List, [], ◌∷◌}
use mathlib.Core.Logic.{◌≢◌, inl, inr}
use mathlib.Core.Option.{Option, none, some}
use mathlib.Core.Path.{◌≡◌, refl}
use native.Mathlib.Omega.{arith}

module _ {V : Type 0} where
  unfoldable pub get : Text → List (Text × V) → Option V
  get k [] = none
  get k ((j, v) ∷ m) = if same_text j k then some v else get k m

  unfoldable pub remove : Text → List (Text × V) → List (Text × V)
  remove k [] = []
  remove k ((j, v) ∷ m) = if same_text j k then remove k m else (j, v) ∷ remove k m

  abbrev pub put : Text → V → List (Text × V) → List (Text × V)
  put k v m = (k, v) ∷ remove k m

  unfoldable pub contains_key : Text → List (Text × V) → Bool
  contains_key k m = elim (get k m) [ none ↦ false | some v ↦ true ]

  pub get-remove_self : (k : Text) (m : List (Text × V)) → get k (remove k m) ≡ none
  unfolding get remove
  get-remove_self k [] = refl
  get-remove_self k ((j, v) ∷ m) = elim (Bool-cases (same_text j k)) [
    | inl e ↦ rw e (get-remove_self k m)
    | inr e ↦ rw (e, get, e) (get-remove_self k m)
  ]

  pub get-remove_ne : (k j : Text) (m : List (Text × V)) → j ≢ k → get j (remove k m) ≡ get j m
  unfolding get remove
  get-remove_ne k j [] other = refl
  get-remove_ne k j ((i, v) ∷ m) other = elim (Bool-cases (same_text i k)) [
    | inl e ↦ elim (Bool-cases (same_text i j)) [
      | inl f ↦ absurd (other (ground (arith, e, f, same_text_iff i k, same_text_iff i j)))
      | inr f ↦ rw (e, f) (get-remove_ne k j m other)
    ]
    | inr e ↦ rw (e, get, get-remove_ne k j m other)
  ]

  pub get-put_self : (k : Text) (v : V) (m : List (Text × V)) → get k ((k, v) ∷ m) ≡ some v
  unfolding get
  get-put_self k v m = rw ((same_text_iff k k).1 refl)

  pub remove-put_self :
      (k : Text) (v : V) (m : List (Text × V)) → remove k ((k, v) ∷ m) ≡ remove k m
  unfolding remove
  remove-put_self k v m = rw ((same_text_iff k k).1 refl)

  pub remove_absent : (k : Text) (m : List (Text × V)) → get k m ≡ none → remove k m ≡ m
  unfolding get remove
  remove_absent k [] e = refl
  remove_absent k ((j, v) ∷ m) e = elim (Bool-cases (same_text j k)) [
    | inl f ↦ absurd (ground (arith, e, f))
    | inr f ↦ rw (f, remove_absent k m (ground (arith, e, f)))
  ]

  pub contains_key_absent :
      (k : Text) (m : List (Text × V)) → get k m ≡ none → contains_key k m ≡ false
  unfolding contains_key
  contains_key_absent k m e = rw (e, contains_key)

  pub contains_key-put_self :
      (k : Text) (v : V) (m : List (Text × V)) → contains_key k ((k, v) ∷ m) ≡ true
  unfolding contains_key
  contains_key-put_self k v m = rw (get-put_self k v m, contains_key)
