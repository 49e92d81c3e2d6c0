-- ===== src/Base/Assoc.antt =====
-- Maps from numbers as lists of keys with values.
use Prim.Native.Nat.{ℕ, ◌≤◌, ◌<◌}
use mathlib.Core.Path.{◌≡◌, refl, ap, sym, ◌∙◌}
use mathlib.Core.Logic.{inl, inr}
use mathlib.Core.Option.{Option, none, some}
use mathlib.Core.List.{List, [], ◌∷◌}
use native.Mathlib.Omega.{arith}
use vanus.Base.Tests.{Bool-cases, if◌then◌else◌, ◌==◌}
use vanus.Base.Lists.{length}

module _ {ℓ} {A : Type ℓ} where
  abbrev pub lookup : List (ℕ × A) → ℕ → Option A
  lookup [] k = none
  lookup (x ∷ xs) k = if x.0 == k then some x.1 else lookup xs k

  abbrev pub erase : ℕ → List (ℕ × A) → List (ℕ × A)
  erase k [] = []
  erase k (x ∷ xs) = let rest = erase k xs in if x.0 == k then rest else x ∷ rest

  abbrev pub insert : ℕ → A → List (ℕ × A) → List (ℕ × A)
  insert k v l = (k, v) ∷ erase k l

module _ {ℓ} {A : Type ℓ} where
  pub lookup-erase :
      (k j : ℕ) (l : List (ℕ × A)) → lookup (erase k l) j ≡ (if k == j then none else lookup l j)
  lookup-erase k j [] = elim (Bool-cases (k == j)) [ inl q ↦ rw q refl | inr q ↦ rw q refl ]
  lookup-erase k j (x ∷ xs) = ground (arith, lookup-erase k j xs)

  pub lookup-insert :
      (k j : ℕ) (v : A) (l : List (ℕ × A))
      → lookup (insert k v l) j ≡ (if k == j then some v else lookup l j)
  lookup-insert k j v l = elim (Bool-cases (k == j)) [
    | inl q ↦ rw q refl
    | inr q ↦ rw q (lookup-erase k j l ∙ ap (λ b. if b then none else lookup l j) q)
  ]

  pub length-erase : (k : ℕ) (l : List (ℕ × A)) → length (erase k l) ≤ length l
  length-erase k [] = omega arith
  length-erase k (x ∷ xs) = ground (arith, length-erase k xs)

  pub erase_shorter :
      (k : ℕ) (v : A) (l : List (ℕ × A)) → lookup l k ≡ some v → length (erase k l) < length l
  erase_shorter k v [] h = absurd (cc)
  erase_shorter k v (x ∷ xs) h = elim (Bool-cases (x.0 == k)) [
    | inl q ↦ rw q (omega (arith, length-erase k xs))
    | inr q ↦ rw q (omega (arith, erase_shorter k v xs (sym (rw q refl) ∙ h)))
  ]
