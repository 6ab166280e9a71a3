-- ===== src/Base/Lists.antt =====
-- Lists measured by native numbers, and predicates over their elements.
use Prim.Native.Nat.{ℕ, suc, ◌+◌}
use Prim.Native.String.{String}
use mathlib.Core.Path.{◌≡◌}
use mathlib.Core.Logic.{◌⊎◌}
use mathlib.Core.Bool.{Bool, true, false, ◌||◌}
use mathlib.Core.List.{List, [], ◌∷◌, ◌++◌}
use text.Mathlib.Text.{◌==◌}
use native.Mathlib.Omega.{arith}

module _ {ℓ} {A : Type ℓ} where
  abbrev pub length : List A → ℕ
  length [] = 0
  length (x ∷ xs) = suc (length xs)

  -- len(xs) == 0
  abbrev pub is_nil : List A → Bool
  is_nil [] = true
  is_nil (_ ∷ _) = false

  abbrev pub All {κ} : (A → Type κ) → List A → Type κ
  All P [] = Unit
  All P (x ∷ xs) = P x × All P xs

  pub All-everywhere {κ} : (P : A → Type κ) (xs : List A) → ((x : A) → P x) → All P xs
  All-everywhere P [] h = tt
  All-everywhere P (x ∷ xs) h = (h x, All-everywhere P xs h)

  pub All-map {κ λ₁} :
      (P : A → Type κ) (Q : A → Type λ₁) (xs : List A) → ((x : A) → P x → Q x) → All P xs → All Q xs
  All-map P Q [] h t = tt
  All-map P Q (x ∷ xs) h (p, t) = (h x p, All-map P Q xs h t)

  pub length-append : (xs ys : List A) → length (xs ++ ys) ≡ length xs + length ys
  length-append [] ys = omega arith
  length-append (x ∷ xs) ys = omega (arith, length-append xs ys)

-- Membership in a `map[string]struct{}`, kept as the list of its keys.
unfoldable pub member : String → List String → Bool
member k [] = false
member k (j ∷ ks) = j == k || member k ks

-- The element stands in the list.
abbrev pub Among : {A : Type 0} → A → List A → Type 0
Among x [] = ⊥
Among x (y ∷ ys) = (y ≡ x) ⊎ Among x ys
