-- ===== src/Base/Permutations.antt =====
-- Two orders of the entries of one map hold the same values.
use Prim.Native.String.{String}
use mathlib.Core.Path.{◌≡◌, refl, sym, ap, ◌∙◌, subst₂}
use mathlib.Core.Option.{some}
use mathlib.Core.List.{◌∷◌, Permᴰ}
use native.Mathlib.Omega.{arith}
use text.Mathlib.Text.{◌==◌}
use text.Mathlib.TextEquality.{eq_iff}
use project_onboarding_opera.Base.Tests.{if◌then◌else◌}
use project_onboarding_opera.Base.Dict.{Dict, lookup, NodupKeys}

module _ {ℓ} {V : Type ℓ} where
  swap-NodupKeys : (a b : String × V) (l : Dict V) → NodupKeys (a ∷ b ∷ l) → NodupKeys (b ∷ a ∷ l)
  unfolding lookup
  swap-NodupKeys (i, v) (j, w) l u = ground (arith, eq_iff i j, eq_iff j i)

  swap-lookup :
      (k : String) (a b : String × V) (l : Dict V)
      → NodupKeys (a ∷ b ∷ l)
      → lookup k (a ∷ b ∷ l) ≡ lookup k (b ∷ a ∷ l)
  unfolding lookup
  swap-lookup k (i, v) (j, w) l u = ground (arith, eq_iff i j, eq_iff j i, eq_iff i k, eq_iff j k)

  pub perm-lookup :
      {m n : Dict V}
      → Permᴰ m n
      → NodupKeys m
      → NodupKeys n × ((k : String) → lookup k m ≡ lookup k n)
  unfolding lookup
  perm-lookup Permᴰ.nil u = (tt, λ k. refl)
  perm-lookup (Permᴰ.cons {a} {b} {l₁} {l₂} e p) (fresh, u) =
      let (v, same) = perm-lookup p u in
      rw (← e)
        ((sym (same a.0) ∙ fresh, v), λ k. ap (λ o. if a.0 == k then some a.1 else o) (same k))
  perm-lookup (Permᴰ.swap {a} {b} {a'} {b'} {l} e f) u =
      subst₂
        (λ x y.
          NodupKeys (x ∷ y ∷ l) × ((k : String) → lookup k (a ∷ b ∷ l) ≡ lookup k (x ∷ y ∷ l)))
        f e (swap-NodupKeys a b l u, λ k. swap-lookup k a b l u)
  perm-lookup (Permᴰ.trans p q) u =
      let (v, same) = perm-lookup p u in
      let (w, same') = perm-lookup q v in (w, λ k. same k ∙ same' k)
