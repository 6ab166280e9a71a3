-- ===== src/Base/Dict.antt =====
-- Go's `map[string]V` as an association list; reading a nil map is reading the empty one.
use Prim.Native.String.{String}
use mathlib.Core.Path.{◌≡◌, refl}
use mathlib.Core.Bool.{Bool, false}
use mathlib.Core.Option.{Option, none, some}
use mathlib.Core.List.{List, [], ◌∷◌}
use native.Mathlib.Omega.{arith}
use text.Mathlib.Text.{◌==◌}
use text.Mathlib.TextEquality.{eq_iff}
use project_onboarding_opera.Base.Tests.{if◌then◌else◌, is_some, or_else}

abbrev pub Dict {ℓ} : Type ℓ → Type ℓ
Dict V = List (String × V)

module _ {ℓ} {V : Type ℓ} where
  -- v, ok := m[k]
  unfoldable pub lookup : String → Dict V → Option V
  lookup wanted [] = none
  lookup wanted ((key, value) ∷ entries) =
      if key == wanted then some value else lookup wanted entries

  -- m[k] = v
  unfoldable pub insert : String → V → Dict V → Dict V
  insert key value [] = (key, value) ∷ []
  insert key value ((other, old) ∷ entries) =
      if other == key then (key, value) ∷ entries else (other, old) ∷ insert key value entries

  -- for k, v := range over { m[k] = v }
  unfoldable pub overlay : Dict V → Dict V → Dict V
  overlay m [] = m
  overlay m ((k, v) ∷ over) = overlay (insert k v m) over

  abbrev pub has_key : String → Dict V → Bool
  has_key k m = is_some (lookup k m)

  pub lookup-insert :
      (key wanted : String) (value : V) (entries : Dict V)
      → lookup wanted (insert key value entries)
        ≡ (if key == wanted then some value else lookup wanted entries)
  unfolding lookup insert
  lookup-insert key wanted value [] = refl
  lookup-insert key wanted value ((other, old) ∷ entries) = ground (
    arith,
    lookup-insert key wanted value entries,
    eq_iff other wanted,
    eq_iff other key,
    eq_iff key wanted,
  )

  -- No key stands twice, as in every map of the program.
  abbrev pub NodupKeys : Dict V → Type ℓ
  NodupKeys [] = Unit
  NodupKeys ((k, v) ∷ m) = (lookup k m ≡ none) × NodupKeys m

  pub lookup-overlay :
      (j : String) (m over : Dict V)
      → NodupKeys over
      → lookup j (overlay m over) ≡ or_else (lookup j over) (lookup j m)
  unfolding lookup overlay
  lookup-overlay j m [] u = refl
  lookup-overlay j m ((k, v) ∷ over) (fresh, u) =
      ground (arith, lookup-overlay j (insert k v m) over u, lookup-insert k j v m, eq_iff k j)

  insert-fresh :
      (k j : String) (v : V) (m : Dict V)
      → lookup j m ≡ none
      → (k == j) ≡ false
      → lookup j (insert k v m) ≡ none
  insert-fresh k j v m fresh differ = ground (arith, lookup-insert k j v m)

  pub insert-NodupKeys : (k : String) (v : V) (m : Dict V) → NodupKeys m → NodupKeys (insert k v m)
  unfolding insert lookup
  insert-NodupKeys k v [] u = (refl, tt)
  insert-NodupKeys k v ((j, w) ∷ m) (fresh, u) =
      ground (arith, insert-NodupKeys k v m u, insert-fresh k j v m, eq_iff j k, eq_iff k j)

-- m[k] of a map of texts, "" where the key is missing
unfoldable pub get : String → Dict String → String
unfolding lookup
get k m = elim (lookup k m) [ none ↦ "" | some v ↦ v ]

pub get-lookup : (k v : String) (m : Dict String) → lookup k m ≡ some v → get k m ≡ v
unfolding get
get-lookup k v m e = rw (e, get) refl
