-- ===== src/Effects.antt =====
-- Go functions that call the API server: they pass the cluster's state on whether they return, report
-- an error or panic.
pub mod Keeps
pub mod Leaves
use project_onboarding_opera.Base.{
  String, Bool, true, false, List, [], ◌∷◌, Error, wrap, Outcome, ok, fail, panic,
}

abbrev pub Effect {ℓ} : Type ℓ → Type ℓ → Type ℓ
Effect S A = S → Outcome A × S

-- The two returned values of a call whose error the caller inspects.
pub data Attempt {ℓ} (A : Type ℓ) : Type ℓ where
  got : A → Attempt A
  failed : Error → Attempt A

module _ {ℓ} {A : Type ℓ} where
  abbrev pub recover : Outcome A → Outcome (Attempt A)
  recover (ok a) = ok (got a)
  recover (fail e) = ok (failed e)
  recover (panic t) = panic t

  abbrev pub rename : String → Outcome A → Outcome A
  rename prefix (ok a) = ok a
  rename prefix (fail e) = fail (wrap prefix e)
  rename prefix (panic t) = panic t

module _ {ℓ} {S A : Type ℓ} where
  unfoldable pub pure : A → Effect S A
  pure a s = (ok a, s)

  unfoldable pub raise : Error → Effect S A
  raise e s = (fail e, s)

  -- A pure function that may report an error or panic.
  unfoldable pub lift : Outcome A → Effect S A
  lift r s = (r, s)

  -- value, err := m
  unfoldable pub attempt : Effect S A → Effect S (Attempt A)
  attempt m s = let (r, t) = m s in (recover r, t)

  -- if err := m; err != nil { return fmt.Errorf("prefix: %w", err) }
  unfoldable pub wrapped : String → Effect S A → Effect S A
  wrapped prefix m s = let (r, t) = m s in (rename prefix r, t)

module _ {ℓ} {S A B : Type ℓ} where
  abbrev pub follow : Outcome A → (A → Effect S B) → Effect S B
  follow (ok a) f s = f a s
  follow (fail e) f s = (fail e, s)
  follow (panic t) f s = (panic t, s)

  infixl 10 ◌>>=◌ ◌>>◌
  unfoldable pub ◌>>=◌ : Effect S A → (A → Effect S B) → Effect S B
  ◌>>=◌ m f s = let (r, t) = m s in follow r f t

  abbrev pub ◌>>◌ : Effect S A → Effect S B → Effect S B
  m >> k = m >>= λ _. k

-- if test { m }
abbrev pub when : {S : Type 0} → Bool → Effect S (Unit {0}) → Effect S (Unit {0})
when true m = m
when false m = pure tt

-- for _, x := range xs { if err := body(x); err != nil { return err } }
unfoldable pub for_each : {S A : Type 0} → List A → (A → Effect S (Unit {0})) → Effect S (Unit {0})
for_each [] body = pure tt
for_each (x ∷ xs) body = body x >> for_each xs body
