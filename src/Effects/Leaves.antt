-- ===== src/Effects/Leaves.antt =====
-- What holds of the state after a call that has succeeded.
use project_onboarding_opera.Base.{
  String, ◌≡◌, refl, Bool, true, false, if◌then◌else◌, Outcome, ok, fail, panic, Error,
}
use project_onboarding_opera.Effects.{Effect, pure, raise, follow, rename, wrapped, ◌>>=◌}

-- From every state with `P`, a success of the call ends in a state with `R`.
pub record Leaves {ℓ} {S A : Type ℓ} (P R : S → Type ℓ) (m : Effect S A) : Type ℓ where
  pub leaves : (s : S) → P s → (a : A) → (m s).0 ≡ ok a → R (m s).1

rename-ok {ℓ} :
    {A : Type ℓ} (prefix : String) (r : Outcome A) (a : A) → rename prefix r ≡ ok a → r ≡ ok a
rename-ok prefix (ok b) a e = e
rename-ok prefix (fail x) a e = absurd (cc e)
rename-ok prefix (panic t) a e = absurd (cc e)

module _ {ℓ} {S A : Type ℓ} {P R : S → Type ℓ} where
  pub Leaves-raise : (e : Error) → Leaves P R (raise {A = A} e)
  unfolding raise
  Leaves-raise e = record { leaves = λ s h a r. absurd (cc r) }

  pub Leaves-pure : (a : A) → ((s : S) → P s → R s) → Leaves P R (pure a)
  unfolding pure
  Leaves-pure a imp = record { leaves = λ s h b r. imp s h }

  pub Leaves-if :
      (b : Bool) (m n : Effect S A)
      → (b ≡ true → Leaves P R m)
      → (b ≡ false → Leaves P R n)
      → Leaves P R (if b then m else n)
  Leaves-if true m n k l = k refl
  Leaves-if false m n k l = l refl

  pub Leaves-wrapped :
      (prefix : String) (m : Effect S A) → Leaves P R m → Leaves P R (wrapped prefix m)
  unfolding wrapped
  Leaves-wrapped prefix m l = record {
    leaves = λ s h a e. l.leaves s h a (rename-ok prefix (m s).0 a e);
  }

module _ {ℓ} {S A B : Type ℓ} (R : S → Type ℓ) where
  follow-leaves :
      (r : Outcome A) (f : A → Effect S B) (t : S) (b : B)
      → ((a : A) → r ≡ ok a → (f a t).0 ≡ ok b → R (f a t).1)
      → (follow r f t).0 ≡ ok b
      → R (follow r f t).1
  follow-leaves (ok a) f t b k e = k a refl e
  follow-leaves (fail x) f t b k e = absurd (cc e)
  follow-leaves (panic x) f t b k e = absurd (cc e)

module _ {ℓ} {S A B : Type ℓ} {P R : S → Type ℓ} where
  -- The state between the two calls satisfies `Q` of the first one's result.
  pub Leaves-bind :
      (Q : A → S → Type ℓ) (m : Effect S A) (f : A → Effect S B)
      → ((s : S) → P s → (a : A) → (m s).0 ≡ ok a → Q a (m s).1)
      → ((a : A) → Leaves (Q a) R (f a))
      → Leaves P R (m >>= f)
  unfolding ◌>>=◌
  Leaves-bind Q m f between l = record {
    leaves = λ s h b e.
        follow-leaves R (m s).0 f (m s).1 b (λ a r e'. (l a).leaves (m s).1 (between s h a r) b e')
          e;
  }
