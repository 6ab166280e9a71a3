-- ===== src/Effects/Keeps.antt =====
-- What stays true across a call, whatever its outcome, and what a successful call tells of its
-- result: one rule for every way in which calls are put together.
use project_onboarding_opera.Base.{
  String, ◌≡◌, refl, subst, Bool, true, false, if◌then◌else◌, List, [], ◌∷◌, Error, Outcome, ok,
  fail, panic,
}
use project_onboarding_opera.Base.Lists.{All}
use project_onboarding_opera.Effects.{
  Effect, Attempt, got, failed, pure, raise, lift, recover, rename, follow, attempt, wrapped, ◌>>=◌,
  when, for_each,
}

-- `P` survives the call, and what it returns, if it returns, satisfies `Q`.
pub record Yields {ℓ} {S A : Type ℓ} (P : S → Type ℓ) (Q : A → Type ℓ) (m : Effect S A)
    : Type ℓ where
  pub keeps : (s : S) → P s → P (m s).1
  pub result : (s : S) → P s → (a : A) → (m s).0 ≡ ok a → Q a

-- `P` survives the call.
pub record Keeps {ℓ} {S A : Type ℓ} (P : S → Type ℓ) (m : Effect S A) : Type ℓ where
  pub keeps : (s : S) → P s → P (m s).1

abbrev pub OnGot {ℓ} : {A : Type ℓ} → (A → Type ℓ) → Attempt A → Type ℓ
OnGot Q (got a) = Q a
OnGot Q (failed e) = Unit

OnGot-recover {ℓ} :
    {A : Type ℓ} (Q : A → Type ℓ) (r : Outcome A)
    → ((a : A) → r ≡ ok a → Q a)
    → (b : Attempt A) → recover r ≡ ok b
    → OnGot Q b
OnGot-recover Q (ok a) q (got b) e = q b (cc e)
OnGot-recover Q (fail x) q (got b) e = absurd (cc e)
OnGot-recover Q (panic t) q (got b) e = absurd (cc e)
OnGot-recover Q r q (failed x) e = tt

rename-result {ℓ} :
    {A : Type ℓ} (Q : A → Type ℓ) (prefix : String) (r : Outcome A) (a : A)
    → ((b : A) → r ≡ ok b → Q b)
    → rename prefix r ≡ ok a
    → Q a
rename-result Q prefix (ok b) a q e = q a (cc e)
rename-result Q prefix (fail x) a q e = absurd (cc e)
rename-result Q prefix (panic t) a q e = absurd (cc e)

module _ {ℓ} {S A : Type ℓ} {P : S → Type ℓ} where
  pub Keeps-pure : (a : A) → Keeps P (pure a)
  unfolding pure
  Keeps-pure a = record { keeps = λ s h. h }

  pub Keeps-raise : (e : Error) → Keeps P (raise {A = A} e)
  unfolding raise
  Keeps-raise e = record { keeps = λ s h. h }

  pub Keeps-lift : (r : Outcome A) → Keeps P (lift r)
  unfolding lift
  Keeps-lift r = record { keeps = λ s h. h }

  pub Yields-lift :
      (Q : A → Type ℓ) (r : Outcome A) → ((a : A) → r ≡ ok a → Q a) → Yields P Q (lift r)
  unfolding lift
  Yields-lift Q r q = record { keeps = λ s h. h; result = λ s h a e. q a e }

  pub Keeps-wrapped : (prefix : String) (m : Effect S A) → Keeps P m → Keeps P (wrapped prefix m)
  unfolding wrapped
  Keeps-wrapped prefix m k = record { keeps = λ s h. k.keeps s h }

  pub Keeps-if :
      (b : Bool) (m n : Effect S A)
      → (b ≡ true → Keeps P m)
      → (b ≡ false → Keeps P n)
      → Keeps P (if b then m else n)
  Keeps-if true m n k l = k refl
  Keeps-if false m n k l = l refl

  pub Yields-attempt :
      (Q : A → Type ℓ) (m : Effect S A) → Yields P Q m → Yields P (OnGot Q) (attempt m)
  unfolding attempt
  Yields-attempt Q m y = record {
    keeps = y.keeps;
    result = λ s h. OnGot-recover Q (m s).0 (y.result s h);
  }

module _ {ℓ} {S A B : Type ℓ} {P : S → Type ℓ} where
  follow-keeps :
      (r : Outcome A) (f : A → Effect S B) (t : S)
      → P t
      → ((a : A) → r ≡ ok a → Keeps P (f a))
      → P (follow r f t).1
  follow-keeps (ok a) f t h k = (k a refl).keeps t h
  follow-keeps (fail e) f t h k = h
  follow-keeps (panic x) f t h k = h

  pub Yields-bind :
      (Q : A → Type ℓ) (m : Effect S A) (f : A → Effect S B)
      → Yields P Q m
      → ((a : A) → Q a → Keeps P (f a))
      → Keeps P (m >>= f)
  unfolding ◌>>=◌
  Yields-bind Q m f y k = record {
    keeps = λ s h. follow-keeps (m s).0 f (m s).1 (y.keeps s h) λ a e. k a (y.result s h a e);
  }

  pub Keeps-bind :
      (m : Effect S A) (f : A → Effect S B)
      → Keeps P m
      → ((a : A) → Keeps P (f a))
      → Keeps P (m >>= f)
  unfolding ◌>>=◌
  Keeps-bind m f k l = record {
    keeps = λ s h. follow-keeps (m s).0 f (m s).1 (k.keeps s h) λ a e. l a;
  }

module _ {S : Type 0} {P : S → Type 0} where
  pub Keeps-when : (b : Bool) (m : Effect S (Unit {0})) → Keeps P m → Keeps P (when b m)
  Keeps-when true m k = k
  Keeps-when false m k = Keeps-pure tt

  pub Keeps-for_each :
      {A : Type 0} (Q : A → Type 0) (xs : List A) (body : A → Effect S (Unit {0}))
      → All Q xs
      → ((x : A) → Q x → Keeps P (body x))
      → Keeps P (for_each xs body)
  unfolding for_each
  Keeps-for_each Q [] body qs k = Keeps-pure tt
  Keeps-for_each Q (x ∷ xs) body (q, qs) k =
      Keeps-bind (body x) _ (k x q) λ _. Keeps-for_each Q xs body qs k

module _ {ℓ} {S A : Type ℓ} {P : S → Type ℓ} where
  pub Keeps-attempt : (m : Effect S A) → Keeps P m → Keeps P (attempt m)
  unfolding attempt
  Keeps-attempt m k = record { keeps = k.keeps }

  pub Yields-wrapped :
      (Q : A → Type ℓ) (prefix : String) (m : Effect S A)
      → Yields P Q m
      → Yields P Q (wrapped prefix m)
  unfolding wrapped
  Yields-wrapped Q prefix m y = record {
    keeps = y.keeps;
    result = λ s h a e. rename-result Q prefix (m s).0 a (y.result s h) e;
  }

  pub Keeps-Yields : (m : Effect S A) → Keeps P m → Yields P (λ _. Unit) m
  Keeps-Yields m k = record { keeps = k.keeps; result = λ s h a e. tt }

  pub Yields-weaken :
      (Q R : A → Type ℓ) (m : Effect S A) → ((a : A) → Q a → R a) → Yields P Q m → Yields P R m
  Yields-weaken Q R m imp y = record {
    keeps = y.keeps;
    result = λ s h a e. imp a (y.result s h a e);
  }

  pub Yields-Keeps : (Q : A → Type ℓ) (m : Effect S A) → Yields P Q m → Keeps P m
  Yields-Keeps Q m y = record { keeps = y.keeps }

  pub Yields-pure : (Q : A → Type ℓ) (a : A) → Q a → Yields P Q (pure a)
  unfolding pure
  Yields-pure Q a q = record { keeps = λ s h. h; result = λ s h b e. subst Q (cc e) q }

  pub Yields-raise : (Q : A → Type ℓ) (e : Error) → Yields P Q (raise e)
  unfolding raise
  Yields-raise Q e = record { keeps = λ s h. h; result = λ s h b r. absurd (cc r) }

  pub Yields-if :
      (Q : A → Type ℓ) (b : Bool) (m n : Effect S A)
      → (b ≡ true → Yields P Q m)
      → (b ≡ false → Yields P Q n)
      → Yields P Q (if b then m else n)
  Yields-if Q true m n k l = k refl
  Yields-if Q false m n k l = l refl

module _ {ℓ} {S A B : Type ℓ} {P : S → Type ℓ} where
  follow-result :
      (R : B → Type ℓ) (r : Outcome A) (f : A → Effect S B) (t : S)
      → P t
      → ((a : A) → r ≡ ok a → Yields P R (f a))
      → (b : B) → (follow r f t).0 ≡ ok b
      → R b
  follow-result R (ok a) f t h k b e = (k a refl).result t h b e
  follow-result R (fail x) f t h k b e = absurd (cc e)
  follow-result R (panic x) f t h k b e = absurd (cc e)

  pub Yields-then :
      (Q : A → Type ℓ) (R : B → Type ℓ) (m : Effect S A) (f : A → Effect S B)
      → Yields P Q m
      → ((a : A) → Q a → Yields P R (f a))
      → Yields P R (m >>= f)
  unfolding ◌>>=◌
  Yields-then Q R m f y k = record {
    keeps = (Yields-bind Q m f y λ a q. Yields-Keeps R (f a) (k a q)).keeps;
    result = λ s h b e.
        follow-result R (m s).0 f (m s).1 (y.keeps s h) (λ a e'. k a (y.result s h a e')) b e;
  }

-- The rules that `search` follows where no result matters.
pub ruleset keeps_rules = (
  Keeps-pure, Keeps-raise, Keeps-lift, Keeps-wrapped, Keeps-if, Keeps-when, Keeps-attempt,
  Keeps-bind,
)
