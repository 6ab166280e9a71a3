-- ===== src/Base/Failures.antt =====
-- What a Go function answers: a value, an error, or a panic that unwinds its callers.
-- `Error` keeps the chain that `fmt.Errorf` with `%w` builds, since `apierrors` looks through it.
use Prim.Native.String.{String, ◌++◌}
use mathlib.Core.Path.{◌≡◌, refl}
use mathlib.Core.Logic.{◌⊎◌, inl, inr}
use mathlib.Core.Option.{Option, none, some}

-- The reasons that `apierrors` and `meta` tell apart.
pub data Reason : Type 0 where
  not_found conflict timeout server_timeout too_many_requests : Reason
  service_unavailable internal_error no_match other : Reason

-- `api` is an error of the API server with its text, `message` one of `fmt.Errorf` without `%w`,
-- and `wrap` one of `fmt.Errorf("prefix: %w", err)`.
pub data Error : Type 0 where
  api : Reason → String → Error
  message : String → Error
  wrap : String → Error → Error

-- err.Error()
abbrev pub error_text : Error → String
error_text (api r text) = text
error_text (message text) = text
error_text (wrap prefix e) = prefix ++ (": " ++ error_text e)

-- The reason that `errors.As` finds in a chain.
abbrev pub reason_of : Error → Option Reason
reason_of (api r text) = some r
reason_of (message text) = none
reason_of (wrap prefix e) = reason_of e

pub data Outcome {ℓ} (A : Type ℓ) : Type ℓ where
  ok : A → Outcome A
  fail : Error → Outcome A
  panic : String → Outcome A

infixl 10 ◌>>=◌ ◌>>◌
abbrev pub ◌>>=◌ {ℓ κ} : {A : Type ℓ} {B : Type κ} → Outcome A → (A → Outcome B) → Outcome B
ok a >>= f = f a
fail e >>= f = fail e
panic t >>= f = panic t

abbrev pub ◌>>◌ {ℓ κ} : {A : Type ℓ} {B : Type κ} → Outcome A → Outcome B → Outcome B
m >> k = m >>= λ _. k

-- Not a panic: the value is there, or an error.
abbrev pub Returns {ℓ} : {A : Type ℓ} → Outcome A → Type 0
Returns (ok a) = Unit
Returns (fail e) = Unit
Returns (panic t) = ⊥

-- The function returns, without an error.
abbrev pub Succeeds {ℓ} : {A : Type ℓ} → Outcome A → Type ℓ
Succeeds {A} m = (a : A) × (m ≡ ok a)

pub Succeeds-bind {ℓ κ} :
    {A : Type ℓ} {B : Type κ} (m : Outcome A) (f : A → Outcome B)
    → Succeeds m
    → ((a : A) → Succeeds (f a))
    → Succeeds (m >>= f)
Succeeds-bind (ok a) f h k = k a
Succeeds-bind (fail e) f h k = absurd (cc h.1)
Succeeds-bind (panic t) f h k = absurd (cc h.1)

-- Both of two checks in a row have passed.
pub >>-eq-ok {ℓ κ} :
    {A : Type ℓ} {B : Type κ} (m : Outcome A) (k : Outcome B) {b : B}
    → (m >> k) ≡ ok b
    → Succeeds m × (k ≡ ok b)
>>-eq-ok (ok a) k h = ((a, refl), h)
>>-eq-ok (fail e) k h = absurd (cc h)
>>-eq-ok (panic t) k h = absurd (cc h)

abbrev pub Panics {ℓ} : {A : Type ℓ} → Outcome A → Type ℓ
Panics m = (text : String) × (m ≡ panic text)

-- The function reports no error: it returns a value or it panics.
abbrev pub Ends {ℓ} : {A : Type ℓ} → Outcome A → Type ℓ
Ends m = Succeeds m ⊎ Panics m

pub Panics-bind {ℓ κ} :
    {A : Type ℓ} {B : Type κ} (m : Outcome A) (f : A → Outcome B)
    → Ends m
    → ((a : A) → Panics (f a))
    → Panics (m >>= f)
Panics-bind (ok a) f h k = k a
Panics-bind (fail e) f (inl h) k = absurd (cc h.1)
Panics-bind (fail e) f (inr h) k = absurd (cc h.1)
Panics-bind (panic t) f h k = (t, refl)

pub Ends-bind {ℓ κ} :
    {A : Type ℓ} {B : Type κ} (m : Outcome A) (f : A → Outcome B)
    → Ends m
    → ((a : A) → Ends (f a))
    → Ends (m >>= f)
Ends-bind (ok a) f h k = k a
Ends-bind (fail e) f (inl h) k = absurd (cc h.1)
Ends-bind (fail e) f (inr h) k = absurd (cc h.1)
Ends-bind (panic t) f h k = inr (t, refl)

pub >>-ok {ℓ κ} :
    {A : Type ℓ} {B : Type κ} (m : Outcome A) (k : Outcome B) {b : B}
    → Succeeds m
    → k ≡ ok b
    → (m >> k) ≡ ok b
>>-ok (ok a) k h e = e
>>-ok (fail e) k h e' = absurd (cc h.1)
>>-ok (panic t) k h e = absurd (cc h.1)

-- A check in a row may give way to one that passes whenever it does.
pub >>-map {ℓ κ} :
    {A : Type ℓ} {B : Type κ} (m : Outcome A) {k k' : Outcome B} {b : B}
    → (k ≡ ok b → k' ≡ ok b)
    → (m >> k) ≡ ok b
    → (m >> k') ≡ ok b
>>-map (ok a) f h = f h
>>-map (fail e) f h = absurd (cc h)
>>-map (panic t) f h = absurd (cc h)
