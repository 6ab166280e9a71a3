-- ===== src/Tests/Selectors.antt =====
-- Boolean tests for keys, label selectors and namespaces, and what they decide.
use project_onboarding_opera.Base.{
  ℕ, String, ◌≡◌, refl, sym, ap, ◌∙◌, Bool, true, false, ◌&&◌, Option, none, some, [], ◌∷◌, ◌==◌,
  eq_iff, eq_refl, arith, ◌=ℕ◌, if◌then◌else◌,
}
use project_onboarding_opera.Base.Dict.{Dict, lookup}
use project_onboarding_opera.Cluster.{Kind, Key, Object, Matches, InNamespace}

abbrev pub kind_code : Kind → ℕ
kind_code Kind.namespace = 0
kind_code Kind.resource_quota = 1
kind_code Kind.limit_range = 2
kind_code Kind.network_policy = 3
kind_code Kind.role_binding = 4
kind_code Kind.egress_ip = 5
kind_code Kind.group = 6
kind_code Kind.app_project = 7

abbrev pub kind_of : ℕ → Kind
kind_of n =
    if n =ℕ 0
    then Kind.namespace
    else if n =ℕ 1
    then Kind.resource_quota
    else if n =ℕ 2
    then Kind.limit_range
    else if n =ℕ 3
    then Kind.network_policy
    else if n =ℕ 4
    then Kind.role_binding
    else if n =ℕ 5
    then Kind.egress_ip
    else if n =ℕ 6
    then Kind.group
    else Kind.app_project

pub kind_of-code : (k : Kind) → kind_of (kind_code k) ≡ k
kind_of-code Kind.namespace = refl
kind_of-code Kind.resource_quota = refl
kind_of-code Kind.limit_range = refl
kind_of-code Kind.network_policy = refl
kind_of-code Kind.role_binding = refl
kind_of-code Kind.egress_ip = refl
kind_of-code Kind.group = refl
kind_of-code Kind.app_project = refl

abbrev pub key_eq : Key → Key → Bool
key_eq j k =
    (kind_code j.kind =ℕ kind_code k.kind) && j.namespace == k.namespace && j.name == k.name

pub key_eq_sound : (j k : Key) → key_eq j k ≡ true → j ≡ k
key_eq_sound j k h =
    let c : kind_code j.kind ≡ kind_code k.kind = ground (arith) in
    let n : j.namespace ≡ k.namespace = ground (arith, eq_iff j.namespace k.namespace) in
    let m : j.name ≡ k.name = ground (arith, eq_iff j.name k.name) in
    let d : j.kind ≡ k.kind = sym (kind_of-code j.kind) ∙ (ap kind_of c ∙ kind_of-code k.kind) in
    cc (d, n, m)

pub same_number : (n : ℕ) → (n =ℕ n) ≡ true
same_number n = ground (arith)

pub key_eq_refl : (k : Key) → key_eq k k ≡ true
key_eq_refl k =
    let c = same_number (kind_code k.kind) in rw (c, eq_refl k.namespace, eq_refl k.name) refl

abbrev pub has_value : Option String → String → Bool
has_value none v = false
has_value (some w) v = w == v

value-found : (o : Option String) (v : String) → has_value o v ≡ true → o ≡ some v
value-found none v h = absurd (cc h)
value-found (some w) v h = ap some (ground (arith, eq_iff w v))

found-value : (o : Option String) (v : String) → o ≡ some v → has_value o v ≡ true
found-value o v e = rw e (eq_refl v)

pub both-true : (a b : Bool) → (a && b) ≡ true → (a ≡ true) × (b ≡ true)
both-true true b h = (refl, h)
both-true false b h = absurd (cc h)

pub true-both : (a b : Bool) → a ≡ true → b ≡ true → (a && b) ≡ true
true-both a b h k = cc (h, k)

abbrev pub fits : Dict String → Dict String → Bool
fits [] labels = true
fits ((k, v) ∷ selector) labels = has_value (lookup k labels) v && fits selector labels

pub fits-Matches :
    (selector labels : Dict String) → fits selector labels ≡ true → Matches selector labels
fits-Matches [] labels h = tt
fits-Matches ((k, v) ∷ selector) labels h =
    let (own, rest) = both-true _ _ h in
    (value-found (lookup k labels) v own, fits-Matches selector labels rest)

pub Matches-fits :
    (selector labels : Dict String) → Matches selector labels → fits selector labels ≡ true
Matches-fits [] labels m = refl
Matches-fits ((k, v) ∷ selector) labels (own, rest) =
    true-both _ _ (found-value (lookup k labels) v own) (Matches-fits selector labels rest)

abbrev pub inside : Option String → Object → Bool
inside none o = true
inside (some ns) o = o.key.namespace == ns

pub inside-InNamespace : (ns : Option String) (o : Object) → inside ns o ≡ true → InNamespace ns o
inside-InNamespace none o h = tt
inside-InNamespace (some ns) o h = ground (arith, eq_iff o.key.namespace ns)

pub InNamespace-inside : (ns : Option String) (o : Object) → InNamespace ns o → inside ns o ≡ true
InNamespace-inside none o h = refl
InNamespace-inside (some ns) o h = rw h (eq_refl ns)
