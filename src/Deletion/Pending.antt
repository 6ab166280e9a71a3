-- ===== src/Deletion/Pending.antt =====
-- The names that a deletion waits for, as lists: when they are not none.
use project_onboarding_opera.Base.{
  String, ◌≡◌, ◌≢◌, ◌⊎◌, inl, inr, Bool, true, false, List, [], ◌∷◌, ◌++◌, refl, ap, ◌∙◌,
  if◌then◌else◌, arith,
}
use project_onboarding_opera.Base.Text.{is_empty}
use project_onboarding_opera.Base.Lists.{Among, is_nil, member}
use project_onboarding_opera.Api.{NamespaceSpec}
use project_onboarding_opera.Helpers.{is_offboard}
use project_onboarding_opera.Helpers.Names.{sanitize_name}
use project_onboarding_opera.Cluster.{Object}
use project_onboarding_opera.Deletion.{unlisted_names, verdict}

pub is_nil-append :
    {A : Type 0} (xs ys : List A)
    → (is_nil xs ≡ false) ⊎ (is_nil ys ≡ false)
    → is_nil (xs ++ ys) ≡ false
is_nil-append [] ys (inl h) = absurd (cc h)
is_nil-append [] ys (inr h) = h
is_nil-append (x ∷ xs) ys h = refl

pub is_nil-pending :
    (name : String) (rest : List String)
    → (is_empty name ≡ false) ⊎ (is_nil rest ≡ false)
    → is_nil (if is_empty name then rest else name ∷ rest) ≡ false
is_nil-pending name rest (inl h) = rw h refl
is_nil-pending name rest (inr h) = branch (is_empty name)
  where
    branch : (b : Bool) → is_nil (if b then rest else name ∷ rest) ≡ false
    branch true = h
    branch false = refl

pub verdict-waits :
    (pending : List String) → is_nil pending ≡ false → (verdict pending).complete ≡ false
unfolding verdict
verdict-waits [] h = absurd (cc h)
verdict-waits (p ∷ ps) h = refl

-- An object that no entry names and that is not being deleted stays pending.
pub unlisted_names-nonempty :
    (x : Object) (spec_names : List String) (items : List Object)
    → Among x items
    → member x.key.name spec_names ≡ false
    → x.deleting ≡ false
    → is_nil (unlisted_names spec_names items) ≡ false
unfolding unlisted_names
unlisted_names-nonempty x spec_names [] m unnamed live = absurd m
unlisted_names-nonempty x spec_names (ns ∷ items) (inl same) unnamed live =
    let n = ap (λ (o : Object). member o.key.name spec_names) same ∙ unnamed in
    let l = ap (λ (o : Object). o.deleting) same ∙ live in rw (n, l) refl
unlisted_names-nonempty x spec_names (ns ∷ items) (inr m) unnamed live =
    let rest = unlisted_names-nonempty x spec_names items m unnamed live in ground (arith)

-- Only entries that are not marked `offboard` have the name.
abbrev pub KeptBy : String → NamespaceSpec → Type 0
KeptBy name ns_spec = is_offboard ns_spec.offboard ≡ true → name ≢ sanitize_name ns_spec.name
