-- ===== src/Validation/Resources/Names.antt =====
-- The uniqueness check of the namespace names accepts exactly the lists without a repetition.
use project_onboarding_opera.Base.{
  String, ◌≡◌, refl, Bool, true, false, List, [], ◌∷◌, ok, fail, eq_iff, arith, if◌then◌else◌, ◌↔◌,
  Error,
}
use project_onboarding_opera.Base.Text.{is_empty, trim_space}
use project_onboarding_opera.Base.Lists.{All, member}
use project_onboarding_opera.Api.{NamespaceSpec}
use project_onboarding_opera.Validation.Quantity.{Checked}
use project_onboarding_opera.Validation.Resources.{
  validate_unique_onto, validate_unique_namespace_names,
}

-- The names of the entries without the white space around them, blank ones left out.
unfoldable pub trimmed_names : List NamespaceSpec → List String
trimmed_names [] = []
trimmed_names (ns ∷ namespaces) =
    let names = trimmed_names namespaces in
    if is_empty (trim_space ns.name) then names else trim_space ns.name ∷ names

-- No text stands twice in the list.
abbrev pub AreDistinct : List String → Type 0
AreDistinct [] = Unit
AreDistinct (name ∷ names) = (member name names ≡ false) × AreDistinct names

abbrev Avoids : List String → List String → Type 0
Avoids seen names = All (λ name. member name seen ≡ false) names

Avoids-pop :
    (n : String) (seen names : List String)
    → Avoids (n ∷ seen) names
    → Avoids seen names × (member n names ≡ false)
unfolding member
Avoids-pop n seen [] t = (tt, refl)
Avoids-pop n seen (m ∷ names) (h, t) =
    let (a, b) = Avoids-pop n seen names t in
    ((ground (arith), a), ground (arith, eq_iff n m, eq_iff m n))

Avoids-push :
    (n : String) (seen names : List String)
    → Avoids seen names
    → member n names ≡ false
    → Avoids (n ∷ seen) names
unfolding member
Avoids-push n seen [] t h = tt
Avoids-push n seen (m ∷ names) (a, t) h =
    (ground (arith, eq_iff n m, eq_iff m n), Avoids-push n seen names t (ground (arith)))

-- The names that one entry adds to those of the entries after it.
abbrev added : Bool → String → List String → List String
added blank name names = if blank then names else name ∷ names

module _ {skipped rest : Checked} (e : Error) (n : String) (seen names : List String) where
  step-accepted :
      (blank known : Bool)
      → member n seen ≡ known
      → (skipped ≡ ok tt → Avoids seen names × AreDistinct names)
      → (rest ≡ ok tt → Avoids (n ∷ seen) names × AreDistinct names)
      → (if blank then skipped else if known then fail e else rest) ≡ ok tt
      → Avoids seen (added blank n names) × AreDistinct (added blank n names)
  step-accepted true known k s r h = s h
  step-accepted false true k s r h = absurd (cc h)
  step-accepted false false k s r h =
      let (a, d) = r h in let (t, f) = Avoids-pop n seen names a in ((k, t), (f, d))

  accepted-step :
      (blank known : Bool)
      → member n seen ≡ known
      → (Avoids seen names → AreDistinct names → skipped ≡ ok tt)
      → (Avoids (n ∷ seen) names → AreDistinct names → rest ≡ ok tt)
      → Avoids seen (added blank n names)
      → AreDistinct (added blank n names)
      → (if blank then skipped else if known then fail e else rest) ≡ ok tt
  accepted-step true known k s r a d = s a d
  accepted-step false true k s r (h, a) d = absurd (cc (k, h))
  accepted-step false false k s r (h, a) (f, d) = r (Avoids-push n seen names a f) d

accepted-AreDistinct :
    (seen : List String) (namespaces : List NamespaceSpec)
    → validate_unique_onto seen namespaces ≡ ok tt
    → Avoids seen (trimmed_names namespaces) × AreDistinct (trimmed_names namespaces)
unfolding validate_unique_onto trimmed_names
accepted-AreDistinct seen [] h = (tt, tt)
accepted-AreDistinct seen (ns ∷ namespaces) h =
    step-accepted _ (trim_space ns.name) seen (trimmed_names namespaces)
      (is_empty (trim_space ns.name)) (member (trim_space ns.name) seen) refl
      (accepted-AreDistinct seen namespaces)
      (accepted-AreDistinct (trim_space ns.name ∷ seen) namespaces) h

AreDistinct-accepted :
    (seen : List String) (namespaces : List NamespaceSpec)
    → Avoids seen (trimmed_names namespaces)
    → AreDistinct (trimmed_names namespaces)
    → validate_unique_onto seen namespaces ≡ ok tt
unfolding validate_unique_onto trimmed_names
AreDistinct-accepted seen [] a d = refl
AreDistinct-accepted seen (ns ∷ namespaces) a d =
    accepted-step _ (trim_space ns.name) seen (trimmed_names namespaces)
      (is_empty (trim_space ns.name)) (member (trim_space ns.name) seen) refl
      (AreDistinct-accepted seen namespaces)
      (AreDistinct-accepted (trim_space ns.name ∷ seen) namespaces) a d

Avoids-nil : (names : List String) → Avoids [] names
unfolding member
Avoids-nil [] = tt
Avoids-nil (n ∷ names) = (refl, Avoids-nil names)

-- `validateUniqueNamespaceNames` accepts exactly the entries whose names differ from each other once
-- the white space around them is removed and the blank ones are left out.
pub validate_unique_namespace_names_iff :
    (namespaces : List NamespaceSpec)
    → (validate_unique_namespace_names namespaces ≡ ok tt) ↔ AreDistinct (trimmed_names namespaces)
unfolding validate_unique_namespace_names
validate_unique_namespace_names_iff namespaces = (
  λ h. (accepted-AreDistinct [] namespaces h).1,
  AreDistinct-accepted [] namespaces (Avoids-nil (trimmed_names namespaces)),
)
