-- ===== src/Settings/Labels.antt =====
-- Which of the sources of a tenant namespace's labels wins.
use project_onboarding_opera.Base.{
  String, ◌≡◌, refl, ◌∙◌, sym, ap, Bool, true, false, Option, none, some, List, [], ◌∷◌, arith,
  ◌==◌, if◌then◌else◌, or_else,
}
use project_onboarding_opera.Base.Dict.{Dict, lookup, insert, lookup-insert}
use project_onboarding_opera.Base.Text.{is_empty}
use project_onboarding_opera.Api.{NamespaceLabel, AdditionalSettingsSpec}
use project_onboarding_opera.Settings.{
  user_monitoring_label, pod_security_audit_label, pod_security_warn_label,
  pod_security_enforce_label, monitoring_value, apply_user_monitoring_label, add_labels,
  set_unless_empty, apply_additional_settings_labels,
}

-- The last value that the custom labels give to a key; keys that are empty give none.
abbrev pub last_label : String → List NamespaceLabel → Option String
last_label key [] = none
last_label key (label ∷ more) =
    let later = last_label key more in
    or_else later
      (if is_empty label.key then none else if label.key == key then some label.value else none)

-- The text, if there is one.
abbrev pub given : String → Option String
given value = if is_empty value then none else some value

-- The value that a pair of the key with a value that may be missing gives to `k`.
abbrev pub at_key : String → Option String → String → Option String
at_key key value k = if key == k then value else none

-- The value that the operator itself sets for a key: the switch of the user monitoring and the pod
-- security levels that are given.
abbrev pub operator_label : String → AdditionalSettingsSpec → Option String
operator_label k settings =
    or_else (at_key user_monitoring_label (some (monitoring_value (some settings))) k) (
      or_else (at_key pod_security_enforce_label (given settings.pod_security_enforce) k) (
        or_else (at_key pod_security_warn_label (given settings.pod_security_warn) k)
          (at_key pod_security_audit_label (given settings.pod_security_audit) k)))

or_else_assoc {ℓ} :
    {A : Type ℓ} (a b c : Option A) → or_else (or_else a b) c ≡ or_else a (or_else b c)
or_else_assoc none b c = refl
or_else_assoc (some a) b c = refl

pub lookup-set_unless_empty :
    (key k value : String) (labels : Dict String)
    → lookup k (set_unless_empty key value labels)
      ≡ or_else (at_key key (given value) k) (lookup k labels)
unfolding set_unless_empty
lookup-set_unless_empty key k value labels = ground (arith, lookup-insert key k value labels)

lookup-add_labels :
    (k : String) (labels : Dict String) (more : List NamespaceLabel)
    → lookup k (add_labels labels more) ≡ or_else (last_label k more) (lookup k labels)
unfolding add_labels
lookup-add_labels k labels [] = refl
lookup-add_labels k labels (label ∷ more) =
    lookup-add_labels k (if is_empty label.key then labels else insert label.key label.value labels)
      more
    ∙ (ap (or_else (last_label k more)) (step (is_empty label.key) label)
        ∙ sym (or_else_assoc (last_label k more) _ (lookup k labels)))
  where
    step :
        (blank : Bool) (label : NamespaceLabel)
        → lookup k (if blank then labels else insert label.key label.value labels)
          ≡ or_else
              (if blank then none else at_key label.key (some label.value) k)
              (lookup k labels)
    step true label = refl
    step false label = ground (arith, lookup-insert label.key k label.value labels)

lookup-monitoring :
    (k : String) (labels : Dict String) (settings : AdditionalSettingsSpec)
    → lookup k (apply_user_monitoring_label labels (some settings))
      ≡ or_else
          (at_key user_monitoring_label (some (monitoring_value (some settings))) k)
          (lookup k labels)
unfolding apply_user_monitoring_label
lookup-monitoring k labels settings =
    lookup-insert user_monitoring_label k (monitoring_value (some settings)) labels
    ∙ branch (user_monitoring_label == k) (monitoring_value (some settings))
  where
    branch :
        (b : Bool) (v : String)
        → (if b then some v else lookup k labels)
          ≡ or_else (if b then some v else none) (lookup k labels)
    branch true v = refl
    branch false v = refl

or_else-chain {ℓ} :
    {A : Type ℓ} (a b c d e : Option A)
    → or_else a (or_else b (or_else c (or_else d e)))
      ≡ or_else (or_else a (or_else b (or_else c d))) e
or_else-chain (some a) b c d e = refl
or_else-chain none (some b) c d e = refl
or_else-chain none none (some c) d e = refl
or_else-chain none none none d e = refl

pub lookup-apply_additional_settings_labels :
    (k : String) (labels : Dict String) (settings : AdditionalSettingsSpec)
    → lookup k (apply_additional_settings_labels labels (some settings))
      ≡ or_else
          (operator_label k settings)
          (or_else (last_label k settings.additional_labels) (lookup k labels))
unfolding apply_additional_settings_labels
lookup-apply_additional_settings_labels k labels settings =
    rw
      (
        lookup-monitoring k _ settings,
        lookup-set_unless_empty pod_security_enforce_label k settings.pod_security_enforce _,
        lookup-set_unless_empty pod_security_warn_label k settings.pod_security_warn _,
        lookup-set_unless_empty pod_security_audit_label k settings.pod_security_audit _,
        lookup-add_labels k labels settings.additional_labels,
      )
      (or_else-chain (at_key user_monitoring_label (some (monitoring_value (some settings))) k)
        (at_key pod_security_enforce_label (given settings.pod_security_enforce) k)
        (at_key pod_security_warn_label (given settings.pod_security_warn) k)
        (at_key pod_security_audit_label (given settings.pod_security_audit) k)
        (or_else (last_label k settings.additional_labels) (lookup k labels)))
