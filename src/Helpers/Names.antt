-- ===== src/Helpers/Names.antt =====
-- internal/onboarding/helpers.go: the names and labels of what the operator creates, and the
-- spelling of quantities.
use Prim.Native.Char.{code}
use Prim.Native.String.{[], ◌∷◌}
use mathlib.Core.List
use project_onboarding_opera.Base.{
  String, ◌<>◌, ◌≡◌, refl, ◌&&◌, ◌||◌, Option, none, some, arith, ◌=ℕ◌, if◌then◌else◌,
}
use project_onboarding_opera.Base.Dict.{Dict}
use project_onboarding_opera.Base.Text.{is_empty, replace_all}
use project_onboarding_opera.Api.{
  NamespaceSpec, LocalAdminGroupSpec, ProjectOnboarding, project_onboarding_label_key,
  project_onboarding_namespace_key, project_onboarding_managed_by_key,
  project_onboarding_managed_by_val,
}

unfoldable pub sanitize_name : String → String
unfolding replace_all
sanitize_name name = replace_all "_" "-" name

-- strings.NewReplacer("gi", "Gi", "mi", "Mi", "GI", "Gi", "MI", "Mi").Replace(value)
unfoldable pub normalize_quantity : String → String
normalize_quantity [] = []
normalize_quantity (c ∷ []) = c ∷ []
normalize_quantity (c ∷ d ∷ value) =
    let after = normalize_quantity value in
    let kept = normalize_quantity (d ∷ value) in
    if code c =ℕ b'g' && code d =ℕ b'i' || code c =ℕ b'G' && code d =ℕ b'I'
    then "G" ∷ "i" ∷ after
    else if code c =ℕ b'm' && code d =ℕ b'i' || code c =ℕ b'M' && code d =ℕ b'I'
    then "M" ∷ "i" ∷ after
    else c ∷ kept

unfoldable pub managed_labels : ProjectOnboarding → NamespaceSpec → Dict String
managed_labels po ns_spec =
    List.◌∷◌ (project_onboarding_managed_by_key, project_onboarding_managed_by_val)
      (List.◌∷◌ (project_onboarding_label_key, po.name)
        (List.◌∷◌ (project_onboarding_namespace_key, ns_spec.name) List.[]))

configured : Option LocalAdminGroupSpec → (LocalAdminGroupSpec → String) → String
configured none field = ""
configured (some group) field = field group

unfoldable pub group_name : NamespaceSpec → String
unfolding configured sanitize_name
group_name ns_spec =
    let name = configured ns_spec.local_admin_group (λ group. group.group_name) in
    if is_empty name then sanitize_name ns_spec.name <> "-admins" else sanitize_name name

unfoldable pub role_binding_name : NamespaceSpec → String
unfolding configured sanitize_name
role_binding_name ns_spec =
    let name = configured ns_spec.local_admin_group (λ group. group.group_name) in
    if is_empty name then sanitize_name ns_spec.name <> "-rb" else sanitize_name name

unfoldable pub cluster_role_name : NamespaceSpec → String
unfolding configured
cluster_role_name ns_spec =
    let name = configured ns_spec.local_admin_group (λ group. group.cluster_role) in
    if is_empty name then "admin" else name

sanitize_name_idem : (name : String) → sanitize_name (sanitize_name name) ≡ sanitize_name name
unfolding sanitize_name
sanitize_name_idem [] = refl
sanitize_name_idem (c ∷ s) = ground (arith, sanitize_name_idem s)

normalize_quantity_test : normalize_quantity "4gi and 5MI gmi" ≡ "4Gi and 5Mi gMi"
unfolding normalize_quantity
normalize_quantity_test = refl
