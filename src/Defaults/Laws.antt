-- ===== src/Defaults/Laws.antt =====
-- Whose value a ProjectOnboarding has after the cluster's defaults were merged into it.
use project_onboarding_opera.Base.{
  String, ◌≡◌, refl, Bool, true, false, Option, none, some, or_else, List, [], ◌∷◌, if◌then◌else◌,
}
use project_onboarding_opera.Base.Text.{is_empty, trim_space}
use project_onboarding_opera.Api.{GitOpsSpec, ProjectOnboarding}
use project_onboarding_opera.Defaults.{unless_empty, merge_git_ops_defaults, merge_cluster_defaults}

-- A text that is not blank.
abbrev pub said_text : String → Option String
said_text text = if is_empty (trim_space text) then none else some text

-- A list that is not empty.
abbrev pub said_list {ℓ} : {A : Type ℓ} → List A → Option (List A)
said_list [] = none
said_list (x ∷ xs) = some (x ∷ xs)

-- What a block that may be missing says of a field.
abbrev pub said {ℓ} : {A : Type ℓ} → (GitOpsSpec → Option A) → Option GitOpsSpec → Option A
said field none = none
said field (some git_ops) = field git_ops

-- In `merged` a field has what `own` says of it, and failing that what `defaults` say.
abbrev pub TakenFrom {ℓ} :
    {A : Type ℓ}
    → Option GitOpsSpec
    → Option GitOpsSpec
    → Option GitOpsSpec
    → (GitOpsSpec → Option A)
    → Type ℓ
TakenFrom own defaults merged field =
    said field merged ≡ or_else (said field own) (said field defaults)

said_list-unless_empty {ℓ} :
    {A : Type ℓ} (target defaults : List A)
    → said_list (unless_empty target defaults) ≡ or_else (said_list target) (said_list defaults)
said_list-unless_empty [] defaults = refl
said_list-unless_empty (x ∷ target) defaults = refl

said_text-chosen :
    (target defaults : String)
    → said_text (if is_empty (trim_space target) then defaults else target)
      ≡ or_else (said_text target) (said_text defaults)
said_text-chosen target defaults = branch (is_empty (trim_space target)) refl
  where
    branch :
        (b : Bool)
        → is_empty (trim_space target) ≡ b
        → said_text (if b then defaults else target)
          ≡ or_else (if b then none else some target) (said_text defaults)
    branch true e = refl
    branch false e = rw e refl

or_else-none {ℓ} : {A : Type ℓ} (a : Option A) → or_else a none ≡ a
or_else-none none = refl
or_else-none (some x) = refl

-- The ProjectOnboarding wins over the cluster's defaults, field by field: after the merge each of the
-- five fields of its GitOps block is the one that it had itself, if that is not blank or empty, else
-- the one of the defaults, if that is not, and else blank or empty. Whatever is outside the block
-- stays as it was.
pub merge_cluster_defaults-TakenFrom :
    (defaults : Option GitOpsSpec) (po : ProjectOnboarding)
    → let merged = merge_cluster_defaults defaults po in
      TakenFrom po.git_ops defaults merged.git_ops (λ g. said_text g.application_namespace)
      × TakenFrom po.git_ops defaults merged.git_ops (λ g. said_list g.destinations)
      × TakenFrom po.git_ops defaults merged.git_ops (λ g. said_list g.allowed_source_repos)
      × TakenFrom po.git_ops defaults merged.git_ops (λ g. said_list g.allowed_oidc_groups)
      × TakenFrom po.git_ops defaults merged.git_ops (λ g. said_list g.allowed_source_namespaces)
      × (record merged { git_ops = po.git_ops } ≡ po)
unfolding merge_cluster_defaults merge_git_ops_defaults
merge_cluster_defaults-TakenFrom none po = (kept _, kept _, kept _, kept _, kept _, refl)
  where
    kept :
        {A : Type 0} (field : GitOpsSpec → Option A)
        → said field po.git_ops ≡ or_else (said field po.git_ops) none
    kept field = rw (or_else-none (said field po.git_ops)) refl
merge_cluster_defaults-TakenFrom (some defaults) po = laid po.git_ops
  where
    laid :
        (own : Option GitOpsSpec)
        → let merged = merge_cluster_defaults (some defaults) (record po { git_ops = own }) in
          TakenFrom own (some defaults) merged.git_ops (λ g. said_text g.application_namespace)
          × TakenFrom own (some defaults) merged.git_ops (λ g. said_list g.destinations)
          × TakenFrom own (some defaults) merged.git_ops (λ g. said_list g.allowed_source_repos)
          × TakenFrom own (some defaults) merged.git_ops (λ g. said_list g.allowed_oidc_groups)
          × TakenFrom own
              (some defaults)
              merged.git_ops
              (λ g. said_list g.allowed_source_namespaces)
          × (record merged { git_ops = own } ≡ record po { git_ops = own })
    laid none = (refl, refl, refl, refl, refl, refl)
    laid (some own) = (
      said_text-chosen own.application_namespace defaults.application_namespace,
      said_list-unless_empty own.destinations defaults.destinations,
      said_list-unless_empty own.allowed_source_repos defaults.allowed_source_repos,
      said_list-unless_empty own.allowed_oidc_groups defaults.allowed_oidc_groups,
      said_list-unless_empty own.allowed_source_namespaces defaults.allowed_source_namespaces,
      refl,
    )
