-- ===== src/References.antt =====
-- internal/validation/validate.go: the references of ProjectOnboardings to a T-shirt size, and the
-- admission of its deletion. The parameter `list` is what the list of all ProjectOnboardings answers.
use Prim.Native.Nat.{suc}
use project_onboarding_opera.Base.{
  ℕ, ◌+◌, String, ◌<>◌, List, [], ◌∷◌, message, ltb, ◌==◌, if◌then◌else◌,
}
use project_onboarding_opera.Base.Text.{quote, decimal}
use project_onboarding_opera.Api.{NamespaceSpec, ProjectOnboarding}
use project_onboarding_opera.Effects.{Effect, pure, raise, ◌>>=◌}

-- The inner loop of `CountProjectOnboardingReferences`.
unfoldable pub count_entries : String → List NamespaceSpec → ℕ
count_entries size_name [] = 0
count_entries size_name (ns ∷ namespaces) =
    let count = count_entries size_name namespaces in
    if ns.project_size == size_name then suc count else count

unfoldable pub count_references : String → List ProjectOnboarding → ℕ
unfolding count_entries
count_references size_name [] = 0
count_references size_name (po ∷ items) =
    count_entries size_name po.namespaces + count_references size_name items

module _ {S : Type 0} (list : Effect S (List ProjectOnboarding)) where
  unfoldable pub count_project_onboarding_references : String → Effect S ℕ
  unfolding count_references
  count_project_onboarding_references size_name =
      list >>= λ items. pure (count_references size_name items)

  unfoldable pub validate_tshirt_size_delete : String → Effect S (Unit {0})
  unfolding count_project_onboarding_references
  validate_tshirt_size_delete name = count_project_onboarding_references name >>= λ refs.
      if ltb 0 refs
      then raise (
          message (
            "TShirtSize "
            <> (quote name
                <> (" is referenced by "
                    <> (decimal refs
                        <> " ProjectOnboarding namespace entries; remove references before delete")))))
      else pure tt
