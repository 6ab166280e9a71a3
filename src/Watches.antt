-- ===== src/Watches.antt =====
-- internal/controller: which ProjectOnboardings and T-shirt sizes are enqueued for a change that a
-- watch reports (tshirt_watch.go, tshirtsize_watch.go, managed_watch.go, appproject_watch.go,
-- reconcile_keys.go). A request is the name that it asks for.
pub mod Laws
pub mod Deletions
use project_onboarding_opera.Base.{
  String, Bool, true, false, ◌&&◌, ◌||◌, List, [], ◌∷◌, ◌==◌, if◌then◌else◌,
}
use project_onboarding_opera.Base.Dict.{Dict, get}
use project_onboarding_opera.Base.Lists.{member}
use project_onboarding_opera.Base.Text.{is_empty}
use project_onboarding_opera.Api.{NamespaceSpec, ProjectOnboarding, project_onboarding_label_key}
use project_onboarding_opera.Effects.{Effect, Attempt, got, failed, pure, attempt, ◌>>=◌}
use project_onboarding_opera.Cluster.{Kind, app_project}
use project_onboarding_opera.Owners.{is_managed_resource}

-- The inner loop of `findProjectOnboardingsForTShirtSize`.
unfoldable pub uses_size : String → List NamespaceSpec → Bool
uses_size size_name [] = false
uses_size size_name (ns ∷ namespaces) =
    ns.project_size == size_name || uses_size size_name namespaces

unfoldable pub requests_for_size : String → List ProjectOnboarding → List String
unfolding uses_size
requests_for_size size_name [] = []
requests_for_size size_name (po ∷ items) =
    let requests = requests_for_size size_name items in
    if uses_size size_name po.namespaces then po.name ∷ requests else requests

-- What is done with the answer to the list call.
unfoldable pub use_list : String → Attempt (List ProjectOnboarding) → List String
unfolding requests_for_size
use_list size_name (got items) = requests_for_size size_name items
use_list size_name (failed e) = []

unfoldable pub find_project_onboardings_for_tshirt_size :
    {S : Type 0} → Effect S (List ProjectOnboarding) → String → Effect S (List String)
unfolding use_list
find_project_onboardings_for_tshirt_size list size_name =
    attempt list >>= λ r. pure (use_list size_name r)

-- The loop of `projectOnboardingToTShirtSizeMapper`, with the sizes that it has seen.
unfoldable pub sizes_onto : List String → List NamespaceSpec → List String
unfolding member
sizes_onto seen [] = []
sizes_onto seen (ns ∷ namespaces) =
    let skipped = sizes_onto seen namespaces in
    let rest = sizes_onto (ns.project_size ∷ seen) namespaces in
    if is_empty ns.project_size
    then skipped
    else if member ns.project_size seen
    then skipped
    else ns.project_size ∷ rest

unfoldable pub project_onboarding_to_tshirt_size : ProjectOnboarding → List String
unfolding sizes_onto
project_onboarding_to_tshirt_size po = sizes_onto [] po.namespaces

-- The name of the ProjectOnboarding in the labels, if it has one.
unfoldable pub request_of_label : Dict String → List String
unfolding get
request_of_label labels =
    let po_name = get project_onboarding_label_key labels in
    if is_empty po_name then [] else po_name ∷ []

unfoldable pub managed_resource_requests : Dict String → List String
unfolding request_of_label is_managed_resource
managed_resource_requests labels =
    if is_managed_resource labels then request_of_label labels else []

-- The object is read as an Argo CD project, and managed.
unfoldable pub is_managed_app_project : Kind → Dict String → Bool
unfolding is_managed_resource
is_managed_app_project kind labels = elim kind [
  | app_project ↦ is_managed_resource labels
  | _ ↦ false
]

unfoldable pub app_project_requests : Kind → Dict String → List String
unfolding is_managed_app_project request_of_label
app_project_requests kind labels =
    if is_managed_app_project kind labels then request_of_label labels else []
