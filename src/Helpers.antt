-- ===== src/Helpers.antt =====
-- internal/onboarding/helpers.go: the small functions that the reconciler, the webhooks and the
-- metrics share. The laws stand in the children.
pub mod Names
pub mod Maps
pub mod Status
use Prim.Native.Nat.{suc}
use project_onboarding_opera.Base.{
  ℕ, String, Bool, true, false, not, ◌&&◌, Option, none, some, List, [], ◌∷◌, if◌then◌else◌,
}
use project_onboarding_opera.Api.{NamespaceSpec}

-- A switch that is on unless it is set to false.
unfoldable pub is_enabled : Option Bool → Bool
is_enabled none = true
is_enabled (some b) = b

-- A switch that is off unless it is set to true.
unfoldable pub is_opt_in_enabled : Option Bool → Bool
is_opt_in_enabled none = false
is_opt_in_enabled (some b) = b

unfoldable pub is_offboard : Option Bool → Bool
unfolding is_opt_in_enabled
is_offboard offboard = is_opt_in_enabled offboard

unfoldable pub active_tenant_count : List NamespaceSpec → ℕ
unfolding is_enabled is_offboard
active_tenant_count [] = 0
active_tenant_count (ns ∷ namespaces) =
    let count = active_tenant_count namespaces in
    if is_enabled ns.enabled && not (is_offboard ns.offboard) then suc count else count
