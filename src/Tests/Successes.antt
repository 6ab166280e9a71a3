-- ===== src/Tests/Successes.antt =====
-- A whole call of `Reconcile` that succeeds.
use project_onboarding_opera.Base.{false, none, some, [], ◌∷◌}
use project_onboarding_opera.Controller.Subject.{Resource}
use project_onboarding_opera.Controller.Settled.{Settled}
use project_onboarding_opera.Controller.{Gauge, Reply, no_requeue}
use project_onboarding_opera.Tests.Samples.{team_a, teams}
use project_onboarding_opera.Tests.Controllers.{live}

-- A ProjectOnboarding whose one tenant is switched off.
abbrev frozen : Resource
frozen = record live {
  spec = record teams { namespaces = record team_a { enabled = some false } ∷ [] };
}

abbrev done : Reply
done = record { counted = none; gauge = Gauge.set_to 0; result = no_requeue }
