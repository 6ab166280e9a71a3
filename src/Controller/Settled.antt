-- ===== src/Controller/Settled.antt =====
-- When `Reconcile` asks for no requeue: the status that it has written by then.
use project_onboarding_opera.Base.{◌≡◌, true, ok}
use project_onboarding_opera.Requeue.{Requeue}
use project_onboarding_opera.Controller.Subject.{Resource, Runtime}
use project_onboarding_opera.Controller.Progressing.{status_names, entry_names, every_ready}

-- The state is one to which an update of the resource's status has led that succeeded, and that says
-- of the generation that was read, and of every entry, that it is ready.
pub record Settled {S : Type 0} (runtime : Runtime S) (po : Resource) (t : S) : Type 0 where
  pub written : Resource
  pub before : S
  pub updated : (runtime.update_status written before).0 ≡ ok tt
  pub reached : (runtime.update_status written before).1 ≡ t
  pub same_spec : written.spec ≡ po.spec
  pub phase_ready : written.status.phase ≡ "Ready"
  pub observed : written.status.observed_generation ≡ po.generation
  pub names : status_names written.status.namespaces ≡ entry_names po.spec.namespaces
  pub all_ready : every_ready written.status.namespaces ≡ true
