-- ===== src/Sizing/Fields.antt =====
-- The single values that a limit range or a quota holds, each under the path that leads to it, and
-- the law of the merge for every path.
use project_onboarding_opera.Base.{String, ◌≡◌, Option, none, some, arith, or_else}
use project_onboarding_opera.Api.{
  ResourceAmountSpec, StorageAmountSpec, LimitRangePodSpec, LimitRangeContainerSpec,
  LimitRangePvcSpec, LimitRangeSpec,
}
use project_onboarding_opera.Sizing.Merge.{
  merge_resource_amount, merge_limit_range_pod, merge_limit_range_container, lay_storage,
  merge_limit_range_pvc, merge_limit_range_spec,
}

-- o?.f
abbrev pub within {ℓ κ} : {A : Type ℓ} {B : Type κ} → Option A → (A → Option B) → Option B
within none f = none
within (some a) f = f a

pub data Amount : Type 0 where
  cpu memory : Amount

pub data LimitPath : Type 0 where
  pod_max pod_min container_max container_min : Amount → LimitPath
  container_default container_default_request : Amount → LimitPath
  pvc_min pvc_max : LimitPath

abbrev pub amount_value : Amount → Option ResourceAmountSpec → Option String
amount_value cpu o = within o (λ a. a.cpu)
amount_value memory o = within o (λ a. a.memory)

abbrev pub storage_value : Option StorageAmountSpec → Option String
storage_value o = within o (λ a. a.storage)

abbrev pod_value : LimitPath → Option LimitRangePodSpec → Option String
pod_value (pod_max f) o = amount_value f (within o (λ p. p.max))
pod_value (pod_min f) o = amount_value f (within o (λ p. p.min))
pod_value _ o = none

abbrev container_value : LimitPath → Option LimitRangeContainerSpec → Option String
container_value (container_max f) o = amount_value f (within o (λ c. c.max))
container_value (container_min f) o = amount_value f (within o (λ c. c.min))
container_value (container_default f) o = amount_value f (within o (λ c. c.default))
container_value (container_default_request f) o = amount_value f (within o (λ c. c.default_request))
container_value _ o = none

abbrev pvc_value : LimitPath → Option LimitRangePvcSpec → Option String
pvc_value pvc_min o = storage_value (within o (λ p. p.min))
pvc_value pvc_max o = storage_value (within o (λ p. p.max))
pvc_value _ o = none

-- The value at a path, if every block on the way is there and sets it.
unfoldable pub limit_value : LimitPath → Option LimitRangeSpec → Option String
limit_value (pod_max f) o = pod_value (pod_max f) (within o (λ lr. lr.pod))
limit_value (pod_min f) o = pod_value (pod_min f) (within o (λ lr. lr.pod))
limit_value pvc_min o = pvc_value pvc_min (within o (λ lr. lr.pvc))
limit_value pvc_max o = pvc_value pvc_max (within o (λ lr. lr.pvc))
limit_value path o = container_value path (within o (λ lr. lr.container))

amount_value-merge :
    (f : Amount) (base over : Option ResourceAmountSpec)
    → amount_value f (merge_resource_amount base over)
      ≡ or_else (amount_value f over) (amount_value f base)
unfolding merge_resource_amount
amount_value-merge cpu base over = ground arith
amount_value-merge memory base over = ground arith

storage_value-lay :
    (base over : Option StorageAmountSpec)
    → storage_value (lay_storage base over) ≡ or_else (storage_value over) (storage_value base)
unfolding lay_storage
storage_value-lay base over = ground arith

pod_value-merge :
    (path : LimitPath) (base over : Option LimitRangePodSpec)
    → pod_value path (merge_limit_range_pod base over)
      ≡ or_else (pod_value path over) (pod_value path base)
unfolding merge_limit_range_pod merge_resource_amount
pod_value-merge (pod_max f) none (some o) = amount_value-merge f none o.max
pod_value-merge (pod_max f) (some b) (some o) = amount_value-merge f b.max o.max
pod_value-merge (pod_min f) none (some o) = amount_value-merge f none o.min
pod_value-merge (pod_min f) (some b) (some o) = amount_value-merge f b.min o.min
pod_value-merge path base over = ground arith

container_value-merge :
    (path : LimitPath) (base over : Option LimitRangeContainerSpec)
    → container_value path (merge_limit_range_container base over)
      ≡ or_else (container_value path over) (container_value path base)
unfolding merge_limit_range_container merge_resource_amount
container_value-merge (container_max f) none (some o) = amount_value-merge f none o.max
container_value-merge (container_max f) (some b) (some o) = amount_value-merge f b.max o.max
container_value-merge (container_min f) none (some o) = amount_value-merge f none o.min
container_value-merge (container_min f) (some b) (some o) = amount_value-merge f b.min o.min
container_value-merge (container_default f) none (some o) = amount_value-merge f none o.default
container_value-merge (container_default f) (some b) (some o) =
    amount_value-merge f b.default o.default
container_value-merge (container_default_request f) none (some o) =
    amount_value-merge f none o.default_request
container_value-merge (container_default_request f) (some b) (some o) =
    amount_value-merge f b.default_request o.default_request
container_value-merge path base over = ground arith

pvc_value-merge :
    (path : LimitPath) (base over : Option LimitRangePvcSpec)
    → pvc_value path (merge_limit_range_pvc base over)
      ≡ or_else (pvc_value path over) (pvc_value path base)
unfolding merge_limit_range_pvc
pvc_value-merge pvc_min none (some o) = storage_value-lay none o.min
pvc_value-merge pvc_min (some b) (some o) = storage_value-lay b.min o.min
pvc_value-merge pvc_max none (some o) = storage_value-lay none o.max
pvc_value-merge pvc_max (some b) (some o) = storage_value-lay b.max o.max
pvc_value-merge path base over = ground arith

-- The blocks of the merged limit range.
module _ (base over : Option LimitRangeSpec) where
  merged_pod :
      within (merge_limit_range_spec base over) (λ lr. lr.pod)
      ≡ merge_limit_range_pod (within base (λ lr. lr.pod)) (within over (λ lr. lr.pod))
  unfolding merge_limit_range_spec merge_limit_range_pod
  merged_pod = ground arith

  merged_container :
      within (merge_limit_range_spec base over) (λ lr. lr.container)
      ≡ merge_limit_range_container
          (within base (λ lr. lr.container))
          (within over (λ lr. lr.container))
  unfolding merge_limit_range_spec merge_limit_range_container
  merged_container = ground arith

  merged_pvc :
      within (merge_limit_range_spec base over) (λ lr. lr.pvc)
      ≡ merge_limit_range_pvc (within base (λ lr. lr.pvc)) (within over (λ lr. lr.pvc))
  unfolding merge_limit_range_spec merge_limit_range_pvc
  merged_pvc = ground arith

-- Every limit of the merged limit range is the one of the namespace entry if the entry sets it,
-- and the one of the T-shirt size if not.
pub limit_value-merge :
    (path : LimitPath) (base over : Option LimitRangeSpec)
    → limit_value path (merge_limit_range_spec base over)
      ≡ or_else (limit_value path over) (limit_value path base)
unfolding limit_value
limit_value-merge (pod_max f) base over = rw merged_pod (pod_value-merge (pod_max f) _ _)
limit_value-merge (pod_min f) base over = rw merged_pod (pod_value-merge (pod_min f) _ _)
limit_value-merge pvc_min base over = rw merged_pvc (pvc_value-merge pvc_min _ _)
limit_value-merge pvc_max base over = rw merged_pvc (pvc_value-merge pvc_max _ _)
limit_value-merge path base over = rw merged_container (container_value-merge path _ _)
