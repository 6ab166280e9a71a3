-- ===== src/Helpers/Maps.antt =====
-- internal/onboarding/helpers.go: storage class quotas as a map and back. Go leaves the order in
-- which `range` visits a map open, so that order is a parameter.
use mathlib.Core.List.{Perm}
use project_onboarding_opera.Base.{String, List, [], ◌∷◌, map, if◌then◌else◌}
use project_onboarding_opera.Base.Dict.{Dict, insert}
use project_onboarding_opera.Base.Text.{is_empty}
use project_onboarding_opera.Api.{StorageClassQuota}

-- The order in which `for key, value := range m` visits a map: all its entries, each once.
pub record MapOrder : Type 1 where
  pub range : (V : Type 0) → Dict V → Dict V
  pub range_perm : (V : Type 0) (m : Dict V) → Perm (range V m) m

-- for _, item := range items { if item.Key == "" { continue }; m[item.Key] = item.Value }
unfoldable pub add_storage_classes : Dict String → List StorageClassQuota → Dict String
add_storage_classes m [] = m
add_storage_classes m (item ∷ items) =
    add_storage_classes (if is_empty item.key then m else insert item.key item.value m) items

unfoldable pub storage_class_quotas_to_map : List StorageClassQuota → Dict String
unfolding add_storage_classes
storage_class_quotas_to_map items = add_storage_classes [] items

abbrev pub storage_class : String × String → StorageClassQuota
storage_class (key, value) = record { key = key; value = value }

unfoldable pub storage_class_quotas_from_map : MapOrder → Dict String → List StorageClassQuota
storage_class_quotas_from_map order values = map storage_class (order.range String values)
