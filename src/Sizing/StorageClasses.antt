-- ===== src/Sizing/StorageClasses.antt =====
-- The storage class quotas of a merged quota, as a map, whatever the order of Go's map iteration.
use mathlib.Core.List.Perm
use project_onboarding_opera.Base.{
  String, ◌≡◌, refl, sym, ap, ◌∙◌, Option, none, some, List, [], ◌∷◌, arith, ◌==◌, eq_iff,
  if◌then◌else◌, or_else, map, false,
}
use project_onboarding_opera.Base.Dict.{
  Dict, lookup, insert, lookup-insert, NodupKeys, insert-NodupKeys,
}
use mathlib.Core.Logic.{∥∥₁_elim}
use project_onboarding_opera.Base.Permutations.{perm-lookup}
use project_onboarding_opera.Base.Text.{is_empty, String-set}
use project_onboarding_opera.Sizing.Merge.{merge_storage_classes}
use project_onboarding_opera.Api.{StorageClassQuota}
use project_onboarding_opera.Helpers.Maps.{
  MapOrder, add_storage_classes, storage_class_quotas_to_map, storage_class_quotas_from_map,
  storage_class,
}

-- A later entry for a key replaces an earlier one, and an entry without a key counts for nothing.
unfoldable pub last_value : String → List StorageClassQuota → Option String
last_value k [] = none
last_value k (e ∷ es) =
    or_else (last_value k es)
      (if is_empty e.key then none else if e.key == k then some e.value else none)

or_else-none : (o : Option String) → or_else o none ≡ o
or_else-none o = ground arith

lookup-add_storage_classes :
    (k : String) (m : Dict String) (es : List StorageClassQuota)
    → lookup k (add_storage_classes m es) ≡ or_else (last_value k es) (lookup k m)
unfolding add_storage_classes last_value
lookup-add_storage_classes k m [] = refl
lookup-add_storage_classes k m (e ∷ es) = ground (
  arith,
  lookup-add_storage_classes k m es,
  lookup-add_storage_classes k (insert e.key e.value m) es,
  lookup-insert e.key k e.value m,
)

add_storage_classes-NodupKeys :
    (m : Dict String) (es : List StorageClassQuota)
    → NodupKeys m
    → NodupKeys (add_storage_classes m es)
unfolding add_storage_classes
add_storage_classes-NodupKeys m [] u = u
add_storage_classes-NodupKeys m (e ∷ es) u = ground (
  arith,
  add_storage_classes-NodupKeys m es u,
  add_storage_classes-NodupKeys (insert e.key e.value m) es (insert-NodupKeys e.key e.value m u),
)

last_value-map :
    (k : String) (m : Dict String)
    → NodupKeys m
    → is_empty k ≡ false
    → last_value k (map storage_class m) ≡ lookup k m
unfolding last_value lookup
last_value-map k [] u ne = refl
last_value-map k ((j, v) ∷ m) (fresh, u) ne = ground (arith, last_value-map k m u ne, eq_iff j k)

text_option-set : IsSet (Option String)
text_option-set = hlevel String-set

module _ (order : MapOrder) (k : String) where
  last_value-from_map :
      (m : Dict String)
      → NodupKeys m
      → is_empty k ≡ false
      → last_value k (storage_class_quotas_from_map order m) ≡ lookup k m
  unfolding storage_class_quotas_from_map
  last_value-from_map m u ne =
      ∥∥₁_elim (Perm.symm (order.range_perm String m)) (text_option-set _ _)
        λ p. let (v, same) = perm-lookup p u in last_value-map k _ v ne ∙ sym (same k)

-- The quota entry for `k` of a merged quota is the last one that the namespace entry lists for it,
-- or else the last one of the T-shirt size, in whatever order Go visits its maps.
pub last_value-merge_storage_classes :
    (order : MapOrder) (k : String) (base over : List StorageClassQuota)
    → is_empty k ≡ false
    → last_value k (merge_storage_classes order base over)
      ≡ or_else (last_value k over) (last_value k base)
unfolding merge_storage_classes storage_class_quotas_to_map lookup last_value
last_value-merge_storage_classes order k base [] ne = refl
last_value-merge_storage_classes order k base (e ∷ es) ne =
    last_value-from_map order k _
      (add_storage_classes-NodupKeys _ (e ∷ es) (add_storage_classes-NodupKeys [] base tt)) ne
    ∙ lookup-add_storage_classes k _ (e ∷ es)
    ∙ ap (or_else (last_value k (e ∷ es))) (lookup-add_storage_classes k [] base ∙ or_else-none _)
