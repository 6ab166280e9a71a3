-- ===== src/Base/Sorting.antt =====
-- Go's `sort.Strings`: the texts in the order of their bytes.
use Prim.Native.String.{String, compare}
use mathlib.Core.List.{List, [], ◌∷◌}
use text.Mathlib.Text.{is_le}
use project_onboarding_opera.Base.Tests.{if◌then◌else◌}

insert_sorted : String → List String → List String
insert_sorted s [] = s ∷ []
insert_sorted s (t ∷ ts) =
    let rest = insert_sorted s ts in if is_le (compare s t) then s ∷ t ∷ ts else t ∷ rest

-- sort.Strings(ss)
unfoldable pub sort_strings : List String → List String
unfolding insert_sorted
sort_strings [] = []
sort_strings (s ∷ ss) = insert_sorted s (sort_strings ss)
