-- ===== src/Controllers/Annotations.antt =====
-- pkg/controllers/utils.go: `filterAnnotations`, which keeps the annotations that the settings
-- allow, by their key, by a prefix with any name, or by a name with any prefix.
pub mod Allowed
mod Tests
use Prim.Native.String
use cnwan_operator.Common.{String, Bool, true, false, List, [], ◌∷◌, if◌then◌else◌}
use cnwan_operator.Common.Text.{split, slash}
use cnwan_operator.GoMap.{Map, has, put}

-- `for _, ann := range filter { filterMap[ann] = true }`
to_set_from : Map Bool → List String → Map Bool
to_set_from set [] = set
to_set_from set (x ∷ xs) = to_set_from (put x true set) xs

to_set : List String → Map Bool
to_set xs = to_set_from [] xs

-- The tests on `prefixName`; a key that is not in prefix/name format is left out.
keep_parts : Map Bool → String → String → Map String → List String → Map String
keep_parts allowed key val filtered (prefix ∷ name ∷ []) =
    if has (String.◌++◌ prefix "/*") allowed
    then put key val filtered
    else if has (String.◌++◌ "*/" name) allowed
    then put key val filtered
    else filtered
keep_parts allowed key val filtered _ = filtered

-- One round of the loop over the annotations.
keep_one : Map Bool → String → String → Map String → Map String
unfolding keep_parts
keep_one allowed key val filtered =
    if has key allowed
    then put key val filtered
    else keep_parts allowed key val filtered (split key slash)

keep_all : Map Bool → Map String → Map String → Map String
keep_all allowed [] filtered = filtered
keep_all allowed ((key, val) ∷ rest) filtered =
    keep_all allowed rest (keep_one allowed key val filtered)

unfoldable pub filter_annotations : Map String → List String → Map String
unfolding to_set to_set_from keep_all keep_one
filter_annotations current filter =
    let allowed = to_set filter in
    if has "*/*" allowed then current else keep_all allowed current []
