-- ===== src/Controllers/Annotations/Tests.antt =====
-- Tests of `filterAnnotations`: the last case of `TestFilterAnnotations` in
-- pkg/controllers/utils_test.go, and a key of more than two parts.
use cnwan_operator.Common.{String, some, List, [], ◌∷◌, ◌≡◌, ◌↔◌, refl}
use cnwan_operator.GoMap.{Map, get, has, put}
use cnwan_operator.Common.Text.{split}
use cnwan_operator.Controllers.Annotations.{filter_annotations}
use cnwan_operator.Controllers.Annotations.Allowed.{Allows, get-filter_annotations}

abbrev annotations : Map String
annotations =
    ("stand-alone", "alone")
    ∷ ("another-stand-alone", "another-alone")
    ∷ ("prefix.io/one", "one")
    ∷ ("prefix.io/two", "two")
    ∷ ("another.io/first", "another-first")
    ∷ ("another.io/second", "another-second")
    ∷ ("yet-another.io/first", "yet-first")
    ∷ ("yet-another.io/second", "yet-second")
    ∷ []

abbrev filter : List String
filter = "stand-alone" ∷ "prefix.io/*" ∷ "*/first" ∷ []

test_wildcards :
    filter_annotations annotations filter
    ≡ ("stand-alone", "alone")
      ∷ ("prefix.io/one", "one")
      ∷ ("prefix.io/two", "two")
      ∷ ("another.io/first", "another-first")
      ∷ ("yet-another.io/first", "yet-first")
      ∷ []
unfolding filter_annotations get has put split
test_wildcards = refl

test_everything : filter_annotations annotations ("*/*" ∷ []) ≡ annotations
unfolding filter_annotations has put
test_everything = refl

test_three_parts : filter_annotations (("a/b/c", "x") ∷ []) ("a/*" ∷ "*/c" ∷ []) ≡ []
unfolding filter_annotations has put split
test_three_parts = refl

get-filter_annotations_example :
    (get "prefix.io/two" (filter_annotations annotations filter) ≡ some "two")
    ↔ ((get "prefix.io/two" annotations ≡ some "two") × Allows filter "prefix.io/two")
unfolding has
get-filter_annotations_example =
    get-filter_annotations annotations filter "prefix.io/two" "two"
      (refl, (refl, (refl, (refl, (refl, (refl, (refl, (refl, tt))))))))
