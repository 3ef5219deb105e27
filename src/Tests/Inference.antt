-- ===== src/Tests/Inference.antt =====
-- Runs of the outage inference.
use diep_lab.Base.{◌≡◌, ◌≤◌, refl, String, some, List, [], ◌∷◌, string_eq}
use diep_lab.Base.Dict.{Dict, lookup}
use diep_lab.Dms.Inference.{
  ancestors_from, ancestors, depth, is_common, common_of, deepest, deepest_of, lca,
}
use diep_lab.Dms.Inference.Deepest.{IsCommon, lca-deepest}

abbrev parents : Dict String String
parents = ("m1", "t1") ∷ ("m2", "t1") ∷ ("t1", "f1") ∷ []

abbrev dark : List String
dark = "m1" ∷ "m2" ∷ []

transformer_found : lca parents "f1" dark ≡ some "t1"
unfolding lca deepest_of deepest common_of is_common ancestors ancestors_from lookup string_eq
transformer_found = refl

lca-deepest_example :
    IsCommon parents "f1" dark "t1"
    × ((x : String) → IsCommon parents "f1" dark x → depth parents "f1" x ≤ depth parents "f1" "t1")
lca-deepest_example = lca-deepest parents "f1" "m1" ("m2" ∷ []) "t1" transformer_found
