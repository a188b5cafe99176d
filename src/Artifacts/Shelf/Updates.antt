-- ===== src/Artifacts/Shelf/Updates.antt =====
-- What the replies make of the list.
use modelshelf.Common.{String, List, [], ◌∷◌, map, ◌≡◌, refl, arith, eq_iff, eq_refl}
use modelshelf.Artifacts.Shelf.{Artifact, Shelf, without_artifact, replace_artifact}

abbrev pub ids : List Artifact → List String
ids items = map (λ a. a.artifact_id) items

replace_artifact-ids :
    (a : Artifact) (items : List Artifact) → ids (replace_artifact a items) ≡ ids items
unfolding replace_artifact
replace_artifact-ids a [] = refl
replace_artifact-ids a (b ∷ items) =
    ground (arith, replace_artifact-ids a items, eq_iff b.artifact_id a.artifact_id)

replace_artifact-without :
    (a : Artifact) (items : List Artifact)
    → without_artifact a.artifact_id (replace_artifact a items)
      ≡ without_artifact a.artifact_id items
unfolding replace_artifact without_artifact
replace_artifact-without a [] = refl
replace_artifact-without a (b ∷ items) =
    ground (arith, replace_artifact-without a items, eq_refl a.artifact_id)

-- A saved alias changes nothing of the list but the rows of its artifact: all rows keep their place
-- and their artifact, and the rows of other artifacts are as they were.
pub replace_artifact_lem :
    (a : Artifact) (items : List Artifact)
    → (ids (replace_artifact a items) ≡ ids items)
      × (without_artifact a.artifact_id (replace_artifact a items)
          ≡ without_artifact a.artifact_id items)
replace_artifact_lem a items = (replace_artifact-ids a items, replace_artifact-without a items)
