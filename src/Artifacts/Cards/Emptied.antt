-- ===== src/Artifacts/Cards/Emptied.antt =====
-- What stands below the cards after a deletion.
use modelshelf.Common.{
  String, List, [], ◌∷◌, Bool, false, not, none, some, is_some, all, if◌then◌else◌, str_eq, ◌≡◌,
  refl, arith,
}
use modelshelf.Queue.Page.{ok}
use modelshelf.Artifacts.Shelf.{Artifact, Shelf, artifact_deleted, without_artifact}
use modelshelf.Artifacts.Cards.{below, has_items}

has_items-without_artifact :
    (id : String) (items : List Artifact)
    → not (has_items (without_artifact id items)) ≡ all (λ a. str_eq a.artifact_id id) items
unfolding without_artifact
has_items-without_artifact id [] = refl
has_items-without_artifact id (a ∷ items) = ground (arith, has_items-without_artifact id items)

-- After the deletion of an artifact, if the list is not being loaded, the page says that no artifact
-- matches exactly if every row was one of the artifact; and it goes on to offer more rows exactly if it
-- did before, so that it says both where the server has more.
pub artifact_deleted-below :
    (can_manage : Bool) (query provider id : String) (u : Unit {0}) (s : Shelf)
    → s.loading ≡ false
    → let after = below can_manage query provider (artifact_deleted id (ok u) s).0 in
      (is_some after.empty ≡ all (λ a. str_eq a.artifact_id id) s.items)
      × (after.load_more ≡ (if s.has_more then some false else none))
      × (after.first_loading ≡ false)
unfolding below artifact_deleted
artifact_deleted-below can_manage query provider id u s idle =
    ground (arith, has_items-without_artifact id s.items, idle)
