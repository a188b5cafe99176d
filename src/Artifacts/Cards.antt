-- ===== src/Artifacts/Cards.antt =====
-- What the page shows of its list: the cards, and what stands below them.
pub mod Emptied
use modelshelf.Common.{
  ℕ, ◌==◌, String, List, [], ◌∷◌, ◌++◌, Bool, true, false, ◌&&◌, ◌||◌, not, Option, none, some,
  get_or, if◌then◌else◌, truthy, truthy?, str_eq, length, find, map, ◌&◌, Ordering, ◌≡◌, ◌⊎◌, inl,
  inr, arith, Bool-cases,
}
use modelshelf.Format.Bytes.{format_bytes}
use modelshelf.Task.{
  Provider, huggingface, modelscope_cn, modelscope_ai, github_release, kaggle, http, filesystem,
}
use modelshelf.Selection.{selection_summary}
use modelshelf.Source.{source_model_url}
use modelshelf.Artifacts.Shelf.{Artifact, Shelf}

-- `providerLabel`; its list has every provider.
unfoldable pub provider_label : Provider → String
provider_label huggingface = "Hugging Face Hub"
provider_label modelscope_cn = "ModelScope CN"
provider_label modelscope_ai = "ModelScope AI"
provider_label github_release = "GitHub Releases"
provider_label kaggle = "Kaggle Models"
provider_label http = "Generic HTTP"
provider_label filesystem = "Filesystem import"

-- `SourceLogo`: a mark of its own, a globe or a folder
pub data Logo : Type 0 where
  hugging_face_mark modelscope_mark github_mark kaggle_mark globe folder : Logo

unfoldable pub source_logo : Provider → Logo
source_logo huggingface = hugging_face_mark
source_logo modelscope_cn = modelscope_mark
source_logo modelscope_ai = modelscope_mark
source_logo github_release = github_mark
source_logo kaggle = kaggle_mark
source_logo http = globe
source_logo filesystem = folder

abbrev pub title_of : Artifact → String
title_of item = get_or item.alias item.name

-- The question before an artifact is deleted
pub record DeleteTexts : Type 0 where
  pub trigger : String
  pub title : String
  pub description : String
  pub disabled : Bool

abbrev pub is_deleting : Option String → String → Bool
is_deleting none id = false
is_deleting (some deleting) id = str_eq deleting id

pub record Card : Type 0 where
  pub logo : Logo
  pub provider : String
  pub title : String
  pub detail_path : String
  -- The name, below an alias
  pub subtitle : Option String
  -- The text of the source, and its address if it is a link
  pub source : String × Option String
  pub size : String
  pub files : String
  pub revision : String × String
  pub selection : String
  -- The button for the alias and the question of the deletion, for an administrator
  pub alias_button : Option (String × String)
  pub deletion : Option DeleteTexts

-- `encodeURIComponent`, the text of a count, the order of two texts and the lower case are the
-- browser's.
module _ (encode : String → String) (count_text : ℕ → String)
    (locale_compare : String → String → Ordering) (lower : String → String) where
  abbrev pub with_parameters : String → String → String
  with_parameters path parameters = path & (if truthy parameters then "?" & parameters else "")

  -- `detailPath` and `listPath`, with the text of the address's parameters
  unfoldable pub detail_path : String → String → String
  detail_path parameters id = with_parameters ("/artifacts/" & encode id) parameters

  unfoldable pub list_path : String → String
  list_path parameters = with_parameters "/artifacts" parameters

  abbrev pub alias_texts : Artifact → String × String
  alias_texts item =
      let verb = if truthy? item.alias then "Change" else "Set" in
      (verb & " alias for " & title_of item, verb & " alias")

  abbrev pub delete_texts : Option String → Artifact → DeleteTexts
  delete_texts deleting item = record {
    trigger = "Delete " & title_of item;
    title = "Delete " & item.name & "?";
    description =
        "Its manifest and all "
        & count_text item.file_count
        & " files will be permanently removed. Logical size: "
        & format_bytes item.total_size
        & ". Because immutable files may be hardlinked across artifacts, the physical space released can be smaller.";
    disabled = is_deleting deleting item.artifact_id;
  }

  unfoldable pub card : Bool → String → Option String → Artifact → Card
  unfolding provider_label source_logo detail_path
  card can_manage parameters deleting item = record {
    logo = source_logo item.provider;
    provider = provider_label item.provider;
    title = title_of item;
    detail_path = detail_path parameters item.artifact_id;
    subtitle = if truthy? item.alias then some item.name else none;
    source = (
      item.source_id,
      source_model_url encode item.provider item.source_id (some item.resolved_revision),
    );
    size = format_bytes item.total_size;
    files = count_text item.file_count;
    revision = (item.version, item.resolved_revision);
    selection = selection_summary locale_compare lower item.selected_paths;
    alias_button = if can_manage then some (alias_texts item) else none;
    deletion = if can_manage then some (delete_texts deleting item) else none;
  }

  unfoldable pub cards : Bool → String → Shelf → List Card
  unfolding card
  cards can_manage parameters s = map (card can_manage parameters s.deleting_artifact_id) s.items

  -- The line above the cards
  unfoldable pub list_status : Shelf → String
  list_status s =
      if s.loading
      then "Updating artifacts…"
      else count_text (length s.items)
        & " artifacts shown"
        & (if s.has_more then " · more available" else "")

-- What stands below the cards: the note that they are loaded, the button for more with its state, and
-- the note that there are none with its text and whether a download is offered
pub record Below : Type 0 where
  pub first_loading : Bool
  pub load_more : Option Bool
  pub empty : Option (String × Bool)

abbrev pub has_items : List Artifact → Bool
has_items [] = false
has_items (item ∷ items) = true

unfoldable pub below : Bool → String → String → Shelf → Below
below can_manage query provider s = record {
  first_loading = s.loading && not (has_items s.items);
  load_more = if s.has_more then some s.loading else none;
  empty =
      if not s.loading && not (has_items s.items)
      then some (
        if truthy query || truthy provider
            then "Try a different keyword or source, or reset your filters."
            else "Completed and verified downloads will appear here.",
        can_manage && not (truthy query) && not (truthy provider),
      )
      else none;
}
