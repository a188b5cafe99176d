-- ===== src/NewTask/Form.antt =====
-- The fields of the form and the handlers that edit them.
use modelshelf.Common.{
  ℕ, ◌==◌, String, List, Bool, true, false, ◌&&◌, ◌||◌, not, Option, none, some, keep, length,
  truthy, str_eq, if◌then◌else◌, ◌&◌,
}
use modelshelf.Common.Scan.{trim, split_slash, has_http_scheme}
use modelshelf.Task.{
  Provider, huggingface, modelscope_cn, modelscope_ai, github_release, kaggle, http, TaskStatus,
}
use modelshelf.Progress.{is_http}
use modelshelf.Queue.Filters.{provider_value}

pub data LookupState : Type 0 where
  idle loading ready failed_lookup : LookupState

pub record ModelOption : Type 0 where
  pub id : String
  pub name : String
  pub detail : Option String

pub record RevisionOption : Type 0 where
  pub name : String
  pub kind : String
  pub resolved_revision : Option String

pub record SelectableFile : Type 0 where
  pub path : String
  pub size : Option ℕ
  pub sha256 : Option String

pub record GgufVariant : Type 0 where
  pub label : String
  pub paths : List String
  pub total_size : Option ℕ
  pub file_count : ℕ

pub data DuplicateKind : Type 0 where
  artifact task : DuplicateKind

pub record Duplicate : Type 0 where
  pub kind : DuplicateKind
  pub task_id : Option String
  pub task_status : Option TaskStatus
  pub artifact_id : Option String

pub record EstimateMetadata : Type 0 where
  pub label : String
  pub value : String

pub record DownloadEstimate : Type 0 where
  pub provider : Provider
  pub source_id : String
  pub requested_revision : String
  pub downloadable : Bool
  pub resolved_revision : Option String
  pub total_size : Option ℕ
  pub transfer_size : Option ℕ
  pub reused_size : Option ℕ
  pub reusable_paths : Option (List String)
  pub available_storage_bytes : Option ℕ
  pub required_storage_bytes : Option ℕ
  pub storage_sufficient : Option Bool
  pub file_count : Option ℕ
  pub hub_url : Option String
  pub metadata : List EstimateMetadata
  pub file_selection_available : Option Bool
  pub selectable_files : Option (List SelectableFile)
  pub gguf_variant_selection_available : Option Bool
  pub gguf_variants : Option (List GgufVariant)
  pub gguf_auxiliary_files : Option (List SelectableFile)
  pub duplicate : Option Duplicate

unfoldable pub default_revision : Provider → String
default_revision modelscope_cn = "master"
default_revision modelscope_ai = "master"
default_revision github_release = "latest"
default_revision kaggle = "latest"
default_revision http = "content"
default_revision _ = "main"

-- `sourceId.split("/").filter(Boolean).length`
part_count : String → ℕ
part_count id = length (keep truthy (split_slash id))

unfoldable pub has_complete_model_id : Provider → String → Bool
unfolding part_count
has_complete_model_id kaggle id = part_count id == 4
has_complete_model_id http id = false
has_complete_model_id _ id = part_count id == 2

-- What `new URL` makes of a text, where it does not throw.
pub record ParsedUrl : Type 0 where
  pub protocol : String
  pub hostname : String
  pub username : String
  pub password : String

abbrev pub url_allowed : Option ParsedUrl → Bool
url_allowed none = false
url_allowed (some u) =
    (str_eq u.protocol "http:" || str_eq u.protocol "https:")
    && truthy u.hostname
    && not (truthy u.username)
    && not (truthy u.password)

-- `new URL` is the browser's.
unfoldable pub is_http_url : (String → Option ParsedUrl) → String → Bool
is_http_url parse_url value = url_allowed (parse_url value)

-- The state variables that the estimate depends on.
pub record Inputs : Type 0 where
  pub provider : Provider
  pub id : String
  pub revision : String
  pub disable_mirror : Bool
  pub use_temporary_mirror : Bool
  pub mirror_url : String
  pub disable_proxy : Bool
  -- The ref `revisionEdited`.
  pub revision_edited : Bool

abbrev pub initial : Inputs
initial = record {
  provider = huggingface;
  id = "";
  revision = "main";
  disable_mirror = false;
  use_temporary_mirror = false;
  mirror_url = "";
  disable_proxy = false;
  revision_edited = false;
}

-- The controls with their handlers. Every handler that does not return at once (`none`) also calls
-- `invalidateEstimate`.
pub data Control : Type 0 where
  choose_provider : Provider → Control
  type_url : String → Control
  pick_model : String → Control
  type_revision : String → Control
  pick_revision : String → Control
  toggle_temporary_mirror : Bool → Control
  type_mirror : String → Control
  toggle_mirror : Bool → Control
  toggle_proxy : Bool → Control

unfoldable pub edit : Control → Inputs → Option Inputs
unfolding default_revision
edit (choose_provider p) f = some (record f {
  provider = p;
  id = "";
  revision = default_revision p;
  revision_edited = false;
  disable_mirror = false;
  use_temporary_mirror = false;
  mirror_url = "";
})
edit (type_url value) f = some (record f { id = value })
edit (pick_model value) f =
    if str_eq value f.id
    then none
    else some
        (record f { id = value; revision = default_revision f.provider; revision_edited = false })
edit (type_revision value) f = some (record f { revision = value })
edit (pick_revision value) f =
    if str_eq value f.revision
    then none
    else some (record f { revision = value; revision_edited = true })
edit (toggle_temporary_mirror checked) f = some (record f {
  use_temporary_mirror = checked;
  disable_mirror = if checked then false else f.disable_mirror;
})
edit (type_mirror value) f = some (record f { mirror_url = value })
edit (toggle_mirror checked) f = some (record f { disable_mirror = checked })
edit (toggle_proxy checked) f = some (record f { disable_proxy = checked })

unfoldable pub temporary_mirror : Inputs → String
temporary_mirror f = if f.use_temporary_mirror then trim f.mirror_url else ""

abbrev pub bool_text : Bool → String
bool_text true = "true"
bool_text false = "false"

-- `currentEstimateKey`, and the `key` of the effect
unfoldable pub estimate_key_of : Inputs → String
unfolding temporary_mirror
estimate_key_of f =
    provider_value f.provider
    & "\0"
    & trim f.id
    & "\0"
    & trim f.revision
    & "\0"
    & bool_text f.disable_mirror
    & "\0"
    & temporary_mirror f
    & "\0"
    & bool_text f.disable_proxy

ready_with : Bool → (String → Option ParsedUrl) → Inputs → Bool
unfolding has_complete_model_id temporary_mirror is_http_url
ready_with true parse_url f = has_http_scheme (trim f.id) && truthy (trim f.revision)
ready_with false parse_url f =
    has_complete_model_id f.provider (trim f.id)
    && truthy (trim f.revision)
    && (not f.use_temporary_mirror || is_http_url parse_url (temporary_mirror f))

-- `ready` of the estimate's effect
unfoldable pub can_estimate : (String → Option ParsedUrl) → Inputs → Bool
unfolding ready_with
can_estimate parse_url f = ready_with (is_http f.provider) parse_url f
