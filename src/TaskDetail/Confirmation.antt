-- ===== src/TaskDetail/Confirmation.antt =====
-- The confirmation of what was inferred of a file.
use modelshelf.Common.{
  String, Bool, true, false, not, ◌&&◌, ◌||◌, ◌≡◌, ◌⊎◌, inl, inr, refl, arith, Bool-cases, Option,
  none, some, get_or, if◌then◌else◌, truthy, ◌&◌,
}
use modelshelf.Task.{InferredMetadata, DownloadTask}
use modelshelf.Queue.Page.{Reply, ok, failed_with}

-- The state variables of `Confirmation`.
pub record Confirmation : Type 0 where
  pub name : String
  pub version : String
  pub format : String
  pub extract : Bool
  pub error : String
  pub busy : Bool

abbrev pub inferred : InferredMetadata → Confirmation
inferred metadata = record {
  name = metadata.name;
  version = metadata.version;
  format = get_or metadata.format "";
  extract = false;
  error = "";
  busy = false;
}

-- The controls of the form; the box for the archive is there for archives only.
pub data Edit : Type 0 where
  to_name to_version to_format : String → Edit
  to_extract : Bool → Edit

unfoldable pub edited : InferredMetadata → Edit → Confirmation → Confirmation
edited metadata (to_name text) c = record c { name = text }
edited metadata (to_version text) c = record c { version = text }
edited metadata (to_format text) c = record c { format = text }
edited metadata (to_extract value) c = if metadata.archive then record c { extract = value } else c

abbrev pub confirm_disabled : Confirmation → Bool
confirm_disabled c = not (truthy c.name) || not (truthy c.version)

pub record ConfirmRequest : Type 0 where
  pub path : String
  pub name : String
  pub version : String
  pub format : Option String
  pub extract : Bool

abbrev pub format_or_null : String → Option String
format_or_null text = if truthy text then some text else none

-- `confirm` up to its request
unfoldable pub submitted : String → Confirmation → ConfirmRequest × Confirmation
submitted task_id c = (
  record {
    path = "/tasks/" & task_id & "/confirm";
    name = c.name;
    version = c.version;
    format = format_or_null c.format;
    extract = c.extract;
  },
  record c { busy = true; error = "" },
)

-- and from its reply on; the second part is the task that is shown from then on.
unfoldable pub confirm_replied :
    Reply DownloadTask → Confirmation → Confirmation × Option DownloadTask
confirm_replied (ok task) c = (record c { busy = false }, some task)
confirm_replied (failed_with message) c = (record c { busy = false; error = message }, none)

-- What can happen to the form.
pub data Reach (metadata : InferredMetadata) : Confirmation → Type 0 where
  at_first : Reach metadata (inferred metadata)
  edit : (c : Confirmation) (e : Edit) → Reach metadata c → Reach metadata (edited metadata e c)
  send :
      (c : Confirmation) (task_id : String)
      → confirm_disabled c ≡ false
      → Reach metadata c
      → Reach metadata (submitted task_id c).1
  reply :
      (c : Confirmation) (r : Reply DownloadTask)
      → c.busy ≡ true
      → Reach metadata c
      → Reach metadata (confirm_replied r c).0

Reach-extract :
    (metadata : InferredMetadata) (c : Confirmation)
    → Reach metadata c
    → c.extract ≡ true
    → metadata.archive ≡ true
unfolding edited submitted confirm_replied
Reach-extract metadata _ at_first h = ground (arith, h)
Reach-extract metadata _ (edit c e r) h = ground (arith, h, Reach-extract metadata c r)
Reach-extract metadata _ (send c task_id allowed r) h = Reach-extract metadata c r h
Reach-extract metadata _ (reply c (ok task) busy r) h = Reach-extract metadata c r h
Reach-extract metadata _ (reply c (failed_with message) busy r) h = Reach-extract metadata c r h

format_or_null-cases : (t : String) → (format_or_null t ≡ none) ⊎ (format_or_null t ≡ some t)
format_or_null-cases t = elim (Bool-cases (truthy t)) [
  | inl e ↦ inr (rw e refl)
  | inr e ↦ inl (rw e refl)
]

-- A publication that is confirmed has a name and a version, and a format only if
-- one is given; it asks for an extraction only if the file was found to be an archive. While the
-- request is under way no earlier message is shown; one that fails keeps what was entered.
pub submitted-archive :
    (metadata : InferredMetadata) (c : Confirmation) (task_id message : String)
    → Reach metadata c
    → confirm_disabled c ≡ false
    → let (request, sent) = submitted task_id c in
      (truthy request.name ≡ true)
      × (truthy request.version ≡ true)
      × ((request.format ≡ none) ⊎ (request.format ≡ some c.format))
      × ((request.extract && not metadata.archive) ≡ false)
      × (sent.error ≡ "")
      × ((confirm_replied (failed_with message) sent).0
          ≡ record c { busy = false; error = message })
unfolding submitted confirm_replied
submitted-archive metadata c task_id message r allowed = (
  ground (arith, allowed),
  ground (arith, allowed),
  format_or_null-cases c.format,
  ground (arith, Reach-extract metadata c r),
  refl,
  refl,
)
