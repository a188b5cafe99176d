-- ===== src/TaskDetail/Facts.antt =====
-- The texts of the details of a task.
use modelshelf.Common.{
  ℕ, ltb, String, List, [], ◌∷◌, ◌++◌, Bool, true, false, ◌||◌, Option, none, some, get_or, truthy,
  if◌then◌else◌, ◌&◌, join, show,
}
use modelshelf.Task.{
  TaskStatus, scheduled, downloading, awaiting_confirmation, paused, cancelled, completed, failed,
  DownloadTask,
}
use modelshelf.Format.Bytes.{format_bytes, format_rate}
use modelshelf.Format.Duration.{format_duration}
use modelshelf.Progress.{TaskStepKey, download, processing, verify, TaskStepProgress}

abbrev pub is_processing : Option TaskStepKey → Bool
is_processing (some processing) = true
is_processing _ = false

abbrev pub is_downloading : Option TaskStepKey → Bool
is_downloading (some download) = true
is_downloading _ = false

-- `isVerificationActivity`
abbrev pub is_verification : Option TaskStepKey → Bool
is_verification (some verify) = true
is_verification _ = false

-- `eta`; the browser writes a date in its locale.
module _ (to_locale_string : String → String) where
  abbrev pub scheduled_eta : Option String → String → String
  scheduled_eta none otherwise = otherwise
  scheduled_eta (some start) otherwise =
      if truthy start then "Starts " & to_locale_string start else otherwise

  unfoldable pub eta_at : TaskStatus → DownloadTask → TaskStepProgress → String
  eta_at status task activity =
      let remaining = format_duration (
        if is_verification activity.step
        then task.verification_eta_seconds
        else task.eta_seconds) in
      elim status [
        | scheduled ↦ scheduled_eta task.scheduled_at remaining
        | paused ↦ "Paused"
        | completed ↦ "Done"
        | awaiting_confirmation ↦ "Done"
        | failed ↦ "—"
        | cancelled ↦ "—"
        | _ ↦ remaining
      ]

  unfoldable pub eta : DownloadTask → TaskStepProgress → String
  unfolding eta_at
  eta task activity = eta_at task.status task activity

-- `statusLabel`
abbrev pub label_at : TaskStatus → Bool → Option String
label_at downloading true = some "Local processing"
label_at _ _ = none

unfoldable pub status_label : DownloadTask → TaskStepProgress → Option String
status_label task activity = label_at task.status (is_processing activity.step)

-- The entries of `route` that are no `null`
abbrev pub mirror_text : Option String → List String
mirror_text none = []
mirror_text (some url) = if truthy url then ("Temporary mirror: " & url) ∷ [] else []

abbrev pub text_if : Bool → String → List String
text_if true text = text ∷ []
text_if false text = []

abbrev pub or_defaults : List String → String
or_defaults [] = "Server defaults"
or_defaults (part ∷ parts) = join " · " (part ∷ parts)

unfoldable pub route : DownloadTask → String
route task = or_defaults (
    mirror_text task.mirror_url
    ++ text_if (get_or task.disable_mirror false) "Mirror bypassed"
    ++ text_if (get_or task.disable_proxy false) "Proxy bypassed")

-- The metrics below the bar, and when they are shown
pub record Metrics : Type 0 where
  pub speed_label : String
  pub speed : String
  pub average_label : String
  pub average : String

unfoldable pub metrics : DownloadTask → TaskStepProgress → Metrics
metrics task activity =
    let verifying_now = is_verification activity.step in
    record {
      speed_label = if verifying_now then "Verification speed" else "Instant speed";
      speed = format_rate (
          if verifying_now
          then task.verification_instantaneous_bytes_per_second
          else task.instantaneous_bytes_per_second);
      average_label = if verifying_now then "Average verification speed" else "Average speed";
      average = format_rate (
          if verifying_now
          then task.verification_average_bytes_per_second
          else task.average_bytes_per_second);
    }

abbrev pub is_complete : TaskStatus → Bool
is_complete completed = true
is_complete _ = false

unfoldable pub shows_metrics : DownloadTask → TaskStepProgress → Bool
shows_metrics task activity =
    is_downloading activity.step || is_verification activity.step || is_complete task.status

-- `label` of the bar
unfoldable pub bar_label : TaskStepProgress → String
bar_label activity = elim activity.percent [
  | none ↦ activity.label & ", in progress"
  | some percent ↦ activity.label & ", " & show percent & "% complete"
]

pub record Fact : Type 0 where
  pub label : String
  pub value : String

abbrev pub fact_of : Option String → (String → Fact) → List Fact
fact_of none f = []
fact_of (some value) f = if truthy value then f value ∷ [] else []

abbrev pub size_fact : Option ℕ → List Fact
size_fact none = []
size_fact (some bytes) = record { label = "Artifact logical size"; value = format_bytes bytes } ∷ []

abbrev pub transfer_fact : ℕ → Option ℕ → List Fact
transfer_fact done none = []
transfer_fact done (some total) =
    record { label = "Network transfer"; value = format_bytes done & " / " & format_bytes total }
    ∷ []

-- The browser writes a count and a date in its locale.
module _ (count_text : ℕ → String) (to_locale_string : String → String) where
  abbrev pub reuse_fact : String → Option ℕ → Option ℕ → List Fact
  reuse_fact label none files = []
  reuse_fact label (some bytes) files =
      if ltb 0 bytes
      then record {
        label = label;
        value = format_bytes bytes & " · " & count_text (get_or files 0) & " files";
      }
        ∷ []
      else []

  abbrev pub start_fact : TaskStatus → Option String → List Fact
  start_fact scheduled start =
      fact_of start (λ t. record { label = "Scheduled start"; value = to_locale_string t })
  start_fact _ start = []

  -- The list of facts below the bar, in order
  unfoldable pub facts : DownloadTask → List Fact
  unfolding route
  facts task =
      record { label = "Requested revision"; value = task.requested_revision }
      ∷ record {
        label = "Resolved revision";
        value = get_or task.resolved_revision "Pending resolution";
      }
      ∷ (fact_of task.artifact_alias (λ alias. record { label = "Artifact alias"; value = alias })
          ++ size_fact task.artifact_total_bytes
          ++ transfer_fact task.bytes_downloaded task.total_bytes
          ++ reuse_fact "Reused from shelf" task.reused_bytes task.reused_file_count
          ++ reuse_fact "Hardlink reuse" task.hardlink_bytes task.hardlink_file_count
          ++ reuse_fact "Reflink fallback" task.reflink_bytes task.reflink_file_count
          ++ reuse_fact "Local copy fallback" task.copy_bytes task.copy_file_count
          ++ record { label = "Created"; value = to_locale_string task.created_at } ∷ []
          ++ start_fact task.status task.scheduled_at
          ++ record { label = "Network route"; value = route task } ∷ [])
