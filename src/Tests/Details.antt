-- ===== src/Tests/Details.antt =====
-- The list and the details of a task on concrete inputs.
use modelshelf.Common.{String, [], false, none, some, ◌≡◌, ◌⊎◌, refl, ◌&◌, show}
use modelshelf.Task.{InferredMetadata, low, DownloadTask, huggingface}
use modelshelf.Format.Bytes.{format_rate}
use modelshelf.Format.Duration.{format_duration}
use modelshelf.Progress.{current_task_step}
use modelshelf.TaskDetail.Facts.{eta, metrics, status_label}
use modelshelf.TaskDetail.Confirmation.{Confirmation, inferred}
use modelshelf.Queue.Cells.{rate_and_eta, live_metrics, badge_label, live_metrics}
use modelshelf.Queue.Cells.Agreement.{activity, live_metrics-metrics}
use modelshelf.Tests.Samples.{task, fixed_point, same_text}

abbrev capital : String → String
capital t = "L"

abbrev fast : DownloadTask
fast = record task {
  provider = huggingface;
  instantaneous_bytes_per_second = some 2048000;
  eta_seconds = some 90000;
}

live_metrics-metrics_example :
    (badge_label capital fast ≡ status_label fast (activity fixed_point same_text fast))
    × ((rate rest : String)
        → live_metrics same_text fast ≡ rate_and_eta rate rest
        → (rest ≡ "ETA " & eta same_text fast (activity fixed_point same_text fast))
          × ((rate ≡ (metrics fast (activity fixed_point same_text fast)).speed)
              ⊎ (rate ≡ "Verify " & (metrics fast (activity fixed_point same_text fast)).speed)))
live_metrics-metrics_example = live_metrics-metrics fixed_point same_text fast capital refl

fast_metrics : live_metrics same_text fast ≡ rate_and_eta "2.0 KiB/s" "ETA 1m 30s"
unfolding live_metrics current_task_step format_rate format_duration show
fast_metrics = refl

abbrev metadata : InferredMetadata
metadata = record {
  name = "m";
  version = "";
  format = none;
  archive = false;
  confidence = low;
  notes = [];
}

abbrev reviewed : Confirmation
reviewed = record (inferred metadata) { version = "2" }
