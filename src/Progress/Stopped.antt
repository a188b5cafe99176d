-- ===== src/Progress/Stopped.antt =====
-- Where a stopped task is shown to have stopped.
use modelshelf.Common.{
  ℕ, Bool, if◌then◌else◌, ltb, leb, ◌&&◌, ◌||◌, is_some, ◌≤◌, refl, ◌<◌, true, false, none, some,
  ◌≡◌, get_or, truthy?, arith,
}
use modelshelf.Task.{DownloadTask, downloading, paused, queued, scheduled}
use modelshelf.Progress.{
  is_http, is_model_scope, download, processing, key_number, stopped_step, has_finished_transfer,
  current_task_step,
}

-- What the record says of phases after the transfer.
pub record NothingLater (task : DownloadTask) : Type 0 where
  pub no_artifact : truthy? task.artifact_id ≡ false
  pub early : task.progress < 92
  pub no_total : task.verification_total_bytes ≡ none
  pub no_verified : get_or task.verification_bytes_completed 0 ≡ 0
  pub no_detail : truthy? task.verification_detail ≡ false

-- The second record of a task says at least what the first one says: what is recorded stays, and what
-- is counted does not shrink. The source and what was inferred are the same, and so is the size of
-- the transfer once it is known.
pub record Grows (old new : DownloadTask) : Type 0 where
  pub same_provider : new.provider ≡ old.provider
  pub same_metadata : new.inferred_metadata ≡ old.inferred_metadata
  pub same_total : is_some old.total_bytes ≡ true → new.total_bytes ≡ old.total_bytes
  pub artifact_stays : truthy? old.artifact_id ≡ true → truthy? new.artifact_id ≡ true
  pub revision_stays : truthy? old.resolved_revision ≡ true → truthy? new.resolved_revision ≡ true
  pub detail_stays : truthy? old.verification_detail ≡ true → truthy? new.verification_detail ≡ true
  pub total_stays :
      is_some old.verification_total_bytes ≡ true → is_some new.verification_total_bytes ≡ true
  pub more_verified :
      get_or old.verification_bytes_completed 0 ≤ get_or new.verification_bytes_completed 0
  pub more_progress : old.progress ≤ new.progress
  pub more_downloaded : old.bytes_downloaded ≤ new.bytes_downloaded

has_finished_transfer-Grows :
    (old new : DownloadTask)
    → Grows old new
    → has_finished_transfer old ≡ true
    → has_finished_transfer new ≡ true
unfolding has_finished_transfer
has_finished_transfer-Grows old new g h = ground (arith, g, h)

-- The number of the step by what is recorded
abbrev number_by : Bool → Bool → Bool → Bool → Bool → Bool → ℕ
number_by published verified confirmed late finished begun =
    if published
    then 5
    else if verified
    then 4
    else if confirmed
    then 3
    else if late
    then 4
    else if finished
    then 2
    else if begun
    then 1
    else 0

number_by_mono :
    (p v m e f d p' v' e' f' d' : Bool)
    → (p ≡ true → p' ≡ true)
    → (v ≡ true → v' ≡ true)
    → (e ≡ true → e' ≡ true)
    → (f ≡ true → f' ≡ true)
    → (d ≡ true → d' ≡ true)
    → number_by p v m e f d ≤ number_by p' v' m e' f' d'
number_by_mono p v m e f d p' v' e' f' d' hp hv he hf hd = ground (arith, hp, hv, he, hf, hd)

abbrev is_published : DownloadTask → Bool
is_published task = truthy? task.artifact_id || leb 99 task.progress

abbrev is_verified : DownloadTask → Bool
is_verified task =
    is_some task.verification_total_bytes
    || ltb 0 (get_or task.verification_bytes_completed 0)
    || truthy? task.verification_detail

abbrev is_confirmed : DownloadTask → Bool
is_confirmed task = is_http task.provider && is_some task.inferred_metadata

abbrev is_begun : DownloadTask → Bool
is_begun task = truthy? task.resolved_revision || ltb 0 task.bytes_downloaded || leb 2 task.progress

number-stopped_step :
    (task : DownloadTask)
    → key_number (stopped_step task)
      ≡ number_by
          (is_published task)
          (is_verified task)
          (is_confirmed task)
          (leb 92 task.progress)
          (has_finished_transfer task)
          (is_begun task)
unfolding stopped_step
number-stopped_step task = ground arith

is_verified-Grows :
    (old new : DownloadTask) → Grows old new → is_verified old ≡ true → is_verified new ≡ true
is_verified-Grows old new g h = ground (arith, h, g.detail_stays, g.total_stays, g.more_verified)

key_number_mono :
    (old new : DownloadTask)
    → Grows old new
    → key_number (stopped_step old) ≤ key_number (stopped_step new)
key_number_mono old new g =
    let same : is_confirmed new ≡ is_confirmed old = rw (g.same_provider, g.same_metadata) refl in
    rw (number-stopped_step old, number-stopped_step new, same)
      (number_by_mono (is_published old) (is_verified old) (is_confirmed old) (leb 92 old.progress)
        (has_finished_transfer old) (is_begun old) (is_published new) (is_verified new)
        (leb 92 new.progress) (has_finished_transfer new) (is_begun new)
        (λ h. ground (arith, h, g.artifact_stays, g.more_progress)) (is_verified-Grows old new g)
        (λ h. ground (arith, h, g.more_progress)) (has_finished_transfer-Grows old new g)
        (λ h. ground (arith, h, g.revision_stays, g.more_downloaded, g.more_progress)))

stopped_in_transfer :
    (task : DownloadTask) (total : ℕ)
    → NothingLater task
    → is_model_scope task ≡ true
    → task.total_bytes ≡ some total
    → 0 < task.bytes_downloaded
    → 0 < total
    → stopped_step task ≡ (if ltb task.bytes_downloaded total then download else processing)
unfolding stopped_step has_finished_transfer
stopped_in_transfer task total n scope known begun large =
    ground (arith, n, scope, known, begun, large)

-- The step at which a stopped task is shown never goes back while more is recorded of it, if its
-- source, what was inferred and a known size of its transfer stay the same. And where nothing is
-- recorded of a later phase, the transfer from ModelScope that has begun and has a known size above 0
-- is shown as the download until its last byte is there, and as local processing from then on.
pub stopped_step_mono :
    (old new : DownloadTask)
    → Grows old new
    → (key_number (stopped_step old) ≤ key_number (stopped_step new))
      × ((total : ℕ)
          → NothingLater old
          → is_model_scope old ≡ true
          → old.total_bytes ≡ some total
          → 0 < old.bytes_downloaded
          → 0 < total
          → stopped_step old ≡ (if ltb old.bytes_downloaded total then download else processing))
stopped_step_mono old new g = (key_number_mono old new g, stopped_in_transfer old)

-- Pausing a download, and queueing or scheduling it again from the stage that it reached, keeps
-- the step that is shown, if the task has begun its transfer and nothing is recorded of a later
-- phase.
pub current_task_step_kept :
    (task : DownloadTask)
    → task.status ≡ downloading
    → NothingLater task
    → task.inferred_metadata ≡ none
    → 0 < task.bytes_downloaded
    → (current_task_step (record task { status = paused }) ≡ current_task_step task)
      × (current_task_step (record task { status = queued; resume_from_stage = some true })
          ≡ current_task_step task)
      × (current_task_step (record task { status = scheduled; resume_from_stage = some true })
          ≡ current_task_step task)
unfolding current_task_step
current_task_step_kept task s n m b = ground arith
