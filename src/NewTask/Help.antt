-- ===== src/NewTask/Help.antt =====
-- The lines of help below the fields of the form.
use modelshelf.Common.{
  ℕ, ltb, String, List, [], ◌∷◌, Bool, true, false, ◌&&◌, Option, none, some, get_or, if◌then◌else◌,
  length, truthy, show, ◌&◌,
}
use modelshelf.Common.Scan.{first}
use modelshelf.Format.Bytes.{format_bytes}
use modelshelf.NewTask.Form.{
  LookupState, idle, loading, ready, failed_lookup, ModelOption, RevisionOption, GgufVariant,
  SelectableFile, DownloadEstimate,
}
use modelshelf.NewTask.Review.{uses_gguf_variants}
use modelshelf.NewTask.Search.{Search}

-- The help of a search by its state
abbrev pub help_at : LookupState → String → String → String → String → String
help_at idle at_rest busy found broken = at_rest
help_at loading at_rest busy found broken = busy
help_at ready at_rest busy found broken = found
help_at failed_lookup at_rest busy found broken = broken

-- Below the id of the model, for every provider but HTTP
unfoldable pub model_help : Search ModelOption → String
model_help s =
    help_at s.lookup "Type at least 2 characters to search this hub, or enter an exact model ID."
      "Searching this hub…"
      (if ltb 0 (length s.options)
        then show (length s.options) & " matching models — select one or keep typing any ID."
        else "No matching models found. You can still enter an exact ID.")
      ("Search unavailable: " & s.error & ". You can still enter an exact ID.")

-- Below the revision
unfoldable pub revision_help : Bool → Search RevisionOption → String
revision_help is_http s =
    if is_http
    then "The final immutable identity is computed from the downloaded content."
    else help_at s.lookup
        "Enter a complete model ID to load hub revisions, or type a branch, tag, version or commit manually."
        "Loading branches, tags or versions from this hub…"
        (if ltb 0 (length s.options)
          then "Hub revisions loaded. The default was selected automatically; manual input is always allowed."
          else "No named revisions were returned. Manual input is still allowed.")
        ("Revision lookup unavailable: " & s.error & ". Manual input is still allowed.")

-- The options of the two fields: a value with its description
unfoldable pub model_option : ModelOption → String × String
model_option m = (m.id, get_or m.detail m.name)

abbrev pub short_revision : Option String → String
short_revision none = ""
short_revision (some revision) = if truthy revision then " · " & first 12 revision else ""

unfoldable pub revision_option : RevisionOption → String × String
revision_option r = (r.name, r.kind & short_revision r.resolved_revision)

-- `detail` of a variant
abbrev pub size_or_unavailable : Option ℕ → String
size_or_unavailable none = "size unavailable"
size_or_unavailable (some bytes) = format_bytes bytes

unfoldable pub variant_detail : GgufVariant → String
variant_detail v =
    (if ltb 1 v.file_count then show v.file_count & " shards · " else "")
    & size_or_unavailable v.total_size

-- Whether the notice on auxiliary files is there
abbrev pub has_files : Option (List SelectableFile) → Bool
has_files none = false
has_files (some []) = false
has_files (some (f ∷ fs)) = true

unfoldable pub shows_auxiliary_notice : DownloadEstimate → Bool
shows_auxiliary_notice e = uses_gguf_variants (some e) && has_files e.gguf_auxiliary_files
