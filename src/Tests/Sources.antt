-- ===== src/Tests/Sources.antt =====
-- The address of a model on a concrete input.
use modelshelf.Common.{String, some, true, ◌≡◌, ◌⊎◌, refl}
use modelshelf.Common.Scan.{has_http_scheme, split_slash, begins_with}
use modelshelf.Task.{Provider, github_release, http}
use modelshelf.Source.{source_model_url, source_path, release_tag, release_url, after_colons}
use modelshelf.Source.Schemes.{Secure, source_model_url-Secure}

-- No character is escaped.
abbrev same_text : String → String
same_text t = t

abbrev release_page : String
release_page = "https://github.com/o/m/releases/tag/v1:a"

shows_release :
    source_model_url same_text github_release "o/m" (some "release:x:v1:a") ≡ some release_page
unfolding source_model_url source_path release_tag release_url after_colons split_slash begins_with
shows_release = refl

source_model_url-Secure_example :
    Secure release_page
    ⊎ ((◌≡◌ {A = Provider} github_release http)
        × (release_page ≡ "o/m")
        × (has_http_scheme "o/m" ≡ true))
source_model_url-Secure_example =
    source_model_url-Secure same_text github_release "o/m" (some "release:x:v1:a") release_page
      shows_release
