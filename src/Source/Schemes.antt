-- ===== src/Source/Schemes.antt =====
-- The scheme of the address.
use modelshelf.Common.{String, true, Option, none, some, ◌≡◌, refl, ◌⊎◌, ◌&◌, arith}
use text.Mathlib.TextLemmas.{cons-append}
use modelshelf.Common.Scan.{begins_with, has_http_scheme}
use modelshelf.Task.{
  Provider, huggingface, modelscope_cn, modelscope_ai, github_release, kaggle, http, filesystem,
}
use modelshelf.Source.{source_model_url, source_path, given, release_tag, tree_url, release_url}

begins_with-append : (s t p : String) → begins_with s p ≡ true → begins_with (s & t) p ≡ true
unfolding begins_with
begins_with-append s t String.[] h = refl
begins_with-append String.[] t (String.◌∷◌ d p) h = ground arith
begins_with-append (String.◌∷◌ c s) t (String.◌∷◌ d p) h =
    rw (cons-append c s t) (ground (arith, begins_with-append s t p (ground arith)))

-- The texts that begin with "https://".
pub Secure : String → Type 0
Secure url = begins_with url "https://" ≡ true

Secure-append : (s t : String) → Secure s → Secure (s & t)
unfolding Secure
Secure-append s t h = begins_with-append s t "https://" h

module _ (encode : String → String) where
  Secure-tree_url : (path : String) (r : Option String) → Secure (tree_url encode path r)
  unfolding tree_url Secure begins_with
  Secure-tree_url path none = Secure-append "https://huggingface.co/" path refl
  Secure-tree_url path (some r) =
      Secure-append "https://huggingface.co/" (path & "/tree/" & encode r) refl

  Secure-release_url : (path : String) (r : Option String) → Secure (release_url encode path r)
  unfolding release_url Secure begins_with
  Secure-release_url path none = Secure-append "https://github.com/" (path & "/releases") refl
  Secure-release_url path (some r) =
      Secure-append "https://github.com/" (path & "/releases/tag/" & encode r) refl

  -- An address of a source that the page links to begins with "https://", whatever the id and the
  -- revision are, or it is the id of an HTTP source that itself has the scheme http or https.
  pub source_model_url-Secure :
      (p : Provider) (id : String) (revision : Option String) (url : String)
      → source_model_url encode p id revision ≡ some url
      → Secure url ⊎ ((p ≡ http) × (url ≡ id) × (has_http_scheme id ≡ true))
  unfolding source_model_url Secure begins_with
  source_model_url-Secure huggingface id r url e =
      ground (arith, Secure-tree_url (source_path encode id) (given r))
  source_model_url-Secure modelscope_cn id r url e =
      ground (arith, Secure-append "https://modelscope.cn/models/" (source_path encode id) refl)
  source_model_url-Secure modelscope_ai id r url e =
      ground (arith, Secure-append "https://modelscope.ai/models/" (source_path encode id) refl)
  source_model_url-Secure github_release id r url e =
      ground (arith, Secure-release_url (source_path encode id) (given (release_tag r)))
  source_model_url-Secure kaggle id r url e =
      ground (arith, Secure-append "https://www.kaggle.com/models/" (source_path encode id) refl)
  source_model_url-Secure http id r url e = ground arith
  source_model_url-Secure filesystem id r url e = ground arith
