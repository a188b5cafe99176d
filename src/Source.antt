-- ===== src/Source.antt =====
-- packages/ui/src/source.ts: the address of a model at its source.
pub mod Schemes
use modelshelf.Common.{
  ℕ, zero, suc, ◌==◌, String, Char, code, List, [], ◌∷◌, Bool, true, false, Option, none, some, map,
  if◌then◌else◌, truthy, ◌&◌,
}
use Prim.Native.String
use modelshelf.Common.Scan.{split_slash, begins_with, has_http_scheme}
use modelshelf.Task.{
  Provider, huggingface, modelscope_cn, modelscope_ai, github_release, kaggle, http, filesystem,
}

-- `parts.join("/")`
abbrev pub join_slash : List String → String
join_slash [] = ""
join_slash (p ∷ []) = p
join_slash (p ∷ q ∷ ps) = p & "/" & join_slash (q ∷ ps)

-- `text.split(":").slice(n).join(":")`: the text after the n-th colon.
unfoldable pub after_colons : ℕ → String → String
after_colons zero s = s
after_colons (suc n) String.[] = ""
after_colons (suc n) (String.◌∷◌ c s) =
    let found = after_colons n s in
    let more = after_colons (suc n) s in if code c == 58 then found else more

unfoldable pub release_tag : Option String → Option String
release_tag none = none
release_tag (some revision) =
    if begins_with revision "release:" then some (after_colons 2 revision) else some revision

abbrev pub given : Option String → Option String
given none = none
given (some t) = if truthy t then some t else none

-- `encodeURIComponent` is the browser's.
module _ (encode : String → String) where
  unfoldable pub source_path : String → String
  source_path source_id = join_slash (map encode (split_slash source_id))

  unfoldable pub tree_url : String → Option String → String
  tree_url path none = "https://huggingface.co/" & path
  tree_url path (some revision) = "https://huggingface.co/" & path & "/tree/" & encode revision

  unfoldable pub release_url : String → Option String → String
  release_url path none = "https://github.com/" & path & "/releases"
  release_url path (some tag) = "https://github.com/" & path & "/releases/tag/" & encode tag

  unfoldable pub source_model_url : Provider → String → Option String → Option String
  source_model_url huggingface id revision = some (tree_url (source_path id) (given revision))
  source_model_url modelscope_cn id revision =
      some ("https://modelscope.cn/models/" & source_path id)
  source_model_url modelscope_ai id revision =
      some ("https://modelscope.ai/models/" & source_path id)
  source_model_url github_release id revision =
      some (release_url (source_path id) (given (release_tag revision)))
  source_model_url kaggle id revision = some ("https://www.kaggle.com/models/" & source_path id)
  source_model_url http id revision = if has_http_scheme id then some id else none
  source_model_url filesystem id revision = none
