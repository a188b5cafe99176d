-- ===== src/NewTask/Routing.antt =====
-- The network routing of a download: which of its controls are there, and their texts.
pub mod Shown
use modelshelf.Common.{
  String, Bool, true, false, ◌&&◌, ◌||◌, not, Option, none, some, get_or, if◌then◌else◌, truthy,
  truthy?, ◌&◌, ◌≡◌,
}
use modelshelf.Task.{
  Provider, huggingface, modelscope_cn, modelscope_ai, github_release, kaggle, http, filesystem,
}
use modelshelf.Progress.{is_http}
use modelshelf.Queue.Page.{Reply, ok, failed_with}
use modelshelf.NewTask.Form.{
  ParsedUrl, Inputs, Control, choose_provider, type_url, pick_model, type_revision, pick_revision,
  toggle_temporary_mirror, type_mirror, toggle_mirror, toggle_proxy, is_http_url,
}
use modelshelf.NewTask.Estimate.{
  Preflight, EstimateReply, opened, controlled, default_loaded, timer_fired, estimate_replied,
  settled,
}

-- The network of `ServerInfo`; a provider without a mirror has none.
pub record Network : Type 0 where
  pub mirrors : Provider → Option String
  pub proxy_configured : Bool
  pub proxy_display : Option String

-- The form with what it knows of the server; the request for `/info` is sent once.
pub record Page : Type 0 where
  pub preflight : Preflight
  pub network : Option Network
  pub info_due : Bool
  pub server_info_error : String

abbrev pub page_opened : Page
page_opened = record { preflight = opened; network = none; info_due = true; server_info_error = "" }

unfoldable pub info_replied : Reply (Option Network) → Page → Page
info_replied (ok network) p = record p {
  network = network;
  info_due = false;
  server_info_error = "";
}
info_replied (failed_with message) p = record p {
  network = none;
  info_due = false;
  server_info_error = message;
}

unfoldable pub supports_mirror : Provider → Bool
supports_mirror huggingface = true
supports_mirror modelscope_cn = true
supports_mirror modelscope_ai = true
supports_mirror _ = false

abbrev pub mirror_of : Option Network → Provider → Option String
mirror_of none provider = none
mirror_of (some n) provider = n.mirrors provider

unfoldable pub configured_mirror : Page → Option String
configured_mirror p = mirror_of p.network p.preflight.inputs.provider

abbrev pub has_proxy : Option Network → Bool
has_proxy none = false
has_proxy (some n) = n.proxy_configured

unfoldable pub proxy_configured : Page → Bool
proxy_configured p = has_proxy p.network

-- Whether the panel of the routing is there at all
unfoldable pub shows_routing : Page → Bool
shows_routing p = supports_mirror p.preflight.inputs.provider || proxy_configured p

-- Whether a control of the form is there.
unfoldable pub offered : Control → Page → Bool
unfolding shows_routing
offered (choose_provider provider) p = true
offered (type_url value) p = is_http p.preflight.inputs.provider
offered (type_revision value) p = is_http p.preflight.inputs.provider
offered (pick_model value) p = not (is_http p.preflight.inputs.provider)
offered (pick_revision value) p = not (is_http p.preflight.inputs.provider)
offered (toggle_temporary_mirror checked) p = supports_mirror p.preflight.inputs.provider
offered (type_mirror value) p =
    supports_mirror p.preflight.inputs.provider && p.preflight.inputs.use_temporary_mirror
offered (toggle_mirror checked) p =
    shows_routing p && truthy? (configured_mirror p) && not p.preflight.inputs.use_temporary_mirror
offered (toggle_proxy checked) p = proxy_configured p

-- The texts
abbrev pub or_stored : Option String → String
or_stored none =
    "The address is stored with this task and does not change the server configuration."
or_stored (some mirror) =
    if truthy mirror
    then "This overrides the server mirror: " & mirror
    else "The address is stored with this task and does not change the server configuration."

unfoldable pub temporary_mirror_text : Page → String
temporary_mirror_text p = or_stored (configured_mirror p)

abbrev pub display_of : Option Network → Option String
display_of none = none
display_of (some n) = n.proxy_display

unfoldable pub proxy_text : Page → String
proxy_text p = "Server proxy: " & get_or (display_of p.network) "configured"

unfoldable pub advanced_text : Page → String
advanced_text p =
    if truthy? (configured_mirror p) || proxy_configured p
    then "server routing is active"
    else "routing and delayed start"

-- The line below the address of the temporary mirror: an error, or a hint; `new URL` is the browser's.
unfoldable pub mirror_invalid : (String → Option ParsedUrl) → Inputs → Bool
mirror_invalid parse_url f = truthy f.mirror_url && not (is_http_url parse_url f.mirror_url)

unfoldable pub mirror_help : (String → Option ParsedUrl) → Inputs → String
mirror_help parse_url f =
    if mirror_invalid parse_url f
    then "Enter a valid HTTP(S) URL without embedded credentials."
    else "HTTP(S) only. Do not include credentials in the URL."

-- The states of the page: a control is used only where it is there, and replies come in any order.
module _ (parse_url : String → Option ParsedUrl) where
  abbrev pub preflight_of : (Preflight → Preflight) → Page → Page
  preflight_of f p = record p { preflight = f p.preflight }

  pub data Reach : Page → Type 0 where
    at_first : Reach page_opened
    used :
        (p : Page) (c : Control)
        → offered c p ≡ true
        → Reach p
        → Reach (preflight_of (controlled parse_url c) p)
    revision_loaded :
        (p : Page) (revision : String)
        → Reach p
        → Reach (preflight_of (default_loaded parse_url revision) p)
    timer : (p : Page) → Reach p → Reach (preflight_of timer_fired p)
    replied :
        (p : Page) (f : Inputs) (reply : EstimateReply)
        → Reach p
        → Reach (preflight_of (λ st. settled (estimate_replied f reply st)) p)
    informed :
        (p : Page) (reply : Reply (Option Network))
        → p.info_due ≡ true
        → Reach p
        → Reach (info_replied reply p)
