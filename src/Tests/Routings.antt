-- ===== src/Tests/Routings.antt =====
-- The network routing of a download on concrete inputs.
use modelshelf.Common.{String, true, false, ◌||◌, Option, none, some, ◌≡◌, refl}
use modelshelf.Task.{Provider}
use modelshelf.Common.Scan.{split_slash, trim}
use modelshelf.Queue.Filters.{provider_value}
use modelshelf.Queue.Page.{ok}
use modelshelf.NewTask.Form.{
  toggle_temporary_mirror, toggle_mirror, toggle_proxy, edit, can_estimate,
}
use modelshelf.NewTask.Estimate.{
  controlled, rendered, inputs_effect, invalidate_estimate, same_dependencies,
}
use modelshelf.NewTask.Routing.{
  Network, Page, page_opened, info_replied, supports_mirror, configured_mirror, proxy_configured,
  shows_routing, offered, Reach, at_first, used, informed, preflight_of,
}
use modelshelf.NewTask.Routing.Shown.{Reach-offered}
use modelshelf.Tests.Forms.{no_url}

abbrev mirror_for_all : Provider → Option String
mirror_for_all provider = some "https://mirror.example.com"

abbrev network : Network
network = record { mirrors = mirror_for_all; proxy_configured = false; proxy_display = none }

abbrev informed_page : Page
informed_page = info_replied (ok (some network)) page_opened

abbrev bypassing : Page
bypassing = preflight_of no_url (controlled no_url (toggle_mirror true)) informed_page

may_bypass : offered (toggle_mirror true) informed_page ≡ true
unfolding offered shows_routing supports_mirror configured_mirror proxy_configured info_replied
may_bypass = refl

bypassing-Reach : Reach no_url bypassing
bypassing-Reach =
    used informed_page (toggle_mirror true) may_bypass
      (informed page_opened (ok (some network)) refl at_first)

is_bypassing : bypassing.preflight.inputs.disable_mirror ≡ true
unfolding controlled rendered inputs_effect invalidate_estimate same_dependencies edit can_estimate
    info_replied provider_value split_slash trim
is_bypassing = refl

Reach-offered_example :
    let f = bypassing.preflight.inputs in
    (f.use_temporary_mirror ≡ true → offered (toggle_temporary_mirror false) bypassing ≡ true)
    × (f.disable_mirror ≡ true → offered (toggle_mirror false) bypassing ≡ true)
    × (f.disable_proxy ≡ true → offered (toggle_proxy false) bypassing ≡ true)
    × ((f.use_temporary_mirror || f.disable_mirror || f.disable_proxy) ≡ true
        → shows_routing bypassing ≡ true)
Reach-offered_example = Reach-offered no_url bypassing bypassing-Reach
