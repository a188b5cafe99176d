-- ===== src/Tests/Sessions.antt =====
-- Visits on concrete inputs.
use modelshelf.Common.{true, false, some, ◌≡◌, ◌≢◌, refl}
use modelshelf.Queue.Page.{ok, failed_with}
use modelshelf.Session.{
  login, new_task, App, login_page, shows, goes_to, render, Location, plain_location, follow,
  LoginForm, login_replied, Shell,
}
use modelshelf.Session.Access.{
  Allowed, Ready, page_at, arriving, follow-Allowed, login_replied-page_at,
}

abbrev visitor : App
visitor = record { authenticated = some false; public_artifacts = some true; bootstrap_error = "" }

abbrev admin : App
admin = record { authenticated = some true; public_artifacts = some true; bootstrap_error = "" }

visitor-Ready : Ready visitor false true
visitor-Ready = record { no_error = refl; knows_session = refl; knows_access = refl }

admin-Ready : Ready admin true true
admin-Ready = record { no_error = refl; knows_session = refl; knows_access = refl }

abbrev at_new : Location
at_new = plain_location new_task

abbrev asked : Location
asked = record (plain_location new_task) { search = "?q=qwen" }

abbrev form : LoginForm
form = record { password = "secret"; error = ""; busy = false; show_password = false }

abbrev shell : Shell
shell = record { logout_error = ""; logging_out = false }

is_sent : render visitor new_task ≡ goes_to login (some new_task)
unfolding render
is_sent = refl

follow-Allowed_example :
    (render visitor (follow visitor at_new).route ≡ shows (page_at false true new_task))
    × Allowed false true (page_at false true new_task)
follow-Allowed_example = follow-Allowed visitor false true at_new visitor-Ready

login_replied-page_at_example :
    let visit = arriving visitor asked form in
    let done = login_replied (ok tt) visit in
    let failed = login_replied (failed_with "no") visit in
    (render visitor visit.at.route ≡ shows login_page)
    × (done.at ≡ plain_location new_task)
    × (render done.app done.at.route ≡ shows (page_at true true new_task))
    × (page_at true true new_task ≢ login_page)
    × (failed.app ≡ visitor)
    × (failed.at ≡ visit.at)
    × (failed.form ≡ record form { error = "no"; busy = false })
login_replied-page_at_example =
    login_replied-page_at visitor true asked form "no" visitor-Ready is_sent
