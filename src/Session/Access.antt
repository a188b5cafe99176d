-- ===== src/Session/Access.antt =====
-- Which pages a visitor sees.
use modelshelf.Common.{
  String, Bool, true, false, ◌||◌, Option, some, get_or, if◌then◌else◌, truthy, ◌≡◌, ◌≢◌, refl, sym,
  ap, ◌∙◌, arith,
}
use modelshelf.Queue.Page.{ok, failed_with}
use modelshelf.Session.{
  Route, login, index, integration, artifacts, tasks, new_task, artifact, task, unknown, App, Page,
  bootstrap_failed, opening, login_page, integration_page, tasks_page, new_task_page,
  artifacts_page, Element, shows, goes_to, element_of, render, Location, Place, plain_location,
  return_to, follow, LoginForm, Visit, login_begins, login_replied, Shell, logout_replied,
  logout_begins,
}

-- The pages that a visitor may see.
unfoldable pub Allowed : Bool → Bool → Page → Type 0
Allowed authenticated public_artifacts tasks_page = authenticated ≡ true
Allowed authenticated public_artifacts new_task_page = authenticated ≡ true
Allowed authenticated public_artifacts (artifacts_page can_manage) =
    ((authenticated || public_artifacts) ≡ true) × (can_manage ≡ authenticated)
Allowed authenticated public_artifacts opening = ⊥
Allowed authenticated public_artifacts (bootstrap_failed message) = ⊥
Allowed authenticated public_artifacts login_page = Unit
Allowed authenticated public_artifacts integration_page = Unit

-- The application has read the session and the server's information.
pub record Ready (app : App) (authenticated public_artifacts : Bool) : Type 0 where
  pub no_error : truthy app.bootstrap_error ≡ false
  pub knows_session : app.authenticated ≡ some authenticated
  pub knows_access : app.public_artifacts ≡ some public_artifacts

-- What a visitor sees in the end: the page of the route, or what stands in for it.
unfoldable pub page_at : Bool → Bool → Route → Page
page_at a p login = login_page
page_at a p integration = integration_page
page_at a p artifacts = if a || p then artifacts_page a else login_page
page_at a p (artifact id) = if a || p then artifacts_page a else login_page
page_at a p tasks = if a then tasks_page else login_page
page_at a p (task id) = if a then tasks_page else login_page
page_at a p new_task = if a then new_task_page else login_page
page_at a p index = if a then tasks_page else if p then artifacts_page false else login_page
page_at a p (unknown path) =
    if a then tasks_page else if p then artifacts_page false else login_page

page_at-Allowed : (a p : Bool) (route : Route) → Allowed a p (page_at a p route)
unfolding page_at Allowed
page_at-Allowed true p login = tt
page_at-Allowed false p login = tt
page_at-Allowed a p integration = tt
page_at-Allowed true p _ = ground arith
page_at-Allowed false true _ = ground arith
page_at-Allowed false false _ = ground arith

abbrev target : Element → Route → Route
target (shows page) route = route
target (goes_to there from) route = there

element_of-page_at :
    (a p : Bool) (route : Route)
    → element_of a p (target (element_of a p route) route) ≡ shows (page_at a p route)
unfolding element_of page_at
element_of-page_at a p route = ground arith

render-element_of :
    (app : App) (a p : Bool) (route : Route)
    → Ready app a p
    → render app route ≡ element_of a p route
unfolding render
render-element_of app a p route r = ground arith

follow-target :
    (app : App) (at : Location) → (follow app at).route ≡ target (render app at.route) at.route
unfolding follow
follow-target app at = ground arith

-- Once the application is ready, every location shows a page after at most one redirect, and a
-- visitor sees only pages that are allowed: the downloads only when signed in, the artifacts also if
-- they are public, and their management only when signed in.
pub follow-Allowed :
    (app : App) (a p : Bool) (at : Location)
    → Ready app a p
    → (render app (follow app at).route ≡ shows (page_at a p at.route))
      × Allowed a p (page_at a p at.route)
follow-Allowed app a p at r = (
  render-element_of app a p (follow app at).route r
      ∙ ap (element_of a p) (
          follow-target app at ∙ ap (λ e. target e at.route) (render-element_of app a p at.route r))
      ∙ element_of-page_at a p at.route,
  page_at-Allowed a p at.route,
)

sent_back :
    (p : Bool) (asked : Route)
    → element_of false p asked ≡ goes_to login (some asked)
    → (element_of true p asked ≡ shows (page_at true p asked)) × (page_at true p asked ≢ login_page)
unfolding element_of page_at
sent_back p asked e = ground arith

-- A visitor asks for a location, follows its redirect, and sends the form.
abbrev pub arriving : App → Location → LoginForm → Visit
arriving app asked form = record { app = app; at = follow app asked; form = login_begins form }

-- A visitor who is sent to sign in from a page comes back to it: after the sign-in succeeds, the
-- location has the path that was asked for, which shows that page without a redirect, but neither the
-- parameters nor the fragment that were asked for. A sign-in that fails keeps the application, the
-- location, the password and whether it is shown, and shows its message.
pub login_replied-page_at :
    (app : App) (p : Bool) (asked : Location) (form : LoginForm) (message : String)
    → Ready app false p
    → render app asked.route ≡ goes_to login (some asked.route)
    → let visit = arriving app asked form in
      let done = login_replied (ok tt) visit in
      let failed = login_replied (failed_with message) visit in
      (render app visit.at.route ≡ shows login_page)
      × (done.at ≡ plain_location asked.route)
      × (render done.app done.at.route ≡ shows (page_at true p asked.route))
      × (page_at true p asked.route ≢ login_page)
      × (failed.app ≡ app)
      × (failed.at ≡ visit.at)
      × (failed.form ≡ record form { error = message; busy = false })
unfolding follow login_replied login_begins element_of
login_replied-page_at app p asked form message r sends =
    let place : Place = record { route = asked.route; search = asked.search; hash = asked.hash } in
    let stand : follow app asked ≡ record (plain_location login) { from = some place } =
      ground (arith, sends) in
    let signed_in : App = record app { authenticated = some true } in
    let ready : Ready signed_in true p = record {
      no_error = r.no_error;
      knows_session = refl;
      knows_access = r.knows_access;
    } in
    let back =
      sent_back p asked.route (sym (render-element_of app false p asked.route r) ∙ sends) in
    (
      ap (λ l. render app l.route) stand ∙ render-element_of app false p login r,
      ap (λ l. plain_location (return_to l.from)) stand,
      ap (λ l. render signed_in (return_to l.from)) stand
          ∙ render-element_of signed_in true p asked.route ready
          ∙ back.0,
      back.1,
      refl,
      refl,
      refl,
    )

left_at :
    (p : Bool)
    → (element_of false p (if p then artifacts else login)
        ≡ shows (if p then artifacts_page false else login_page))
      × Allowed false p (if p then artifacts_page false else login_page)
unfolding element_of Allowed
left_at true = (refl, (refl, refl))
left_at false = (refl, tt)

-- A sign-out is requested only once at a time; one that succeeds leaves the visitor at a page that
-- is allowed without a session, without a redirect, and one that fails keeps the session and the
-- location and shows its message; none is under way afterwards.
pub logout_replied-Allowed :
    (app : App) (p : Bool) (at : Location) (shell : Shell)
    → Ready app true p
    → (shell.logging_out ≡ true → logout_begins shell ≡ (false, shell))
      × (let (after, there, done) = logout_replied (ok tt) app at (logout_begins shell).1 in
          (done.logging_out ≡ false)
          × (render after there.route ≡ shows (if p then artifacts_page false else login_page))
          × Allowed false p (if p then artifacts_page false else login_page))
      × ((message : String)
          → let (after, there, done) =
              logout_replied (failed_with message) app at (logout_begins shell).1 in
            (after ≡ app)
            × (there ≡ at)
            × (done.logging_out ≡ false)
            × (done.logout_error ≡ message))
unfolding logout_replied logout_begins
logout_replied-Allowed app p at shell r =
    let signed_out : App = record app { authenticated = some false } in
    let ready : Ready signed_out false p = record {
      no_error = r.no_error;
      knows_session = refl;
      knows_access = r.knows_access;
    } in
    let there = λ (o : Option Bool). if get_or o false then artifacts else login in
    (
      (λ busy. ground arith),
      (
        refl,
        ap (λ o. render signed_out (there o)) r.knows_access
            ∙ render-element_of signed_out false p (there (some p)) ready
            ∙ (left_at p).0,
        (left_at p).1,
      ),
      λ message. (refl, refl, refl, refl),
    )
