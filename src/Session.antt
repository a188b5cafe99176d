-- ===== src/Session.antt =====
-- packages/ui/src/App.tsx and pages/LoginPage.tsx: the start of the application, the pages that a
-- visitor may see, sign in and sign out.
pub mod Access
use modelshelf.Common.{
  String, List, [], ◌∷◌, ◌++◌, Bool, true, false, ◌||◌, not, Option, none, some, get_or,
  if◌then◌else◌, truthy, str_eq, ◌&◌,
}
use modelshelf.Common.Scan.{begins_with}
use modelshelf.Queue.Page.{Reply, ok, failed_with}

-- The paths of the routes; any other path is `unknown`.
pub data Route : Type 0 where
  login index integration artifacts tasks new_task : Route
  artifact task unknown : String → Route

unfoldable pub path_of : Route → String
path_of login = "/login"
path_of index = "/"
path_of integration = "/integration"
path_of artifacts = "/artifacts"
path_of tasks = "/tasks"
path_of new_task = "/tasks/new"
path_of (artifact id) = "/artifacts/" & id
path_of (task id) = "/tasks/" & id
path_of (unknown path) = path

-- The state variables of `App`.
pub record App : Type 0 where
  pub authenticated : Option Bool
  pub public_artifacts : Option Bool
  pub bootstrap_error : String

abbrev pub started : App
started = record { authenticated = none; public_artifacts = none; bootstrap_error = "" }

-- What `initialize` needs of the session and of the server's information.
pub record Initial : Type 0 where
  pub session_authenticated : Bool
  pub info_public_artifacts : Bool

-- `initialize`, for the reply to both requests
unfoldable pub initialized : Reply Initial → App → App
initialized (ok i) app = record app {
  authenticated = some i.session_authenticated;
  public_artifacts = some i.info_public_artifacts;
}
initialized (failed_with message) app = record app { bootstrap_error = message }

pub data Page : Type 0 where
  bootstrap_failed : String → Page
  opening login_page integration_page tasks_page new_task_page : Page
  -- with `canManage`
  artifacts_page : Bool → Page

-- What a location shows: a page, or a redirect, which may keep where it comes from.
pub data Element : Type 0 where
  shows : Page → Element
  goes_to : Route → Option Route → Element

unfoldable pub default_path : Bool → Bool → Route
default_path authenticated public_artifacts =
    if authenticated then tasks else if public_artifacts then artifacts else login

-- `Protected`
unfoldable pub protected : Bool → Route → Page → Element
protected authenticated from page = if authenticated then shows page else goes_to login (some from)

-- `ArtifactAccess`
unfoldable pub artifact_access : Bool → Bool → Route → Element
artifact_access authenticated public_artifacts from =
    if authenticated || public_artifacts
    then shows (artifacts_page authenticated)
    else goes_to login (some from)

-- `Routes`
unfoldable pub element_of : Bool → Bool → Route → Element
unfolding default_path protected artifact_access
element_of authenticated public_artifacts login = shows login_page
element_of authenticated public_artifacts index =
    goes_to (default_path authenticated public_artifacts) none
element_of authenticated public_artifacts integration = shows integration_page
element_of authenticated public_artifacts artifacts =
    artifact_access authenticated public_artifacts artifacts
element_of authenticated public_artifacts (artifact id) =
    artifact_access authenticated public_artifacts (artifact id)
element_of authenticated public_artifacts tasks = protected authenticated tasks tasks_page
element_of authenticated public_artifacts new_task = protected authenticated new_task new_task_page
element_of authenticated public_artifacts (task id) = protected authenticated (task id) tasks_page
element_of authenticated public_artifacts (unknown path) =
    goes_to (default_path authenticated public_artifacts) none

element_if : Option Bool → Option Bool → Route → Element
unfolding element_of
element_if (some authenticated) (some public_artifacts) route =
    element_of authenticated public_artifacts route
element_if _ _ route = shows opening

-- `App`
unfoldable pub render : App → Route → Element
unfolding element_if
render app route =
    if truthy app.bootstrap_error
    then shows (bootstrap_failed app.bootstrap_error)
    else element_if app.authenticated app.public_artifacts route

-- Where a visitor was when sent to sign in: `location`, with the text of its parameters and its
-- fragment.
pub record Place : Type 0 where
  pub route : Route
  pub search : String
  pub hash : String

-- A location with its state `from`.
pub record Location : Type 0 where
  pub route : Route
  pub search : String
  pub hash : String
  pub from : Option Place

-- A location that is given by its path alone
abbrev pub plain_location : Route → Location
plain_location route = record { route = route; search = ""; hash = ""; from = none }

-- `state={{ from: location }}`
abbrev pub state_from : Option Route → Location → Option Place
state_from none at = none
state_from (some route) at = some (record { route = route; search = at.search; hash = at.hash })

-- One redirect.
unfoldable pub follow : App → Location → Location
unfolding render
follow app at = elim (render app at.route) [
  | shows page ↦ at
  | goes_to route from ↦ record (plain_location route) { from = state_from from at }
]

-- The state variables of `LoginPage`.
pub record LoginForm : Type 0 where
  pub password : String
  pub error : String
  pub busy : Bool
  pub show_password : Bool

-- The state of the application with its location.
pub record Visit : Type 0 where
  pub app : App
  pub at : Location
  pub form : LoginForm

-- `submit` up to its request
unfoldable pub login_begins : LoginForm → LoginForm
login_begins f = record f { busy = true; error = "" }

-- `from ?? "/tasks"`, where `from` is the path only
abbrev pub return_to : Option Place → Route
return_to none = tasks
return_to (some place) = place.route

-- and from the reply on: the location has the path, without parameters, fragment or state.
unfoldable pub login_replied : Reply (Unit {0}) → Visit → Visit
login_replied (ok _) v = record {
  app = record (v.app) { authenticated = some true };
  at = plain_location (return_to v.at.from);
  form = record (v.form) { busy = false };
}
login_replied (failed_with message) v = record v {
  form = record (v.form) { error = message; busy = false };
}

-- The state variables of `Shell`.
pub record Shell : Type 0 where
  pub logout_error : String
  pub logging_out : Bool

-- `logout` up to its request; a second click does nothing.
unfoldable pub logout_begins : Shell → Bool × Shell
logout_begins s =
    if s.logging_out then (false, s) else (true, record { logging_out = true; logout_error = "" })

-- and from the reply on.
unfoldable pub logout_replied : Reply (Unit {0}) → App → Location → Shell → App × Location × Shell
logout_replied (ok _) app at s = (
  record app { authenticated = some false },
  plain_location (if get_or app.public_artifacts false then artifacts else login),
  record s { logging_out = false },
)
logout_replied (failed_with message) app at s =
    (app, at, record { logging_out = false; logout_error = message })

-- `screen`: the details of an item have the screen of their list.
unfoldable pub screen_of : String → String
screen_of path =
    if begins_with path "/artifacts"
    then "/artifacts"
    else if str_eq path "/tasks/new"
    then "/tasks/new"
    else if begins_with path "/tasks"
    then "/tasks"
    else path

abbrev pub home : Bool → Bool → Route
home true public_artifacts = tasks
home false true = artifacts
home false false = integration

unfoldable pub links : Bool → List Route
links authenticated = (if authenticated then tasks ∷ [] else []) ++ artifacts ∷ integration ∷ []
