-- ===== src/Gateway/LocalApp/Requests.antt =====
-- apps/gateway/src/local-app-session.ts: the tests of a request: cookie, origin, session and frame. `Web`
-- holds `trim` and what `JSON.parse` and the tests of its value make of a body.
use ai_verse_dashboard.Base.{
  ℕ, Bool, true, false, not, ◌&&◌, Option, none, some, List, [], ◌∷◌, ◌++◌, Outcome, ok, ltb, leb,
  ◌==◌, all, select, map, length, drop, if◌then◌else◌, ◌>>=◌, ◌>>◌, attempt, check,
}
use ai_verse_dashboard.Base.Text.{Text, text, ◌===◌, starts_with, is_word, member}
use ai_verse_dashboard.Base.Decimal.{decimal}
use ai_verse_dashboard.Gateway.LocalApp.{RequestState, active}
use ai_verse_dashboard.Gateway.LocalState.{
  AppFault, AppScope, Owner, LocalAppSession, owner_still_approved, same_text,
}

pub record Web : Type 0 where
  pub trim : Text → Text
  -- The string `code` of the object that the body is.
  pub code_of : Text → Option Text
  -- The string `workspaceId`, where it is the only key of the object that the body is.
  pub workspace_of : Text → Option Text

pub data Method : Type 0 where
  get : Method
  post : Method
  other : Method

unfoldable pub is_get : Method → Bool
is_get Method.get = true
is_get _ = false

unfoldable pub is_post : Method → Bool
is_post Method.post = true
is_post _ = false

pub record Request : Type 0 where
  pub method : Method
  pub pathname : Text
  -- `url.search || url.hash`
  pub has_query : Bool
  pub host : Option Text
  pub origin : Option Text
  pub content_type : Option Text
  pub cookie : Option Text

pub record Body : Type 0 where
  pub size : ℕ
  pub raw : Text
  pub failed : Bool

pub data Asset : Type 0 where
  html : Asset
  boot : Asset
  css : Asset
  chat : Asset

pub data Reply : Type 0 where
  -- `handle` returns false.
  not_ours : Reply
  refused : ℕ → AppFault → Reply
  asset : Asset → Reply
  catalog : Text → Reply
  request_is : Option (Text × RequestState) → Reply
  requested : Text → Reply
  session_of : AppScope → Reply
  -- The cookie is set to the token.
  paired : AppScope → Text → Reply
  logged_out : Reply
  -- The body is read next.
  reads_pair : Reply
  reads_request : Reply

unfoldable pub local_host : LocalAppSession → Text
local_host s = text "127.0.0.1:" ++ decimal s.port

-- `s.split(";")`
split_at_semicolon : Text → List Text
split_at_semicolon [] = [] ∷ []
split_at_semicolon (c ∷ s) =
    let rest = split_at_semicolon s in
    if c == b';'
    then [] ∷ rest
    else elim rest [ [] ↦ (c ∷ []) ∷ [] | piece ∷ pieces ↦ (c ∷ piece) ∷ pieces ]

unfoldable pub cookie_prefix : Text
cookie_prefix = text "aiverse_local_session="

unfoldable pub is_cookie_value : Text → Bool
is_cookie_value v = all is_word v && leb 32 (length v) && leb (length v) 256

only_cookie : List Text → Option Text
only_cookie (v ∷ []) =
    let value = drop (length cookie_prefix) v in if is_cookie_value value then some value else none
only_cookie _ = none

unfoldable pub read_cookie : Web → Request → Option Text
unfolding split_at_semicolon only_cookie
read_cookie web req = elim req.cookie [
  | none ↦ none
  | some raw ↦
      if ltb 4096 (length raw)
      then none
      else only_cookie (select (starts_with cookie_prefix) (map web.trim (split_at_semicolon raw)))
]

unfoldable pub origin_is_exact : Request → LocalAppSession → Outcome AppFault Bool
unfolding local_host
origin_is_exact req s =
    if same_text req.host (some (local_host s))
    then check (not (s.port == 0)) AppFault.not_bound
      >> ok (same_text req.origin (some (text "http://" ++ local_host s)))
    else ok false

unfoldable pub holds_token : Option Text → LocalAppSession → Bool
holds_token none s = false
holds_token (some cookie) s = cookie === s.session_token

unfoldable pub is_session : Web → Owner → ℕ → Request → LocalAppSession → Bool × LocalAppSession
unfolding holds_token
is_session web owner now req s =
    let (is_active, s') = active owner now s in
    (is_active && holds_token (read_cookie web req) s', s')

unfoldable pub is_authorized_browser :
    Web → Owner → ℕ → Request → LocalAppSession → Outcome AppFault Bool × LocalAppSession
unfolding is_session
is_authorized_browser web owner now req s = attempt (origin_is_exact req s) s λ exact.
    if exact
    then (let (granted, s') = is_session web owner now req s in (ok granted, s'))
    else (ok false, s)

-- The controller whose signal the request is bound to.
unfoldable pub active_browser_signal :
    Web → Owner → ℕ → Request → LocalAppSession → Outcome AppFault (Option ℕ) × LocalAppSession
unfolding is_authorized_browser
active_browser_signal web owner now req s =
    let (granted, s') = is_authorized_browser web owner now req s in
    (granted >>= λ g. ok (if g then some s'.session_abort else none), s')

unfoldable pub is_allowed_socket_system : Owner → Text → LocalAppSession → Bool
is_allowed_socket_system owner system_id s =
    owner_still_approved owner s && system_id === s.scope.system_id

unfoldable pub is_allowed_stream : Owner → ℕ → Text → LocalAppSession → Bool × LocalAppSession
is_allowed_stream owner now workspace_id s =
    if workspace_id === s.scope.workspace_id then active owner now s else (false, s)

unfoldable pub paired_browser_methods : List Text
paired_browser_methods =
    text "system.get"
    ∷ text "system.registry.summary"
    ∷ text "workspace.get"
    ∷ text "operator.activity"
    ∷ text "aiverse.gateway.status"
    ∷ text "aiverse.gateway.models"
    ∷ text "aiverse.gateway.run.create"
    ∷ text "aiverse.gateway.run.get"
    ∷ text "aiverse.gateway.run.diagnostics"
    ∷ text "aiverse.gateway.run.cancel"
    ∷ text "aiverse.gateway.run.pause"
    ∷ text "aiverse.gateway.run.resume"
    ∷ text "aiverse.gateway.session.list"
    ∷ text "aiverse.gateway.session.runs"
    ∷ text "aiverse.canvas.list"
    ∷ text "aiverse.canvas.get"
    ∷ text "aiverse.canvas.history"
    ∷ text "aiverse.canvas.create"
    ∷ text "aiverse.canvas.rename"
    ∷ text "aiverse.canvas.edit"
    ∷ text "aiverse.canvas.duplicate"
    ∷ text "aiverse.canvas.revert"
    ∷ text "aiverse.canvas.delete"
    ∷ []

-- The fields of a frame that are strings.
unfoldable pub is_allowed_frame :
    Owner → Option Text → Option Text → Option Text → LocalAppSession → Bool
is_allowed_frame owner method system_id workspace_id s =
    owner_still_approved owner s
    && elim method [ none ↦ false | some name ↦ member name paired_browser_methods ]
    && same_text system_id (some s.scope.system_id)
    && same_text workspace_id (some s.scope.workspace_id)
