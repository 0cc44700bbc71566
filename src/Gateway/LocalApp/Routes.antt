-- ===== src/Gateway/LocalApp/Routes.antt =====
-- apps/gateway/src/local-app-session.ts: the HTTP routes of `handle`. A route that reads a body is two
-- steps, since other requests run while it waits: `begin` up to the body, and `finish_pair` or
-- `finish_request` behind it.
use ai_verse_dashboard.Base.{
  ℕ, ◌+◌, Bool, true, false, not, ◌&&◌, ◌||◌, Option, none, some, Outcome, ok, err, ltb, leb,
  if◌then◌else◌, attempt,
}
use ai_verse_dashboard.Base.Text.{Text, text, ◌===◌, starts_with}
use ai_verse_dashboard.Gateway.LocalApp.{
  RequestState, pairing_is_open, is_open_request, request_state,
}
use ai_verse_dashboard.Gateway.LocalState.{
  AppFault, Owner, LocalAppSession, PendingRequest, revoke, owner_still_approved,
  max_workspace_requests, capture_workspace, is_app_workspace, session_ttl, same_text,
}
use ai_verse_dashboard.Gateway.LocalApp.Requests.{
  Web, Request, Body, Asset, Reply, is_get, is_post, local_host, origin_is_exact, is_session,
  is_authorized_browser,
}

abbrev pub Handled : Type 0
Handled = Outcome AppFault Reply × LocalAppSession

unfoldable pub refuse : ℕ → AppFault → LocalAppSession → Handled
refuse status fault s = (ok (Reply.refused status fault), s)

unfoldable pub is_json : Request → Bool
is_json req = same_text req.content_type (some (text "application/json"))

-- For a request that carries the session, else 401.
unfoldable pub with_session :
    Web → Owner → ℕ → Request → LocalAppSession → (LocalAppSession → Handled) → Handled
unfolding is_session refuse
with_session web owner now req s k =
    let (granted, s') = is_session web owner now req s in
    if granted then k s' else refuse 401 AppFault.unpaired s'

-- For an authorized browser and a further test, else 403.
unfoldable pub with_browser :
    Web → Owner → ℕ → Request → Bool → LocalAppSession → (LocalAppSession → Handled) → Handled
unfolding is_authorized_browser refuse
with_browser web owner now req test s k =
    let (granted, s') = is_authorized_browser web owner now req s in
    attempt granted s' λ g. if g && test then k s' else refuse 403 AppFault.origin_denied s'

unfoldable pub has_open_request : ℕ → LocalAppSession → Bool
unfolding is_open_request
has_open_request now s = elim s.pending_request [ none ↦ false | some r ↦ is_open_request now r ]

-- The limits on workspace requests, which are tested before and behind the body.
unfoldable pub with_request_slot : ℕ → LocalAppSession → (LocalAppSession → Handled) → Handled
unfolding has_open_request refuse
with_request_slot now s k =
    if leb max_workspace_requests s.request_count
    then refuse 429 AppFault.request_limit s
    else if has_open_request now s
    then refuse 409 AppFault.request_pending s
    else k s

unfoldable pub asset_route : Web → Owner → ℕ → Request → LocalAppSession → Option Handled
unfolding with_session
asset_route web owner now req s =
    if req.pathname === text "/local-app/" || req.pathname === text "/local-app/index.html"
    then some (ok (Reply.asset Asset.html), s)
    else if req.pathname === text "/local-app/boot.js"
    then some (ok (Reply.asset Asset.boot), s)
    else if req.pathname === text "/local-app/chat.css"
    then some (ok (Reply.asset Asset.css), s)
    else if req.pathname === text "/local-app/chat.js"
    then some (with_session web owner now req s λ s'. (ok (Reply.asset Asset.chat), s'))
    else none

unfoldable pub begin_pair : Owner → ℕ → Request → LocalAppSession → Handled
unfolding origin_is_exact refuse revoke pairing_is_open
begin_pair owner now req s = attempt (origin_is_exact req s) s λ exact.
    if not (exact && is_json req)
    then refuse 403 AppFault.origin_denied s
    else if not (owner_still_approved owner s)
    then refuse 403 AppFault.os_binding_stale (revoke s)
    else if not (pairing_is_open now s)
    then refuse 403 AppFault.pairing_expired s
    else (ok Reply.reads_pair, s)

-- The code was right.
unfoldable pub admit : ℕ → LocalAppSession → Handled
admit now s = (
  ok (Reply.paired s.scope s.session_token),
  record s {
    used = true;
    session_abort = s.session_abort + 1;
    sessions_until = now + session_ttl;
    expiry_timer = some (now + session_ttl);
  },
)

unfoldable pub guess : Option Text → ℕ → LocalAppSession → Handled
unfolding admit refuse
guess code now s =
    let tried = record s { attempts = s.attempts + 1 } in
    if same_text code (some s.pairing)
    then admit now tried
    else refuse 403 AppFault.pairing_denied tried

unfoldable pub finish_pair : Web → Owner → ℕ → Request → Body → LocalAppSession → Handled
unfolding origin_is_exact refuse revoke pairing_is_open guess
finish_pair web owner now req body s =
    if body.failed || ltb 512 body.size
    then refuse 400 AppFault.pairing_invalid s
    else attempt (origin_is_exact req s) s λ exact.
      if not (exact && owner_still_approved owner s)
      then refuse 403 AppFault.os_binding_stale (revoke s)
      else if not (pairing_is_open now s)
      then refuse 403 AppFault.pairing_expired s
      else guess (web.code_of body.raw) now s

unfoldable pub with_chooser : LocalAppSession → (LocalAppSession → Handled) → Handled
unfolding refuse
with_chooser s k =
    if s.has_listener && s.has_owner then k s else refuse 403 AppFault.chooser_unavailable s

unfoldable pub begin_request : Web → Owner → ℕ → Request → LocalAppSession → Handled
unfolding with_browser with_chooser with_request_slot
begin_request web owner now req s =
    with_browser web owner now req (is_json req) s
      λ s'. with_chooser s' λ s''. with_request_slot now s'' λ t. (ok Reply.reads_request, t)

-- `heard`: the listener returns without a throw.
unfoldable pub propose : Owner → Bool → Text → Text → ℕ → LocalAppSession → Handled
unfolding capture_workspace refuse
propose owner heard id target now s = elim (capture_workspace owner s target) [
  | err e ↦ refuse 404 AppFault.workspace_invalid s
  | ok identity ↦
      let r : PendingRequest = record {
        id = id;
        workspace_id = target;
        at = now;
        identity = identity;
        denied = false;
      } in
      if heard
      then (
        ok (Reply.requested id),
        record s { pending_request = some r; request_count = s.request_count + 1 },
      )
      else refuse 503 AppFault.host_unavailable
          (record s { pending_request = none; request_count = s.request_count + 1 })
]

-- Behind the tests that are repeated after the body.
unfoldable pub target_of : Web → Owner → Bool → Text → ℕ → Body → LocalAppSession → Handled
unfolding propose refuse
target_of web owner heard id now body s = elim (web.workspace_of body.raw) [
  | none ↦ refuse 400 AppFault.workspace_invalid s
  | some target ↦
      if not (is_app_workspace target) || target === s.scope.workspace_id
      then refuse 400 AppFault.workspace_invalid s
      else propose owner heard id target now s
]

unfoldable pub finish_request :
    Web → Owner → Bool → Text → ℕ → Request → Body → LocalAppSession → Handled
unfolding with_browser with_request_slot target_of refuse
finish_request web owner heard id now req body s =
    if body.failed || ltb 256 body.size
    then refuse 400 AppFault.request_invalid s
    else with_browser web owner now req true s
        (λ s'. with_request_slot now s' (target_of web owner heard id now body))

-- `listed`: `listWorkspaces` returns without a throw.
unfoldable pub catalog_route : Bool → LocalAppSession → Handled
unfolding with_chooser refuse
catalog_route listed s = with_chooser s λ t.
    if listed
    then (ok (Reply.catalog t.scope.workspace_id), t)
    else refuse 503 AppFault.catalog_unavailable t

state_of_request : ℕ → Option PendingRequest → Option (Text × RequestState)
unfolding request_state
state_of_request now none = none
state_of_request now (some r) = some (r.id, request_state now r)

unfoldable pub request_route : ℕ → LocalAppSession → Handled
unfolding state_of_request refuse
request_route now s =
    if not s.has_listener
    then refuse 403 AppFault.chooser_unavailable s
    else (ok (Reply.request_is (state_of_request now s.pending_request)), s)

unfoldable pub session_route : Web → Owner → Bool → ℕ → Request → LocalAppSession → Handled
unfolding with_session with_browser catalog_route request_route begin_request begin_pair refuse
    revoke
session_route web owner listed now req s =
    let read = is_get req.method in
    let write = is_post req.method in
    if req.pathname === text "/local-app/workspaces" && read
    then with_session web owner now req s (catalog_route listed)
    else if req.pathname === text "/local-app/workspace-request" && read
    then with_session web owner now req s (request_route now)
    else if req.pathname === text "/local-app/workspace-request" && write
    then begin_request web owner now req s
    else if req.pathname === text "/local-app/session" && read
    then with_session web owner now req s (λ s'. (ok (Reply.session_of s'.scope), s'))
    else if req.pathname === text "/local-app/pair" && write
    then begin_pair owner now req s
    else if req.pathname === text "/local-app/logout" && write
    then with_browser web owner now req true s (λ s'. (ok Reply.logged_out, revoke s'))
    else refuse 404 AppFault.route_unknown s

-- `handle`, up to the body of the two routes that read one. `has_assets`: `assets` is given.
unfoldable pub begin : Web → Owner → Bool → Bool → ℕ → Request → LocalAppSession → Handled
unfolding asset_route session_route refuse
begin web owner has_assets listed now req s =
    if not (starts_with (text "/local-app/") req.pathname)
    then (ok Reply.not_ours, s)
    else if not (same_text req.host (some (local_host s))) || req.has_query
    then refuse 403 AppFault.origin_denied s
    else let asset : Option Handled =
        if has_assets && is_get req.method then asset_route web owner now req s else none in
      elim asset [ some handled ↦ handled | none ↦ session_route web owner listed now req s ]
