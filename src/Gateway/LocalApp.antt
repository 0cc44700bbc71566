-- ===== src/Gateway/LocalApp.antt =====
-- apps/gateway/src/local-app-session.ts: the construction of `LocalApplicationSession` and the methods of the
-- trusted host, with `now` for `Date.now()` and the random texts as arguments.
pub mod Requests
pub mod Routes
pub mod Actions
pub mod Calm
pub mod Pairing
pub mod Ended
pub mod Approval
mod Examples
use ai_verse_dashboard.Base.{
  ℕ, ◌+◌, ◌*◌, Bool, true, false, not, ◌&&◌, ◌||◌, Option, none, some, List, [], ◌∷◌, ◌++◌, Outcome,
  ok, err, ltb, leb, ◌==◌, all, select, length, if◌then◌else◌, ◌>>=◌, ◌>>◌, attempt, check, last?,
  take, take_last,
}
use ai_verse_dashboard.Base.Text.{
  Text, text, ◌===◌, starts_with, is_slug, is_slug_head, is_word, member,
}
use ai_verse_dashboard.Base.Decimal.{decimal}
use ai_verse_dashboard.Gateway.LocalState.{
  AppFault, max_pair_attempts, pair_ttl, session_ttl, workspace_request_ttl, max_workspace_requests,
  is_app_id, is_app_workspace, WorkspaceIdentity, AppScope, Owner, PendingRequest, LocalAppSession,
  operator_id, capture_workspace, same_text, same_number, same_identity, is_there,
  owner_still_approved, revoke,
}

-- `born`, the codes and the owner's answers at the construction.
unfoldable pub new_session :
    AppScope → Option Owner → Text → Text → ℕ → Outcome AppFault LocalAppSession
unfolding capture_workspace is_there
new_session scope owner pairing token now =
    let bare : LocalAppSession = record {
      port = 0;
      pairing = pairing;
      born = now;
      session_token = token;
      session_abort = 0;
      aborted = [];
      scope = scope;
      has_owner = false;
      owner_root = none;
      owner_generation = none;
      workspace_identity = none;
      has_listener = false;
      request_count = 0;
      pending_request = none;
      sessions_until = 0;
      attempts = 0;
      used = false;
      sockets = [];
      closed = [];
      expiry_timer = none;
    } in
    check (is_app_id scope.system_id && is_app_workspace scope.workspace_id) AppFault.scope_invalid
    >> elim owner [
      | none ↦ ok bare
      | some o ↦
          let owned = record bare {
            has_owner = true;
            owner_root = o.root;
            owner_generation = o.generation;
          } in
          check (is_there o.root && is_there o.generation) AppFault.owner_refused
          >> (capture_workspace o owned scope.workspace_id >>= λ identity.
              ok (record owned { workspace_identity = identity }))
    ]

unfoldable pub active : Owner → ℕ → LocalAppSession → Bool × LocalAppSession
unfolding revoke
active owner now s =
    if owner_still_approved owner s
    then (not (s.port == 0) && ltb now s.sessions_until, s)
    else (false, revoke s)

unfoldable pub set_bound_port : ℕ → LocalAppSession → Outcome AppFault (Unit {0}) × LocalAppSession
set_bound_port port s =
    attempt (check (s.port == 0 && leb 1 port && leb port 65535) AppFault.port_invalid) s
      λ _. (ok tt, record s { port = port })

unfoldable pub set_listener : LocalAppSession → Outcome AppFault (Unit {0}) × LocalAppSession
set_listener s =
    attempt (check (s.has_owner && not s.has_listener) AppFault.host_authority_required) s
      λ _. (ok tt, record s { has_listener = true })

unfoldable pub pairing_is_open : ℕ → LocalAppSession → Bool
pairing_is_open now s =
    not (s.used || leb max_pair_attempts s.attempts || ltb (s.born + pair_ttl) now)

unfoldable pub pairing_code : Owner → ℕ → LocalAppSession → Outcome AppFault Text
unfolding pairing_is_open
pairing_code owner now s =
    check (owner_still_approved owner s) AppFault.os_binding_stale
    >> (check (pairing_is_open now s) AppFault.pairing_expired >> ok s.pairing)

-- Whether a request is pending and not past its time.
unfoldable pub is_open_request : ℕ → PendingRequest → Bool
is_open_request now r = not r.denied && leb now (r.at + workspace_request_ttl)

-- A request is found by its id while it is open.
unfoldable pub open_request : Text → ℕ → LocalAppSession → Outcome AppFault PendingRequest
unfolding is_open_request
open_request id now s = elim s.pending_request [
  | none ↦ err AppFault.request_invalid
  | some r ↦ if r.id === id && is_open_request now r then ok r else err AppFault.request_invalid
]

unfoldable pub rotate_workspace :
    Owner → Text → Text → Text → ℕ → LocalAppSession → Outcome AppFault (Unit {0}) × LocalAppSession
unfolding capture_workspace revoke
rotate_workspace owner workspace_id pairing token now s =
    attempt
      (check s.has_owner AppFault.host_authority_required
        >> (check (is_app_workspace workspace_id) AppFault.scope_invalid
            >> (check (owner_still_approved owner s) AppFault.os_binding_stale
                >> capture_workspace owner s workspace_id)))
      s
      λ identity. (
        ok tt,
        record (revoke s) {
          scope = record s.scope { workspace_id = workspace_id };
          workspace_identity = identity;
          pairing = pairing;
          session_token = token;
          born = now;
          attempts = 0;
          used = false;
          pending_request = none;
          request_count = 0;
        },
      )

unfoldable pub approve_request :
    Owner → Text → Text → Text → ℕ → LocalAppSession → Outcome AppFault Text × LocalAppSession
unfolding open_request capture_workspace rotate_workspace same_identity
approve_request owner id pairing token now s = attempt (open_request id now s) s λ r.
    attempt
      (check (owner_still_approved owner s) AppFault.os_binding_stale
        >> capture_workspace owner s r.workspace_id)
      s
      λ candidate.
        attempt (check (same_identity candidate r.identity) AppFault.workspace_changed) s λ _.
          let (rotated, s') = rotate_workspace owner r.workspace_id pairing token now s in
          (rotated >> ok r.workspace_id, s')

unfoldable pub deny_request :
    Text → ℕ → LocalAppSession → Outcome AppFault (Unit {0}) × LocalAppSession
unfolding open_request
deny_request id now s =
    attempt (open_request id now s) s
      λ r. (ok tt, record s { pending_request = some (record r { denied = true }) })

unfoldable pub track_socket : Owner → ℕ → ℕ → LocalAppSession → LocalAppSession
unfolding active
track_socket owner now ws s =
    let (is_active, s') = active owner now s in
    if is_active
    then record s' { sockets = ws ∷ s'.sockets }
    else record s' { closed = ws ∷ s'.closed }

-- `ws.once("close", ...)`
unfoldable pub socket_closed : ℕ → LocalAppSession → LocalAppSession
socket_closed ws s = record s { sockets = select (λ w. not (w == ws)) s.sockets }

-- The timer that the successful pairing has set, once its time has come.
unfoldable pub expire : ℕ → LocalAppSession → LocalAppSession
unfolding revoke
expire now s = elim s.expiry_timer [
  | none ↦ s
  | some at_time ↦ if leb at_time now then revoke s else s
]

pub data RequestState : Type 0 where
  pending : RequestState
  denied : RequestState
  expired : RequestState

unfoldable pub request_state : ℕ → PendingRequest → RequestState
request_state now r =
    if r.denied
    then RequestState.denied
    else if ltb (r.at + workspace_request_ttl) now
    then RequestState.expired
    else RequestState.pending

unfoldable pub pending_for_host :
    Owner → ℕ → LocalAppSession → Outcome AppFault (Option (PendingRequest × RequestState))
unfolding request_state
pending_for_host owner now s =
    check (s.has_owner && s.has_listener) AppFault.host_authority_required
    >> (check (owner_still_approved owner s) AppFault.os_binding_stale
        >> elim s.pending_request [ none ↦ ok none | some r ↦ ok (some (r, request_state now r)) ])
