-- ===== src/Gateway/LocalApp/Actions.antt =====
-- What can happen to a `LocalApplicationSession`, as a data type, so that a history is a list of actions,
-- and the replies that a history gives.
use ai_verse_dashboard.Base.{
  ℕ, inl, inr, Bool, false, not, ◌&&◌, Option, none, some, List, [], ◌∷◌, Outcome, ok, err, ltb,
  ◌==◌, if◌then◌else◌, attempt, attempt-cases, Bool-cases,
}
use ai_verse_dashboard.Base.Text.{Text}
use ai_verse_dashboard.Gateway.LocalApp.{
  active, set_bound_port, set_listener, rotate_workspace, approve_request, deny_request,
  track_socket, socket_closed, expire,
}
use ai_verse_dashboard.Gateway.LocalState.{
  AppFault, Owner, LocalAppSession, revoke, owner_still_approved,
}
use ai_verse_dashboard.Gateway.LocalApp.Requests.{
  Web, Request, Body, Reply, is_session, is_authorized_browser, origin_is_exact, is_allowed_stream,
  active_browser_signal, holds_token, read_cookie,
}
use ai_verse_dashboard.Gateway.LocalApp.Routes.{
  Handled, begin, finish_pair, finish_request, with_session, with_browser, refuse,
}

pub data Action : Type 0 where
  begins : Web → Owner → Bool → Bool → ℕ → Request → Action
  finishes_pair : Web → Owner → ℕ → Request → Body → Action
  finishes_request : Web → Owner → Bool → Text → ℕ → Request → Body → Action
  -- A canonical RPC asks for its signal.
  binds_signal : Web → Owner → ℕ → Request → Action
  -- An event is about to be forwarded to a browser.
  streams : Owner → ℕ → Text → Action
  tracks : Owner → ℕ → ℕ → Action
  loses_socket : ℕ → Action
  binds_port : ℕ → Action
  listens : Action
  rotates : Owner → Text → Text → Text → ℕ → Action
  approves : Owner → Text → Text → Text → ℕ → Action
  denies : Text → ℕ → Action
  times_out : ℕ → Action
  closes : Action

unfoldable pub no_reply : LocalAppSession → Option Reply × LocalAppSession
no_reply s = (none, s)

unfoldable pub reply_of : Handled → Option Reply × LocalAppSession
reply_of (ok reply, s) = (some reply, s)
reply_of (err fault, s) = (none, s)

-- The reply, where the action is the handling of a request, and the session after it.
unfoldable pub run : Action → LocalAppSession → Option Reply × LocalAppSession
unfolding no_reply reply_of revoke
run (Action.begins web owner has_assets listed now req) s =
    reply_of (begin web owner has_assets listed now req s)
run (Action.finishes_pair web owner now req body) s =
    reply_of (finish_pair web owner now req body s)
run (Action.finishes_request web owner heard id now req body) s =
    reply_of (finish_request web owner heard id now req body s)
run (Action.binds_signal web owner now req) s =
    no_reply (active_browser_signal web owner now req s).1
run (Action.streams owner now workspace_id) s =
    no_reply (is_allowed_stream owner now workspace_id s).1
run (Action.tracks owner now ws) s = no_reply (track_socket owner now ws s)
run (Action.loses_socket ws) s = no_reply (socket_closed ws s)
run (Action.binds_port port) s = no_reply (set_bound_port port s).1
run Action.listens s = no_reply (set_listener s).1
run (Action.rotates owner workspace_id pairing token now) s =
    no_reply (rotate_workspace owner workspace_id pairing token now s).1
run (Action.approves owner id pairing token now) s =
    no_reply (approve_request owner id pairing token now s).1
run (Action.denies id now) s = no_reply (deny_request id now s).1
run (Action.times_out now) s = no_reply (expire now s)
run Action.closes s = no_reply (revoke s)

unfoldable pub run_all : List Action → LocalAppSession → List (Option Reply) × LocalAppSession
run_all [] s = ([], s)
run_all (a ∷ actions) s =
    let (reply, s') = run a s in let (replies, last) = run_all actions s' in (reply ∷ replies, last)

-- The host neither rotates the workspace nor approves a request for one.
abbrev pub KeepsCode : Action → Type 0
KeepsCode (Action.rotates owner workspace_id pairing token now) = ⊥
KeepsCode (Action.approves owner id pairing token now) = ⊥
KeepsCode _ = Unit

pub active-cases {ℓ} :
    (P : Bool × LocalAppSession → Type ℓ) (owner : Owner) (now : ℕ) (s : LocalAppSession)
    → ((b : Bool) → P (b, s))
    → P (false, revoke s)
    → P (active owner now s)
unfolding active
active-cases P owner now s kept revoked = elim (Bool-cases (owner_still_approved owner s)) [
  | inl e ↦ rw (active, e) (kept (not (s.port == 0) && ltb now s.sessions_until))
  | inr e ↦ rw (active, e) revoked
]

pub with_session-cases {ℓ} :
    (P : Handled → Type ℓ) (web : Web) (owner : Owner) (now : ℕ) (req : Request)
    (s : LocalAppSession) (k : LocalAppSession → Handled)
    → P (refuse 401 AppFault.unpaired s)
    → P (refuse 401 AppFault.unpaired (revoke s))
    → P (k s)
    → P (with_session web owner now req s k)
unfolding with_session is_session
with_session-cases P web owner now req s k kept revoked granted =
    active-cases
      (λ x. P (
        if x.0 && holds_token (read_cookie web req) x.1
        then k x.1
        else refuse 401 AppFault.unpaired x.1))
      owner now s
      (λ b. elim (Bool-cases (b && holds_token (read_cookie web req) s)) [
        | inl e ↦ rw e granted
        | inr e ↦ rw e kept
      ])
      revoked

pub is_authorized_browser-cases {ℓ} :
    (P : Outcome AppFault Bool × LocalAppSession → Type ℓ) (web : Web) (owner : Owner) (now : ℕ)
    (req : Request) (s : LocalAppSession)
    → ((e : AppFault) → P (err e, s))
    → ((b : Bool) → P (ok b, s))
    → P (ok false, revoke s)
    → P (is_authorized_browser web owner now req s)
unfolding is_authorized_browser is_session
is_authorized_browser-cases P web owner now req s threw kept revoked =
    attempt-cases P (origin_is_exact req s) s _ threw λ exact h. elim (Bool-cases exact) [
      | inl e ↦ rw e (
          active-cases (λ x. P (ok (x.0 && holds_token (read_cookie web req) x.1), x.1)) owner now s
            (λ b. kept (b && holds_token (read_cookie web req) s)) revoked)
      | inr e ↦ rw e (kept false)
    ]

pub with_browser-cases {ℓ} :
    (P : Handled → Type ℓ) (web : Web) (owner : Owner) (now : ℕ) (req : Request) (test : Bool)
    (s : LocalAppSession) (k : LocalAppSession → Handled)
    → ((e : AppFault) → P (err e, s))
    → P (refuse 403 AppFault.origin_denied s)
    → P (refuse 403 AppFault.origin_denied (revoke s))
    → P (k s)
    → P (with_browser web owner now req test s k)
unfolding with_browser
with_browser-cases P web owner now req test s k threw kept revoked granted =
    is_authorized_browser-cases
      (λ x.
        P (attempt x.0 x.1 λ g. if g && test then k x.1 else refuse 403 AppFault.origin_denied x.1))
      web owner now req s threw
      (λ b. elim (Bool-cases (b && test)) [ inl e ↦ rw e granted | inr e ↦ rw e kept ]) revoked
