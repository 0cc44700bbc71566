-- ===== src/Gateway/LocalApp/Pairing.antt =====
-- How often a pairing code serves: one pairing, five comparisons.
use ai_verse_dashboard.Base.{
  ℕ, ◌+◌, ◌≤◌, ◌<◌, ◌≡◌, max, refl, ap, inl, inr, Bool, true, false, not, ◌&&◌, ◌||◌, Option, some,
  List, [], ◌∷◌, ok, arith, ltb, leb, ◌==◌, if◌then◌else◌, check, attempt-cases, Bool-cases,
  Option-cases, All,
}
use ai_verse_dashboard.Base.Text.{Text, ◌===◌}
use ai_verse_dashboard.Gateway.LocalApp.{
  active, set_bound_port, set_listener, deny_request, track_socket, socket_closed, expire,
  open_request, pairing_is_open,
}
use ai_verse_dashboard.Gateway.LocalState.{
  AppFault, Owner, LocalAppSession, revoke, owner_still_approved, max_pair_attempts, same_text,
}
use ai_verse_dashboard.Gateway.LocalApp.Requests.{
  Web, Request, Body, Reply, is_authorized_browser, origin_is_exact, is_allowed_stream,
  active_browser_signal,
}
use ai_verse_dashboard.Gateway.LocalApp.Routes.{
  begin, finish_request, finish_pair, guess, admit, refuse,
}
use ai_verse_dashboard.Gateway.LocalApp.Actions.{
  Action, run, run_all, KeepsCode, no_reply, reply_of, active-cases, is_authorized_browser-cases,
}
use ai_verse_dashboard.Gateway.LocalApp.Calm.{
  guesses, pairings, IsCalm, Calm, kept, finish_request-Calm,
}
use ai_verse_dashboard.Gateway.LocalApp.Calm.Routes.{begin-Calm}

abbrev pub once : Bool → ℕ
once true = 1
once false = 0

-- What an action does to the attempts and to the used mark, by its reply.
abbrev Counts : LocalAppSession → Option Reply × LocalAppSession → Type 0
Counts s x =
    (x.1.attempts ≡ s.attempts + guesses x.0)
    × (x.1.attempts ≤ max max_pair_attempts s.attempts)
    × (once x.1.used ≡ once s.used + pairings x.0)

calm-Counts : (s : LocalAppSession) (x : Option Reply × LocalAppSession) → IsCalm s x → Counts s x
calm-Counts s x (attempts, used, until, g, p) =
    (omega arith, omega arith, omega (arith, ap once used))

guess-Counts :
    (s : LocalAppSession) (code : Option Text) (now : ℕ)
    → pairing_is_open now s ≡ true
    → Counts s (reply_of (guess code now s))
unfolding guess admit refuse reply_of pairing_is_open
guess-Counts s code now is_open =
    let unused : s.used ≡ false = ground arith in
    let few : s.attempts < max_pair_attempts = ground arith in
    elim (Bool-cases (same_text code (some s.pairing))) [
      | inl e ↦ rw e (refl, omega arith, omega (arith, ap once unused))
      | inr e ↦ rw e (refl, omega arith, omega arith)
    ]

finish_pair-Counts :
    (web : Web) (owner : Owner) (now : ℕ) (req : Request) (body : Body) (s : LocalAppSession)
    → Counts s (reply_of (finish_pair web owner now req body s))
unfolding finish_pair refuse reply_of revoke
finish_pair-Counts web owner now req body s = elim (Bool-cases (body.failed || ltb 512 body.size)) [
  | inl e ↦ rw e (omega arith, omega arith, omega arith)
  | inr e ↦ rw e (
      attempt-cases (λ h. Counts s (reply_of h)) (origin_is_exact req s) s _
        (λ f. (omega arith, omega arith, omega arith))
        λ exact h. elim (Bool-cases (not (exact && owner_still_approved owner s))) [
          | inl e' ↦ rw e' (omega arith, omega arith, omega arith)
          | inr e' ↦ elim (Bool-cases (pairing_is_open now s)) [
            | inl e'' ↦ rw (e', e'') (guess-Counts s (web.code_of body.raw) now e'')
            | inr e'' ↦ rw (e', e'') (omega arith, omega arith, omega arith)
          ]
        ])
]

pub active-IsCalm :
    (owner : Owner) (now : ℕ) (s : LocalAppSession) → IsCalm s (no_reply (active owner now s).1)
unfolding no_reply revoke
active-IsCalm owner now s =
    active-cases (λ x. IsCalm s (no_reply x.1)) owner now s (λ b. (refl, refl, kept, refl, refl))
      (refl, refl, omega arith, refl, refl)

run-Counts : (a : Action) (s : LocalAppSession) → KeepsCode a → Counts s (run a s)
unfolding run Calm no_reply revoke active_browser_signal is_allowed_stream track_socket
    socket_closed set_bound_port set_listener deny_request expire
run-Counts (Action.begins web owner has_assets listed now req) s k =
    calm-Counts s (reply_of (begin web owner has_assets listed now req s))
      (begin-Calm s web owner has_assets listed now req)
run-Counts (Action.finishes_pair web owner now req body) s k =
    finish_pair-Counts web owner now req body s
run-Counts (Action.finishes_request web owner heard id now req body) s k =
    calm-Counts s (reply_of (finish_request web owner heard id now req body s))
      (finish_request-Calm s web owner heard id now req body)
run-Counts (Action.binds_signal web owner now req) s k =
    calm-Counts s (no_reply (is_authorized_browser web owner now req s).1) (
      is_authorized_browser-cases (λ x. IsCalm s (no_reply x.1)) web owner now req s
        (λ e. (refl, refl, kept, refl, refl)) (λ b. (refl, refl, kept, refl, refl))
        (refl, refl, omega arith, refl, refl))
run-Counts (Action.streams owner now workspace_id) s k =
    elim (Bool-cases (workspace_id === s.scope.workspace_id)) [
      | inl e ↦ rw e (calm-Counts s (no_reply (active owner now s).1) (active-IsCalm owner now s))
      | inr e ↦ rw e (omega arith, omega arith, omega arith)
    ]
run-Counts (Action.tracks owner now ws) s k =
    active-cases
      (λ x. Counts s (
        no_reply (
          if x.0
          then record x.1 { sockets = ws ∷ x.1.sockets }
          else record x.1 { closed = ws ∷ x.1.closed })))
      owner now s
      (λ b. elim (Bool-cases b) [
        | inl e ↦ rw e (omega arith, omega arith, omega arith)
        | inr e ↦ rw e (omega arith, omega arith, omega arith)
      ])
      (omega arith, omega arith, omega arith)
run-Counts (Action.loses_socket ws) s k = (omega arith, omega arith, omega arith)
run-Counts (Action.binds_port port) s k =
    attempt-cases (λ x. Counts s (no_reply x.1))
      (check (s.port == 0 && leb 1 port && leb port 65535) AppFault.port_invalid) s
      (λ _. (ok tt, record s { port = port })) (λ e. (omega arith, omega arith, omega arith))
      (λ u h. (omega arith, omega arith, omega arith))
run-Counts Action.listens s k =
    attempt-cases (λ x. Counts s (no_reply x.1))
      (check (s.has_owner && not s.has_listener) AppFault.host_authority_required) s
      (λ _. (ok tt, record s { has_listener = true }))
      (λ e. (omega arith, omega arith, omega arith))
      (λ u h. (omega arith, omega arith, omega arith))
run-Counts (Action.rotates owner workspace_id pairing token now) s k = absurd k
run-Counts (Action.approves owner id pairing token now) s k = absurd k
run-Counts (Action.denies id now) s k =
    attempt-cases (λ x. Counts s (no_reply x.1)) (open_request id now s) s
      (λ r. (ok tt, record s { pending_request = some (record r { denied = true }) }))
      (λ e. (omega arith, omega arith, omega arith))
      (λ u h. (omega arith, omega arith, omega arith))
run-Counts (Action.times_out now) s k = elim (Option-cases s.expiry_timer) [
  | inl none_ ↦ rw none_ (omega arith, omega arith, omega arith)
  | inr (at_time, found) ↦ elim (Bool-cases (leb at_time now)) [
    | inl e ↦ rw (found, e) (omega arith, omega arith, omega arith)
    | inr e ↦ rw (found, e) (omega arith, omega arith, omega arith)
  ]
]
run-Counts Action.closes s k = (omega arith, omega arith, omega arith)

-- How many replies of a history compare a code, and how many pair a browser.
abbrev pub total : (Option Reply → ℕ) → List (Option Reply) → ℕ
total f [] = 0
total f (reply ∷ replies) = f reply + total f replies

-- As long as the host does not rotate the code, a history pairs at most one browser, none once the code
-- is used, and compares codes at most five times, less the attempts already made: whatever bodies,
-- requests, logouts and expiries come in between, and in whatever order.
pub code_serves_once :
    (actions : List Action) (s : LocalAppSession)
    → All KeepsCode actions
    → (total pairings (run_all actions s).0 + once s.used ≤ 1)
      × (total guesses (run_all actions s).0 + s.attempts ≤ max max_pair_attempts s.attempts)
unfolding run_all
code_serves_once [] s keep = elim (Bool-cases s.used) [
  | inl e ↦ rw e (omega arith, omega arith)
  | inr e ↦ rw e (omega arith, omega arith)
]
code_serves_once (a ∷ actions) s keep =
    let (attempts, bounded, used) = run-Counts a s keep.0 in
    let (later, later') = code_serves_once actions (run a s).1 keep.1 in (omega arith, omega arith)
