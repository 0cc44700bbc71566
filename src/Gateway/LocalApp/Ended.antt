-- ===== src/Gateway/LocalApp/Ended.antt =====
-- A session that has ended admits no request until a browser is paired anew.
use ai_verse_dashboard.Base.{
  ℕ, ◌≤◌, ◌≡◌, refl, inl, inr, true, false, not, ◌&&◌, ◌||◌, Option, none, some, List, [], ◌∷◌, ok,
  arith, ltb, leb, ◌==◌, if◌then◌else◌, check, attempt-cases, Bool-cases, Option-cases, ◌>>◌,
}
use ai_verse_dashboard.Base.Text.{Text, ◌===◌}
use ai_verse_dashboard.Gateway.LocalApp.{
  active, set_bound_port, set_listener, deny_request, track_socket, socket_closed, expire,
  open_request, pairing_is_open, rotate_workspace, approve_request,
}
use ai_verse_dashboard.Gateway.LocalState.{
  AppFault, Owner, LocalAppSession, revoke, owner_still_approved, same_text, capture_workspace,
  is_app_workspace, same_identity,
}
use ai_verse_dashboard.Gateway.LocalApp.Requests.{
  Web, Request, Body, Reply, origin_is_exact, is_allowed_stream, active_browser_signal, is_session,
}
use ai_verse_dashboard.Gateway.LocalApp.Routes.{finish_pair, guess, admit, refuse}
use ai_verse_dashboard.Gateway.LocalApp.Actions.{
  Action, run, run_all, no_reply, reply_of, active-cases, is_authorized_browser-cases,
}
use ai_verse_dashboard.Gateway.LocalApp.Calm.{pairings, Calm, kept, finish_request-Calm}
use ai_verse_dashboard.Gateway.LocalApp.Calm.Routes.{begin-Calm}
use ai_verse_dashboard.Gateway.LocalApp.Pairing.{total, active-IsCalm}

-- Without a pairing, the session does not last longer.
abbrev Shortens : LocalAppSession → Option Reply × LocalAppSession → Type 0
Shortens s x = pairings x.0 ≡ 0 → x.1.sessions_until ≤ s.sessions_until

same : (s : LocalAppSession) (reply : Option Reply) → Shortens s (reply, s)
same s reply p = omega arith

guess-Shortens :
    (s : LocalAppSession) (code : Option Text) (now : ℕ) → Shortens s (reply_of (guess code now s))
unfolding guess admit refuse reply_of
guess-Shortens s code now = elim (Bool-cases (same_text code (some s.pairing))) [
  | inl e ↦ rw e (λ p. absurd (omega arith))
  | inr e ↦ rw e (λ p. omega arith)
]

finish_pair-Shortens :
    (web : Web) (owner : Owner) (now : ℕ) (req : Request) (body : Body) (s : LocalAppSession)
    → Shortens s (reply_of (finish_pair web owner now req body s))
unfolding finish_pair refuse reply_of revoke
finish_pair-Shortens web owner now req body s =
    elim (Bool-cases (body.failed || ltb 512 body.size)) [
      | inl e ↦ rw e (λ p. omega arith)
      | inr e ↦ rw e (
          attempt-cases (λ h. Shortens s (reply_of h)) (origin_is_exact req s) s _
            (λ f p. omega arith)
            λ exact h. elim (Bool-cases (not (exact && owner_still_approved owner s))) [
              | inl e' ↦ rw e' (λ p. omega arith)
              | inr e' ↦ elim (Bool-cases (pairing_is_open now s)) [
                | inl e'' ↦ rw (e', e'') (guess-Shortens s (web.code_of body.raw) now)
                | inr e'' ↦ rw (e', e'') (λ p. omega arith)
              ]
            ])
    ]

rotate-Shortens :
    (owner : Owner) (workspace_id pairing token : Text) (now : ℕ) (s : LocalAppSession)
    → Shortens s (no_reply (rotate_workspace owner workspace_id pairing token now s).1)
unfolding rotate_workspace revoke no_reply
rotate-Shortens owner workspace_id pairing token now s =
    attempt-cases (λ x. Shortens s (no_reply x.1))
      (check s.has_owner AppFault.host_authority_required
        >> (check (is_app_workspace workspace_id) AppFault.scope_invalid
            >> (check (owner_still_approved owner s) AppFault.os_binding_stale
                >> capture_workspace owner s workspace_id)))
      s _ (λ e p. omega arith) (λ identity h p. omega arith)

approve-Shortens :
    (owner : Owner) (id pairing token : Text) (now : ℕ) (s : LocalAppSession)
    → Shortens s (no_reply (approve_request owner id pairing token now s).1)
unfolding approve_request no_reply
approve-Shortens owner id pairing token now s =
    attempt-cases (λ x. Shortens s (no_reply x.1)) (open_request id now s) s _ (λ e p. omega arith)
      λ r found.
        attempt-cases (λ x. Shortens s (no_reply x.1))
          (check (owner_still_approved owner s) AppFault.os_binding_stale
            >> capture_workspace owner s r.workspace_id)
          s _ (λ e p. omega arith)
          λ candidate h.
            attempt-cases (λ x. Shortens s (no_reply x.1))
              (check (same_identity candidate r.identity) AppFault.workspace_changed) s _
              (λ e p. omega arith) λ u h'. rotate-Shortens owner r.workspace_id pairing token now s

run-Shortens : (a : Action) (s : LocalAppSession) → Shortens s (run a s)
unfolding run Calm no_reply revoke active_browser_signal is_allowed_stream track_socket
    socket_closed set_bound_port set_listener deny_request expire
run-Shortens (Action.begins web owner has_assets listed now req) s =
    λ p. (begin-Calm s web owner has_assets listed now req).2
run-Shortens (Action.finishes_pair web owner now req body) s =
    λ p. finish_pair-Shortens web owner now req body s p
run-Shortens (Action.finishes_request web owner heard id now req body) s =
    λ p. (finish_request-Calm s web owner heard id now req body).2
run-Shortens (Action.binds_signal web owner now req) s =
    is_authorized_browser-cases (λ x. Shortens s (no_reply x.1)) web owner now req s
      (λ e. same s none) (λ b. same s none) (λ p. omega arith)
run-Shortens (Action.streams owner now workspace_id) s =
    elim (Bool-cases (workspace_id === s.scope.workspace_id)) [
      | inl e ↦ rw e (λ p. (active-IsCalm owner now s).2)
      | inr e ↦ rw e (same s none)
    ]
run-Shortens (Action.tracks owner now ws) s =
    active-cases
      (λ x. Shortens s (
        no_reply (
          if x.0
          then record x.1 { sockets = ws ∷ x.1.sockets }
          else record x.1 { closed = ws ∷ x.1.closed })))
      owner now s (λ b. elim (Bool-cases b) [ inl e ↦ rw e (λ p. kept) | inr e ↦ rw e (λ p. kept) ])
      (λ p. omega arith)
run-Shortens (Action.loses_socket ws) s = λ p. kept
run-Shortens (Action.binds_port port) s =
    attempt-cases (λ x. Shortens s (no_reply x.1))
      (check (s.port == 0 && leb 1 port && leb port 65535) AppFault.port_invalid) s
      (λ _. (ok tt, record s { port = port })) (λ e. same s none) (λ u h p. kept)
run-Shortens Action.listens s =
    attempt-cases (λ x. Shortens s (no_reply x.1))
      (check (s.has_owner && not s.has_listener) AppFault.host_authority_required) s
      (λ _. (ok tt, record s { has_listener = true })) (λ e. same s none) (λ u h p. kept)
run-Shortens (Action.rotates owner workspace_id pairing token now) s =
    rotate-Shortens owner workspace_id pairing token now s
run-Shortens (Action.approves owner id pairing token now) s =
    approve-Shortens owner id pairing token now s
run-Shortens (Action.denies id now) s =
    attempt-cases (λ x. Shortens s (no_reply x.1)) (open_request id now s) s
      (λ r. (ok tt, record s { pending_request = some (record r { denied = true }) }))
      (λ e. same s none) (λ r h p. kept)
run-Shortens (Action.times_out now) s = elim (Option-cases s.expiry_timer) [
  | inl none_ ↦ rw none_ (same s none)
  | inr (at_time, found) ↦ elim (Bool-cases (leb at_time now)) [
    | inl e ↦ rw (found, e) (λ p. omega arith)
    | inr e ↦ rw (found, e) (same s none)
  ]
]
run-Shortens Action.closes s = λ p. omega arith

run_all-ended :
    (actions : List Action) (s : LocalAppSession)
    → s.sessions_until ≡ 0
    → total pairings (run_all actions s).0 ≡ 0
    → (run_all actions s).1.sessions_until ≡ 0
unfolding run_all
run_all-ended [] s ended none_paired = ended
run_all-ended (a ∷ actions) s ended none_paired =
    run_all-ended actions (run a s).1 (omega (arith, run-Shortens a s (omega arith))) (omega arith)

-- Behind the end of a session (`revoke`, which sets its time to 0), no history without a new pairing
-- lets a request pass as a session, whatever cookie it carries and whatever the owner approves.
pub ended_session_admits_nobody :
    (actions : List Action) (s : LocalAppSession) (web : Web) (owner : Owner) (now : ℕ)
    (req : Request)
    → total pairings (run_all actions (revoke s)).0 ≡ 0
    → (is_session web owner now req (run_all actions (revoke s)).1).0 ≡ false
unfolding is_session active revoke
ended_session_admits_nobody actions s web owner now req none_paired =
    let last = (run_all actions (revoke s)).1 in
    let over : last.sessions_until ≡ 0 = run_all-ended actions (revoke s) refl none_paired in
    elim (Bool-cases (owner_still_approved owner last)) [
      | inl e ↦ rw e (ground arith)
      | inr e ↦ rw e refl
    ]
