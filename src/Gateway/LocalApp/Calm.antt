-- ===== src/Gateway/LocalApp/Calm.antt =====
-- Everything but the end of a pairing and a rotation leaves the attempts, the used mark and the time of
-- the session alone, but for an earlier end of the session.
pub mod Routes
use ai_verse_dashboard.Base.{
  ℕ, ◌+◌, ◌≤◌, ◌≡◌, refl, sym, ap, ◌∙◌, inl, inr, ◌⊎◌, Bool, true, false, not, ◌&&◌, ◌||◌, Option,
  none, some, List, [], ◌∷◌, Outcome, ok, err, arith, ltb, leb, ◌==◌, if◌then◌else◌, attempt, check,
  attempt-cases, Bool-cases, Option-cases, All,
}
use ai_verse_dashboard.Base.Text.{Text, text, ◌===◌, starts_with}
use ai_verse_dashboard.Gateway.LocalApp.{
  active, set_bound_port, set_listener, deny_request, track_socket, socket_closed, expire,
  open_request, pairing_is_open,
}
use ai_verse_dashboard.Gateway.LocalState.{
  AppFault, Owner, LocalAppSession, PendingRequest, WorkspaceIdentity, revoke, owner_still_approved,
  max_workspace_requests, capture_workspace, is_app_workspace, same_text,
}
use ai_verse_dashboard.Gateway.LocalApp.Requests.{
  Web, Request, Body, Reply, Asset, is_get, is_post, is_session, is_authorized_browser,
  origin_is_exact, is_allowed_stream, active_browser_signal, local_host,
}
use ai_verse_dashboard.Gateway.LocalApp.Routes.{
  Handled, begin, begin_pair, begin_request, finish_pair, finish_request, with_session,
  with_browser, with_chooser, with_request_slot, has_open_request, refuse, asset_route,
  session_route, catalog_route, request_route, propose, target_of, is_json,
}
use ai_verse_dashboard.Gateway.LocalApp.Actions.{
  Action, run, KeepsCode, no_reply, reply_of, active-cases, with_session-cases,
  is_authorized_browser-cases, with_browser-cases,
}

-- A code was compared.
abbrev pub guesses : Option Reply → ℕ
guesses (some (Reply.paired scope token)) = 1
guesses (some (Reply.refused status AppFault.pairing_denied)) = 1
guesses _ = 0

-- The code was right.
abbrev pub pairings : Option Reply → ℕ
pairings (some (Reply.paired scope token)) = 1
pairings _ = 0

abbrev pub IsCalm : LocalAppSession → Option Reply × LocalAppSession → Type 0
IsCalm s x =
    (x.1.attempts ≡ s.attempts)
    × (x.1.used ≡ s.used)
    × (x.1.sessions_until ≤ s.sessions_until)
    × (guesses x.0 ≡ 0)
    × (pairings x.0 ≡ 0)

unfoldable pub Calm : LocalAppSession → Handled → Type 0
unfolding reply_of
Calm s h = IsCalm s (reply_of h)

pub kept : {n : ℕ} → n ≤ n
kept = omega arith

module _ (s : LocalAppSession) where
  threw : (e : AppFault) → Calm s (err e, s)
  unfolding reply_of Calm
  threw e = (refl, refl, kept, refl, refl)

  pub answers :
      (reply : Reply) → guesses (some reply) ≡ 0 → pairings (some reply) ≡ 0 → Calm s (ok reply, s)
  unfolding Calm reply_of
  answers reply g p = (refl, refl, kept, g, p)

  pub refuses :
      (status : ℕ) (fault : AppFault)
      → guesses (some (Reply.refused status fault)) ≡ 0
      → Calm s (refuse status fault s)
  unfolding Calm reply_of refuse
  refuses status fault g = (refl, refl, kept, g, refl)

  pub ends :
      (reply : Reply)
      → guesses (some reply) ≡ 0
      → pairings (some reply) ≡ 0
      → Calm s (ok reply, revoke s)
  unfolding Calm reply_of revoke
  ends reply g p = (refl, refl, omega arith, g, p)

  pub begin_pair-Calm :
      (owner : Owner) (now : ℕ) (req : Request) → Calm s (begin_pair owner now req s)
  unfolding begin_pair refuse reply_of revoke Calm
  begin_pair-Calm owner now req =
      attempt-cases (Calm s) (origin_is_exact req s) s _ threw λ exact h.
        elim (Bool-cases (not (exact && is_json req))) [
          | inl e ↦ rw e (refl, refl, kept, refl, refl)
          | inr e ↦ elim (Bool-cases (not (owner_still_approved owner s))) [
            | inl e' ↦ rw (e, e') (refl, refl, omega arith, refl, refl)
            | inr e' ↦ elim (Bool-cases (not (pairing_is_open now s))) [
              | inl e'' ↦ rw (e, e', e'') (refl, refl, kept, refl, refl)
              | inr e'' ↦ rw (e, e', e'') (refl, refl, kept, refl, refl)
            ]
          ]
        ]

  pub with_session-Calm :
      (web : Web) (owner : Owner) (now : ℕ) (req : Request) (k : LocalAppSession → Handled)
      → Calm s (k s)
      → Calm s (with_session web owner now req s k)
  unfolding refuse reply_of revoke Calm
  with_session-Calm web owner now req k calm =
      with_session-cases (Calm s) web owner now req s k (refl, refl, kept, refl, refl)
        (refl, refl, omega arith, refl, refl) calm

  pub with_browser-Calm :
      (web : Web) (owner : Owner) (now : ℕ) (req : Request) (test : Bool)
      (k : LocalAppSession → Handled)
      → Calm s (k s)
      → Calm s (with_browser web owner now req test s k)
  unfolding refuse reply_of revoke Calm
  with_browser-Calm web owner now req test k calm =
      with_browser-cases (Calm s) web owner now req test s k threw (refl, refl, kept, refl, refl)
        (refl, refl, omega arith, refl, refl) calm

  with_chooser-Calm : (k : LocalAppSession → Handled) → Calm s (k s) → Calm s (with_chooser s k)
  unfolding with_chooser refuse reply_of Calm
  with_chooser-Calm k calm = elim (Bool-cases (s.has_listener && s.has_owner)) [
    | inl e ↦ rw e calm
    | inr e ↦ rw e (refl, refl, kept, refl, refl)
  ]

  with_request_slot-Calm :
      (now : ℕ) (k : LocalAppSession → Handled) → Calm s (k s) → Calm s (with_request_slot now s k)
  unfolding with_request_slot refuse reply_of Calm
  with_request_slot-Calm now k calm =
      elim (Bool-cases (leb max_workspace_requests s.request_count)) [
        | inl e ↦ rw e (refl, refl, kept, refl, refl)
        | inr e ↦ elim (Bool-cases (has_open_request now s)) [
          | inl e' ↦ rw (e, e') (refl, refl, kept, refl, refl)
          | inr e' ↦ rw (e, e') calm
        ]
      ]

  pub begin_request-Calm :
      (web : Web) (owner : Owner) (now : ℕ) (req : Request)
      → Calm s (begin_request web owner now req s)
  unfolding begin_request reply_of Calm
  begin_request-Calm web owner now req =
      with_browser-Calm web owner now req (is_json req)
        (λ s'. with_chooser s' λ s''. with_request_slot now s'' λ t. (ok Reply.reads_request, t))
        (with_chooser-Calm (λ s''. with_request_slot now s'' λ t. (ok Reply.reads_request, t))
          (with_request_slot-Calm now (λ t. (ok Reply.reads_request, t))
            (refl, refl, kept, refl, refl)))

  propose-Calm :
      (owner : Owner) (heard : Bool) (id target : Text) (now : ℕ)
      → Calm s (propose owner heard id target now s)
  unfolding propose refuse reply_of Calm
  propose-Calm owner heard id target now = go (capture_workspace owner s target) refl
    where
      go :
          (o : Outcome AppFault (Option WorkspaceIdentity))
          → capture_workspace owner s target ≡ o
          → Calm s (propose owner heard id target now s)
      go (err e) h = rw (propose, h) (refl, refl, kept, refl, refl)
      go (ok i) h = elim (Bool-cases heard) [
        | inl e ↦ rw (propose, h, e) (refl, refl, kept, refl, refl)
        | inr e ↦ rw (propose, h, e) (refl, refl, kept, refl, refl)
      ]

  target_of-Calm :
      (web : Web) (owner : Owner) (heard : Bool) (id : Text) (now : ℕ) (body : Body)
      → Calm s (target_of web owner heard id now body s)
  unfolding target_of refuse reply_of Calm
  target_of-Calm web owner heard id now body = elim (Option-cases (web.workspace_of body.raw)) [
    | inl none_ ↦ rw (target_of, none_) (refl, refl, kept, refl, refl)
    | inr (target, found) ↦
        elim (Bool-cases (not (is_app_workspace target) || target === s.scope.workspace_id)) [
          | inl e ↦ rw (target_of, found, e) (refl, refl, kept, refl, refl)
          | inr e ↦ rw (target_of, found, e) (propose-Calm owner heard id target now)
        ]
  ]

  pub finish_request-Calm :
      (web : Web) (owner : Owner) (heard : Bool) (id : Text) (now : ℕ) (req : Request) (body : Body)
      → Calm s (finish_request web owner heard id now req body s)
  unfolding finish_request refuse reply_of Calm
  finish_request-Calm web owner heard id now req body =
      elim (Bool-cases (body.failed || ltb 256 body.size)) [
        | inl e ↦ rw e (refl, refl, kept, refl, refl)
        | inr e ↦ rw e (
            with_browser-Calm web owner now req true
              (λ s'. with_request_slot now s' (target_of web owner heard id now body))
              (with_request_slot-Calm now (target_of web owner heard id now body)
                (target_of-Calm web owner heard id now body)))
      ]

  pub catalog_route-Calm : (listed : Bool) → Calm s (catalog_route listed s)
  unfolding catalog_route refuse reply_of Calm
  catalog_route-Calm true =
      with_chooser-Calm (λ t. (ok (Reply.catalog t.scope.workspace_id), t))
        (refl, refl, kept, refl, refl)
  catalog_route-Calm false =
      with_chooser-Calm (λ t. refuse 503 AppFault.catalog_unavailable t)
        (refl, refl, kept, refl, refl)

  pub request_route-Calm : (now : ℕ) → Calm s (request_route now s)
  unfolding request_route refuse reply_of Calm
  request_route-Calm now = elim (Bool-cases (not s.has_listener)) [
    | inl e ↦ rw e (refl, refl, kept, refl, refl)
    | inr e ↦ rw e (refl, refl, kept, refl, refl)
  ]
