-- ===== src/Gateway/LocalApp/Calm/Routes.antt =====
-- `begin`, over all its routes, is calm.
use ai_verse_dashboard.Base.{
  ℕ, refl, Bool, true, false, ◌&&◌, Option, none, some, ok, if◌then◌else◌,
}
use ai_verse_dashboard.Gateway.LocalState.{AppFault, Owner, LocalAppSession, revoke}
use ai_verse_dashboard.Gateway.LocalApp.Requests.{Web, Request, Reply, Asset, is_get}
use ai_verse_dashboard.Gateway.LocalApp.Routes.{
  Handled, begin, asset_route, session_route, catalog_route, request_route,
}
use ai_verse_dashboard.Gateway.LocalApp.Calm.{
  Calm, answers, refuses, ends, begin_pair-Calm, with_session-Calm, with_browser-Calm,
  begin_request-Calm, catalog_route-Calm, request_route-Calm,
}

module _ (s : LocalAppSession) where
  if-Calm : (b : Bool) (h h' : Handled) → Calm s h → Calm s h' → Calm s (if b then h else h')
  if-Calm true h h' calm calm' = calm
  if-Calm false h h' calm calm' = calm'

  session_route-Calm :
      (web : Web) (owner : Owner) (listed : Bool) (now : ℕ) (req : Request)
      → Calm s (session_route web owner listed now req s)
  unfolding session_route revoke
  session_route-Calm web owner listed now req =
      if-Calm _ _ _
        (with_session-Calm s web owner now req (catalog_route listed) (catalog_route-Calm s listed))
        (if-Calm _ _ _
          (with_session-Calm s web owner now req (request_route now) (request_route-Calm s now))
          (if-Calm _ _ _ (begin_request-Calm s web owner now req) (
            if-Calm _ _ _
              (with_session-Calm s web owner now req (λ s'. (ok (Reply.session_of s'.scope), s'))
                (answers s (Reply.session_of s.scope) refl refl))
              (if-Calm _ _ _ (begin_pair-Calm s owner now req) (
                if-Calm _ _ _
                  (with_browser-Calm s web owner now req true
                    (λ s'. (ok Reply.logged_out, revoke s')) (ends s Reply.logged_out refl refl))
                  (refuses s 404 AppFault.route_unknown refl))))))

  AllCalm : Option Handled → Type 0
  AllCalm none = Unit
  AllCalm (some h) = Calm s h

  AllCalm-none : AllCalm none
  unfolding AllCalm
  AllCalm-none = tt

  AllCalm-some : (h : Handled) → Calm s h → AllCalm (some h)
  unfolding AllCalm
  AllCalm-some h calm = calm

  if-AllCalm :
      (b : Bool) (o o' : Option Handled) → AllCalm o → AllCalm o' → AllCalm (if b then o else o')
  if-AllCalm true o o' calm calm' = calm
  if-AllCalm false o o' calm calm' = calm'

  asset_route-Calm :
      (web : Web) (owner : Owner) (now : ℕ) (req : Request)
      → AllCalm (asset_route web owner now req s)
  unfolding asset_route
  asset_route-Calm web owner now req =
      if-AllCalm _ _ _ (AllCalm-some _ (answers s (Reply.asset Asset.html) refl refl)) (
        if-AllCalm _ _ _ (AllCalm-some _ (answers s (Reply.asset Asset.boot) refl refl)) (
          if-AllCalm _ _ _ (AllCalm-some _ (answers s (Reply.asset Asset.css) refl refl)) (
            if-AllCalm _ _ _
              (AllCalm-some _ (
                with_session-Calm s web owner now req (λ s'. (ok (Reply.asset Asset.chat), s'))
                  (answers s (Reply.asset Asset.chat) refl refl)))
              AllCalm-none)))

  or_route-Calm :
      (o : Option Handled) (h : Handled)
      → AllCalm o
      → Calm s h
      → Calm s (elim o [ some handled ↦ handled | none ↦ h ])
  unfolding AllCalm
  or_route-Calm none h all_calm calm = calm
  or_route-Calm (some h') h all_calm calm = all_calm

  pub begin-Calm :
      (web : Web) (owner : Owner) (has_assets listed : Bool) (now : ℕ) (req : Request)
      → Calm s (begin web owner has_assets listed now req s)
  unfolding begin
  begin-Calm web owner has_assets listed now req =
      if-Calm _ _ _ (answers s Reply.not_ours refl refl) (
        if-Calm _ _ _ (refuses s 403 AppFault.origin_denied refl) (
          or_route-Calm _ _
            (if-AllCalm (has_assets && is_get req.method) _ _ (asset_route-Calm web owner now req)
              AllCalm-none)
            (session_route-Calm web owner listed now req)))
