-- ===== src/Live/Activity/Published.antt =====
-- Whom a live event reaches, and from which session it comes.
use mathlib.Core.List.{Memᴰ}
use ai_verse_dashboard.Base.{
  ℕ, ◌≡◌, ap, ◌∙◌, sym, subst, inl, inr, Option, none, some, ok, bind-ok, ok-injective, Bool-cases,
}
use ai_verse_dashboard.Base.Text.{Text, NoColon, ◌===◌, ===_sound}
use ai_verse_dashboard.Base.Map.{values}
use ai_verse_dashboard.Live.Sessions.{SessionStore, ChatSession, get}
use ai_verse_dashboard.Live.Sessions.Invariant.{IsWellFormed}
use ai_verse_dashboard.Live.Sessions.Isolation.{get-isolates}
use ai_verse_dashboard.Live.Activity.{
  LivePublish, LivePayload, live_event, check_session, publish_live,
}
use ai_verse_dashboard.Gateway.Subscriptions.{
  DeliveredEvent, Sub, SubscriptionHub, Publication, publish,
}
use ai_verse_dashboard.Gateway.Subscriptions.Delivery.{Covers, publish-calls_sound}

-- The session that an event is about: of the event's system and workspace, with the event's id.
abbrev pub IsSource : {P : Type 0} → LivePublish P → ChatSession → Type 0
IsSource p s =
    (s.system_id ≡ p.system_id) × (s.session_id ≡ p.session_id) × (s.workspace_id ≡ p.workspace_id)

module _ {P : Type 0} (p : LivePublish P) where
  check_session-ok :
      (o : Option ChatSession) (s : ChatSession)
      → check_session o p ≡ ok s
      → (o ≡ some s) × (s.workspace_id ≡ p.workspace_id)
  unfolding check_session
  check_session-ok none s h = absurd (cc h)
  check_session-ok (some t) s h = elim (Bool-cases (t.workspace_id === p.workspace_id)) [
    | inr other ↦ absurd (cc (rw (check_session, other) at h))
    | inl same ↦
        let here : t ≡ s = ok-injective t s (rw (check_session, same) at h) in
        (ap some here, ap (λ u. u.workspace_id) (sym here) ∙ ===_sound _ _ same)
  ]

  -- Whoever is called for a live event of a session whose id has no colon, in a store that is well
  -- formed, has subscribed to its system, and to its workspace or to none, and the event is that of a
  -- session of that system, that workspace and that id, which the store holds.
  pub publish_live-calls_sound :
      (digest : LivePayload P → Text) (now : ℕ) (sessions : SessionStore) (hub : SubscriptionHub)
      (r : Publication (LivePayload P)) (id : Text) (d : DeliveredEvent (LivePayload P))
      → IsWellFormed sessions
      → NoColon p.session_id
      → publish_live digest p now sessions hub ≡ ok r
      → Memᴰ (id, d) r.calls
      → ((s : ChatSession) × (get p.system_id p.session_id sessions ≡ some s) × IsSource p s)
        × ((sub : Sub) × Memᴰ sub (values hub.subs)
            × (sub.id ≡ id)
            × Covers sub (live_event p)
            × (d.event ≡ live_event p))
  unfolding publish_live
  publish_live-calls_sound digest now sessions hub r id d well plain h m =
      let (s, checked, made) =
        bind-ok (check_session (get p.system_id p.session_id sessions) p) _ r h in
      let (found, same) = check_session-ok (get p.system_id p.session_id sessions) s checked in
      let (of_system, of_id) = get-isolates p.system_id p.session_id sessions s well plain found in
      let published = ok-injective (publish digest (live_event p) now hub) r made in
      (
        (s, found, (of_system, of_id, same)),
        publish-calls_sound digest (live_event p) now hub id d
            (subst (λ q. Memᴰ (id, d) q.calls) (sym published) m),
      )
