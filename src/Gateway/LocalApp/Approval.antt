-- ===== src/Gateway/LocalApp/Approval.antt =====
-- When the host's approval of a workspace request rotates the session.
use ai_verse_dashboard.Base.{
  ℕ, ◌+◌, ◌≤◌, ◌≡◌, refl, ap, ◌∙◌, subst, inl, inr, true, false, ◌&&◌, Option, none, some, [], ◌∷◌,
  ◌++◌, Outcome, ok, arith, leb→le, check, check-ok, bind-ok, attempt-cases, Bool-cases,
  Option-cases, ◌>>◌,
}
use ai_verse_dashboard.Base.Text.{Text, ◌===◌, ===_sound}
use ai_verse_dashboard.Gateway.LocalApp.{
  open_request, is_open_request, rotate_workspace, approve_request,
}
use ai_verse_dashboard.Gateway.LocalState.{
  AppFault, Owner, LocalAppSession, PendingRequest, WorkspaceIdentity, revoke, owner_still_approved,
  capture_workspace, is_app_workspace, same_identity, workspace_request_ttl,
}

same_identity_sound : (a b : Option WorkspaceIdentity) → same_identity a b ≡ true → a ≡ b
unfolding same_identity
same_identity_sound none none h = refl
same_identity_sound (some a) (some b) h =
    let p = ===_sound a.root b.root (ground arith) in
    let q : a.dev ≡ b.dev = ground arith in
    let r : a.ino ≡ b.ino = ground arith in λ i. some (record { root = p i; dev = q i; ino = r i })
same_identity_sound none (some b) h = absurd (cc h)
same_identity_sound (some a) none h = absurd (cc h)

open_request_sound :
    (id : Text) (now : ℕ) (s : LocalAppSession) (r : PendingRequest)
    → open_request id now s ≡ ok r
    → (s.pending_request ≡ some r)
      × (r.id ≡ id)
      × (r.denied ≡ false)
      × (now ≤ r.at + workspace_request_ttl)
unfolding open_request is_open_request
open_request_sound id now s r = elim (Option-cases s.pending_request) [
  | inl none_ ↦ rw (open_request, none_) (λ h. absurd (cc h))
  | inr (q, found) ↦ elim (Bool-cases (q.id === id && is_open_request now q)) [
    | inl e ↦
        rw (open_request, found, e)
          (λ h.
            let one : q ≡ r = cc h in
            subst
              (λ t.
                (some q ≡ some t)
                × (t.id ≡ id)
                × (t.denied ≡ false)
                × (now ≤ t.at + workspace_request_ttl))
              one
              (
                refl,
                ===_sound q.id id (ground arith),
                ground arith,
                leb→le now (q.at + workspace_request_ttl) (ground arith),
              ))
    | inr e ↦ rw (open_request, found, e) (λ h. absurd (cc h))
  ]
]

-- A rotation that succeeds ends the old session and starts a fresh pairing.
abbrev pub IsRotated : LocalAppSession → Text → Text → Text → ℕ → LocalAppSession → Type 0
IsRotated s workspace_id pairing token now s' =
    (s'.scope ≡ record { system_id = s.scope.system_id; workspace_id = workspace_id })
    × (s'.sessions_until ≡ 0)
    × (s'.sockets ≡ [])
    × (s'.closed ≡ s.sockets ++ s.closed)
    × (s'.aborted ≡ s.session_abort ∷ s.aborted)
    × (s'.pending_request ≡ none)
    × (s'.pairing ≡ pairing)
    × (s'.session_token ≡ token)
    × (s'.born ≡ now)
    × (s'.used ≡ false)
    × (s'.attempts ≡ 0)

rotate_workspace_sound :
    (owner : Owner) (workspace_id pairing token : Text) (now : ℕ) (s : LocalAppSession)
    (u : Unit {0})
    → (rotate_workspace owner workspace_id pairing token now s).0 ≡ ok u
    → IsRotated s workspace_id pairing token now
        (rotate_workspace owner workspace_id pairing token now s).1
unfolding rotate_workspace revoke
rotate_workspace_sound owner workspace_id pairing token now s u =
    attempt-cases (λ x. x.0 ≡ ok u → IsRotated s workspace_id pairing token now x.1)
      (check s.has_owner AppFault.host_authority_required
        >> (check (is_app_workspace workspace_id) AppFault.scope_invalid
            >> (check (owner_still_approved owner s) AppFault.os_binding_stale
                >> capture_workspace owner s workspace_id)))
      s _ (λ e h. absurd (cc h))
      (λ identity h h'. (refl, refl, refl, refl, refl, refl, refl, refl, refl, refl, refl))

-- An approval that succeeds is of the pending request with that id, neither denied nor past its
-- time; the owner is still approved and the workspace is the very directory that was there when
-- the browser asked. The session then has that workspace for its scope, with the old session
-- ended: every socket of it closed and none left open, its controller aborted, its time over and no
-- request pending; with a new token, and a new code from now on that is not used and was not guessed
-- at.
pub approve_request_sound :
    (owner : Owner) (id pairing token : Text) (now : ℕ) (s : LocalAppSession) (workspace : Text)
    → (approve_request owner id pairing token now s).0 ≡ ok workspace
    → (r : PendingRequest) × (s.pending_request ≡ some r)
      × (r.id ≡ id)
      × (r.denied ≡ false)
      × (now ≤ r.at + workspace_request_ttl)
      × (owner_still_approved owner s ≡ true)
      × (capture_workspace owner s workspace ≡ ok r.identity)
      × IsRotated s workspace pairing token now (approve_request owner id pairing token now s).1
unfolding approve_request
approve_request_sound owner id pairing token now s workspace =
    attempt-cases Sound (open_request id now s) s _ (λ e h. absurd (cc h))
      λ r found.
        attempt-cases Sound
          (check (owner_still_approved owner s) AppFault.os_binding_stale
            >> capture_workspace owner s r.workspace_id)
          s _ (λ e h. absurd (cc h))
          λ candidate captured.
            attempt-cases Sound
              (check (same_identity candidate r.identity) AppFault.workspace_changed) s _
              (λ e h. absurd (cc h))
              λ u same h.
                let (v, approved, there) =
                  bind-ok (check (owner_still_approved owner s) AppFault.os_binding_stale)
                    (λ _. capture_workspace owner s r.workspace_id) candidate captured in
                let (w, rotated, named) =
                  bind-ok (rotate_workspace owner r.workspace_id pairing token now s).0
                    (λ _. ok r.workspace_id) workspace h in
                let name : r.workspace_id ≡ workspace = cc named in
                let one = same_identity_sound candidate r.identity (check-ok _ _ u same) in
                let (pending, at_id, open_, timely) = open_request_sound id now s r found in
                (
                  r,
                  pending,
                  at_id,
                  open_,
                  timely,
                  check-ok _ _ v approved,
                  subst (λ t. capture_workspace owner s t ≡ ok r.identity) name (there ∙ ap ok one),
                  subst
                      (λ t.
                        IsRotated s t pairing token now
                          (rotate_workspace owner r.workspace_id pairing token now s).1)
                      name
                      (rotate_workspace_sound owner r.workspace_id pairing token now s w rotated),
                )
  where
    Sound : Outcome AppFault Text × LocalAppSession → Type 0
    Sound x =
        x.0 ≡ ok workspace
        → (r : PendingRequest) × (s.pending_request ≡ some r)
          × (r.id ≡ id)
          × (r.denied ≡ false)
          × (now ≤ r.at + workspace_request_ttl)
          × (owner_still_approved owner s ≡ true)
          × (capture_workspace owner s workspace ≡ ok r.identity)
          × IsRotated s workspace pairing token now x.1
