-- ===== src/Client/Chat/Moves/Retry.antt =====
-- packages/client/src/conversation-run.ts: the request of a submission that is repeated.
use ai_verse_dashboard.Base.{
  ◌≡◌, refl, ap, ◌∙◌, subst, inl, inr, Bool, true, not, ◌&&◌, Option, none, some, ok, err, ◌>>◌,
  check, attempt-ok, arith, Bool-cases, Option-cases, bind-ok, ok-injective, leb, length,
}
use ai_verse_dashboard.Base.Text.{Text, text, ===_refl}
use ai_verse_dashboard.Client.Runs.{
  ClientScope, RequiredScope, required_scope, is_filled, is_safe_id, interrupted,
}
use ai_verse_dashboard.Client.Chat.{
  PersonalChatRunController, ActiveRequest, Fence, create_run, is_valid, is_selected, is_given,
  fence_of, reset, show, interrupt,
}
use ai_verse_dashboard.Client.Chat.Answers.{on_created, refuse}
use ai_verse_dashboard.Client.Chat.Methods.{
  Started, send, sent, retry_submission, resubmit, is_blank, is_unsafe, may_send,
}

required_scope-is_selected :
    (client_scope : ClientScope) (scope : RequiredScope)
    → required_scope client_scope ≡ ok scope
    → is_selected scope client_scope ≡ true
unfolding required_scope is_selected is_given
required_scope-is_selected client_scope scope h = elim (Option-cases client_scope.workspace_id) [
  | inl missing ↦ absurd (cc (rw (required_scope, missing) at h))
  | inr (w, found) ↦ elim (Bool-cases (is_filled client_scope.system_id && is_filled w)) [
    | inr empty ↦ absurd (cc (rw (required_scope, found, empty) at h))
    | inl filled ↦
        let same =
          ok-injective (record { system_id = client_scope.system_id; workspace_id = w }) scope
            (rw (required_scope, found, filled) at h) in
        subst (λ sc. is_selected sc client_scope ≡ true) same
          (rw (is_selected, found, ===_refl client_scope.system_id) (===_refl w))
  ]
]

-- A state that waits for the answer to a request just sent.
record IsWaiting (f : Fence) (request : ActiveRequest) (s : PersonalChatRunController)
    : Type 0 where
  valid : is_valid f s ≡ true
  scoped : required_scope s.client_scope ≡ ok f.scope
  active : s.active_request ≡ some request
  unnamed : s.view.run_id ≡ none
  fenced : fence_of f.scope s ≡ f

IsSent : Started → Type 0
IsSent (ok (create_run f request), t) = IsWaiting f request t
IsSent _ = Unit {0}

sent-IsSent :
    (content key : Text) (session : Option Text) (scope : RequiredScope)
    (s : PersonalChatRunController)
    → required_scope s.client_scope ≡ ok scope
    → IsSent (sent content key session scope s)
unfolding IsSent sent reset show fence_of is_valid
sent-IsSent content key session scope s scoped =
    let selected = required_scope-is_selected s.client_scope scope scoped in
    record {
      valid = rw selected (ground arith);
      scoped = scoped;
      active = refl;
      unnamed = refl;
      fenced = refl;
    }

send-IsWaiting :
    (content key : Text) (session : Option Text) (f : Fence) (request : ActiveRequest)
    (s t : PersonalChatRunController)
    → send content key session s ≡ (ok (create_run f request), t)
    → IsWaiting f request t
unfolding send IsSent
send-IsWaiting content key session f request s t h =
    let (scope, passed, made) =
      attempt-ok
        (check (not (is_blank content) && leb (length content) 32_768) (text "CHAT_MESSAGE_INVALID")
          >> (check (is_safe_id key && not (is_unsafe session)) (text "CHAT_REQUEST_ID_INVALID")
              >> (check (may_send s.view.phase) (text "CHAT_PREVIOUS_RUN_UNRESOLVED")
                  >> required_scope s.client_scope)))
        s t _ _ h in
    let (_, _, h₁) =
      bind-ok (check (not (is_blank content) && leb (length content) 32_768) _) _ scope passed in
    let (_, _, h₂) = bind-ok (check (is_safe_id key && not (is_unsafe session)) _) _ scope h₁ in
    let (_, _, h₃) = bind-ok (check (may_send s.view.phase) _) _ scope h₂ in
    subst IsSent made (sent-IsSent content key session scope s h₃)

retry_submission-request :
    (u : PersonalChatRunController) (scope : RequiredScope) (request : ActiveRequest)
    → u.view.phase ≡ interrupted
    → u.active_request ≡ some request
    → u.view.run_id ≡ none
    → required_scope u.client_scope ≡ ok scope
    → (retry_submission u).0 ≡ ok (create_run (fence_of scope u) request)
unfolding retry_submission resubmit
retry_submission-request u scope request phase active unnamed scoped =
    rw (retry_submission, phase, active, unnamed, scoped) refl

-- If a message is sent and no answer comes, a retry sends the same request again, with its
-- idempotency key, its messages and its session, whatever the error was.
pub retry_sends_same_request :
    (is_date : Text → Bool) (content key : Text) (session : Option Text) (f : Fence)
    (request : ActiveRequest) (s t : PersonalChatRunController) (code : Option Text)
    → send content key session s ≡ (ok (create_run f request), t)
    → (retry_submission (on_created is_date f request (err code) t).0).0 ≡ ok (create_run f request)
unfolding on_created refuse interrupt show fence_of
retry_sends_same_request is_date content key session f request s t code h =
    let w = send-IsWaiting content key session f request s t h in
    rw (on_created, w.valid)
      (retry_submission-request (refuse (text "CHAT_SUBMISSION_UNCERTAIN") code t) f.scope request
          refl w.active w.unnamed w.scoped
        ∙ ap (λ g. ok (create_run g request)) w.fenced)
