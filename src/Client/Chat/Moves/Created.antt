-- ===== src/Client/Chat/Moves/Created.antt =====
-- packages/client/src/conversation-run.ts: the epoch and the view after the answer to a submission.
use ai_verse_dashboard.Base.{
  if_rule, ◌≡◌, refl, sym, ap, ◌∙◌, inl, inr, Bool, true, false, none, some, ok, err, ◌>>=◌,
  Bool-cases, Outcome-cases,
}
use ai_verse_dashboard.Base.Text.{Text, text}
use ai_verse_dashboard.Client.Runs.{Run, as_run, running, phase, is_completed, is_terminal}
use ai_verse_dashboard.Client.Runs.Verified.{phase-completed}
use ai_verse_dashboard.Client.Chat.{
  PersonalChatRunController, Fence, ActiveRequest, is_valid, end_stream, show,
}
use ai_verse_dashboard.Client.Chat.Stream.{reconcile}
use ai_verse_dashboard.Client.Chat.Answers.{
  Answer, on_created, created_view, attach, follow, bound_run,
}
use ai_verse_dashboard.Client.Chat.Moves.Replies.{IsReply, IsReply-same}
use ai_verse_dashboard.Client.Chat.Moves.Adopted.{refuse-IsReply}

attach-keeps :
    (f : Fence) (run : Run) (s : PersonalChatRunController)
    → ((attach f run s).epoch ≡ s.epoch) × ((attach f run s).view ≡ s.view)
unfolding attach
attach-keeps f run s = elim (Bool-cases (is_terminal s.view.phase)) [
  | inl e ↦ rw (attach, e) (refl, refl)
  | inr e ↦ rw (attach, e) (refl, refl)
]

created_view-open :
    (run : Run) (s : PersonalChatRunController)
    → is_completed run.status ≡ false
    → (created_view run s).phase ≡ phase run.status
unfolding created_view
created_view-open run s e = rw e refl

created_view-full :
    (run : Run) (s : PersonalChatRunController)
    → is_completed run.status ≡ true
    → (created_view run s).phase ≡ running
unfolding created_view
created_view-full run s e = rw e refl

module _ (is_date : Text → Bool) (a : Answer) (s : PersonalChatRunController) where
  follow-IsReply : (f : Fence) (run : Run) → IsReply is_date a s (follow f run s).0
  unfolding follow reconcile end_stream show
  follow-IsReply f run =
      let shown = show (created_view run s) s in
      let (epoch, view) = attach-keeps f run shown in
      if_rule (λ next. IsReply is_date a s next.0) (is_completed run.status)
        (reconcile f run.run_id shown) (attach f run shown, none)
        (λ full. (refl, λ e. absurd (cc (created_view-full run s full, e))))
        (λ open_. (
          epoch,
          λ e. absurd (
              cc (
                phase-completed run.status
                    (sym (created_view-open run s open_) ∙ (ap (λ v. v.phase) (sym view) ∙ e)),
                open_,
              )),
        ))

module _ (is_date : Text → Bool) (f : Fence) (s : PersonalChatRunController) where
  pub on_created-IsReply :
      (request : ActiveRequest) (a : Answer)
      → IsReply is_date a s (on_created is_date f request a s).0
  unfolding on_created
  on_created-IsReply request a = elim (Bool-cases (is_valid f s)) [
    | inr off ↦ rw (on_created, off) (IsReply-same is_date a s)
    | inl on ↦ react a on
  ]
    where
      fallback : Text
      fallback = text "CHAT_SUBMISSION_UNCERTAIN"

      react :
          (a : Answer)
          → is_valid f s ≡ true
          → IsReply is_date a s (on_created is_date f request a s).0
      react (err code) on = rw (on_created, on) (refuse-IsReply is_date (err code) fallback code s)
      react (ok j) on =
          elim (Outcome-cases (as_run is_date j f.scope none >>= bound_run request.session_id)) [
            | inl (code, e) ↦
                rw (on_created, on, e) (refuse-IsReply is_date (ok j) fallback (some code) s)
            | inr (run, e) ↦ rw (on_created, on, e) (follow-IsReply is_date (ok j) s f run)
          ]
