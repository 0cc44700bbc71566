-- ===== src/Client/Chat/Moves/Replies.antt =====
-- packages/client/src/conversation-run.ts: what an answer can make of the view.
use ai_verse_dashboard.Base.{
  ◌≡◌, ◌⊎◌, refl, sym, ap, ◌∙◌, inl, inr, Bool, true, false, not, ◌||◌, Option, none, some, ok,
  Bool-cases,
}
use ai_verse_dashboard.Base.Text.{Text, ===_sound}
use ai_verse_dashboard.Protocol.Json.{Json}
use ai_verse_dashboard.Client.Runs.{
  RequiredScope, Run, as_run, completed, phase, is_completed, require_verified_completion,
}
use ai_verse_dashboard.Client.Runs.Verified.{as_run-asked, phase-completed, verified_output}
use ai_verse_dashboard.Client.Chat.{
  PersonalChatRunController, ChatRunView, Fence, is_given, confirm, confirm_request,
  confirm_canonical_output, ActiveRequest,
}
use ai_verse_dashboard.Client.Chat.Answers.{is_running, Answer, settle, final_output}

-- The view shows the run of the answer, which is completed, and its whole output.
abbrev pub Delivered : (Text → Bool) → Answer → ChatRunView → Type 0
Delivered is_date a view =
    (j : Json) × (scope : RequiredScope) × (asked : Option Text) × (run : Run) × (a ≡ ok j)
    × (as_run is_date j scope asked ≡ ok run)
    × (is_completed run.status ≡ true)
    × (run.output_truncated ≡ false)
    × (run.output ≡ some view.output)
    × (view.run_id ≡ some run.run_id)

abbrev pub Kept : ChatRunView → ChatRunView → Type 0
Kept old new = (old.phase ≡ completed) × (new.output ≡ old.output) × (new.run_id ≡ old.run_id)

abbrev pub IsReply :
    (Text → Bool) → Answer → PersonalChatRunController → PersonalChatRunController → Type 0
IsReply is_date a s t =
    (t.epoch ≡ s.epoch)
    × (t.view.phase ≡ completed → Kept s.view t.view ⊎ Delivered is_date a t.view)

pub IsReply-same :
    (is_date : Text → Bool) (a : Answer) (s : PersonalChatRunController) → IsReply is_date a s s
IsReply-same is_date a s = (refl, λ e. inl (e, refl, refl))

pub settle-keeps :
    (f : Fence) (run : Run) (s : PersonalChatRunController)
    → ((settle f run s).epoch ≡ s.epoch) × ((settle f run s).view ≡ s.view)
unfolding settle
settle-keeps f run s = elim (Bool-cases (is_running (phase run.status))) [
  | inl e ↦ rw (settle, e) (refl, refl)
  | inr e ↦ rw (settle, e) (refl, refl)
]

module _ (run : Run) (s : PersonalChatRunController) where
  abbrev SameView : PersonalChatRunController → Type 0
  SameView t = (t.epoch ≡ s.epoch) × (t.view ≡ s.view)

  confirm-keeps : (o : Option Text) (request : ActiveRequest) → SameView (confirm run o request s)
  unfolding confirm
  confirm-keeps none request = (refl, refl)
  confirm-keeps (some out) request =
      elim (Bool-cases (
        not (is_completed run.status)
        || run.output_truncated
        || is_given run.run_id s.confirmed_run_id)) [
          | inl e ↦ rw (confirm, e) (refl, refl)
          | inr e ↦ rw (confirm, e) (refl, refl)
        ]

  confirm_request-keeps : (o : Option ActiveRequest) → SameView (confirm_request o run s)
  unfolding confirm_request
  confirm_request-keeps none = (refl, refl)
  confirm_request-keeps (some request) = confirm-keeps run.output request

  pub confirm_canonical_output-keeps : SameView (confirm_canonical_output run s)
  unfolding confirm_canonical_output
  confirm_canonical_output-keeps = confirm_request-keeps s.active_request

pub is_given-some : (id : Text) (o : Option Text) → is_given id o ≡ true → o ≡ some id
unfolding is_given
is_given-some id none h = absurd (cc h)
is_given-some id (some t) h = ap some (===_sound t id h)

final_output-completed :
    (run : Run) (out : Text)
    → phase run.status ≡ completed
    → run.output ≡ some out
    → final_output run ≡ out
unfolding final_output
final_output-completed run out h e = rw (h, e) refl

-- The answer is a verified run, and the view is its run's.
module _ (is_date : Text → Bool) (j : Json) (scope : RequiredScope) (id : Text) where
  module _ (run : Run) (s : PersonalChatRunController) where
    pub delivered :
        as_run is_date j scope (some id) ≡ ok run
        → require_verified_completion run ≡ ok tt
        → (view : ChatRunView) → view.phase ≡ phase run.status
        → view.run_id ≡ some id
        → view.output ≡ final_output run
        → view.phase ≡ completed
        → Delivered is_date (ok j) view
    delivered read right view shown named told done =
        let full = phase-completed run.status (sym shown ∙ done) in
        let (out, found, whole) = verified_output run right full in
        let same = final_output-completed run out (sym shown ∙ done) found in
        (
          j,
          scope,
          some id,
          run,
          refl,
          read,
          full,
          whole,
          found ∙ ap some (sym (told ∙ same)),
          named ∙ ap some (sym (as_run-asked is_date j scope id run read)),
        )
