-- ===== src/Client/Chat/Moves/Checked.antt =====
-- packages/client/src/conversation-run.ts: the epoch and the view after the
-- check that a user asks for, after the read after a terminal event, and after a recovery.
use ai_verse_dashboard.Base.{
  if_rule, ℕ, ◌≡◌, refl, sym, ap, ◌∙◌, subst, inl, inr, Bool, true, false, not, ◌&&◌, ◌||◌, ◌==◌,
  Option, some, ok, err, ◌>>=◌, ◌>>◌, arith, bind-ok, ok-injective, and_split, Bool-cases,
  Outcome-cases, [],
}
use ai_verse_dashboard.Base.Text.{Text, text}
use ai_verse_dashboard.Protocol.Json.{Json}
use ai_verse_dashboard.Client.Runs.{
  RequiredScope, Run, as_run, completed, phase, is_completed, is_terminal,
  require_verified_completion, is_readback_fault,
}
use ai_verse_dashboard.Client.Runs.Verified.{phase-completed, verified_output}
use ai_verse_dashboard.Client.Chat.{
  PersonalChatRunController, Fence, Call, create_run, reconnect_run, cancel_run, checkpoint_run,
  read_back, refresh_run, reconcile_run, recover_run, Action, pause, resume, is_current, is_valid,
  end_stream, show,
}
use ai_verse_dashboard.Client.Chat.Stream.{subscribe}
use ai_verse_dashboard.Client.Chat.Answers.{
  text_or, stop_refusals, checkpoint_refusals, count_marker, on_canceled, on_checkpoint, Answer,
  adopt, verified, bound_run, is_bound, is_running,
}
use ai_verse_dashboard.Client.Chat.Checks.{
  hold_markers, report, refreshed, on_refreshed, lost, lacks_output, reconciled, on_reconciled,
  answer_call, is_waiting, recovered, on_recovered,
}
use ai_verse_dashboard.Client.Chat.Moves.Replies.{IsReply, IsReply-same}
use ai_verse_dashboard.Client.Chat.Moves.Adopted.{
  verified-ok, adopt-IsReply, settle-IsReply, refuse-IsReply, current-id, on_reconnected-IsReply,
  controlled-IsReply, on_read_back-IsReply,
}
use ai_verse_dashboard.Client.Chat.Moves.Created.{on_created-IsReply}

module _ (is_date : Text → Bool) (a : Answer) (s : PersonalChatRunController) where
  report-IsReply : (code : Text) → IsReply is_date a s (report code s)
  unfolding report show end_stream
  report-IsReply code = elim (Bool-cases (is_readback_fault code)) [
    | inl fault ↦ rw (report, fault) (refl, λ e. absurd (cc e))
    | inr other ↦ rw (report, other) (refl, λ e. inl (e, refl, refl))
  ]

  lost-IsReply : (code : Text) → IsReply is_date a s (lost code s)
  unfolding lost show
  lost-IsReply code = (refl, λ e. absurd (cc e))

module _ (is_date : Text → Bool) (f : Fence) (s : PersonalChatRunController) where
  refreshed-IsReply :
      (j : Json) (id : Text) (run : Run)
      → s.view.run_id ≡ some id
      → as_run is_date j f.scope (some id) ≡ ok run
      → require_verified_completion run ≡ ok tt
      → IsReply is_date (ok j) s (refreshed f run s)
  unfolding refreshed show end_stream
  refreshed-IsReply j id run named read right =
      elim (Bool-cases (is_terminal s.view.phase && not (is_terminal (phase run.status)))) [
        | inl late ↦ rw (refreshed, late) (IsReply-same is_date (ok j) s)
        | inr timely ↦
            elim (Bool-cases (is_running (phase run.status) && is_running s.view.phase)) [
              | inl going ↦ rw (refreshed, timely, going) (refl, λ e. inl (e, refl, refl))
              | inr other ↦
                  let t = hold_markers run (end_stream s) in
                  let (epoch, view) = held in
                  rw (refreshed, timely, other)
                    (settle-IsReply is_date (ok j) f run s (adopt run t) (
                      adopt-IsReply is_date j f.scope id run s t epoch
                        (ap (λ v. v.run_id) view ∙ named) read right))
            ]
      ]
    where
      held :
          ((hold_markers run (end_stream s)).epoch ≡ s.epoch)
          × ((hold_markers run (end_stream s)).view ≡ s.view)
      held = elim (Bool-cases (is_running (phase run.status))) [
        | inl e ↦ rw (hold_markers, e) (refl, refl)
        | inr e ↦ rw (hold_markers, e) (refl, refl)
      ]

  on_refreshed-IsReply :
      (n : ℕ) (id session_id : Text) (a : Answer)
      → IsReply is_date a s (on_refreshed is_date f n id session_id a s).0
  unfolding on_refreshed
  on_refreshed-IsReply n id session_id a =
      elim (Bool-cases (is_current f id s && n == s.status_refresh_epoch)) [
        | inr off ↦ rw (on_refreshed, off) (IsReply-same is_date a s)
        | inl on ↦ react a on
      ]
    where
      react :
          (a : Answer)
          → (is_current f id s && n == s.status_refresh_epoch) ≡ true
          → IsReply is_date a s (on_refreshed is_date f n id session_id a s).0
      react (err code) on =
          rw (on_refreshed, on)
            (report-IsReply is_date (err code) s (text_or (text "CHAT_REFRESH_FAILED") code))
      react (ok j) on = elim (Outcome-cases (verified is_date j f.scope id (some session_id))) [
        | inl (code, e) ↦ rw (on_refreshed, on, e) (report-IsReply is_date (ok j) s code)
        | inr (run, e) ↦
            let (read, right) = verified-ok is_date j f.scope id (some session_id) run e in
            let (here, _) = and_split (is_current f id s) _ on in
            rw (on_refreshed, on, e)
              (refreshed-IsReply j id run (current-id is_date f id s here) read right)
      ]

  lacks_output-verified :
      (run : Run)
      → (not (is_terminal (phase run.status)) || (is_completed run.status && lacks_output run))
        ≡ false
      → require_verified_completion run ≡ ok tt
  unfolding lacks_output require_verified_completion
  lacks_output-verified run h = elim (Bool-cases (is_completed run.status)) [
    | inl full ↦ ground arith
    | inr open_ ↦ ground arith
  ]

  reconciled-IsReply :
      (j : Json) (id : Text) (run : Run)
      → s.view.run_id ≡ some id
      → as_run is_date j f.scope (some id) ≡ ok run
      → IsReply is_date (ok j) s (reconciled run s)
  unfolding reconciled show
  reconciled-IsReply j id run named read =
      elim (Bool-cases
        (not (is_terminal (phase run.status)) || (is_completed run.status && lacks_output run))) [
          | inl lacking ↦ rw (reconciled, lacking) (refl, λ e. absurd (cc e))
          | inr whole ↦
              rw (reconciled, whole)
                (adopt-IsReply is_date j f.scope id run s s refl named read
                  (lacks_output-verified run whole))
        ]

  bound-ok :
      (j : Json) (scope : RequiredScope) (asked session : Option Text) (run : Run)
      → as_run is_date j scope asked >>= bound_run session ≡ ok run
      → as_run is_date j scope asked ≡ ok run
  unfolding bound_run
  bound-ok j scope asked session run h =
      let (read, told, h₁) = bind-ok (as_run is_date j scope asked) (bound_run session) run h in
      elim (Bool-cases (is_bound session read)) [
        | inl same ↦ told ∙ (rw (bound_run, same) at h₁)
        | inr other ↦ absurd (cc (rw (bound_run, other) at h₁))
      ]

  on_reconciled-IsReply :
      (id : Text) (a : Answer) → IsReply is_date a s (on_reconciled is_date f id a s).0
  unfolding on_reconciled
  on_reconciled-IsReply id a =
      elim (Bool-cases (is_current f id s && not (is_terminal s.view.phase))) [
        | inr off ↦ rw (on_reconciled, off) (IsReply-same is_date a s)
        | inl on ↦ react a on
      ]
    where
      react :
          (a : Answer)
          → (is_current f id s && not (is_terminal s.view.phase)) ≡ true
          → IsReply is_date a s (on_reconciled is_date f id a s).0
      react (err code) on =
          rw (on_reconciled, on)
            (lost-IsReply is_date (err code) s (text_or (text "CHAT_RECONCILE_FAILED") code))
      react (ok j) on =
          elim (Outcome-cases
            (as_run is_date j f.scope (some id) >>= bound_run s.view.session_id)) [
              | inl (code, e) ↦ rw (on_reconciled, on, e) (lost-IsReply is_date (ok j) s code)
              | inr (run, e) ↦
                  let read = bound-ok j f.scope (some id) s.view.session_id run e in
                  let (here, _) = and_split (is_current f id s) _ on in
                  rw (on_reconciled, on, e)
                    (reconciled-IsReply j id run (current-id is_date f id s here) read)
            ]

  verified_or_default :
      (run : Run) (out : Text) → run.output ≡ some out → text_or [] run.output ≡ out
  unfolding text_or
  verified_or_default run out e = rw e refl

  recovered-IsReply :
      (j : Json) (id : Text) (run : Run)
      → as_run is_date j f.scope (some id) ≡ ok run
      → require_verified_completion run ≡ ok tt
      → IsReply is_date (ok j) s (recovered f run s)
  unfolding recovered show subscribe
  recovered-IsReply j id run read right =
      let told : (phase run.status ≡ completed)
          → (out : Text) × (run.output ≡ some out) × (run.output_truncated ≡ false) =
        λ e. verified_output run right (phase-completed run.status e) in
      let all_told : (phase run.status ≡ completed)
          → (j' : Json) × (scope : RequiredScope) × (asked : Option Text) × (r : Run) × (◌≡◌
              {A = Answer} (ok j) (ok j'))
            × (as_run is_date j' scope asked ≡ ok r)
            × (is_completed r.status ≡ true)
            × (r.output_truncated ≡ false)
            × (r.output ≡ some (text_or [] run.output))
            × (◌≡◌ {A = Option Text} (some run.run_id) (some r.run_id)) =
        λ e.
          let (out, found, whole) = told e in
          (
            j,
            f.scope,
            some id,
            run,
            refl,
            read,
            phase-completed run.status e,
            whole,
            found ∙ ap some (sym (verified_or_default run out found)),
            refl,
          ) in
      if_rule (λ t. IsReply is_date (ok j) s t) (is_waiting (phase run.status)) _ _
        (λ _. (refl, λ e. inr (all_told e))) (λ _. (refl, λ e. inr (all_told e)))

  on_recovered-IsReply :
      (id : Text) (a : Answer) → IsReply is_date a s (on_recovered is_date f id a s).0
  unfolding on_recovered
  on_recovered-IsReply id a = elim (Bool-cases (is_valid f s)) [
    | inr off ↦ rw (on_recovered, off) (IsReply-same is_date a s)
    | inl on ↦ react a on
  ]
    where
      fallback : Text
      fallback = text "CHAT_RECOVERY_FAILED"

      react :
          (a : Answer) → is_valid f s ≡ true → IsReply is_date a s (on_recovered is_date f id a s).0
      react (err code) on =
          rw (on_recovered, on) (refuse-IsReply is_date (err code) fallback code s)
      react (ok j) on =
          elim (Outcome-cases (
            as_run is_date j f.scope (some id) >>= λ run.
            require_verified_completion run >> ok run)) [
              | inl (code, e) ↦
                  rw (on_recovered, on, e) (refuse-IsReply is_date (ok j) fallback (some code) s)
              | inr (run, e) ↦
                  let (got, read, h₁) = bind-ok (as_run is_date j f.scope (some id)) _ run e in
                  let (u, right, h₂) =
                    bind-ok (require_verified_completion got) (λ _. ok got) run h₁ in
                  let same = ok-injective got run h₂ in
                  rw (on_recovered, on, e)
                    (recovered-IsReply j id run (read ∙ ap ok same)
                      (subst (λ r. require_verified_completion r ≡ ok tt) same right))
            ]

count_marker-steady :
    (action : Action) (t : PersonalChatRunController) (run : Run)
    → ((count_marker action t run).epoch ≡ t.epoch) × ((count_marker action t run).view ≡ t.view)
unfolding count_marker
count_marker-steady pause t run = (refl, refl)
count_marker-steady resume t run =
    if_rule (λ u. (u.epoch ≡ t.epoch) × (u.view ≡ t.view)) (is_running (phase run.status)) _ t
      (λ _. (refl, refl)) (λ _. (refl, refl))

pub answer_call-IsReply :
    (is_date : Text → Bool) (call : Call) (a : Answer) (s : PersonalChatRunController)
    → IsReply is_date a s (answer_call is_date call a s).0
unfolding answer_call on_canceled on_checkpoint
answer_call-IsReply is_date (create_run f request) a s = on_created-IsReply is_date f s request a
answer_call-IsReply is_date (reconnect_run f id) a s = on_reconnected-IsReply is_date f id s a
answer_call-IsReply is_date (cancel_run f id session_id operation) a s =
    controlled-IsReply is_date f id s (λ t run. t) (λ t run. (refl, refl)) stop_refusals
      (text "CHAT_STOP_UNCERTAIN") session_id a
answer_call-IsReply is_date (checkpoint_run f action id session_id operation) a s =
    controlled-IsReply is_date f id s (count_marker action) (count_marker-steady action)
      checkpoint_refusals (text "CHAT_CONTROL_UNCERTAIN") session_id a
answer_call-IsReply is_date (read_back f id session_id code) a s =
    on_read_back-IsReply is_date f id s session_id code a
answer_call-IsReply is_date (refresh_run f n id session_id) a s =
    on_refreshed-IsReply is_date f s n id session_id a
answer_call-IsReply is_date (reconcile_run f id) a s = on_reconciled-IsReply is_date f s id a
answer_call-IsReply is_date (recover_run f id) a s = on_recovered-IsReply is_date f s id a
