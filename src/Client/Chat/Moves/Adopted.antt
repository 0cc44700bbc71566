-- ===== src/Client/Chat/Moves/Adopted.antt =====
-- packages/client/src/conversation-run.ts: the epoch and the view after an answer that adopts a run.
use ai_verse_dashboard.Base.{
  ◌≡◌, ◌⊎◌, refl, sym, ap, ◌∙◌, subst, inl, inr, Bool, true, false, not, ◌&&◌, Option, some, ok,
  err, ◌>>◌, check, bind-ok, ok-injective, and_split, Bool-cases, Outcome-cases, List,
}
use ai_verse_dashboard.Base.Text.{Text, text}
use ai_verse_dashboard.Protocol.Json.{Json}
use ai_verse_dashboard.Client.Runs.{
  RequiredScope, Run, as_run, binding_mismatch, completed, is_terminal, require_verified_completion,
}
use ai_verse_dashboard.Client.Chat.{
  PersonalChatRunController, Fence, is_given, is_current, interrupt,
}
use ai_verse_dashboard.Client.Chat.Answers.{
  Answer, settle, adopt, adopt_in_place, verified, refuse, on_reconnected, controlled, on_read_back,
  is_refusal, owner_view, is_bound,
}
use ai_verse_dashboard.Client.Chat.Moves.Replies.{
  Delivered, Kept, IsReply, IsReply-same, settle-keeps, confirm_canonical_output-keeps,
  is_given-some, delivered,
}

module _ (is_date : Text → Bool) where
  pub verified-ok :
      (j : Json) (scope : RequiredScope) (id : Text) (session : Option Text) (run : Run)
      → verified is_date j scope id session ≡ ok run
      → (as_run is_date j scope (some id) ≡ ok run) × (require_verified_completion run ≡ ok tt)
  unfolding verified
  verified-ok j scope id session run h =
      let (read, told, h₁) = bind-ok (as_run is_date j scope (some id)) _ run h in
      let (_, _, h₂) =
        bind-ok (check (is_bound session read) binding_mismatch)
          (λ _. require_verified_completion read >> ok read) run h₁ in
      let (u, right, h₃) = bind-ok (require_verified_completion read) (λ _. ok read) run h₂ in
      let same = ok-injective read run h₃ in
      (told ∙ ap ok same, subst (λ r. require_verified_completion r ≡ ok tt) same right)

  pub settle-IsReply :
      (a : Answer) (f : Fence) (run : Run) (s t : PersonalChatRunController)
      → IsReply is_date a s t
      → IsReply is_date a s (settle f run t)
  settle-IsReply a f run s t (same, told) =
      let (epoch, view) = settle-keeps f run t in
      (
        epoch ∙ same,
        subst (λ v. v.phase ≡ completed → Kept s.view v ⊎ Delivered is_date a v) (sym view) told,
      )

  -- A run that is adopted from a state with the epoch and the run of `s`.
  module _ (j : Json) (scope : RequiredScope) (id : Text) (run : Run) where
    module _ (s t : PersonalChatRunController) (same : t.epoch ≡ s.epoch)
        (named : t.view.run_id ≡ some id) (read : as_run is_date j scope (some id) ≡ ok run)
        (right : require_verified_completion run ≡ ok tt) where
      pub adopt-IsReply : IsReply is_date (ok j) s (adopt run t)
      unfolding adopt owner_view
      adopt-IsReply =
          let (epoch, view) = confirm_canonical_output-keeps run t in
          (
            epoch ∙ same,
            λ done. inr (
                delivered is_date j scope id run s read right (adopt run t).view refl
                  (ap (λ v. v.run_id) view ∙ named) refl done),
          )

      adopt_in_place-IsReply : IsReply is_date (ok j) s (adopt_in_place run t)
      unfolding adopt_in_place owner_view
      adopt_in_place-IsReply =
          let (epoch, view) = confirm_canonical_output-keeps run t in
          (
            epoch ∙ same,
            λ done. inr (
                delivered is_date j scope id run s read right (adopt_in_place run t).view refl
                  (ap (λ v. v.run_id) view ∙ named) refl done),
          )

  pub refuse-IsReply :
      (a : Answer) (fallback : Text) (code : Option Text) (s : PersonalChatRunController)
      → IsReply is_date a s (refuse fallback code s)
  unfolding refuse interrupt
  refuse-IsReply a fallback code s = (refl, λ e. absurd (cc e))

  -- What is left of a method whose answer is about the run that is shown.
  module _ (f : Fence) (id : Text) (s : PersonalChatRunController) where
    pub current-id : is_current f id s ≡ true → s.view.run_id ≡ some id
    unfolding is_current
    current-id h =
        let (_, given) = and_split _ (is_given id s.view.run_id) h in is_given-some _ _ given

    pub on_reconnected-IsReply :
        (a : Answer) → IsReply is_date a s (on_reconnected is_date f id a s).0
    unfolding on_reconnected
    on_reconnected-IsReply a =
        elim (Bool-cases (is_current f id s && not (is_terminal s.view.phase))) [
          | inr off ↦ rw (on_reconnected, off) (IsReply-same is_date a s)
          | inl on ↦ react a on
        ]
      where
        react :
            (a : Answer)
            → (is_current f id s && not (is_terminal s.view.phase)) ≡ true
            → IsReply is_date a s (on_reconnected is_date f id a s).0
        react (err code) on =
            rw (on_reconnected, on)
              (refuse-IsReply (err code) (text "CHAT_RECONNECT_FAILED") code s)
        react (ok j) on = elim (Outcome-cases (verified is_date j f.scope id s.view.session_id)) [
          | inl (code, e) ↦
              rw (on_reconnected, on, e)
                (refuse-IsReply (ok j) (text "CHAT_RECONNECT_FAILED") (some code) s)
          | inr (run, e) ↦
              let (read, right) = verified-ok j f.scope id s.view.session_id run e in
              let (here, _) = and_split (is_current f id s) _ on in
              rw (on_reconnected, on, e)
                (settle-IsReply (ok j) f run s (adopt run s)
                  (adopt-IsReply j f.scope id run s s refl (current-id here) read right))
        ]

    module _ (mark : PersonalChatRunController → Run → PersonalChatRunController)
        (steady : (t : PersonalChatRunController) (run : Run)
          → ((mark t run).epoch ≡ t.epoch) × ((mark t run).view ≡ t.view))
        (refusals : List Text) (fallback session_id : Text) where
      abbrev After : Answer → Type 0
      After a =
          IsReply is_date a s (controlled is_date mark refusals fallback f id session_id a s).0

      failed-IsReply : (code : Option Text) → is_refusal refusals code ≡ false → After (err code)
      unfolding controlled
      failed-IsReply code other = elim (Bool-cases (is_current f id s)) [
        | inl on ↦ rw (controlled, other, on) (refuse-IsReply (err code) fallback code s)
        | inr off ↦ rw (controlled, other, off) (IsReply-same is_date (err code) s)
      ]

      taken-IsReply : (j : Json) → is_current f id s ≡ true → After (ok j)
      unfolding controlled
      taken-IsReply j on = elim (Outcome-cases (verified is_date j f.scope id (some session_id))) [
        | inl (code, e) ↦ rw (controlled, on, e, on) (refuse-IsReply (ok j) fallback (some code) s)
        | inr (run, e) ↦
            let (read, right) = verified-ok j f.scope id (some session_id) run e in
            let (epoch, view) = steady s run in
            rw (controlled, on, e)
              (settle-IsReply (ok j) f run s (adopt run (mark s run)) (
                adopt-IsReply j f.scope id run s (mark s run) epoch
                  (ap (λ v. v.run_id) view ∙ current-id on) read right))
      ]

      pub controlled-IsReply : (a : Answer) → After a
      unfolding controlled
      controlled-IsReply (err code) = elim (Bool-cases (is_refusal refusals code)) [
        | inl refused ↦ rw (controlled, refused) (IsReply-same is_date (err code) s)
        | inr other ↦ failed-IsReply code other
      ]
      controlled-IsReply (ok j) = elim (Bool-cases (is_current f id s)) [
        | inl on ↦ taken-IsReply j on
        | inr off ↦ rw (controlled, off) (IsReply-same is_date (ok j) s)
      ]

    pub on_read_back-IsReply :
        (session_id code : Text) (a : Answer)
        → IsReply is_date a s (on_read_back is_date f id session_id code a s).0
    unfolding on_read_back interrupt
    on_read_back-IsReply session_id code a = elim (Bool-cases (is_current f id s)) [
      | inr off ↦ rw (on_read_back, off) (IsReply-same is_date a s)
      | inl on ↦ react a on
    ]
      where
        react :
            (a : Answer)
            → is_current f id s ≡ true
            → IsReply is_date a s (on_read_back is_date f id session_id code a s).0
        react (err issue) on = rw (on_read_back, on) (refl, λ e. absurd (cc e))
        react (ok j) on = elim (Outcome-cases (verified is_date j f.scope id (some session_id))) [
          | inl (issue, e) ↦ rw (on_read_back, on, e) (refl, λ e. absurd (cc e))
          | inr (run, e) ↦
              let (read, right) = verified-ok j f.scope id (some session_id) run e in
              rw (on_read_back, on, e)
                (settle-IsReply (ok j) f run s (adopt_in_place run s)
                  (adopt_in_place-IsReply j f.scope id run s s refl (current-id on) read right))
        ]
