-- ===== src/Client/Chat/Pages/Whole.antt =====
-- packages/client/src/conversation-run.ts: what the pages of a session make of the view and of the
-- confirmed turns.
use ai_verse_dashboard.Base.{
  ◌≡◌, ◌⊎◌, refl, inl, inr, Bool, true, not, ◌&&◌, Option, none, some, List, [], ◌∷◌, ◌++◌, map, ok,
  err, if_rule, and_split, Bool-cases, Option-cases, Outcome-cases,
}
use ai_verse_dashboard.Base.Text.{Text, text}
use ai_verse_dashboard.Client.Runs.{completed, is_completed, has_output}
use ai_verse_dashboard.Client.Chat.{
  PersonalChatRunController, ChatRunView, show, interrupt, is_valid,
}
use ai_verse_dashboard.Protocol.Json.{Json}
use ai_verse_dashboard.Client.Chat.Moves.Replies.{Kept}
use ai_verse_dashboard.Client.Chat.Answers.{Answer, refuse, text_or}
use ai_verse_dashboard.Client.Rows.{Row, Page, page_of}
use ai_verse_dashboard.Client.Chat.Pages.{
  has_text, PageCall, is_whole, newest, opened, opened_view, finish, turn_page, on_page, repeats,
}

-- The view shows the newest of the runs, which is whole.
abbrev pub IsNewest : List Row → ChatRunView → Type 0
IsNewest rows view =
    (row : Row) × (older : List Row) × (rows ≡ row ∷ older)
    × (is_whole row ≡ true)
    × (row.output ≡ some view.output)
    × (view.run_id ≡ some row.run_id)

is_whole-output : (row : Row) → is_whole row ≡ true → (out : Text) × (row.output ≡ some out)
unfolding is_whole has_output
is_whole-output row h =
    let (a, _) = and_split _ (not row.output_truncated) h in
    let (b, _) = and_split _ (not row.user_text_truncated) a in
    let (c, _) = and_split _ (has_text row.user_text) b in
    let (_, d) = and_split (is_completed row.status) _ c in
    elim (Option-cases row.output) [
      | inl missing ↦ absurd (cc (rw missing at d))
      | inr found ↦ found
    ]

opened_view-IsNewest :
    (session_id : Text) (limited : Bool) (rows : List Row) (view : ChatRunView)
    → (opened_view session_id limited (newest rows) view).phase ≡ completed
    → IsNewest rows (opened_view session_id limited (newest rows) view)
unfolding opened_view newest text_or
opened_view-IsNewest session_id limited [] view h = absurd (cc h)
opened_view-IsNewest session_id limited (row ∷ rows) view h = elim (Bool-cases (is_whole row)) [
  | inr part ↦ absurd (cc (rw part at h))
  | inl whole ↦
      let (out, found) = is_whole-output row whole in
      (row, rows, refl, whole, rw (whole, found) refl, refl)
]

-- The answer is a page, with which the runs that were read end.
abbrev pub IsOpened : PageCall → Answer → ChatRunView → Type 0
IsOpened call a view =
    (j : Json) × (page : Page) × (a ≡ ok j)
    × (page_of j call.fence.scope call.session_id call.offset ≡ ok page)
    × IsNewest (call.rows ++ page.rows) view

abbrev pub IsTurned :
    PageCall → Answer → PersonalChatRunController → PersonalChatRunController → Type 0
IsTurned call a s t =
    (t.epoch ≡ s.epoch) × (t.view.phase ≡ completed → Kept s.view t.view ⊎ IsOpened call a t.view)

module _ (call : PageCall) (s : PersonalChatRunController) where
  refuse-IsTurned :
      (a : Answer) (fallback : Text) (code : Option Text)
      → IsTurned call a s (refuse fallback code s)
  unfolding refuse interrupt show
  refuse-IsTurned a fallback code = (refl, λ e. absurd (cc e))

  module _ (j : Json) (page : Page)
      (read : page_of j call.fence.scope call.session_id call.offset ≡ ok page) where
    finish-IsTurned : IsTurned call (ok j) s (finish call page s)
    unfolding finish opened show
    finish-IsTurned =
        if_rule (λ t. IsTurned call (ok j) s t)
          (repeats (map (λ row. row.run_id) (call.rows ++ page.rows)))
          (refuse (text "CHAT_HISTORY_UNAVAILABLE") (some (text "CHAT_HISTORY_DUPLICATE_RUN")) s)
          (opened call.session_id (call.rows ++ page.rows) page.has_more page.next_offset s)
          (λ _.
            refuse-IsTurned (ok j) (text "CHAT_HISTORY_UNAVAILABLE")
              (some (text "CHAT_HISTORY_DUPLICATE_RUN")))
          (λ _. (
            refl,
            λ e. inr (
              j,
              page,
              refl,
              read,
              opened_view-IsNewest call.session_id _ (call.rows ++ page.rows) s.view e,
            ),
          ))

    turn_page-IsTurned : IsTurned call (ok j) s (turn_page call page s).0
    unfolding turn_page
    turn_page-IsTurned =
        if_rule (λ (n : PersonalChatRunController × Option PageCall). IsTurned call (ok j) s n.0)
          (page.has_more && not call.is_second) _ (finish call page s, none)
          (λ _. (refl, λ e. inl (e, refl, refl))) (λ _. finish-IsTurned)

  pub on_page-IsTurned : (a : Answer) → IsTurned call a s (on_page call a s).0
  unfolding on_page
  on_page-IsTurned a = elim (Bool-cases (is_valid call.fence s)) [
    | inr off ↦ rw (on_page, off) (refl, λ e. inl (e, refl, refl))
    | inl on ↦ react a on
  ]
    where
      fallback : Text
      fallback = text "CHAT_HISTORY_UNAVAILABLE"

      react : (a : Answer) → is_valid call.fence s ≡ true → IsTurned call a s (on_page call a s).0
      react (err code) on = rw (on_page, on) (refuse-IsTurned (err code) fallback code)
      react (ok j) on =
          elim (Outcome-cases (page_of j call.fence.scope call.session_id call.offset)) [
            | inl (code, e) ↦ rw (on_page, on, e) (refuse-IsTurned (ok j) fallback (some code))
            | inr (page, e) ↦ rw (on_page, on, e) (turn_page-IsTurned j page e)
          ]
