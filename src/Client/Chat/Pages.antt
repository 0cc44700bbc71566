-- ===== src/Client/Chat/Pages.antt =====
-- packages/client/src/conversation-run.ts: `openSession` and `loadOlderSessionRuns`, which read the
-- pages of a session's history, newest run first. A page is asked for in one step and taken in
-- another; `turns` and the like are what the methods return beside the state.
pub mod Whole
use ai_verse_dashboard.Base.{
  ℕ, ◌+◌, ◌≡◌, Bool, true, false, not, ◌&&◌, ◌||◌, Option, none, some, List, [], ◌∷◌, ◌++◌, map,
  Outcome, ok, err, ◌>>=◌, ◌>>◌, check, attempt, leb, ltb, ◌==◌, any, length, select, take_last,
  if◌then◌else◌,
}
use mathlib.Core.List.{reverse}
use ai_verse_dashboard.Base.Text.{Text, text, ◌===◌, member}
use ai_verse_dashboard.Protocol.Json.{
  Json, object, null, boolean, number, other_number, string, array, Elements, end, item, Members,
}
use ai_verse_dashboard.Protocol.Fields.{field, is_text}
use ai_verse_dashboard.Client.Runs.{
  RequiredScope, required_scope, is_safe_id, is_filled, is_completed, has_output, ChatRunPhase,
  idle, submitting, completed, recovery_required,
}
use ai_verse_dashboard.Client.History.{Turn, user, assistant}
use ai_verse_dashboard.Client.Chat.{
  PersonalChatRunController, ChatRunView, Fence, Cursor, show, interrupt, reset, fence_of, is_valid,
  is_given,
}
use ai_verse_dashboard.Client.Chat.Answers.{Answer, text_or, refuse}
use ai_verse_dashboard.Client.Rows.{Row, Page, invalid_history, page_of}

-- `openSession`, before its first page.
pub record PageCall : Type 0 where
  pub fence : Fence
  pub session_id : Text
  pub rows : List Row
  pub offset : ℕ
  pub is_second : Bool

unfoldable pub open_session :
    Text → PersonalChatRunController → Outcome Text PageCall × PersonalChatRunController
unfolding text is_safe_id required_scope reset show fence_of
open_session session_id s =
    attempt
      (check (is_safe_id session_id) (text "CHAT_SESSION_ID_INVALID")
        >> required_scope s.client_scope)
      s
      λ scope.
        let fresh = reset scope s in
        (
          ok (record {
            fence = fence_of scope fresh;
            session_id = session_id;
            rows = [];
            offset = 0;
            is_second = false;
          }),
          show (record fresh.view { phase = submitting }) fresh,
        )

unfoldable pub has_text : Option Text → Bool
unfolding is_filled
has_text none = false
has_text (some s) = is_filled s

-- A completed run with its text and output, both whole.
unfoldable pub is_whole : Row → Bool
unfolding is_completed has_output has_text
is_whole row =
    is_completed row.status
    && has_output row.output
    && has_text row.user_text
    && not row.user_text_truncated
    && not row.output_truncated

unfoldable pub turn_of : (Text → Turn) → Option Text → List Turn
unfolding is_filled
turn_of make none = []
turn_of make (some s) = make s ∷ []

unfoldable pub asked : Text → Turn
asked s = record { role = user; content = s }

unfoldable pub answered : Text → Turn
answered s = record { role = assistant; content = s }

-- The turns that a run shows: its text if there is some, and its output if it is completed.
unfoldable pub row_turns : Row → List Turn
unfolding has_text is_completed turn_of asked answered
row_turns row =
    (if has_text row.user_text then turn_of asked row.user_text else [])
    ++ (if is_completed row.status then turn_of answered row.output else [])

-- What `turns` is, from the oldest run on.
unfoldable pub turns_of : List Row → List Turn
unfolding row_turns
turns_of [] = []
turns_of (row ∷ older) = turns_of older ++ row_turns row

-- `completed`: the turns of the whole runs, from the oldest on.
unfoldable pub whole_turns : List Row → List Turn
unfolding is_whole row_turns
whole_turns [] = []
whole_turns (row ∷ older) =
    let before = whole_turns older in if is_whole row then before ++ row_turns row else before

unfoldable pub newest : List Row → Option Row
newest [] = none
newest (row ∷ rows) = some row

-- The view of an opened session, by its newest run.
unfoldable pub opened_view : Text → Bool → Option Row → ChatRunView → ChatRunView
unfolding text is_whole is_completed text_or
opened_view session_id limited none view = record view {
  phase = idle;
  session_id = some session_id;
  run_id = none;
  output = [];
  canonical_status = none;
  error_code = none;
  context_limited = limited;
}
opened_view session_id limited (some row) view = record view {
  phase = if is_whole row then completed else recovery_required;
  session_id = some session_id;
  run_id = some row.run_id;
  output = if is_whole row then text_or [] row.output else [];
  canonical_status = some row.status;
  error_code =
      if is_completed row.status && not (is_whole row)
      then some (text "CHAT_HISTORY_FINAL_UNVERIFIED")
      else none;
  context_limited = limited;
}

unfoldable pub confirmed_id : Option Row → Option Text
unfolding is_whole
confirmed_id none = none
confirmed_id (some row) = if is_whole row then some row.run_id else none

unfoldable pub repeats : List Text → Bool
repeats [] = false
repeats (id ∷ ids) = member id ids || repeats ids

-- After the last page: `rows` are all runs that were read.
unfoldable pub opened :
    Text → List Row → Bool → ℕ → PersonalChatRunController → PersonalChatRunController
unfolding is_whole whole_turns newest opened_view confirmed_id show
opened session_id rows more offset s =
    let whole = whole_turns rows in
    let limited = more || any (λ row. not (is_whole row)) rows || ltb 12 (length whole) in
    let cursor : Cursor = record {
      session_id = session_id;
      offset = offset;
      total = length rows;
      seen = map (λ row. row.run_id) rows;
      serial = s.cursors;
    } in
    show (opened_view session_id limited (newest rows) s.view) (record s {
      confirmed_turns = take_last 12 whole;
      historical_older = if more then some cursor else none;
      cursors = s.cursors + 1;
      context_limited = limited;
      confirmed_run_id = confirmed_id (newest rows);
    })

-- `openSession`, after a page: the next page, or the end.
unfoldable pub finish : PageCall → Page → PersonalChatRunController → PersonalChatRunController
unfolding text refuse repeats opened
finish call page s =
    let rows = call.rows ++ page.rows in
    if repeats (map (λ row. row.run_id) rows)
    then refuse (text "CHAT_HISTORY_UNAVAILABLE") (some (text "CHAT_HISTORY_DUPLICATE_RUN")) s
    else opened call.session_id rows page.has_more page.next_offset s

unfoldable pub turn_page :
    PageCall → Page → PersonalChatRunController → PersonalChatRunController × Option PageCall
unfolding finish
turn_page call page s =
    if page.has_more && not call.is_second
    then (
      s,
      some (record call {
        rows = call.rows ++ page.rows;
        offset = page.next_offset;
        is_second = true;
      }),
    )
    else (finish call page s, none)

unfoldable pub on_page :
    PageCall → Answer → PersonalChatRunController → PersonalChatRunController × Option PageCall
unfolding text refuse page_of turn_page is_valid
on_page call answer s = if is_valid call.fence s then react answer else (s, none)
  where
    taken : Outcome Text Page → PersonalChatRunController × Option PageCall
    taken (err code) = (refuse (text "CHAT_HISTORY_UNAVAILABLE") (some code) s, none)
    taken (ok page) = turn_page call page s

    react : Answer → PersonalChatRunController × Option PageCall
    react (err code) = (refuse (text "CHAT_HISTORY_UNAVAILABLE") code s, none)
    react (ok j) = taken (page_of j call.fence.scope call.session_id call.offset)

pub record OlderCall : Type 0 where
  pub fence : Fence
  pub cursor : Cursor

pub record OlderPage : Type 0 where
  pub turns : List Turn
  pub has_older : Bool
  pub limited_by_view : Bool

-- `loadOlderSessionRuns`, before its page.
unfoldable pub older_of :
    Option Cursor → PersonalChatRunController → Outcome Text OlderCall × PersonalChatRunController
unfolding text is_given required_scope fence_of
older_of none s = (err (text "CHAT_OLDER_HISTORY_UNAVAILABLE"), s)
older_of (some cursor) s =
    attempt
      (check (is_given cursor.session_id s.view.session_id) (text "CHAT_OLDER_HISTORY_UNAVAILABLE")
        >> required_scope s.client_scope)
      s (λ scope. (ok (record { fence = fence_of scope s; cursor = cursor }), s))

unfoldable pub load_older_session_runs :
    PersonalChatRunController → Outcome Text OlderCall × PersonalChatRunController
unfolding older_of
load_older_session_runs s = older_of s.historical_older s

unfoldable pub is_at : Cursor → Option Cursor → Bool
is_at cursor none = false
is_at cursor (some held) = held.serial == cursor.serial

abbrev nothing_older : OlderPage
nothing_older = record { turns = []; has_older = false; limited_by_view = false }

unfoldable pub view_limit : ℕ
view_limit = 200

unfoldable pub extended :
    Cursor → Page → PersonalChatRunController → Outcome Text OlderPage × PersonalChatRunController
unfolding repeats turns_of view_limit
extended cursor page s =
    let ids = map (λ row. row.run_id) page.rows in
    let total = cursor.total + length page.rows in
    let has_older = page.has_more && ltb total view_limit in
    let next : Cursor = record cursor {
      offset = page.next_offset;
      total = total;
      seen = cursor.seen ++ ids;
      serial = s.cursors;
    } in
    if any (λ id. member id cursor.seen) ids || repeats ids then (err invalid_history, s) else (
      ok (record {
        turns = turns_of page.rows;
        has_older = has_older;
        limited_by_view = page.has_more && not has_older;
      }),
      record s {
        historical_older = if has_older then some next else none;
        cursors = s.cursors + 1;
      },
    )

-- After its page: an error is thrown on to the caller, with its code where it has one.
unfoldable pub on_older :
    OlderCall
    → Answer
    → PersonalChatRunController
    → Outcome Text OlderPage × PersonalChatRunController
unfolding text text_or page_of extended is_valid is_at
on_older call (err code) s = (err (text_or [] code), s)
on_older call (ok j) s =
    if is_valid call.fence s && is_at call.cursor s.historical_older
    then attempt (page_of j call.fence.scope call.cursor.session_id call.cursor.offset) s
        (λ page. extended call.cursor page s)
    else (ok nothing_older, s)
