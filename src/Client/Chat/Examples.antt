-- ===== src/Client/Chat/Examples.antt =====
-- A conversation in the workspace `w` of the system `a`, about the run `r` in the session `c`.
use mathlib.Core.List.{reverse}
use ai_verse_dashboard.Client.History.Longest.{
  total, content_bytes, Stops, Alternates, bounded_history_lem,
}
use ai_verse_dashboard.Base.{
  false, ◌≤◌, ◌++◌, ℕ, ◌≡◌, ◌⊎◌, ◌↔◌, refl, Bool, true, none, some, List, [], ◌∷◌, ok, err, arith,
  length,
}
use ai_verse_dashboard.Base.Text.{Text, text, ◌===◌, is_alnum, is_digit, is_lower}
use ai_verse_dashboard.Protocol.Json.{
  Json, object, string, null, boolean, array, end, item, close, member_of,
}
use ai_verse_dashboard.Protocol.Fields.{field, has_only, is_text}
use ai_verse_dashboard.Client.Runs.{
  ClientScope, RequiredScope, is_safe_id, is_filled, required_scope, safe_unit, required, optional,
  optional_flag, count_of, usage_of, has_shape, is_stamp, is_runtime_kind, receipt_of, is_asked,
  shorten, is_long, as_run, has_output, is_completed, require_verified_completion,
  is_readback_fault, canonical_readback_error, phase, is_terminal, completed,
}
use ai_verse_dashboard.Client.History.{
  Turn, Pair, context_bytes, user, assistant, is_user, is_high, is_low, unit_bytes, bytes_from,
  byte_length, pairs_of, pair_bytes, keep_newest, flatten, bounded_pairs, bounded_history,
}
use ai_verse_dashboard.Client.Chat.{
  PersonalChatRunController, Subscription, Fence, ActiveRequest, new_controller, is_scope, is_given,
  end_stream, show, interrupt, reset, fence_of, is_selected, is_valid, is_current, confirm,
  confirm_request, confirm_canonical_output, create_run, recover_run,
}
use ai_verse_dashboard.Client.Chat.Stream.{
  ChatRunEvent, subscribe, reconcile, is_live, is_news, is_end, note_marker, note_seen, add_delta,
  take_event, on_event, on_interrupted,
}
use ai_verse_dashboard.Client.Chat.Answers.{
  is_running, is_finished, text_or, refuse, final_output, owner_view, is_bound, settle, adopt,
  adopt_in_place, created_view, bound_run, attach, follow, on_created, verified, on_reconnected,
  controlled, on_canceled, count_marker, is_refusal, on_checkpoint, on_read_back,
}
use ai_verse_dashboard.Client.Chat.Checks.{
  hold_markers, report, refreshed, on_refreshed, lost, lacks_output, unconfirmed, reconciled,
  on_reconciled, is_waiting, recovered_markers, recovered, on_recovered, answer_call,
}
use ai_verse_dashboard.Client.Chat.Methods.{
  Started, is_space, is_blank, is_unsafe, has_id, given_id, is_canceled, is_interrupted, may_send,
  selected_session, is_empty, sent, send, resubmit, is_present, retry_submission,
}
use ai_verse_dashboard.Client.Rows.{
  page_of, row_of, rows_of, list_of, text_that, text_or_null, flag, is_empty_page, offset_of,
}
use ai_verse_dashboard.Client.Chat.Pages.{
  PageCall, on_page, has_text, is_whole, newest, opened_view, confirmed_id, opened, finish,
  turn_page, repeats, whole_turns, row_turns, turn_of, asked, answered,
}
use ai_verse_dashboard.Client.Chat.Moves
use ai_verse_dashboard.Client.Chat.Moves.{Move, move, run_moves, call_fence}
use ai_verse_dashboard.Client.Chat.Moves.Replies.{Kept}
use ai_verse_dashboard.Client.Chat.Moves.Story.{
  IsDelivery, completed_is_canonical, late_answer_changes_nothing,
}
use ai_verse_dashboard.Client.Chat.Moves.Once.{deliver, event_counts_once}
use ai_verse_dashboard.Client.Chat.Moves.Retry.{retry_sends_same_request}

run_here : Unit {0}
unfolding text ◌===◌ is_alnum is_digit is_lower field has_only is_text is_safe_id is_filled
    required_scope safe_unit required optional optional_flag count_of usage_of has_shape is_stamp
    is_runtime_kind receipt_of is_asked shorten is_long as_run has_output is_completed
    require_verified_completion is_readback_fault canonical_readback_error phase is_terminal is_user
    is_high is_low unit_bytes bytes_from byte_length pairs_of pair_bytes keep_newest flatten
    bounded_pairs bounded_history new_controller is_scope is_given end_stream show interrupt reset
    fence_of is_selected is_valid is_current confirm confirm_request confirm_canonical_output
    subscribe reconcile is_live is_news is_end note_marker note_seen add_delta take_event on_event
    on_interrupted is_running is_finished text_or refuse final_output owner_view is_bound settle
    adopt adopt_in_place created_view bound_run attach follow on_created verified on_reconnected
    controlled on_canceled count_marker is_refusal on_checkpoint on_read_back hold_markers report
    refreshed on_refreshed lost lacks_output unconfirmed reconciled on_reconciled is_waiting
    recovered_markers recovered on_recovered answer_call is_space is_blank is_unsafe has_id given_id
    is_canceled is_interrupted may_send selected_session is_empty sent send resubmit is_present
    retry_submission
run_here = tt

abbrev scope : RequiredScope
scope = record { system_id = 97 ∷ []; workspace_id = 119 ∷ [] }

abbrev client_scope : ClientScope
client_scope = record { system_id = 97 ∷ []; workspace_id = some (119 ∷ []) }

abbrev all_dates : Text → Bool
all_dates s = true

abbrev fresh : PersonalChatRunController
fresh = new_controller client_scope scope 0

abbrev fence : Fence
fence = record { epoch = 0; scope = scope; selection = 0 }

-- The canonical projection of the run with that status and output.
projection : Text → Text → Json
unfolding text
projection status output = object (
    member_of (text "runId") (string (114 ∷ [])) (
      member_of (text "sessionId") (string (99 ∷ [])) (
        member_of (text "status") (string status) (
          member_of (text "workspaceId") (string (119 ∷ [])) (
            member_of (text "systemId") (string (97 ∷ [])) (
              member_of (text "source") (string (text "canonical-gateway"))
                (member_of (text "output") (string output) close)))))))

abbrev told : Move
told = Moves.answer (recover_run fence (114 ∷ [])) (ok (projection (text "completed") (104 ∷ [])))

completed_is_canonical_example :
    Kept fresh.view (move all_dates told fresh).view
    ⊎ IsDelivery all_dates (move all_dates told fresh).view told
unfolding run_here move projection
completed_is_canonical_example = completed_is_canonical all_dates told fresh refl

-- After `close` the answer to a recovery comes too late.
late_answer_changes_nothing_example :
    move all_dates told (run_moves all_dates (Moves.close ∷ []) (reset scope fresh))
    ≡ run_moves all_dates (Moves.close ∷ []) (reset scope fresh)
unfolding run_here call_fence
late_answer_changes_nothing_example =
    late_answer_changes_nothing all_dates (Moves.close ∷ []) (reset scope fresh)
      (recover_run fence (114 ∷ [])) (ok (projection (text "completed") (104 ∷ []))) (omega arith)

-- A running run with its stream, and a delta.
following : PersonalChatRunController
unfolding run_here projection
following =
    (answer_call all_dates (recover_run fence (114 ∷ [])) (ok (projection (text "running") []))
      fresh).0

abbrev stream : Subscription
stream = record { fence = fence; stream_epoch = 1; run_id = 114 ∷ [] }

delta : Text → ℕ → ChatRunEvent
unfolding text
delta id seq = record {
  scope = scope;
  run_id = 114 ∷ [];
  event_id = id;
  kind = text "assistant.delta";
  content = some (104 ∷ 105 ∷ []);
  seq = seq;
}

event_counts_once_example :
    on_event stream
      (delta (120 ∷ []) 4)
      (deliver stream (delta (120 ∷ []) 4 ∷ delta (121 ∷ []) 7 ∷ []) following)
    ≡ (deliver stream (delta (120 ∷ []) 4 ∷ delta (121 ∷ []) 7 ∷ []) following, none)
unfolding run_here following delta projection
event_counts_once_example =
    event_counts_once stream (delta (120 ∷ []) 4) (delta (121 ∷ []) 7 ∷ []) following refl

two_deltas_show :
    (deliver stream (delta (120 ∷ []) 4 ∷ delta (121 ∷ []) 7 ∷ []) following).view.output
    ≡ 104 ∷ 105 ∷ 104 ∷ 105 ∷ []
unfolding run_here deliver following delta projection
two_deltas_show = refl

abbrev request : ActiveRequest
request = record {
  content = 104 ∷ [];
  key = 107 ∷ [];
  session_id = none;
  messages = record { role = user; content = 104 ∷ [] } ∷ [];
}

-- `send` of the message `h` with the key `k`.
sending : Started
unfolding run_here
sending = send (104 ∷ []) (107 ∷ []) none fresh

retry_sends_same_request_example :
    (retry_submission
      (on_created all_dates (record fence { epoch = 1 }) request (err none) sending.1).0).0
    ≡ ok (create_run (record fence { epoch = 1 }) request)
unfolding run_here sending
retry_sends_same_request_example =
    retry_sends_same_request all_dates (104 ∷ []) (107 ∷ []) none (record fence { epoch = 1 })
      request fresh sending.1 none refl

abbrev pair : List Turn
pair =
    record { role = user; content = 104 ∷ [] }
    ∷ record { role = assistant; content = 105 ∷ 106 ∷ [] }
    ∷ []

bounded_history_lem_example :
    ((flatten (pairs_of (pair ++ pair)) ≡ pair ++ pair) ↔ Alternates (pair ++ pair))
    × ((older kept : List Pair) × (pairs_of (pair ++ pair) ≡ reverse older ++ kept)
        × (bounded_history (pair ++ pair) ≡ flatten kept)
        × Alternates (bounded_history (pair ++ pair))
        × (length (bounded_history (pair ++ pair)) ≤ 12)
        × (content_bytes (bounded_history (pair ++ pair)) ≤ context_bytes)
        × Stops (length kept) (total kept) older)
bounded_history_lem_example = bounded_history_lem (pair ++ pair)

both_pairs_fit : length (bounded_history (pair ++ pair)) ≡ 4
unfolding run_here
both_pairs_fit = refl

-- One page of one run, completed and whole: the session opens as completed and may be continued.
abbrev first_page : PageCall
first_page = record {
  fence = fence;
  session_id = 99 ∷ [];
  rows = [];
  offset = 0;
  is_second = false;
}

history_page : Json
unfolding text
history_page = object (
    member_of (text "source") (string (text "canonical-gateway")) (
      member_of (text "workspaceId") (string (119 ∷ [])) (
        member_of (text "sessionId") (string (99 ∷ [])) (
          member_of (text "data")
            (array (
              item
                (object (
                  member_of (text "session_id") (string (99 ∷ [])) (
                    member_of (text "run_id") (string (114 ∷ [])) (
                      member_of (text "status") (string (text "completed")) (
                        member_of (text "user_text") (string (104 ∷ [])) (
                          member_of (text "output") (string (105 ∷ [])) (
                            member_of (text "user_text_truncated") (boolean false)
                              (member_of (text "output_truncated") (boolean false) close))))))))
                end))
            (member_of (text "has_more") (boolean false)
              (member_of (text "next_offset") null close))))))

opens_completed : (on_page first_page (ok history_page) fresh).0.view.phase ≡ completed
unfolding run_here history_page on_page page_of row_of rows_of list_of text_that text_or_null flag
    is_empty_page offset_of has_text is_whole newest opened_view confirmed_id opened finish
    turn_page repeats whole_turns row_turns turn_of asked answered
opens_completed = refl
