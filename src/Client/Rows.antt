-- ===== src/Client/Rows.antt =====
-- packages/client/src/conversation-run.ts: a page of a session's history, newest run first, read from
-- the JSON that the Gateway answers.
use ai_verse_dashboard.Base.{
  ℕ, Bool, true, false, not, ◌&&◌, Option, none, some, List, [], ◌∷◌, Outcome, ok, err, ◌>>=◌, ◌>>◌,
  check, leb, ltb, length, if◌then◌else◌,
}
use ai_verse_dashboard.Base.Text.{Text, text}
use ai_verse_dashboard.Protocol.Json.{
  Json, object, null, boolean, number, string, array, Elements, end, item,
}
use ai_verse_dashboard.Protocol.Fields.{field, is_text}
use ai_verse_dashboard.Client.Runs.{RequiredScope, is_safe_id}

pub record Row : Type 0 where
  pub run_id : Text
  pub status : Text
  pub user_text : Option Text
  pub output : Option Text
  pub user_text_truncated : Bool
  pub output_truncated : Bool

pub record Page : Type 0 where
  pub rows : List Row
  pub has_more : Bool
  pub next_offset : ℕ

abbrev pub invalid_history : Text
invalid_history = text "CHAT_HISTORY_INVALID"

unfoldable pub text_that : (Text → Bool) → Option Json → Outcome Text Text
text_that test (some (string s)) = if test s then ok s else err invalid_history
text_that test _ = err invalid_history

-- A text or `null`.
unfoldable pub text_or_null : Option Json → Outcome Text (Option Text)
text_or_null (some null) = ok none
text_or_null (some (string s)) = ok (some s)
text_or_null _ = err invalid_history

unfoldable pub flag : Option Json → Outcome Text Bool
flag (some (boolean b)) = ok b
flag _ = err invalid_history

unfoldable pub row_of : Text → Json → Outcome Text Row
unfolding text field is_text is_safe_id text_that text_or_null flag
row_of session_id (object ms) =
    text_that (is_text session_id) (field (text "session_id") ms) >>= λ session.
    text_that is_safe_id (field (text "run_id") ms) >>= λ run_id.
    text_that (λ s. true) (field (text "status") ms) >>= λ status.
    text_or_null (field (text "user_text") ms) >>= λ user_text.
    text_or_null (field (text "output") ms) >>= λ output.
    flag (field (text "user_text_truncated") ms) >>= λ user_text_truncated.
    flag (field (text "output_truncated") ms) >>= λ output_truncated. ok (record {
      run_id = run_id;
      status = status;
      user_text = user_text;
      output = output;
      user_text_truncated = user_text_truncated;
      output_truncated = output_truncated;
    })
row_of session_id _ = err invalid_history

unfoldable pub rows_of : Text → Elements → Outcome Text (List Row)
unfolding row_of
rows_of session_id end = ok []
rows_of session_id (item j rest) =
    row_of session_id j >>= λ row. rows_of session_id rest >>= λ rows. ok (row ∷ rows)

unfoldable pub list_of : Text → Option Json → Outcome Text (List Row)
unfolding rows_of
list_of session_id (some (array elements)) = rows_of session_id elements
list_of session_id _ = err invalid_history

unfoldable pub is_empty_page : List Row → Bool
is_empty_page [] = true
is_empty_page (row ∷ rows) = false

-- Where there is more, the next offset lies ahead, up to 10,000; else it is `null`.
unfoldable pub offset_of : Bool → List Row → ℕ → Option Json → Outcome Text ℕ
unfolding is_empty_page
offset_of true rows offset (some (number n)) =
    if not (is_empty_page rows) && ltb offset n && leb n 10_000 then ok n else err invalid_history
offset_of true rows offset _ = err invalid_history
offset_of false rows offset (some null) = ok offset
offset_of false rows offset _ = err invalid_history

unfoldable pub page_of : Json → RequiredScope → Text → ℕ → Outcome Text Page
unfolding text field is_text text_that list_of flag offset_of
page_of (object ms) scope session_id offset =
    text_that (is_text (text "canonical-gateway")) (field (text "source") ms) >>= λ source.
    text_that (is_text scope.workspace_id) (field (text "workspaceId") ms) >>= λ workspace_id.
    text_that (is_text session_id) (field (text "sessionId") ms) >>= λ session.
    list_of session_id (field (text "data") ms) >>= λ rows.
    check (leb (length rows) 25) invalid_history
    >> (flag (field (text "has_more") ms) >>= λ has_more.
        offset_of has_more rows offset (field (text "next_offset") ms) >>= λ next_offset.
        ok (record { rows = rows; has_more = has_more; next_offset = next_offset }))
page_of _ scope session_id offset = err invalid_history
