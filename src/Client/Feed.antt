-- ===== src/Client/Feed.antt =====
-- packages/client/src/gateway-event-feed.ts: the stream of one run's events over a socket. What can
-- happen to the socket is a `Signal`; `parse` stands for `JSON.parse`. What the listeners do is told by
-- the effects, in their order.
pub mod Frames
pub mod Told
mod Examples
use ai_verse_dashboard.Base.{
  ℕ, ◌+◌, ◌≡◌, Bool, true, false, not, ◌&&◌, ◌||◌, Option, none, some, List, [], ◌∷◌, ◌++◌, Outcome,
  ok, err, ◌>>◌, check, leb, ltb, ◌==◌, all, length, take, if◌then◌else◌,
}
use ai_verse_dashboard.Base.Text.{Text, text, ◌===◌, is_slug, is_slug_head, is_digit}
use ai_verse_dashboard.Protocol.Ids.{is_system_id}
use ai_verse_dashboard.Protocol.Json.{
  Json, object, null, boolean, number, other_number, string, array, Members, close, member_of,
}
use ai_verse_dashboard.Protocol.Fields.{field}
use ai_verse_dashboard.Client.Runs.{RequiredScope, is_safe_id, is_filled}
use ai_verse_dashboard.Client.Chat.Stream.{ChatRunEvent}

-- `stopped` and `reported` of the closure that `subscribe` makes.
pub record Feed : Type 0 where
  pub scope : RequiredScope
  pub run_id : Text
  pub stopped : Bool
  pub reported : Bool

pub data Signal : Type 0 where
  opens closes fails : Signal
  message : Text → Signal
  dispose : Bool → Signal

-- The callbacks, and what is sent to the socket.
pub data Effect : Type 0 where
  event : ChatRunEvent → Effect
  interruption : Text → Effect
  sends_subscribe sends_unsubscribe closes_socket : Effect

-- `/^(operator|[a-z0-9][a-z0-9-]{0,127})$/`, of which the first alternative is a case of the second.
is_workspace : Text → Bool
unfolding is_slug_head is_slug
is_workspace [] = false
is_workspace (c ∷ s) = is_slug_head c && all is_slug s && leb (length s) 127

pub subscribe : RequiredScope → Text → Outcome Text Feed
unfolding text is_safe_id is_system_id is_workspace
subscribe scope run_id =
    check (is_safe_id run_id) (text "CHAT_RUN_ID_INVALID")
    >> (check (is_system_id scope.system_id && is_workspace scope.workspace_id)
          (text "CHAT_SCOPE_REQUIRED")
        >> ok (record { scope = scope; run_id = run_id; stopped = false; reported = false }))

-- `interrupted`
interrupt : Text → Feed → Feed × List Effect
interrupt code f =
    if f.stopped || f.reported
    then (f, [])
    else (record f { reported = true }, interruption code ∷ closes_socket ∷ [])

is_upper : ℕ → Bool
is_upper c = leb b'A' c && leb c b'Z'

-- `/^[A-Z][A-Z0-9_]{1,60}$/`
is_code : Text → Bool
unfolding is_upper is_digit
is_code [] = false
is_code (c ∷ s) =
    is_upper c
    && all (λ d. is_upper d || is_digit d || d == b'_') s
    && leb 1 (length s)
    && leb (length s) 60

is_text_of : Text → Option Json → Bool
unfolding ◌===◌
is_text_of value (some (string s)) = s === value
is_text_of value _ = false

-- A text field with that value.
pub says : Text → Text → Members → Bool
unfolding is_text_of
says name value ms = is_text_of value (field name ms)

is_false : Option Json → Bool
is_false (some (boolean b)) = not b
is_false _ = false

denial_of : Option Json → Text
unfolding text is_code
denial_of (some (string s)) = if is_code s then s else text "CHAT_SUBSCRIPTION_DENIED"
denial_of _ = text "CHAT_SUBSCRIPTION_DENIED"

-- `value.error?.code`
denial : Option Json → Text
unfolding text denial_of
denial (some (object ms)) = denial_of (field (text "code") ms)
denial _ = denial_of none

filled_text : Option Json → Option Text
unfolding is_filled
filled_text (some (string s)) = if is_filled s then some s else none
filled_text _ = none

-- A text that may be missing, cut to 8,192 units; `none` where it is something else.
optional_text : Option Json → Option (Option Text)
optional_text none = some none
optional_text (some (string s)) = some (some (take 8192 s))
optional_text (some _) = none

-- A safe integer of at least 1.
seq_of : Option Json → Option ℕ
seq_of (some (number n)) = if leb 1 n && leb n 9_007_199_254_740_991 then some n else none
seq_of _ = none

made : Feed → Option Text → Option Text → Option (Option Text) → Option ℕ → Option ChatRunEvent
made f (some event_id) (some kind) (some content) (some seq) = some (record {
  scope = f.scope;
  run_id = f.run_id;
  event_id = event_id;
  kind = kind;
  content = content;
  seq = seq;
})
made f _ _ _ _ = none

-- The event of a payload, if it is one of the run.
pub event_of : Feed → Option Json → Option Json → Option ChatRunEvent
unfolding text says filled_text optional_text seq_of made
event_of f (some (object p)) seq =
    if says (text "runId") f.run_id p
    then made f (filled_text (field (text "eventId") p)) (filled_text (field (text "kind") p))
        (optional_text (field (text "text") p)) (seq_of seq)
    else none
event_of f _ seq = none

emit : Feed → Option ChatRunEvent → Feed × List Effect
unfolding text interrupt
emit f none = interrupt (text "CHAT_INVALID_STREAM") f
emit f (some e) = (f, event e ∷ [])

is_denial : Members → Bool
unfolding text says is_false
is_denial ms =
    says (text "type") (text "res") ms
    && says (text "id") (text "gateway-run-subscribe") ms
    && is_false (field (text "ok") ms)

is_run_event : Members → Bool
unfolding text says
is_run_event ms =
    says (text "type") (text "event") ms
    && says (text "event") (text "aiverse.gateway.run.event") ms

-- An event frame, which has to be of the scope.
read_event : Feed → Members → Feed × List Effect
unfolding text says interrupt event_of emit
read_event f ms =
    if says (text "systemId") f.scope.system_id ms
      && says (text "workspaceId") f.scope.workspace_id ms
    then emit f (event_of f (field (text "payload") ms) (field (text "seq") ms))
    else interrupt (text "CHAT_SCOPE_MISMATCH") f

-- The listener of messages, for a JSON object.
read : Feed → Members → Feed × List Effect
unfolding text is_denial is_run_event denial interrupt read_event
read f ms =
    let told = read_event f ms in
    if is_denial ms
    then interrupt (denial (field (text "error") ms)) f
    else if is_run_event ms
    then told
    else (f, [])

read_value : Feed → Option Json → Feed × List Effect
unfolding text interrupt read
read_value f none = interrupt (text "CHAT_INVALID_STREAM") f
read_value f (some (object ms)) = read f ms
read_value f (some _) = (f, [])

module _ (parse : Text → Option Json) where
  pub on_message : Text → Feed → Feed × List Effect
  unfolding text interrupt read_value
  on_message raw f =
      if f.stopped || f.reported
      then (f, [])
      else if ltb 131_072 (length raw)
      then interrupt (text "CHAT_INVALID_STREAM") f
      else read_value f (parse raw)

  -- `dispose` is the function that `subscribe` returns, with whether the socket is open.
  pub on_signal : Signal → Feed → Feed × List Effect
  unfolding text interrupt on_message
  on_signal opens f = (f, if f.stopped then [] else sends_subscribe ∷ [])
  on_signal closes f = interrupt (text "CHAT_STREAM_DISCONNECTED") f
  on_signal fails f = interrupt (text "CHAT_STREAM_INTERRUPTED") f
  on_signal (message raw) f = on_message raw f
  on_signal (dispose is_open) f = (
    record f { stopped = true },
    if is_open then sends_unsubscribe ∷ closes_socket ∷ [] else closes_socket ∷ [],
  )

  -- All effects of a history of the socket.
  pub effects : List Signal → Feed → List Effect
  unfolding on_signal
  effects [] f = []
  effects (s ∷ ss) f = let next = on_signal s f in next.1 ++ effects ss next.0
