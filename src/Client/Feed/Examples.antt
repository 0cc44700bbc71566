-- ===== src/Client/Feed/Examples.antt =====
-- The stream of the run `r` in the workspace `w` of the system `a`.
use ai_verse_dashboard.Base.{◌≡◌, refl, false, Option, some, List, [], ◌∷◌, All, ok, length}
use ai_verse_dashboard.Base.Text.{
  Text, text, ◌===◌, is_alnum, is_slug, is_slug_head, is_lower, is_digit,
}
use ai_verse_dashboard.Protocol.Ids.{is_system_id}
use ai_verse_dashboard.Protocol.Json.{Json, object, string, number, close, member_of}
use ai_verse_dashboard.Protocol.Fields.{field}
use ai_verse_dashboard.Client.Runs.{RequiredScope, is_safe_id, is_filled, safe_unit}
use ai_verse_dashboard.Client.Feed.{
  Feed, Signal, opens, closes, fails, message, is_workspace, subscribe, interrupt, is_upper,
  is_code, is_text_of, says, is_false, denial_of, denial, filled_text, optional_text, seq_of, made,
  event_of, emit, is_denial, is_run_event, read_event, read, read_value, on_message, on_signal,
  effects,
}
use ai_verse_dashboard.Client.Feed.Told.{OnEvent, IsFrom, IsEnded, effects_sound}

run_here : Unit {0}
unfolding text ◌===◌ is_alnum is_slug is_slug_head is_lower is_digit is_system_id field is_safe_id
    is_filled safe_unit is_workspace subscribe interrupt is_upper is_code is_text_of says is_false
    denial_of denial filled_text optional_text seq_of made event_of emit is_denial is_run_event
    read_event read read_value on_message on_signal effects
run_here = tt

abbrev scope : RequiredScope
scope = record { system_id = 97 ∷ []; workspace_id = 119 ∷ [] }

abbrev feed : Feed
feed = record { scope = scope; run_id = 114 ∷ []; stopped = false; reported = false }

subscribes : subscribe scope (114 ∷ []) ≡ ok feed
unfolding run_here
subscribes = refl

-- Every message is the delta `h` with the number 3.
delta : Text → Option Json
unfolding text
delta raw = some (
    object (
      member_of (text "type") (string (text "event")) (
        member_of (text "event") (string (text "aiverse.gateway.run.event")) (
          member_of (text "systemId") (string (97 ∷ [])) (
            member_of (text "workspaceId") (string (119 ∷ [])) (
              member_of (text "seq") (number 3) (
                member_of (text "payload")
                  (object (
                    member_of (text "runId") (string (114 ∷ [])) (
                      member_of (text "eventId") (string (120 ∷ [])) (
                        member_of (text "kind") (string (text "assistant.delta"))
                          (member_of (text "text") (string (104 ∷ [])) close)))))
                  close)))))))

abbrev signals : List Signal
signals = opens ∷ message [] ∷ fails ∷ message [] ∷ closes ∷ []

effects_sound_example :
    All (OnEvent (IsFrom delta signals scope (114 ∷ []))) (effects delta signals feed)
    × IsEnded (effects delta signals feed)
effects_sound_example = effects_sound delta signals feed

-- The subscription, one event, one interruption and the close of the socket.
four_effects : length (effects delta signals feed) ≡ 4
unfolding run_here delta
four_effects = refl
