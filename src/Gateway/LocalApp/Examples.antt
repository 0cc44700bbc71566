-- ===== src/Gateway/LocalApp/Examples.antt =====
-- A session of system `a` on port 4000: pairing, logout, and a workspace request that is approved.
use ai_verse_dashboard.Base.{◌+◌, ◌≤◌, ◌≡◌, max, refl, true, false, none, some, List, [], ◌∷◌, ok}
use ai_verse_dashboard.Base.Text.{
  Text, text, ◌===◌, starts_with, is_slug, is_slug_head, is_lower, is_digit, is_word, is_alnum,
}
use ai_verse_dashboard.Base.Decimal.{decimal}
use ai_verse_dashboard.Gateway.LocalApp.{
  new_session, set_bound_port, set_listener, active, pairing_is_open, open_request, is_open_request,
  rotate_workspace, approve_request,
}
use ai_verse_dashboard.Gateway.LocalState.{
  Owner, LocalAppSession, PendingRequest, WorkspaceIdentity, revoke, is_app_id, is_app_workspace,
  capture_workspace, owner_still_approved, same_text, same_number, same_identity, operator_id,
  max_pair_attempts, workspace_request_ttl,
}
use ai_verse_dashboard.Gateway.LocalApp.Requests.{
  Web, Method, Request, is_session, is_get, is_post, local_host, cookie_prefix, is_cookie_value,
  read_cookie, origin_is_exact, holds_token, is_authorized_browser,
}
use ai_verse_dashboard.Gateway.LocalApp.Routes.{
  begin, begin_pair, finish_pair, guess, admit, refuse, session_route, with_browser, is_json,
  with_session,
}
use ai_verse_dashboard.Gateway.LocalApp.Actions.{Action, run, run_all, no_reply, reply_of}
use ai_verse_dashboard.Gateway.LocalApp.Calm.{guesses, pairings}
use ai_verse_dashboard.Gateway.LocalApp.Pairing.{total, once, code_serves_once}
use ai_verse_dashboard.Gateway.LocalApp.Ended.{ended_session_admits_nobody}
use ai_verse_dashboard.Gateway.LocalApp.Approval.{IsRotated, approve_request_sound}

run_here : Unit {0}
unfolding text ◌===◌ starts_with is_slug is_slug_head is_lower is_digit is_word is_alnum decimal
    new_session set_bound_port set_listener revoke is_app_id is_app_workspace capture_workspace
    owner_still_approved same_text same_number same_identity operator_id active pairing_is_open
    open_request is_open_request rotate_workspace approve_request is_session is_get is_post
    local_host cookie_prefix is_cookie_value read_cookie origin_is_exact holds_token
    is_authorized_browser begin begin_pair finish_pair guess admit refuse session_route with_browser
    is_json with_session run run_all no_reply reply_of
run_here = tt

abbrev a : Text
a = 97 ∷ []

abbrev b : Text
b = 98 ∷ []

abbrev code : Text
code = 99 ∷ []

abbrev folder : WorkspaceIdentity
folder = record { root = b; dev = 1; ino = 2 }

abbrev owner : Owner
owner = record { root = some a; generation = some 1; workspace = λ w. some folder }

abbrev web : Web
web = record { trim = λ t. t; code_of = λ t. some t; workspace_of = λ t. some t }

session : LocalAppSession
unfolding text
session = record {
  port = 4000;
  pairing = code;
  born = 0;
  session_token = a;
  session_abort = 0;
  aborted = [];
  scope = record { system_id = a; workspace_id = text "operator" };
  has_owner = true;
  owner_root = some a;
  owner_generation = some 1;
  workspace_identity = none;
  has_listener = true;
  request_count = 1;
  pending_request =
      some (record { id = a; workspace_id = b; at = 10; identity = some folder; denied = false });
  sessions_until = 0;
  attempts = 0;
  used = false;
  sockets = 3 ∷ 4 ∷ [];
  closed = [];
  expiry_timer = none;
}

pair : Request
unfolding text
pair = record {
  method = Method.post;
  pathname = text "/local-app/pair";
  has_query = false;
  host = some (text "127.0.0.1:4000");
  origin = some (text "http://127.0.0.1:4000");
  content_type = some (text "application/json");
  cookie = none;
}

abbrev try : Text → Action
try t = Action.finishes_pair web owner 20 pair (record { size = 9; raw = t; failed = false })

abbrev history : List Action
history =
    Action.begins web owner false true 15 pair ∷ try b ∷ try code ∷ try code ∷ Action.closes ∷ []

code_serves_once_example :
    (total pairings (run_all history session).0 + once session.used ≤ 1)
    × (total guesses (run_all history session).0 + session.attempts
        ≤ max max_pair_attempts session.attempts)
code_serves_once_example = code_serves_once history session (tt, (tt, (tt, (tt, (tt, tt)))))

pairs_once : total pairings (run_all history session).0 ≡ 1
unfolding run_here session pair
pairs_once = refl

compares_twice : total guesses (run_all history session).0 ≡ 2
unfolding run_here session pair
compares_twice = refl

abbrev paired : LocalAppSession
paired = (run_all (try code ∷ []) session).1

is_paired : paired.sessions_until ≡ 28800020
unfolding run_here session pair
is_paired = refl

nobody_pairs : total pairings (run_all (try code ∷ Action.times_out 30 ∷ []) (revoke paired)).0 ≡ 0
unfolding run_here session pair
nobody_pairs = refl

ended_session_admits_nobody_example :
    (is_session web owner 40 pair
      (run_all (try code ∷ Action.times_out 30 ∷ []) (revoke paired)).1).0
    ≡ false
ended_session_admits_nobody_example =
    ended_session_admits_nobody (try code ∷ Action.times_out 30 ∷ []) paired web owner 40 pair
      nobody_pairs

approved : (approve_request owner a b b 50 session).0 ≡ ok b
unfolding run_here session
approved = refl

approve_request_sound_example :
    (r : PendingRequest) × (session.pending_request ≡ some r)
    × (r.id ≡ a)
    × (r.denied ≡ false)
    × (50 ≤ r.at + workspace_request_ttl)
    × (owner_still_approved owner session ≡ true)
    × (capture_workspace owner session b ≡ ok r.identity)
    × IsRotated session b b b 50 (approve_request owner a b b 50 session).1
approve_request_sound_example = approve_request_sound owner a b b 50 session b approved

closes_both : (approve_request owner a b b 50 session).1.closed ≡ 3 ∷ 4 ∷ []
unfolding run_here session
closes_both = refl
