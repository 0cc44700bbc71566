-- ===== src/Protocol/Examples.antt =====
-- A request of the method task.list, and params with a forbidden key in different depths.
use ai_verse_dashboard.Base.{ℕ, zero, suc, ◌≤◌, ◌≡◌, ◌↔◌, refl, true, false, ◌||◌, none, some, ok}
use ai_verse_dashboard.Base.Text.{
  Text, text, ◌===◌, member, is_lower, is_digit, is_slug, is_slug_head,
}
use ai_verse_dashboard.Base.Decimal.{decimal}
use ai_verse_dashboard.Protocol.Ids.{is_system_id, is_workspace_id}
use ai_verse_dashboard.Protocol.Methods.{
  protocol_methods, is_known_method, is_query_method, is_command_method, requires_system,
  requires_workspace, assert_query_only,
}
use ai_verse_dashboard.Protocol.Methods.Guard.{
  assert_query_only_lem, requires_workspace-requires_system,
}
use ai_verse_dashboard.Protocol.Json.{
  Json, object, string, array, end, item, close, member_of, is_forbidden, is_hit, below_key, visit,
  check_no_raw_roots,
}
use ai_verse_dashboard.Protocol.Json.Keys.{KeyAt, check_no_raw_roots_lem}
use ai_verse_dashboard.Protocol.Fields.{
  field, has_only, string_field, optional_field, is_sized, is_text, is_some, unless, accept,
}
use ai_verse_dashboard.Protocol.Envelope.{
  DashboardRequest, raw_roots, params_issues, request_issues, request_fields, request_schema,
}
use ai_verse_dashboard.Protocol.Envelope.Admitted.{IsAdmitted, request_schema-IsAdmitted}

run_here : Unit {0}
unfolding text ◌===◌ is_lower is_digit is_slug is_slug_head decimal is_system_id is_workspace_id
    is_known_method is_query_method is_command_method requires_system requires_workspace
    assert_query_only is_forbidden is_hit below_key visit check_no_raw_roots field has_only
    string_field optional_field is_sized is_text is_some unless accept raw_roots params_issues
    request_issues request_fields request_schema
run_here = tt

abbrev task_list : Text
task_list = text "task.list"

requires_workspace-requires_system_example :
    (is_known_method task_list ≡ true)
    × (requires_system task_list ≡ true)
    × (member task_list protocol_methods ≡ false)
unfolding run_here
requires_workspace-requires_system_example = requires_workspace-requires_system task_list refl

assert_query_only_lem_example :
    (assert_query_only task_list ≡ ok tt)
    ↔ ((is_query_method task_list || member task_list protocol_methods) ≡ true)
assert_query_only_lem_example = assert_query_only_lem task_list

-- The value under that many arrays.
nest : ℕ → Json → Json
nest zero j = j
nest (suc n) j = array (item (nest n j) end)

rooted : Json
unfolding text
rooted = object (member_of (text "rootPath") (string (text "/etc")) close)

check_no_raw_roots_lem_example :
    (check_no_raw_roots rooted ≡ none)
    ↔ ((key : Text) (n : ℕ) → KeyAt key n rooted → n ≤ 8 → is_forbidden key ≡ false)
check_no_raw_roots_lem_example = check_no_raw_roots_lem rooted

root_is_found : check_no_raw_roots rooted ≡ some (text "rootPath")
unfolding run_here rooted
root_is_found = refl

deep_root_passes : check_no_raw_roots (nest 9 rooted) ≡ none
unfolding run_here rooted nest
deep_root_passes = refl

abbrev sized : Json → ℕ
sized j = 2

abbrev raw_request : Json
raw_request = object (
    member_of (text "type") (string (text "req")) (
      member_of (text "v") (string (text "1.0")) (
        member_of (text "id") (string (text "1")) (
          member_of (text "method") (string task_list) (
            member_of (text "systemId") (string (text "a")) (
              member_of (text "workspaceId") (string (text "w"))
                (member_of (text "params") (object close) close)))))))

abbrev request : DashboardRequest
request = record {
  id = text "1";
  method = task_list;
  system_id = some (text "a");
  workspace_id = some (text "w");
  params = some (object close);
}

request_schema-IsAdmitted_example : IsAdmitted sized request
unfolding run_here
request_schema-IsAdmitted_example = request_schema-IsAdmitted sized raw_request request refl
