-- ===== src/Web/Examples.antt =====
-- The default panels, and a layout of two of them.
use ai_verse_dashboard.Base.{◌≡◌, refl, none, some, List, [], ◌∷◌, length}
use ai_verse_dashboard.Base.Text.{
  Text, text, ◌===◌, is_slug, is_slug_head, is_lower, is_digit, is_word, is_alnum,
}
use ai_verse_dashboard.Base.Decimal.{decimal}
use ai_verse_dashboard.Base.Map.{lookup, insert, remove, has, values}
use ai_verse_dashboard.Protocol.Ids.{
  is_system_id, is_workspace_id, is_panel_id, is_record_id, compact,
}
use ai_verse_dashboard.Web.Panels.{
  PanelState, PanelRegistry, is_true, check_definition, register, register_all, phase_2_panels,
  default_phase_1_panels,
}
use ai_verse_dashboard.Web.Layout.{
  LayoutManager, empty_layout, is_preset_name, same_presentation, supports, first_of,
  choose_presentation, check_workspace, find_panel, find_instance, put, new_instance, mount,
  check_state, in_state, set_state, supported_by, set_presentation, retarget, unmount, save_preset,
  restore, load_preset, reset,
}
use ai_verse_dashboard.Web.Layout.Kept.{Call, run, run_all, IsWellFormed, layout-IsWellFormed}

run_here : Unit {0}
unfolding text ◌===◌ is_slug is_slug_head is_lower is_digit is_word is_alnum decimal lookup insert
    remove has values is_system_id is_workspace_id is_panel_id is_record_id is_true check_definition
    register register_all phase_2_panels default_phase_1_panels is_preset_name same_presentation
    supports first_of choose_presentation check_workspace find_panel find_instance put new_instance
    mount check_state in_state set_state supported_by set_presentation retarget unmount save_preset
    restore load_preset reset run run_all
run_here = tt

all_panels_register : length (register_all phase_2_panels []) ≡ 9
unfolding run_here
all_panels_register = refl

five_default_panels : length default_phase_1_panels ≡ 5
unfolding run_here
five_default_panels = refl

abbrev sys : Text
sys = 97 ∷ []

panels : PanelRegistry
unfolding run_here
panels = register_all phase_2_panels []

calls : List Call
unfolding text
calls =
    Call.mounts (text "now") sys (some sys) none none
    ∷ Call.mounts (text "usage") sys none none (some compact)
    ∷ Call.sets_state (text "inst-2") PanelState.hud_state
    ∷ Call.sets_state (text "inst-1") PanelState.hud_state
    ∷ Call.retargets (text "inst-2") (98 ∷ []) none
    ∷ []

layout-IsWellFormed_example : IsWellFormed panels (run_all panels calls empty_layout)
layout-IsWellFormed_example = layout-IsWellFormed panels calls empty_layout tt

two_are_mounted : length (run_all panels calls empty_layout).instances ≡ 2
unfolding run_here panels calls
two_are_mounted = refl

-- A preset of one instance, restored into a new layout: the next mount takes its id and replaces it.
abbrev restored : LayoutManager
restored =
    (load_preset panels
      (record {
        name = sys;
        instances =
            values
              (run_all panels (Call.mounts (text "now") sys (some sys) none none ∷ [])
                empty_layout).instances;
      })
      empty_layout).1

mount_replaces :
    length (run_all panels (Call.mounts (text "usage") sys none none none ∷ []) restored).instances
    ≡ 1
unfolding run_here panels
mount_replaces = refl
