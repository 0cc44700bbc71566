-- ===== src/Web/Panels.antt =====
-- apps/web/src/panels.ts: panel definitions and `PanelRegistry`. Presentations and placements are data
-- types, so what the code tests of them by `safeParse` and by `includes` holds at every value.
use ai_verse_dashboard.Base.{
  ℕ, Bool, true, false, not, ◌&&◌, ◌||◌, Option, none, some, List, [], ◌∷◌, Outcome, ok, leb, ◌==◌,
  length, select, if◌then◌else◌, ◌>>◌, check, attempt,
}
use ai_verse_dashboard.Base.Text.{Text, text, member}
use ai_verse_dashboard.Base.Map.{Map, lookup, insert, has}
use ai_verse_dashboard.Protocol.Ids.{Presentation, is_panel_id, full, compact, hud}

pub data PanelPlacement : Type 0 where
  left right bottom center : PanelPlacement

pub data PanelState : Type 0 where
  docked floating detached hud_state hidden : PanelState

pub record PanelDefinition : Type 0 where
  pub id : Text
  pub title : Text
  pub icon : Option Text
  pub supported_presentations : List Presentation
  pub min_width : Option ℕ
  pub min_height : Option ℕ
  pub preferred_placement : Option PanelPlacement
  pub can_float : Option Bool
  pub can_detach : Option Bool
  pub can_pin : Option Bool
  pub system_scoped : Bool
  pub workspace_scoped : Option Bool

pub data PanelFault : Type 0 where
  bad_id : PanelFault
  bad_title : PanelFault
  needs_presentation : PanelFault
  not_system_scoped : PanelFault
  already_registered : PanelFault

-- `value === true`
unfoldable pub is_true : Option Bool → Bool
is_true none = false
is_true (some b) = b

unfoldable pub check_definition : PanelDefinition → Outcome PanelFault (Unit {0})
unfolding is_true
check_definition def =
    check (is_panel_id def.id) PanelFault.bad_id
    >> (check (leb 1 (length def.title) && leb (length def.title) 64) PanelFault.bad_title
        >> (check (not (length def.supported_presentations == 0)) PanelFault.needs_presentation
            >> check (not (is_true def.workspace_scoped) || def.system_scoped)
                PanelFault.not_system_scoped))

abbrev pub PanelRegistry : Type 0
PanelRegistry = Map PanelDefinition

unfoldable pub register :
    PanelDefinition → PanelRegistry → Outcome PanelFault (Unit {0}) × PanelRegistry
unfolding check_definition
register def reg = attempt (check_definition def) reg λ _.
    attempt (check (not (has def.id reg)) PanelFault.already_registered) reg
      λ _. (ok tt, insert def.id def reg)

abbrev pub get : Text → PanelRegistry → Option PanelDefinition
get id reg = lookup id reg

-- What the panels of the shell have in common.
panel : Text → Text → List Presentation → PanelPlacement → Bool → Bool → PanelDefinition
panel id title presentations placement pins in_workspace = record {
  id = id;
  title = title;
  icon = none;
  supported_presentations = presentations;
  min_width = none;
  min_height = none;
  preferred_placement = some placement;
  can_float = some true;
  can_detach = some true;
  can_pin = if pins then some true else none;
  system_scoped = true;
  workspace_scoped = some in_workspace;
}

unfoldable pub phase_2_panels : List PanelDefinition
unfolding panel
phase_2_panels =
    let window = full ∷ compact ∷ [] in
    let wide = full ∷ compact ∷ hud ∷ [] in
    panel (text "now") (text "Now") window PanelPlacement.center false true
    ∷ panel (text "purpose") (text "Purpose") window PanelPlacement.center false true
    ∷ panel (text "health") (text "Health") wide PanelPlacement.bottom true true
    ∷ panel (text "work") (text "Work") window PanelPlacement.left false true
    ∷ panel (text "inbox") (text "Inbox") wide PanelPlacement.right true true
    ∷ panel (text "usage") (text "Usage") wide PanelPlacement.bottom true false
    ∷ panel (text "chat") (text "Chat") window PanelPlacement.center false true
    ∷ panel (text "bots") (text "Bots") wide PanelPlacement.left true true
    ∷ panel (text "runs") (text "Runs") window PanelPlacement.bottom false true
    ∷ []

unfoldable pub default_phase_1_panels : List PanelDefinition
default_phase_1_panels =
    select
      (λ (p : PanelDefinition).
        member p.id (text "now" ∷ text "health" ∷ text "work" ∷ text "inbox" ∷ text "usage" ∷ []))
      phase_2_panels

unfoldable pub register_all : List PanelDefinition → PanelRegistry → PanelRegistry
register_all [] reg = reg
register_all (def ∷ defs) reg = register_all defs (register def reg).1
