-- ===== src/Web/Layout.antt =====
-- apps/web/src/layout.ts: `LayoutManager`, over the panel registry as it is at each call. An instance is
-- found by its id in one map only, so its changes in place are insertions.
pub mod Kept
use ai_verse_dashboard.Base.{
  ℕ, ◌+◌, Bool, true, false, not, ◌&&◌, ◌||◌, Option, none, some, List, [], ◌∷◌, ◌++◌, Outcome, ok,
  err, leb, ◌==◌, length, all, any, if◌then◌else◌, ◌>>◌, ◌>>=◌, check, attempt,
}
use ai_verse_dashboard.Base.Text.{Text, text, is_alnum, is_word}
use ai_verse_dashboard.Base.Decimal.{decimal}
use ai_verse_dashboard.Base.Map.{Map, lookup, insert, remove, has, values}
use ai_verse_dashboard.Protocol.Ids.{
  Presentation, full, compact, hud, is_system_id, is_workspace_id, is_record_id,
}
use ai_verse_dashboard.Web.Panels.{
  PanelDefinition, PanelPlacement, PanelState, PanelRegistry, is_true,
}

pub record PanelInstance : Type 0 where
  pub instance_id : Text
  pub panel_id : Text
  pub system_id : Text
  pub workspace_id : Option Text
  pub state : PanelState
  pub placement : PanelPlacement
  pub presentation : Presentation

pub record LayoutPreset : Type 0 where
  pub name : Text
  pub instances : List PanelInstance

pub record LayoutManager : Type 0 where
  pub instances : Map PanelInstance
  pub counter : ℕ

abbrev pub empty_layout : LayoutManager
empty_layout = record { instances = []; counter = 0 }

pub data LayoutFault : Type 0 where
  unknown_panel : LayoutFault
  invalid_system : LayoutFault
  not_system_scoped : LayoutFault
  not_workspace_scoped : LayoutFault
  invalid_workspace : LayoutFault
  requires_workspace : LayoutFault
  invalid_presentation : LayoutFault
  unsupported_presentation : LayoutFault
  unknown_instance : LayoutFault
  cannot_float : LayoutFault
  cannot_detach : LayoutFault
  no_hud : LayoutFault
  bad_preset_name : LayoutFault
  bad_instance_id : LayoutFault

-- The instance id pattern is that of a record id. `/^[A-Za-z0-9][A-Za-z0-9 _-]{0,63}$/`
unfoldable pub is_preset_name : Text → Bool
is_preset_name [] = false
is_preset_name (c ∷ s) = is_alnum c && all (λ d. is_word d || d == b' ') s && leb (length s) 63

unfoldable pub same_presentation : Presentation → Presentation → Bool
same_presentation full full = true
same_presentation compact compact = true
same_presentation hud hud = true
same_presentation _ _ = false

-- `def.supportedPresentations.includes(p)`
unfoldable pub supports : PanelDefinition → Presentation → Bool
unfolding same_presentation
supports def p = any (λ q. same_presentation q p) def.supported_presentations

unfoldable pub first_of : List Presentation → Option Presentation
first_of [] = none
first_of (p ∷ ps) = some p

-- `opts.presentation ?? def.supportedPresentations[0]`, tested.
unfoldable pub choose_presentation :
    PanelDefinition → Option Presentation → Outcome LayoutFault Presentation
unfolding first_of
choose_presentation def (some p) =
    check (supports def p) LayoutFault.unsupported_presentation >> ok p
choose_presentation def none = elim (first_of def.supported_presentations) [
  | none ↦ err LayoutFault.invalid_presentation
  | some p ↦ check (supports def p) LayoutFault.unsupported_presentation >> ok p
]

unfoldable pub check_workspace : PanelDefinition → Option Text → Outcome LayoutFault (Unit {0})
check_workspace def none = check (not (is_true def.workspace_scoped)) LayoutFault.requires_workspace
check_workspace def (some w) =
    check (is_true def.workspace_scoped) LayoutFault.not_workspace_scoped
    >> check (is_workspace_id w) LayoutFault.invalid_workspace

place_or : Option PanelPlacement → Option PanelPlacement → PanelPlacement
place_or (some p) q = p
place_or none (some q) = q
place_or none none = PanelPlacement.center

unfoldable pub find_panel : PanelRegistry → Text → Outcome LayoutFault PanelDefinition
find_panel reg id = elim (lookup id reg) [
  | none ↦ err LayoutFault.unknown_panel
  | some def ↦ ok def
]

unfoldable pub find_instance : Text → LayoutManager → Outcome LayoutFault PanelInstance
find_instance id m = elim (lookup id m.instances) [
  | none ↦ err LayoutFault.unknown_instance
  | some inst ↦ ok inst
]

unfoldable pub put : PanelInstance → LayoutManager → LayoutManager
put inst m = record m { instances = insert inst.instance_id inst m.instances }

abbrev pub Placed : Type 0
Placed = Outcome LayoutFault PanelInstance × LayoutManager

unfoldable pub new_instance :
    Text
    → Text
    → Option Text
    → Option PanelPlacement
    → PanelDefinition
    → Presentation
    → ℕ
    → PanelInstance
unfolding place_or
new_instance panel_id system_id workspace_id placement def presentation n = record {
  instance_id = text "inst-" ++ decimal n;
  panel_id = panel_id;
  system_id = system_id;
  workspace_id = workspace_id;
  state = PanelState.docked;
  placement = place_or placement def.preferred_placement;
  presentation = presentation;
}

unfoldable pub mount :
    PanelRegistry
    → Text
    → Text
    → Option Text
    → Option PanelPlacement
    → Option Presentation
    → LayoutManager
    → Placed
unfolding find_panel check_workspace choose_presentation new_instance put
mount reg panel_id system_id workspace_id placement presentation m =
    attempt (find_panel reg panel_id) m λ def.
      attempt
        (check (is_system_id system_id) LayoutFault.invalid_system
          >> (check def.system_scoped LayoutFault.not_system_scoped
              >> check_workspace def workspace_id))
        m
        λ _. attempt (choose_presentation def presentation) m λ p.
          let n = m.counter + 1 in
          let inst = new_instance panel_id system_id workspace_id placement def p n in
          (ok inst, put inst (record m { counter = n }))

-- What `setState` asks of the definition, if there is one.
unfoldable pub check_state : Option PanelDefinition → PanelState → Outcome LayoutFault (Unit {0})
check_state none PanelState.floating = err LayoutFault.cannot_float
check_state none PanelState.detached = err LayoutFault.cannot_detach
check_state none PanelState.hud_state = err LayoutFault.cannot_detach
check_state (some def) PanelState.floating = check (is_true def.can_float) LayoutFault.cannot_float
check_state (some def) PanelState.detached =
    check (is_true def.can_detach) LayoutFault.cannot_detach
check_state (some def) PanelState.hud_state =
    check (is_true def.can_detach) LayoutFault.cannot_detach
    >> check (supports def hud) LayoutFault.no_hud
check_state _ PanelState.docked = ok tt
check_state _ PanelState.hidden = ok tt

unfoldable pub in_state : PanelState → PanelInstance → PanelInstance
in_state PanelState.hud_state inst = record inst {
  state = PanelState.hud_state;
  presentation = hud;
}
in_state state inst = record inst { state = state }

unfoldable pub set_state : PanelRegistry → Text → PanelState → LayoutManager → Placed
unfolding find_instance check_state in_state put
set_state reg id state m = attempt (find_instance id m) m λ inst.
    attempt (check_state (lookup inst.panel_id reg) state) m
      λ _. (ok (in_state state inst), put (in_state state inst) m)

unfoldable pub supported_by : Option PanelDefinition → Presentation → Bool
supported_by none p = false
supported_by (some def) p = supports def p

unfoldable pub set_presentation : PanelRegistry → Text → Presentation → LayoutManager → Placed
unfolding find_instance supported_by put
set_presentation reg id presentation m = attempt (find_instance id m) m λ inst.
    attempt
      (check (supported_by (lookup inst.panel_id reg) presentation)
        LayoutFault.unsupported_presentation)
      m
      λ _. let changed = record inst { presentation = presentation } in (ok changed, put changed m)

unfoldable pub retarget : Text → Text → Option Text → LayoutManager → Placed
unfolding find_instance put
retarget id system_id workspace_id m = attempt (find_instance id m) m λ inst.
    attempt (check (is_system_id system_id) LayoutFault.invalid_system) m λ _.
      let moved = record inst { system_id = system_id; workspace_id = workspace_id } in
      (ok moved, put moved m)

unfoldable pub unmount : Text → LayoutManager → Bool × LayoutManager
unmount id m = (has id m.instances, record m { instances = remove id m.instances })

unfoldable pub save_preset : Text → LayoutManager → Outcome LayoutFault LayoutPreset
save_preset name m =
    check (is_preset_name name) LayoutFault.bad_preset_name
    >> ok (record { name = name; instances = values m.instances })

-- The loop of `loadPreset`, from the map that it has filled so far.
unfoldable pub restore :
    PanelRegistry → List PanelInstance → Map PanelInstance → Outcome LayoutFault (Map PanelInstance)
restore reg [] next = ok next
restore reg (inst ∷ insts) next =
    let rest = restore reg insts (insert inst.instance_id inst next) in
    check (is_record_id inst.instance_id) LayoutFault.bad_instance_id
    >> (check (has inst.panel_id reg) LayoutFault.unknown_panel >> rest)

unfoldable pub load_preset :
    PanelRegistry → LayoutPreset → LayoutManager → Outcome LayoutFault (Unit {0}) × LayoutManager
unfolding restore
load_preset reg preset m =
    attempt
      (check (is_preset_name preset.name) LayoutFault.bad_preset_name
        >> restore reg preset.instances [])
      m λ next. (ok tt, record m { instances = next })

unfoldable pub reset : LayoutManager → LayoutManager
reset m = record m { instances = [] }
