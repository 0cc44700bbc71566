-- ===== src/Web/Layout/Kept.antt =====
-- Every instance of a layout is of a registered panel, which supports its presentation and its state.
use ai_verse_dashboard.Base.{
  ◌+◌, ◌≡◌, refl, subst, Bool, true, ◌&&◌, Option, none, some, List, [], ◌∷◌, Outcome, ok, err,
  arith, attempt-cases, check, check-ok, checked-ok, bind-ok, All, ◌>>◌,
}
use ai_verse_dashboard.Base.Text.{Text}
use ai_verse_dashboard.Base.Map.{lookup, All-insert, All-remove, All-lookup}
use ai_verse_dashboard.Protocol.Ids.{Presentation, hud, is_system_id}
use ai_verse_dashboard.Web.Panels.{
  PanelDefinition, PanelPlacement, PanelState, PanelRegistry, is_true,
}
use ai_verse_dashboard.Web.Layout.{
  PanelInstance, LayoutManager, LayoutFault, Placed, supports, choose_presentation, check_workspace,
  find_panel, find_instance, put, new_instance, mount, check_state, in_state, set_state,
  supported_by, first_of, set_presentation, retarget, unmount, reset,
}

-- What a definition allows an instance to be.
abbrev pub allows : PanelDefinition → PanelState → Bool
allows def PanelState.docked = true
allows def PanelState.floating = is_true def.can_float
allows def PanelState.detached = is_true def.can_detach
allows def PanelState.hud_state = is_true def.can_detach && supports def hud
allows def PanelState.hidden = true

module _ (reg : PanelRegistry) where
  abbrev pub IsPlaced : PanelInstance → Type 0
  IsPlaced inst =
      (def : PanelDefinition) × (lookup inst.panel_id reg ≡ some def)
      × (supports def inst.presentation ≡ true)
      × (allows def inst.state ≡ true)

  abbrev pub IsWellFormed : LayoutManager → Type 0
  IsWellFormed m = All (λ e. IsPlaced e.1) m.instances

  abbrev Keeps : Placed → Type 0
  Keeps x = IsWellFormed x.1

  find_instance-IsPlaced :
      (id : Text) (m : LayoutManager) (inst : PanelInstance)
      → IsWellFormed m
      → find_instance id m ≡ ok inst
      → IsPlaced inst
  unfolding find_instance
  find_instance-IsPlaced id m inst kept h =
      All-lookup (λ e. IsPlaced e.1) id m.instances inst kept (ground arith)

  put-IsWellFormed :
      (inst : PanelInstance) (m : LayoutManager)
      → IsPlaced inst
      → IsWellFormed m
      → IsWellFormed (put inst m)
  unfolding put
  put-IsWellFormed inst m placed kept =
      All-insert (λ e. IsPlaced e.1) inst.instance_id inst m.instances placed kept

  chosen :
      (def : PanelDefinition) (q p : Presentation)
      → check (supports def q) LayoutFault.unsupported_presentation >> ok q ≡ ok p
      → supports def p ≡ true
  chosen def q p h =
      let (supported, same) =
        checked-ok (supports def q) LayoutFault.unsupported_presentation q p h in
      subst (λ x. supports def x ≡ true) same supported

  choose_presentation_sound :
      (def : PanelDefinition) (o : Option Presentation) (p : Presentation)
      → choose_presentation def o ≡ ok p
      → supports def p ≡ true
  unfolding choose_presentation
  choose_presentation_sound def (some q) p h = chosen def q p h
  choose_presentation_sound def none p h = first (first_of def.supported_presentations) h
    where
      first :
          (o : Option Presentation)
          → (elim o as (λ _. Outcome LayoutFault Presentation) [
            | none ↦ err LayoutFault.invalid_presentation
            | some q ↦ check (supports def q) LayoutFault.unsupported_presentation >> ok q
          ])
            ≡ ok p
          → supports def p ≡ true
      first none h = absurd (cc h)
      first (some q) h = chosen def q p h

  mount-IsWellFormed :
      (panel_id system_id : Text) (workspace_id : Option Text) (placement : Option PanelPlacement)
      (presentation : Option Presentation) (m : LayoutManager)
      → IsWellFormed m
      → IsWellFormed (mount reg panel_id system_id workspace_id placement presentation m).1
  unfolding mount new_instance find_panel
  mount-IsWellFormed panel_id system_id workspace_id placement presentation m kept =
      attempt-cases Keeps (find_panel reg panel_id) m _ (λ e. kept)
        λ def found.
          attempt-cases Keeps
            (check (is_system_id system_id) LayoutFault.invalid_system
              >> (check def.system_scoped LayoutFault.not_system_scoped
                  >> check_workspace def workspace_id))
            m _ (λ e. kept)
            λ u h.
              attempt-cases Keeps (choose_presentation def presentation) m _ (λ e. kept)
                λ p fits.
                  put-IsWellFormed
                    (new_instance panel_id system_id workspace_id placement def p (m.counter + 1))
                    (record m { counter = m.counter + 1 })
                    (def, ground arith, choose_presentation_sound def presentation p fits, refl)
                    kept

  check_state-IsPlaced :
      (inst : PanelInstance) (state : PanelState) (u : Unit {0})
      → IsPlaced inst
      → check_state (lookup inst.panel_id reg) state ≡ ok u
      → IsPlaced (in_state state inst)
  unfolding check_state in_state
  check_state-IsPlaced inst PanelState.docked u (def, found, fits, allowed) =
      λ h. (def, found, fits, refl)
  check_state-IsPlaced inst PanelState.hidden u (def, found, fits, allowed) =
      λ h. (def, found, fits, refl)
  check_state-IsPlaced inst PanelState.floating u (def, found, fits, allowed) =
      rw found
        (λ h. (def, refl, fits, check-ok (is_true def.can_float) LayoutFault.cannot_float u h))
  check_state-IsPlaced inst PanelState.detached u (def, found, fits, allowed) =
      rw found
        (λ h. (def, refl, fits, check-ok (is_true def.can_detach) LayoutFault.cannot_detach u h))
  check_state-IsPlaced inst PanelState.hud_state u (def, found, fits, allowed) = rw found (λ h.
      let (v, detaches, has_hud) =
        bind-ok (check (is_true def.can_detach) LayoutFault.cannot_detach)
          (λ _. check (supports def hud) LayoutFault.no_hud) u h in
      let there = check-ok (supports def hud) LayoutFault.no_hud u has_hud in
      let loose = check-ok (is_true def.can_detach) LayoutFault.cannot_detach v detaches in
      (def, refl, there, ground arith))

  set_state-IsWellFormed :
      (id : Text) (state : PanelState) (m : LayoutManager)
      → IsWellFormed m
      → IsWellFormed (set_state reg id state m).1
  unfolding set_state
  set_state-IsWellFormed id state m kept =
      attempt-cases Keeps (find_instance id m) m _ (λ e. kept)
        λ inst found.
          attempt-cases Keeps (check_state (lookup inst.panel_id reg) state) m _ (λ e. kept)
            λ u fits.
              put-IsWellFormed (in_state state inst) m
                (check_state-IsPlaced inst state u (find_instance-IsPlaced id m inst kept found)
                  fits)
                kept

  set_presentation-IsWellFormed :
      (id : Text) (presentation : Presentation) (m : LayoutManager)
      → IsWellFormed m
      → IsWellFormed (set_presentation reg id presentation m).1
  unfolding set_presentation
  set_presentation-IsWellFormed id presentation m kept =
      attempt-cases Keeps (find_instance id m) m _ (λ e. kept)
        λ inst found.
          attempt-cases Keeps
            (check (supported_by (lookup inst.panel_id reg) presentation)
              LayoutFault.unsupported_presentation)
            m _ (λ e. kept)
            λ u fits.
              let (def, there, old, allowed) = find_instance-IsPlaced id m inst kept found in
              put-IsWellFormed (record inst { presentation = presentation }) m
                (
                  def,
                  there,
                  supported inst.panel_id presentation def there (check-ok _ _ u fits),
                  allowed,
                )
                kept
    where
      supported :
          (panel_id : Text) (p : Presentation) (def : PanelDefinition)
          → lookup panel_id reg ≡ some def
          → supported_by (lookup panel_id reg) p ≡ true
          → supports def p ≡ true
      supported panel_id p def there h = subst (λ o. supported_by o p ≡ true) there h

  retarget-IsWellFormed :
      (id system_id : Text) (workspace_id : Option Text) (m : LayoutManager)
      → IsWellFormed m
      → IsWellFormed (retarget id system_id workspace_id m).1
  unfolding retarget
  retarget-IsWellFormed id system_id workspace_id m kept =
      attempt-cases Keeps (find_instance id m) m _ (λ e. kept)
        λ inst found.
          attempt-cases Keeps (check (is_system_id system_id) LayoutFault.invalid_system) m _
            (λ e. kept)
            λ u h.
              put-IsWellFormed (record inst { system_id = system_id; workspace_id = workspace_id })
                m (find_instance-IsPlaced id m inst kept found) kept

-- The methods that change a layout, other than `loadPreset`.
pub data Call : Type 0 where
  mounts : Text → Text → Option Text → Option PanelPlacement → Option Presentation → Call
  sets_state : Text → PanelState → Call
  sets_presentation : Text → Presentation → Call
  retargets : Text → Text → Option Text → Call
  unmounts : Text → Call
  resets : Call

unfoldable pub run : PanelRegistry → Call → LayoutManager → LayoutManager
unfolding unmount reset
run reg (Call.mounts panel_id system_id workspace_id placement presentation) m =
    (mount reg panel_id system_id workspace_id placement presentation m).1
run reg (Call.sets_state id state) m = (set_state reg id state m).1
run reg (Call.sets_presentation id presentation) m = (set_presentation reg id presentation m).1
run reg (Call.retargets id system_id workspace_id) m = (retarget id system_id workspace_id m).1
run reg (Call.unmounts id) m = (unmount id m).1
run reg Call.resets m = reset m

unfoldable pub run_all : PanelRegistry → List Call → LayoutManager → LayoutManager
run_all reg [] m = m
run_all reg (call ∷ calls) m = run_all reg calls (run reg call m)

run-IsWellFormed :
    (reg : PanelRegistry) (call : Call) (m : LayoutManager)
    → IsWellFormed reg m
    → IsWellFormed reg (run reg call m)
unfolding run
run-IsWellFormed reg (Call.mounts panel_id system_id workspace_id placement presentation) m kept =
    mount-IsWellFormed reg panel_id system_id workspace_id placement presentation m kept
run-IsWellFormed reg (Call.sets_state id state) m kept = set_state-IsWellFormed reg id state m kept
run-IsWellFormed reg (Call.sets_presentation id presentation) m kept =
    set_presentation-IsWellFormed reg id presentation m kept
run-IsWellFormed reg (Call.retargets id system_id workspace_id) m kept =
    retarget-IsWellFormed reg id system_id workspace_id m kept
run-IsWellFormed reg (Call.unmounts id) m kept =
    All-remove (λ e. IsPlaced reg e.1) id m.instances kept
run-IsWellFormed reg Call.resets m kept = tt

-- From a layout whose instances their panels allow, every history of mounts, changes of state and
-- presentation, retargets, unmounts and resets leads to such a layout: each instance is of a
-- registered panel that supports its presentation, floats only if it may float, and is
-- detached or shown as a HUD only if it may be.
pub layout-IsWellFormed :
    (reg : PanelRegistry) (calls : List Call) (m : LayoutManager)
    → IsWellFormed reg m
    → IsWellFormed reg (run_all reg calls m)
unfolding run_all
layout-IsWellFormed reg [] m kept = kept
layout-IsWellFormed reg (call ∷ calls) m kept =
    layout-IsWellFormed reg calls (run reg call m) (run-IsWellFormed reg call m kept)
