-- ===== src/Registry/Selection.antt =====
-- packages/registry/src/selection.ts: `SelectionStore`, with the registry as it is at each call.
use ai_verse_dashboard.Base.{
  ◌≡◌, Bool, true, ◌&&◌, Option, none, some, Outcome, ok, arith, leb, length, if◌then◌else◌, ◌>>◌,
  attempt, attempt-cases, check,
}
use ai_verse_dashboard.Base.Text.{Text, ◌===◌}
use ai_verse_dashboard.Base.Map.{Map, lookup, insert, remove, has, lookup-insert}
use ai_verse_dashboard.Protocol.Ids.{is_system_id, is_workspace_id}
use ai_verse_dashboard.Registry.Compatibility.{RegistryFault}
use ai_verse_dashboard.Registry.Bindings.{SystemRegistry}

pub record WindowSelection : Type 0 where
  pub system_id : Text
  pub workspace_id : Option Text

abbrev pub SelectionStore : Type 0
SelectionStore = Map WindowSelection

-- `1 <= windowId.length <= 128`
unfoldable pub is_window_id : Text → Bool
is_window_id id = leb 1 (length id) && leb (length id) 128

unfoldable pub is_workspace_choice : Option Text → Bool
is_workspace_choice none = true
is_workspace_choice (some w) = is_workspace_id w

-- The tests of `set`, in their order.
unfoldable pub check_selection :
    SystemRegistry → Text → WindowSelection → Outcome RegistryFault (Unit {0})
unfolding is_window_id is_workspace_choice
check_selection reg window selection =
    check (is_window_id window) RegistryFault.window_required
    >> (check (is_system_id selection.system_id) RegistryFault.invalid_id
        >> (check (has selection.system_id reg.by_id) RegistryFault.system_not_registered
            >> check (is_workspace_choice selection.workspace_id) RegistryFault.invalid_id))

unfoldable pub set :
    SystemRegistry
    → Text
    → WindowSelection
    → SelectionStore
    → Outcome RegistryFault WindowSelection × SelectionStore
unfolding check_selection
set reg window selection store =
    attempt (check_selection reg window selection) store
      λ _. (ok selection, insert window selection store)

abbrev pub get : Text → SelectionStore → Option WindowSelection
get window store = lookup window store

unfoldable pub clear : Text → SelectionStore → Bool × SelectionStore
clear window store = (has window store, remove window store)

-- A selection that is set is the one its window has afterwards, and every other window has
-- what it had; the selected system is registered and the ids are valid.
pub set_sound :
    (reg : SystemRegistry) (window : Text) (selection chosen : WindowSelection)
    (store : SelectionStore) (other : Text)
    → (set reg window selection store).0 ≡ ok chosen
    → (chosen ≡ selection)
      × (get other (set reg window selection store).1
          ≡ (if window === other then some selection else get other store))
      × (has selection.system_id reg.by_id ≡ true)
      × (is_system_id selection.system_id ≡ true)
      × (is_workspace_choice selection.workspace_id ≡ true)
unfolding set
set_sound reg window selection chosen store other =
    attempt-cases
      (λ x.
        x.0 ≡ ok chosen
        → (chosen ≡ selection)
          × (get other x.1 ≡ (if window === other then some selection else get other store))
          × (has selection.system_id reg.by_id ≡ true)
          × (is_system_id selection.system_id ≡ true)
          × (is_workspace_choice selection.workspace_id ≡ true))
      (check_selection reg window selection) store _ (λ e h. absurd (cc h))
      λ u passed h.
        let (known, named, fits) = checks passed in
        (cc h, lookup-insert window other selection store, known, named, fits)
  where
    checks :
        {u : Unit {0}}
        → check_selection reg window selection ≡ ok u
        → (has selection.system_id reg.by_id ≡ true)
          × (is_system_id selection.system_id ≡ true)
          × (is_workspace_choice selection.workspace_id ≡ true)
    checks {u} h = ground (arith)
