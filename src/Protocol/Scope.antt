-- ===== src/Protocol/Scope.antt =====
-- packages/protocol/src/methods.ts: the keys under which caches and streams keep what belongs to
-- one system or workspace.
pub mod Keys
use ai_verse_dashboard.Base.{
  ◌≡◌, refl, Bool, true, false, Option, none, some, List, [], ◌∷◌, ◌++◌, Outcome, ok, err,
  if◌then◌else◌,
}
use ai_verse_dashboard.Base.Text.{Text, colon}
use ai_verse_dashboard.Protocol.Ids.{is_system_id, is_workspace_id}

pub data ScopeFault : Type 0 where
  invalid_system_id invalid_workspace_id : ScopeFault

-- `parts.join(":")`
unfoldable pub join : List Text → Text
join [] = []
join (p ∷ []) = p
join (p ∷ q ∷ ps) = p ++ colon ∷ join (q ∷ ps)

unfoldable pub scope_key : Text → List Text → Outcome ScopeFault Text
unfolding is_system_id join
scope_key system_id parts =
    if is_system_id system_id then ok (join (system_id ∷ parts)) else err invalid_system_id

unfoldable pub workspace_scope_key : Text → Text → List Text → Outcome ScopeFault Text
unfolding is_system_id is_workspace_id join
workspace_scope_key system_id workspace_id parts =
    if is_system_id system_id
    then (if is_workspace_id workspace_id
        then ok (join (system_id ∷ workspace_id ∷ parts))
        else err invalid_workspace_id)
    else err invalid_system_id
