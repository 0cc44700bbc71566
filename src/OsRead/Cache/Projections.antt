-- ===== src/OsRead/Cache/Projections.antt =====
-- The keys of projections, and what the invalidation of a workspace does to them.
use mathlib.Core.List.{append_assoc}
use ai_verse_dashboard.Base.{
  ℕ, ◌≡◌, ◌≢◌, sym, ◌∙◌, true, false, [], ◌∷◌, ◌++◌, ok, arith, false_of_not,
}
use ai_verse_dashboard.Base.Text.{
  Text, text, colon, NoColon, colon_cancel, colon_cancel_right, starts_with_sound,
}
use ai_verse_dashboard.Protocol.Ids.{
  is_system_id, is_system_id-NoColon, is_workspace_id, is_workspace_id-NoColon,
}
use ai_verse_dashboard.Protocol.Scope.{join, scope_key}
use ai_verse_dashboard.Protocol.Scope.Keys.{scope_key-ok}
use ai_verse_dashboard.OsRead.Cache.{
  DisposableCache, projection_parts, of_workspace, invalidate_workspace, get_projection,
}
use ai_verse_dashboard.OsRead.Cache.Lookup.{get-value_of}
use ai_verse_dashboard.OsRead.Cache.Invalidation.{lookup-drop_keys}

-- Path, time and size are given back by the end of a key, whatever the path holds.
tail_cancel :
    (path path' : Text) {mtime mtime' size size' : Text}
    → NoColon mtime
    → NoColon mtime'
    → NoColon size
    → NoColon size'
    → path ++ colon ∷ (mtime ++ colon ∷ size) ≡ path' ++ colon ∷ (mtime' ++ colon ∷ size')
    → (path ≡ path') × (mtime ≡ mtime') × (size ≡ size')
tail_cancel path path' {mtime} {mtime'} {size} {size'} m m' s s' e =
    let front = append_assoc path (colon ∷ mtime) (colon ∷ size) in
    let back = append_assoc path' (colon ∷ mtime') (colon ∷ size') in
    let (heads, sizes) =
      colon_cancel_right (path ++ colon ∷ mtime) (path' ++ colon ∷ mtime') s s'
        (front ∙ e ∙ sym back) in
    let (paths, times) = colon_cancel_right path path' m m' heads in (paths, times, sizes)

proj-NoColon : NoColon (text "proj")
unfolding text
proj-NoColon = omega arith

-- Two projections share a key only if system, workspace, path, time and size are the same, where
-- the workspace ids and the printed numbers hold no colon; the paths may.
pub projection_key-injective :
    (sys sys' ws ws' path path' mtime mtime' size size' k : Text)
    → scope_key sys (projection_parts ws path mtime size) ≡ ok k
    → scope_key sys' (projection_parts ws' path' mtime' size') ≡ ok k
    → NoColon ws
    → NoColon ws'
    → NoColon mtime
    → NoColon mtime'
    → NoColon size
    → NoColon size'
    → (sys ≡ sys') × (ws ≡ ws') × (path ≡ path') × (mtime ≡ mtime') × (size ≡ size')
unfolding projection_parts join
projection_key-injective sys sys' ws ws' path path' mtime mtime' size size' k h h' w w' m m' s s' =
    let (valid, at) = scope_key-ok sys (projection_parts ws path mtime size) k h in
    let (valid', at') = scope_key-ok sys' (projection_parts ws' path' mtime' size') k h' in
    let (systems, e1) =
      colon_cancel sys sys' (is_system_id-NoColon sys valid) (is_system_id-NoColon sys' valid')
        (at ∙ sym at') in
    let (tags, e2) = colon_cancel (text "proj") (text "proj") proj-NoColon proj-NoColon e1 in
    let (workspaces, e3) = colon_cancel ws ws' w w' e2 in
    let (paths, times, sizes) = tail_cancel path path' m m' s s' e3 in
    (systems, workspaces, paths, times, sizes)

of_workspace-projection :
    (sys sys' ws ws' path mtime size : Text)
    → NoColon sys
    → NoColon sys'
    → NoColon ws
    → ws ≢ text "proj"
    → of_workspace sys ws (join (sys' ∷ projection_parts ws' path mtime size)) ≡ false
unfolding of_workspace join projection_parts
of_workspace-projection sys sys' ws ws' path mtime size n n' w other = false_of_not λ h.
    let whole = sys ++ colon ∷ ws ++ colon ∷ [] in
    let (rest, e) =
      starts_with_sound whole (join (sys' ∷ projection_parts ws' path mtime size)) h in
    let flat =
      e
      ∙ append_assoc (sys ++ colon ∷ ws) (colon ∷ []) rest
      ∙ append_assoc sys (colon ∷ ws) (colon ∷ rest) in
    let (systems, inner) = colon_cancel sys' sys n' n flat in
    other (sym (colon_cancel (text "proj") ws proj-NoColon w inner).0)

-- Invalidating a workspace leaves every cached projection where it is, those of that workspace
-- included: the keys of projections name the workspace behind `proj`, and the prefix that is
-- dropped names it in front. Only a workspace called `proj` is another matter.
pub get_projection-invalidate_workspace {ℓ} :
    {V : Type ℓ} (sys sys' ws ws' path mtime size : Text) (now : ℕ) (cache : DisposableCache V)
    (k : Text)
    → is_system_id sys ≡ true
    → is_workspace_id ws ≡ true
    → ws ≢ text "proj"
    → scope_key sys' (projection_parts ws' path mtime size) ≡ ok k
    → (get_projection sys' ws' path mtime size now (invalidate_workspace sys ws cache).1).0
      ≡ (get_projection sys' ws' path mtime size now cache).0
unfolding get_projection invalidate_workspace
get_projection-invalidate_workspace {V} sys sys' ws ws' path mtime size now cache k v w other key =
    let parts = projection_parts ws' path mtime size in
    let (v', at) = scope_key-ok sys' parts k key in
    let misses =
      of_workspace-projection sys sys' ws ws' path mtime size (is_system_id-NoColon sys v)
        (is_system_id-NoColon sys' v') (is_workspace_id-NoColon ws w) other in
    rw (
      get-value_of sys' parts now (invalidate_workspace sys ws cache).1 k key,
      get-value_of sys' parts now cache k key,
      lookup-drop_keys (of_workspace sys ws) k cache.entries,
      ← at,
      misses,
    )
