-- ===== src/OsRead/Paths/Contained.antt =====
-- No path that resolves leaves its root.
use ai_verse_dashboard.Base.{
  ◌≡◌, refl, ◌⊎◌, ap, ◌∙◌, subst, inl, inr, true, false, ◌==◌, some, [], ◌∷◌, ◌++◌, Outcome, ok,
  err, arith, all, any, Bool-cases, Option-cases, ◌>>=◌, ◌>>◌, check, check-ok, checked-ok, bind-ok,
  attempt-cases,
}
use ai_verse_dashboard.Base.Text.{Text, text, ◌===◌, ===_sound, starts_with_sound}
use ai_verse_dashboard.Registry.Compatibility.{Disk, Stat}
use ai_verse_dashboard.Registry.Systems.{resolve_root}
use ai_verse_dashboard.Registry.Bindings.{SystemRegistry}
use ai_verse_dashboard.OsRead.Paths.{
  AdapterFault, is_absolute, segments, is_plain, assert_relative_logical, is_within, real_path,
  resolve_within_workspace, or_unknown_system, workspace_within, workspace_directory,
  resolve_workspace_root,
}
use ai_verse_dashboard.Protocol.Ids.{is_workspace_id}

-- The path is the root or lies below it.
abbrev pub LiesIn : Text → Text → Type 0
LiesIn child root = (child ≡ root) ⊎ ((rest : Text) × (child ≡ (root ++ b'/' ∷ []) ++ rest))

is_within_sound : (child root : Text) → is_within child root ≡ true → LiesIn child root
unfolding is_within
is_within_sound child root h = elim (Bool-cases (child === root)) [
  | inl e ↦ inl (===_sound child root e)
  | inr e ↦ inr (starts_with_sound (root ++ b'/' ∷ []) child (ground arith))
]

real_path_sound :
    (disk : Disk) (path real : Text) (fault : AdapterFault)
    → real_path disk path fault ≡ ok real
    → disk.realpath path ≡ some real
unfolding real_path
real_path_sound disk path real fault = elim (Option-cases (disk.realpath path)) [
  | inl none_ ↦ rw (real_path, none_) (λ h. absurd (cc h))
  | inr (r, found) ↦ rw (real_path, found) (λ h. let same : r ≡ real = cc h in ap some same)
]

or_unknown_system_sound :
    {E : Type 0} (o : Outcome E Text) (root : Text) → or_unknown_system o ≡ ok root → o ≡ ok root
unfolding or_unknown_system
or_unknown_system_sound (ok r) root h = let same : r ≡ root = cc h in ap ok same
or_unknown_system_sound (err e) root h = absurd (cc h)

-- A logical path that the adapter takes: relative, and with no empty segment and none that goes up.
abbrev pub IsLogical : Text → Type 0
IsLogical path =
    (is_absolute path ≡ false)
    × (any (λ c. c == 0) path ≡ false)
    × (all is_plain (segments path) ≡ true)

assert_relative_logical_sound :
    (path : Text) (u : Unit {0}) → assert_relative_logical path ≡ ok u → IsLogical path
unfolding assert_relative_logical
assert_relative_logical_sound path u h = (ground arith, ground arith, ground arith)

-- A logical path that resolves in a workspace is relative, free of empty and of upward segments and of NUL,
-- and what it resolves to is the real path, which is the root of the workspace or lies below
-- it, whatever links are on the way.
pub resolve_within_workspace_sound :
    (place : Text → Text → Text) (disk : Disk) (root path real : Text)
    → resolve_within_workspace place disk root path ≡ ok real
    → IsLogical path × LiesIn real root × (disk.realpath (place root path) ≡ some real)
unfolding resolve_within_workspace
resolve_within_workspace_sound place disk root path real h =
    let joined = place root path in
    let ends : Text → Outcome AdapterFault Text =
      λ r. check (is_within r root) AdapterFault.escape_rejected >> ok r in
    let found = real_path disk joined AdapterFault.not_found in
    let (u, logical, h') =
      bind-ok (assert_relative_logical path)
        (λ _. check (is_within joined root) AdapterFault.traversal_rejected >> (found >>= ends))
        real h in
    let (v, joined_in, h'') =
      bind-ok (check (is_within joined root) AdapterFault.traversal_rejected) (λ _. found >>= ends)
        real h' in
    let (r, read, last) = bind-ok found ends real h'' in
    let (inside, same) = checked-ok (is_within r root) AdapterFault.escape_rejected r real last in
    (
      assert_relative_logical_sound path u logical,
      subst (λ t. LiesIn t root) same (is_within_sound r root inside),
      real_path_sound disk joined r AdapterFault.not_found read ∙ ap some same,
    )

-- A directory is there.
abbrev pub IsDirectory : Disk → Text → Type 0
IsDirectory disk path = (st : Stat) × (disk.stat path ≡ some st) × (st.is_directory ≡ true)

workspace_directory_sound :
    (disk : Disk) (joined real : Text)
    → workspace_directory disk joined ≡ ok real
    → IsDirectory disk joined × (disk.realpath joined ≡ some real)
unfolding workspace_directory
workspace_directory_sound disk joined real = elim (Option-cases (disk.stat joined)) [
  | inl none_ ↦ rw (workspace_directory, none_) (λ h. absurd (cc h))
  | inr (st, found) ↦
      rw (workspace_directory, found)
        (λ h.
          let (u, is_dir, read) =
            bind-ok (check st.is_directory AdapterFault.unknown_workspace)
              (λ _. real_path disk joined AdapterFault.unknown_workspace) real h in
          (
            (st, refl, check-ok st.is_directory AdapterFault.unknown_workspace u is_dir),
            real_path_sound disk joined real AdapterFault.unknown_workspace read,
          ))
]

-- A workspace root that resolves is the real path of the directory workspaces/<id> of the system's root,
-- for a valid id, and lies in the real path of that root, whatever links are on the way; the root is
-- what the registry resolved at the call.
pub resolve_workspace_root_sound :
    (place : Text → Text → Text) (disk : Disk) (now system_id workspace_id real : Text)
    (reg : SystemRegistry)
    → (resolve_workspace_root place disk now system_id workspace_id reg).0 ≡ ok real
    → (os_root os_real : Text) × ((resolve_root disk now system_id reg).0 ≡ ok os_root)
      × (disk.realpath os_root ≡ some os_real)
      × IsDirectory disk (place os_root (text "workspaces/" ++ workspace_id))
      × (disk.realpath (place os_root (text "workspaces/" ++ workspace_id)) ≡ some real)
      × LiesIn real os_real
      × (is_workspace_id workspace_id ≡ true)
unfolding resolve_workspace_root workspace_within
resolve_workspace_root_sound place disk now system_id workspace_id real reg =
    attempt-cases
      (λ x.
        x.0 ≡ ok real
        → (os_root os_real : Text) × ((resolve_root disk now system_id reg).0 ≡ ok os_root)
          × (disk.realpath os_root ≡ some os_real)
          × IsDirectory disk (place os_root (text "workspaces/" ++ workspace_id))
          × (disk.realpath (place os_root (text "workspaces/" ++ workspace_id)) ≡ some real)
          × LiesIn real os_real
          × (is_workspace_id workspace_id ≡ true))
      (check (is_workspace_id workspace_id) AdapterFault.unknown_workspace) reg _
      (λ e h. absurd (cc h))
      λ u valid h.
        let root = (resolve_root disk now system_id reg).0 in
        let (os_root, known, h') =
          bind-ok (or_unknown_system root)
            (λ os_root. workspace_within place disk os_root workspace_id) real h in
        let joined = place os_root (text "workspaces/" ++ workspace_id) in
        let directory = workspace_directory disk joined in
        let ends : Text → Text → Outcome AdapterFault Text =
          λ r os_real. check (is_within r os_real) AdapterFault.escape_rejected >> ok r in
        let os_read = real_path disk os_root AdapterFault.raw_error in
        let (r, found, h'') = bind-ok directory (λ r. os_read >>= ends r) real h' in
        let (os_real, read, last) = bind-ok os_read (ends r) real h'' in
        let (inside, same) =
          checked-ok (is_within r os_real) AdapterFault.escape_rejected r real last in
        (
          os_root,
          os_real,
          or_unknown_system_sound root os_root known,
          real_path_sound disk os_root os_real AdapterFault.raw_error read,
          (workspace_directory_sound disk joined r found).0,
          (workspace_directory_sound disk joined r found).1 ∙ ap some same,
          subst (λ t. LiesIn t os_real) same (is_within_sound r os_real inside),
          check-ok (is_workspace_id workspace_id) AdapterFault.unknown_workspace u valid,
        )
