-- ===== src/OsRead/Paths.antt =====
-- packages/os-read-adapter/src/path-resolve.ts: the resolution of workspaces and of logical paths. The
-- path separator is that of POSIX; `place base path` is `normalize(join(base, path))` of node:path.
-- The readings of the disk during one call see one state of it.
pub mod Contained
mod Examples
use ai_verse_dashboard.Base.{
  ℕ, Bool, true, false, not, ◌&&◌, ◌||◌, Option, none, some, List, [], ◌∷◌, ◌++◌, Outcome, ok, err,
  leb, ◌==◌, length, all, any, if◌then◌else◌, ◌>>=◌, ◌>>◌, check, attempt,
}
use ai_verse_dashboard.Base.Text.{Text, text, ◌===◌, starts_with, is_lower}
use ai_verse_dashboard.Protocol.Ids.{is_workspace_id}
use ai_verse_dashboard.Registry.Compatibility.{Disk}
use ai_verse_dashboard.Registry.Systems.{resolve_root}
use ai_verse_dashboard.Registry.Bindings.{SystemRegistry}

-- The codes that the resolution gives, and `raw_error` for the error of a bare `realpathSync`.
pub data AdapterFault : Type 0 where
  unknown_system : AdapterFault
  unknown_workspace : AdapterFault
  traversal_rejected : AdapterFault
  absolute_rejected : AdapterFault
  escape_rejected : AdapterFault
  not_found : AdapterFault
  raw_error : AdapterFault

is_letter : ℕ → Bool
is_letter c = is_lower c || (leb b'A' c && leb c b'Z')

is_separator : ℕ → Bool
is_separator c = c == b'/' || c == b'\\'

-- `/^[A-Za-z]:[\\/]/`
unfoldable pub has_drive : Text → Bool
unfolding is_letter is_separator
has_drive (c ∷ d ∷ e ∷ s) = is_letter c && d == b':' && is_separator e
has_drive _ = false

starts_at_root : Text → Bool
unfolding is_separator
starts_at_root [] = false
starts_at_root (c ∷ s) = is_separator c

unfoldable pub is_absolute : Text → Bool
unfolding starts_at_root has_drive
is_absolute path = starts_at_root path || has_drive path

-- `path.split(/[\\/]/)`
unfoldable pub segments : Text → List Text
unfolding is_separator
segments [] = [] ∷ []
segments (c ∷ s) =
    let rest = segments s in
    if is_separator c
    then [] ∷ rest
    else elim rest [ [] ↦ (c ∷ []) ∷ [] | piece ∷ pieces ↦ (c ∷ piece) ∷ pieces ]

unfoldable pub is_plain : Text → Bool
is_plain part = not (part === text ".." || part === [])

unfoldable pub assert_relative_logical : Text → Outcome AdapterFault (Unit {0})
unfolding is_absolute segments is_plain
assert_relative_logical path =
    check (leb 1 (length path) && leb (length path) 512) AdapterFault.traversal_rejected
    >> (check (not (any (λ c. c == 0) path)) AdapterFault.traversal_rejected
        >> (check (not (is_absolute path)) AdapterFault.absolute_rejected
            >> check (all is_plain (segments path)) AdapterFault.traversal_rejected))

unfoldable pub is_within : Text → Text → Bool
is_within child parent = child === parent || starts_with (parent ++ b'/' ∷ []) child

unfoldable pub real_path : Disk → Text → AdapterFault → Outcome AdapterFault Text
real_path disk path fault = elim (disk.realpath path) [ none ↦ err fault | some real ↦ ok real ]

-- The directory of a workspace, at its real path.
unfoldable pub workspace_directory : Disk → Text → Outcome AdapterFault Text
unfolding real_path
workspace_directory disk joined = elim (disk.stat joined) [
  | none ↦ err AdapterFault.unknown_workspace
  | some st ↦
      check st.is_directory AdapterFault.unknown_workspace
      >> real_path disk joined AdapterFault.unknown_workspace
]

-- `catch { throw UNKNOWN_SYSTEM }`
unfoldable pub or_unknown_system : {E : Type 0} → Outcome E Text → Outcome AdapterFault Text
or_unknown_system (ok root) = ok root
or_unknown_system (err e) = err AdapterFault.unknown_system

module _ (place : Text → Text → Text) where
  unfoldable pub workspace_within : Disk → Text → Text → Outcome AdapterFault Text
  unfolding workspace_directory real_path
  workspace_within disk os_root workspace_id =
      workspace_directory disk (place os_root (text "workspaces/" ++ workspace_id)) >>= λ real.
      real_path disk os_root AdapterFault.raw_error >>= λ os_real.
      check (is_within real os_real) AdapterFault.escape_rejected >> ok real

  unfoldable pub resolve_workspace_root :
      Disk → Text → Text → Text → SystemRegistry → Outcome AdapterFault Text × SystemRegistry
  unfolding workspace_within or_unknown_system
  resolve_workspace_root disk now system_id workspace_id reg =
      attempt (check (is_workspace_id workspace_id) AdapterFault.unknown_workspace) reg λ _.
        let (root, reg') = resolve_root disk now system_id reg in
        (or_unknown_system root >>= λ os_root. workspace_within disk os_root workspace_id, reg')

  unfoldable pub resolve_within_workspace : Disk → Text → Text → Outcome AdapterFault Text
  unfolding assert_relative_logical is_within real_path
  resolve_within_workspace disk root path =
      let joined = place root path in
      assert_relative_logical path
      >> (check (is_within joined root) AdapterFault.traversal_rejected
          >> (real_path disk joined AdapterFault.not_found >>= λ real.
              check (is_within real root) AdapterFault.escape_rejected >> ok real))
