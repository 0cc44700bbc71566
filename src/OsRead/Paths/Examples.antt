-- ===== src/OsRead/Paths/Examples.antt =====
-- A system at `/a` with a workspace `w`, on a disk without links.
use ai_verse_dashboard.Base.{◌≡◌, refl, true, false, none, some, [], ◌∷◌, ◌++◌, ok, err}
use ai_verse_dashboard.Base.Text.{
  Text, text, ◌===◌, starts_with, is_lower, is_slug, is_slug_head, is_digit,
}
use ai_verse_dashboard.Base.Map.{lookup}
use ai_verse_dashboard.Protocol.Ids.{is_workspace_id}
use ai_verse_dashboard.Registry.Compatibility.{Disk, capture_root_identity, same_root_identity}
use ai_verse_dashboard.Registry.Systems.{resolve_root, find_system, assert_root_binding, is_bound}
use ai_verse_dashboard.Registry.Bindings.{SystemRegistry}
use ai_verse_dashboard.OsRead.Paths.{
  AdapterFault, has_drive, is_absolute, segments, is_plain, assert_relative_logical, is_within,
  real_path, workspace_directory, workspace_within, resolve_workspace_root,
  resolve_within_workspace, or_unknown_system,
}
use ai_verse_dashboard.OsRead.Paths.Contained.{
  LiesIn, IsLogical, IsDirectory, resolve_within_workspace_sound, resolve_workspace_root_sound,
}

run_here : Unit {0}
unfolding text ◌===◌ starts_with is_lower is_slug is_slug_head is_digit lookup is_workspace_id
    capture_root_identity same_root_identity resolve_root find_system assert_root_binding is_bound
    has_drive is_absolute segments is_plain assert_relative_logical is_within real_path
    workspace_directory workspace_within resolve_workspace_root resolve_within_workspace
    or_unknown_system
run_here = tt

abbrev place : Text → Text → Text
place base path = base ++ 47 ∷ path

abbrev disk : Disk
disk = record {
  stat = λ p. some (record {
    is_directory = true;
    is_file = false;
    size = 0;
    device = [];
    inode = [];
    birthtime_ns = [];
  });
  realpath = λ p. some p;
  exists_path = λ p. true;
  read_file = λ p. none;
}

abbrev root : Text
root = 47 ∷ 97 ∷ []

abbrev file : Text
file = 120 ∷ 47 ∷ 121 ∷ []

abbrev up : Text
up = 120 ∷ 47 ∷ 46 ∷ 46 ∷ []

reaches : resolve_within_workspace place disk root file ≡ ok (place root file)
unfolding run_here
reaches = refl

refuses_up : resolve_within_workspace place disk root up ≡ err AdapterFault.traversal_rejected
unfolding run_here
refuses_up = refl

resolve_within_workspace_sound_example :
    IsLogical file
    × LiesIn (place root file) root
    × (disk.realpath (place root file) ≡ some (place root file))
resolve_within_workspace_sound_example =
    resolve_within_workspace_sound place disk root file (place root file) reaches

abbrev sys : Text
sys = 97 ∷ []

abbrev workspace : Text
workspace = 119 ∷ []

abbrev registry : SystemRegistry
registry = record {
  by_id =
      (
        sys,
        (record {
          system_id = sys;
          label = sys;
          os_type = [];
          os_version = [];
          architecture = [];
          root = root;
          root_identity = record { realpath = root; device = []; inode = []; birthtime_ns = [] };
          identity_drifted = false;
          authorized = true;
          registered_at = [];
          last_validated_at = [];
        }),
      )
      ∷ [];
  by_root = (root, sys) ∷ [];
  counter = 0;
  binding_generations = (sys, 1) ∷ [];
  binding_serial = 1;
}

folder : Text
unfolding text
folder = place root (text "workspaces/" ++ workspace)

workspace_is_there : (resolve_workspace_root place disk [] sys workspace registry).0 ≡ ok folder
unfolding run_here folder
workspace_is_there = refl

resolve_workspace_root_sound_example :
    (os_root os_real : Text) × ((resolve_root disk [] sys registry).0 ≡ ok os_root)
    × (disk.realpath os_root ≡ some os_real)
    × IsDirectory disk (place os_root (text "workspaces/" ++ workspace))
    × (disk.realpath (place os_root (text "workspaces/" ++ workspace)) ≡ some folder)
    × LiesIn folder os_real
    × (is_workspace_id workspace ≡ true)
resolve_workspace_root_sound_example =
    resolve_workspace_root_sound place disk [] sys workspace folder registry workspace_is_there
