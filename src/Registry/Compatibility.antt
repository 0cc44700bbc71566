-- ===== src/Registry/Compatibility.antt =====
-- packages/registry/src/validation.ts and root-identity.ts: what makes a folder a compatible system,
-- and which folder it is. A `Disk` is the file system at the time of a call; `Host` holds
-- what the code takes from node:path, from `trim` and from the regular expression of
-- `topLevelScalar`.
pub mod Sound
use ai_verse_dashboard.Base.{
  ℕ, zero, suc, ◌+◌, ◌-◌, ◌*◌, ◌^◌, Bool, true, false, not, ◌&&◌, ◌||◌, Option, none, some, List,
  [], ◌∷◌, ◌++◌, Outcome, ok, err, leb, ◌==◌, if◌then◌else◌, ◌>>=◌,
}
use ai_verse_dashboard.Base.Text.{Text, text, ◌===◌, is_digit}

pub data RegistryFault : Type 0 where
  os_not_found : RegistryFault
  os_not_directory : RegistryFault
  os_incompatible : RegistryFault
  system_duplicate : RegistryFault
  system_overlap : RegistryFault
  system_not_registered : RegistryFault
  system_unauthorized : RegistryFault
  system_identity_drift : RegistryFault
  invalid_id : RegistryFault
  window_required : RegistryFault
  -- The plain `Error` of `bumpBindingGeneration`.
  generation_exhausted : RegistryFault

pub record Stat : Type 0 where
  pub is_directory : Bool
  pub is_file : Bool
  pub size : ℕ
  pub device : Text
  pub inode : Text
  pub birthtime_ns : Text

-- A call that throws is `none`.
pub record Disk : Type 0 where
  pub stat : Text → Option Stat
  pub realpath : Text → Option Text
  pub exists_path : Text → Bool
  pub read_file : Text → Option Text

pub record Host : Type 0 where
  pub join : Text → Text → Text
  pub relative : Text → Text → Text
  pub is_absolute : Text → Bool
  pub trim : Text → Text
  -- `topLevelScalar(text, key)`
  pub scalar : Text → Text → Option Text

pub record OsCompatibility : Type 0 where
  pub compatible : Bool
  pub os_type : Option Text
  pub os_version : Option Text
  pub architecture : Option Text
  pub root : Option Text
  pub reasons : List Text

abbrev pub required_os_major : ℕ
required_os_major = 2

unfoldable pub required_architecture : Text
required_architecture = text "unified-workspace"

unfoldable pub os_type_name : Text
os_type_name = text "ai-verse-os-v2"

abbrev pub max_manifest_bytes : ℕ
max_manifest_bytes = 32 * 1024

-- `none` is the error of `realpathSync`, which has no code of the registry.
unfoldable pub canonicalize_root : Disk → Text → Outcome (Option RegistryFault) Text
canonicalize_root disk root = elim (disk.stat root) [
  | none ↦ err (some RegistryFault.os_not_found)
  | some st ↦
      if not st.is_directory
      then err (some RegistryFault.os_not_directory)
      else elim (disk.realpath root) [ none ↦ err none | some real ↦ ok real ]
]

-- `Number` of the digits in front.
major_from : ℕ → Text → Option ℕ
major_from n [] = none
major_from n (c ∷ s) =
    let rest = major_from (n * 10 + (c - b'0')) s in
    if is_digit c then rest else if c == b'.' then some n else none

unfoldable pub major_of : Host → Text → Option ℕ
unfolding major_from
major_of host version = elim (host.trim version) [
  | [] ↦ none
  | c ∷ s ↦ if is_digit c then major_from (c - b'0') s else none
]

unfoldable pub incompatible : List Text → Option Text → Option Text → Option Text → OsCompatibility
incompatible reasons root os_version architecture = record {
  compatible = false;
  os_type = none;
  os_version = os_version;
  architecture = architecture;
  root = root;
  reasons = reasons;
}

unfoldable pub is_some_of : Option Text → Text → Bool
is_some_of none t = false
is_some_of (some s) t = s === t

unfoldable pub missing_directories : Host → Disk → Text → List Text → List Text
missing_directories host disk root [] = []
missing_directories host disk root (dir ∷ dirs) =
    let rest = missing_directories host disk root dirs in
    let reason = text "missing " ++ dir ++ text "/ directory" in
    elim (disk.stat (host.join root dir)) [
      | none ↦ reason ∷ rest
      | some st ↦ if st.is_directory then rest else reason ∷ rest
    ]

unfoldable pub missing_parts : Host → Disk → Text → List Text
unfolding missing_directories
missing_parts host disk root =
    (if disk.exists_path (host.join root (text "AGENTS.md"))
      then []
      else text "missing AGENTS.md" ∷ [])
    ++ missing_directories host disk root (text "operator" ∷ text "workspaces" ∷ text "system" ∷ [])

-- `null` in a template string.
unfoldable pub or_missing : Option Text → Text
or_missing none = text "missing"
or_missing (some t) = t

unfoldable pub check_layout : Host → Disk → Text → Text → Option Text → OsCompatibility
unfolding missing_parts incompatible
check_layout host disk root version architecture = elim (missing_parts host disk root) [
  | [] ↦ record {
    compatible = true;
    os_type = some os_type_name;
    os_version = some version;
    architecture = architecture;
    root = some root;
    reasons = [];
  }
  | reason ∷ reasons ↦ incompatible (reason ∷ reasons) (some root) (some version) architecture
]

unfoldable pub is_required_major : Option ℕ → Bool
is_required_major none = false
is_required_major (some n) = n == required_os_major

unfoldable pub check_version : Host → Disk → Text → Text → Option Text → OsCompatibility
unfolding check_layout incompatible is_some_of or_missing is_required_major
check_version host disk root version architecture =
    if not (is_required_major (major_of host version))
    then incompatible
        ((text "unsupported schema_version " ++ version ++ text " (need major 2)") ∷ []) (some root)
        (some version) architecture
    else if not (is_some_of architecture required_architecture)
    then incompatible
        ((text "unsupported architecture "
            ++ or_missing architecture
            ++ text " (need "
            ++ required_architecture
            ++ text ")")
          ∷ [])
        (some root) (some version) architecture
    else check_layout host disk root version architecture

unfoldable pub check_manifest : Host → Disk → Text → Text → OsCompatibility
unfolding check_version incompatible
check_manifest host disk root manifest =
    let architecture = host.scalar manifest (text "architecture") in
    let no_version =
      incompatible (text "AI-VERSE.yaml has no schema_version" ∷ []) (some root) none
        architecture in
    elim (host.scalar manifest (text "schema_version")) [
      | none ↦ no_version
      | some [] ↦ no_version
      | some (c ∷ s) ↦ check_version host disk root (c ∷ s) architecture
    ]

unfoldable pub probe_root : Host → Disk → Text → OsCompatibility
unfolding check_manifest incompatible
probe_root host disk root =
    let path = host.join root (text "AI-VERSE.yaml") in
    let refuse = λ (reason : Text). incompatible (reason ∷ []) (some root) none none in
    if not (disk.exists_path path)
    then refuse (text "missing AI-VERSE.yaml")
    else elim (disk.stat path) [
      | none ↦ refuse (text "AI-VERSE.yaml unreadable")
      | some st ↦
          if not st.is_file || not (leb st.size max_manifest_bytes)
          then refuse (text "AI-VERSE.yaml unreadable or oversized")
          else elim (disk.read_file path) [
            | none ↦ refuse (text "AI-VERSE.yaml unreadable")
            | some manifest ↦ check_manifest host disk root manifest
          ]
    ]

unfoldable pub root_reason : Option RegistryFault → Text
root_reason (some RegistryFault.os_not_directory) = text "root is not a directory"
root_reason _ = text "root not found"

unfoldable pub validate_compatible_os : Host → Disk → Text → OsCompatibility
unfolding probe_root incompatible root_reason
validate_compatible_os host disk candidate = elim (canonicalize_root disk candidate) [
  | err fault ↦ incompatible (root_reason fault ∷ []) none none none
  | ok root ↦ probe_root host disk root
]

pub record RootIdentity : Type 0 where
  pub realpath : Text
  pub device : Text
  pub inode : Text
  pub birthtime_ns : Text

unfoldable pub capture_root_identity : Disk → Text → Outcome RegistryFault RootIdentity
capture_root_identity disk root = elim (disk.realpath root) [
  | none ↦ err RegistryFault.os_not_found
  | some real ↦ elim (disk.stat real) [
    | none ↦ err RegistryFault.os_not_found
    | some st ↦
        if not st.is_directory
        then err RegistryFault.os_not_directory
        else ok (record {
          realpath = real;
          device = st.device;
          inode = st.inode;
          birthtime_ns = st.birthtime_ns;
        })
  ]
]

unfoldable pub same_root_identity : RootIdentity → RootIdentity → Bool
same_root_identity left right =
    left.realpath === right.realpath
    && left.device === right.device
    && left.inode === right.inode
    && left.birthtime_ns === right.birthtime_ns
