-- ===== src/Registry/Compatibility/Sound.antt =====
-- What a folder that passes the probe of `validateCompatibleOs` has on the disk.
use ai_verse_dashboard.Base.{
  ℕ, ◌≤◌, ◌≡◌, refl, ap, inl, inr, Bool, true, false, not, ◌||◌, Option, none, some, List, [], ◌∷◌,
  ◌++◌, Outcome, ok, err, arith, leb, leb→le, if◌then◌else◌, Bool-cases, Option-cases, All,
}
use ai_verse_dashboard.Base.Text.{Text, text, ===_sound}
use ai_verse_dashboard.Registry.Compatibility.{
  RegistryFault, Stat, Disk, Host, OsCompatibility, canonicalize_root, major_of, incompatible,
  is_some_of, is_required_major, missing_directories, missing_parts, check_layout, check_version,
  check_manifest, probe_root, validate_compatible_os, required_os_major, required_architecture,
  max_manifest_bytes, os_type_name, root_reason,
}

-- `statSync(path).isDirectory()` without an error.
abbrev pub IsDirectory : Disk → Text → Type 0
IsDirectory disk path = (st : Stat) × (disk.stat path ≡ some st) × (st.is_directory ≡ true)

directory_step :
    (o : Option Stat) (reason : Text) (rest : List Text)
    → (elim o [ none ↦ reason ∷ rest | some st ↦ if st.is_directory then rest else reason ∷ rest ])
      ≡ []
    → ((st : Stat) × (o ≡ some st) × (st.is_directory ≡ true)) × (rest ≡ [])
directory_step none reason rest h = absurd (cc h)
directory_step (some st) reason rest h = elim (Bool-cases st.is_directory) [
  | inl e ↦ ((st, refl, e), ground arith)
  | inr e ↦ absurd (ground arith)
]

missing_directories_sound :
    (host : Host) (disk : Disk) (root : Text) (dirs : List Text)
    → missing_directories host disk root dirs ≡ []
    → All (λ dir. IsDirectory disk (host.join root dir)) dirs
unfolding missing_directories
missing_directories_sound host disk root [] h = tt
missing_directories_sound host disk root (dir ∷ dirs) h =
    let (found, rest) =
      directory_step (disk.stat (host.join root dir)) (text "missing " ++ dir ++ text "/ directory")
        (missing_directories host disk root dirs) h in
    (found, missing_directories_sound host disk root dirs rest)

-- The folders of a system.
abbrev pub os_directories : List Text
os_directories = text "operator" ∷ text "workspaces" ∷ text "system" ∷ []

append-nil_split : {A : Type 0} (xs ys : List A) → xs ++ ys ≡ [] → (xs ≡ []) × (ys ≡ [])
append-nil_split [] ys h = (refl, h)
append-nil_split (x ∷ xs) ys h = absurd (cc h)

missing_parts_sound :
    (host : Host) (disk : Disk) (root : Text)
    → missing_parts host disk root ≡ []
    → (disk.exists_path (host.join root (text "AGENTS.md")) ≡ true)
      × All (λ dir. IsDirectory disk (host.join root dir)) os_directories
unfolding missing_parts
missing_parts_sound host disk root h =
    let agents = disk.exists_path (host.join root (text "AGENTS.md")) in
    let (present, folders) =
      append-nil_split (if agents then [] else text "missing AGENTS.md" ∷ [])
        (missing_directories host disk root os_directories) h in
    (there agents present, missing_directories_sound host disk root os_directories folders)
  where
    there : (b : Bool) → (if b then [] else text "missing AGENTS.md" ∷ []) ≡ [] → b ≡ true
    there true h = refl
    there false h = absurd (cc h)

-- What the probe of a root reads from its manifest and its folders.
abbrev pub HasLayout : Host → Disk → Text → Type 0
HasLayout host disk root =
    (disk.exists_path (host.join root (text "AGENTS.md")) ≡ true)
    × All (λ dir. IsDirectory disk (host.join root dir)) os_directories

abbrev pub HasManifest : Host → Disk → Text → Type 0
HasManifest host disk root =
    (st : Stat) × (disk.stat (host.join root (text "AI-VERSE.yaml")) ≡ some st)
    × (st.is_file ≡ true)
    × (st.size ≤ max_manifest_bytes)
    × (manifest : Text) × (disk.read_file (host.join root (text "AI-VERSE.yaml")) ≡ some manifest)
    × ((version : Text) × (host.scalar manifest (text "schema_version") ≡ some version)
        × (major_of host version ≡ some required_os_major))
    × (host.scalar manifest (text "architecture") ≡ some required_architecture)

passes-if :
    (b : Bool) (bad good : OsCompatibility)
    → bad.compatible ≡ false
    → (if b then bad else good).compatible ≡ true
    → (b ≡ false) × (good.compatible ≡ true)
passes-if true bad good e h = absurd (cc)
passes-if false bad good e h = (refl, h)

check_layout_sound :
    (host : Host) (disk : Disk) (root version : Text) (architecture : Option Text)
    → (check_layout host disk root version architecture).compatible ≡ true
    → HasLayout host disk root
unfolding check_layout incompatible
check_layout_sound host disk root version architecture h =
    missing_parts_sound host disk root (nothing (missing_parts host disk root) h)
  where
    nothing :
        (missing : List Text)
        → (elim missing as (λ _. OsCompatibility) [
          | [] ↦ record {
            compatible = true;
            os_type = some os_type_name;
            os_version = some version;
            architecture = architecture;
            root = some root;
            reasons = [];
          }
          | reason ∷ reasons ↦
              incompatible (reason ∷ reasons) (some root) (some version) architecture
        ]).compatible
          ≡ true
        → missing ≡ []
    nothing [] h = refl
    nothing (reason ∷ reasons) h = absurd (cc h)

check_version_sound :
    (host : Host) (disk : Disk) (root version : Text) (architecture : Option Text)
    → (check_version host disk root version architecture).compatible ≡ true
    → (major_of host version ≡ some required_os_major)
      × (architecture ≡ some required_architecture)
      × HasLayout host disk root
unfolding check_version incompatible is_some_of is_required_major
check_version_sound host disk root version architecture h =
    let (right, h') = passes-if (not (is_required_major (major_of host version))) _ _ refl h in
    let (fits, h'') = passes-if (not (is_some_of architecture required_architecture)) _ _ refl h' in
    (
      major (major_of host version) right,
      fitting architecture fits,
      check_layout_sound host disk root version architecture h'',
    )
  where
    major : (o : Option ℕ) → not (is_required_major o) ≡ false → o ≡ some required_os_major
    major none h = absurd (cc h)
    major (some n) h = let same : n ≡ 2 = ground arith in ap some same

    fitting :
        (o : Option Text)
        → not (is_some_of o required_architecture) ≡ false
        → o ≡ some required_architecture
    fitting none h = absurd (cc h)
    fitting (some t) h = ap some (===_sound t required_architecture (ground arith))

check_manifest_sound :
    (host : Host) (disk : Disk) (root manifest : Text)
    → (check_manifest host disk root manifest).compatible ≡ true
    → ((version : Text) × (host.scalar manifest (text "schema_version") ≡ some version)
        × (major_of host version ≡ some required_os_major))
      × (host.scalar manifest (text "architecture") ≡ some required_architecture)
      × HasLayout host disk root
unfolding check_manifest incompatible
check_manifest_sound host disk root manifest =
    elim (Option-cases (host.scalar manifest (text "schema_version"))) [
      | inl none_ ↦ rw (check_manifest, none_) (λ h. absurd (cc h))
      | inr ([], found) ↦ rw (check_manifest, found) (λ h. absurd (cc h))
      | inr (c ∷ v, found) ↦
          rw (check_manifest, found)
            (λ h.
              let (major, fits, layout) =
                check_version_sound host disk root (c ∷ v)
                  (host.scalar manifest (text "architecture")) h in
              ((c ∷ v, refl, major), fits, layout))
    ]

probe_root_sound :
    (host : Host) (disk : Disk) (root : Text)
    → (probe_root host disk root).compatible ≡ true
    → HasManifest host disk root × HasLayout host disk root
unfolding probe_root incompatible
probe_root_sound host disk root h =
    let path = host.join root (text "AI-VERSE.yaml") in
    let (there, h') = passes-if (not (disk.exists_path path)) _ _ refl h in
    readable (disk.stat path) refl h'
  where
    parsed :
        (o : Option Text)
        → disk.read_file (host.join root (text "AI-VERSE.yaml")) ≡ o
        → (elim o as (λ _. OsCompatibility) [
          | none ↦ incompatible (text "AI-VERSE.yaml unreadable" ∷ []) (some root) none none
          | some manifest ↦ check_manifest host disk root manifest
        ]).compatible
          ≡ true
        → (manifest : Text) × (disk.read_file (host.join root (text "AI-VERSE.yaml"))
            ≡ some manifest)
          × ((version : Text) × (host.scalar manifest (text "schema_version") ≡ some version)
              × (major_of host version ≡ some required_os_major))
          × (host.scalar manifest (text "architecture") ≡ some required_architecture)
          × HasLayout host disk root
    parsed none read h = absurd (cc h)
    parsed (some manifest) read h =
        let (named, fits, layout) = check_manifest_sound host disk root manifest h in
        (manifest, read, named, fits, layout)

    readable :
        (o : Option Stat)
        → disk.stat (host.join root (text "AI-VERSE.yaml")) ≡ o
        → (elim o as (λ _. OsCompatibility) [
          | none ↦ incompatible (text "AI-VERSE.yaml unreadable" ∷ []) (some root) none none
          | some st ↦
              if not st.is_file || not (leb st.size max_manifest_bytes)
              then incompatible
                  (text "AI-VERSE.yaml unreadable or oversized" ∷ [])
                  (some root)
                  none
                  none
              else elim (disk.read_file (host.join root (text "AI-VERSE.yaml"))) [
                | none ↦ incompatible (text "AI-VERSE.yaml unreadable" ∷ []) (some root) none none
                | some manifest ↦ check_manifest host disk root manifest
              ]
        ]).compatible
          ≡ true
        → HasManifest host disk root × HasLayout host disk root
    readable none found h = absurd (cc h)
    readable (some st) found h =
        let (fits, h') =
          passes-if (not st.is_file || not (leb st.size max_manifest_bytes)) _ _ refl h in
        let is_file : st.is_file ≡ true = ground arith in
        let small : leb st.size max_manifest_bytes ≡ true = ground arith in
        let (manifest, read, (version, named, major), fits', layout) =
          parsed (disk.read_file (host.join root (text "AI-VERSE.yaml"))) refl h' in
        (
          (
            st,
            found,
            is_file,
            leb→le st.size max_manifest_bytes small,
            manifest,
            read,
            (version, named, major),
            fits',
          ),
          layout,
        )

probe_root-root :
    (host : Host) (disk : Disk) (root : Text) → (probe_root host disk root).root ≡ some root
unfolding probe_root check_manifest check_version check_layout incompatible
probe_root-root host disk root = ground arith

-- A candidate that is found compatible resolves to a directory, which is the root that is reported;
-- there the manifest is a file within the size limit, of major version 2 and of the unified
-- architecture, and AGENTS.md and the three folders exist.
pub validate_compatible_os_sound :
    (host : Host) (disk : Disk) (candidate : Text)
    → (validate_compatible_os host disk candidate).compatible ≡ true
    → (root : Text) × (canonicalize_root disk candidate ≡ ok root)
      × ((validate_compatible_os host disk candidate).root ≡ some root)
      × HasManifest host disk root
      × HasLayout host disk root
unfolding validate_compatible_os incompatible
validate_compatible_os_sound host disk candidate h = found (canonicalize_root disk candidate) refl h
  where
    found :
        (o : Outcome (Option RegistryFault) Text)
        → canonicalize_root disk candidate ≡ o
        → (elim o as (λ _. OsCompatibility) [
          | err fault ↦ incompatible (root_reason fault ∷ []) none none none
          | ok root ↦ probe_root host disk root
        ]).compatible
          ≡ true
        → (root : Text) × (canonicalize_root disk candidate ≡ ok root)
          × ((validate_compatible_os host disk candidate).root ≡ some root)
          × HasManifest host disk root
          × HasLayout host disk root
    found (err fault) e h = absurd (cc h)
    found (ok root) e h =
        let (manifest, layout) = probe_root_sound host disk root h in
        (root, e, rw (validate_compatible_os, e) (probe_root-root host disk root), manifest, layout)
