-- ===== src/Registry/Bindings.antt =====
-- packages/registry/src/registry.ts: the records of `SystemRegistry`, the approval of a candidate root, which
-- reads the disk four times, and the test for overlapping roots.
use ai_verse_dashboard.Base.{
  ℕ, ◌-◌, ◌^◌, Bool, false, not, ◌&&◌, ◌||◌, Option, none, some, [], ◌∷◌, Outcome, ok, err,
  if◌then◌else◌, ◌>>=◌, ◌>>◌, check,
}
use ai_verse_dashboard.Base.Text.{Text, text, ◌===◌, starts_with}
use ai_verse_dashboard.Base.Map.{Map, lookup}
use ai_verse_dashboard.Registry.Compatibility.{
  RegistryFault, Disk, Host, OsCompatibility, RootIdentity, validate_compatible_os,
  capture_root_identity, same_root_identity,
}

pub record ConnectionRecord : Type 0 where
  pub system_id : Text
  pub label : Text
  pub os_type : Text
  pub os_version : Text
  pub architecture : Text
  pub root : Text
  pub root_identity : RootIdentity
  pub identity_drifted : Bool
  pub authorized : Bool
  pub registered_at : Text
  pub last_validated_at : Text

pub record PublicConnection : Type 0 where
  pub system_id : Text
  pub label : Text
  pub os_type : Text
  pub os_version : Text
  pub authorized : Bool
  pub registered_at : Text
  pub last_validated_at : Text

unfoldable pub to_public : ConnectionRecord → PublicConnection
to_public r = record {
  system_id = r.system_id;
  label = r.label;
  os_type = r.os_type;
  os_version = r.os_version;
  authorized = r.authorized;
  registered_at = r.registered_at;
  last_validated_at = r.last_validated_at;
}

pub record SystemRegistry : Type 0 where
  pub by_id : Map ConnectionRecord
  pub by_root : Map Text
  pub counter : ℕ
  pub binding_generations : Map ℕ
  pub binding_serial : ℕ

abbrev pub empty_registry : SystemRegistry
empty_registry = record {
  by_id = [];
  by_root = [];
  counter = 0;
  binding_generations = [];
  binding_serial = 0;
}

-- The disk at the four readings of `validateBindingCandidate`.
pub record Readings : Type 0 where
  pub first : Disk
  pub captured : Disk
  pub second : Disk
  pub recaptured : Disk

pub record ApprovedBinding : Type 0 where
  pub root : Text
  pub os_version : Text
  pub architecture : Text
  pub identity : RootIdentity

-- `value ?? "unknown"`
or_unknown : Option Text → Text
or_unknown none = text "unknown"
or_unknown (some t) = t

unfoldable pub is_own : Option Text → Text → Bool
is_own none id = false
is_own (some own) id = own === id

-- `Number.MAX_SAFE_INTEGER`
abbrev pub max_safe_integer : ℕ
max_safe_integer = 2 ^ 53 - 1

unfoldable pub is_some_other : Option Text → Option Text → Bool
unfolding is_own
is_some_other none own = false
is_some_other (some id) own = not (is_own own id)

module _ (host : Host) where
  unfoldable pub usable_root : Disk → Text → Outcome RegistryFault (Text × OsCompatibility)
  usable_root disk candidate =
      let compat = validate_compatible_os host disk candidate in
      elim compat.root [
        | none ↦ err RegistryFault.os_incompatible
        | some root ↦
            if not compat.compatible then err RegistryFault.os_incompatible else ok (root, compat)
      ]

  unfoldable pub validate_binding_candidate :
      Readings → Text → Outcome RegistryFault ApprovedBinding
  unfolding usable_root or_unknown
  validate_binding_candidate disks candidate = usable_root disks.first candidate >>= λ found.
      capture_root_identity disks.captured found.0 >>= λ first_identity.
      usable_root disks.second first_identity.realpath >>= λ again.
      capture_root_identity disks.recaptured again.0 >>= λ second_identity.
      check (same_root_identity first_identity second_identity) RegistryFault.os_incompatible
      >> ok (record {
        root = again.0;
        os_version = or_unknown again.1.os_version;
        architecture = or_unknown again.1.architecture;
        identity = second_identity;
      })

  unfoldable pub is_within : Text → Text → Bool
  is_within child parent =
      let rel = host.relative parent child in
      rel === [] || (not (starts_with (text "..") rel) && not (host.is_absolute rel))

  unfoldable pub overlaps : Text → Text → Bool
  unfolding is_within
  overlaps root other = is_within root other || is_within other root

  unfoldable pub no_overlap : Text → Option Text → Map Text → Outcome RegistryFault (Unit {0})
  no_overlap root own [] = ok tt
  no_overlap root own ((other, id) ∷ rest) =
      let later = no_overlap root own rest in
      if is_own own id
      then later
      else if overlaps root other
      then err RegistryFault.system_overlap
      else later

  unfoldable pub assert_no_overlap :
      Text → Option Text → SystemRegistry → Outcome RegistryFault (Unit {0})
  unfolding no_overlap is_some_other
  assert_no_overlap root own reg =
      check (not (is_some_other (lookup root reg.by_root) own)) RegistryFault.system_duplicate
      >> no_overlap root own reg.by_root
