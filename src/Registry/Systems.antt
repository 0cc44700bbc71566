-- ===== src/Registry/Systems.antt =====
-- packages/registry/src/registry.ts: the methods of `SystemRegistry`. The clock is `now`, in the text of
-- `toISOString`; the disk is an argument of each call. Every record is found by its id in one map
-- only, so the changes to a record in place are the insertion of the changed record.
pub mod Roots
pub mod Kept
pub mod Calls
pub mod Cases
pub mod Drift
pub mod Leases
use ai_verse_dashboard.Base.{
  ℕ, zero, suc, ◌+◌, ◌-◌, ◌*◌, ◌^◌, Bool, true, false, not, ◌&&◌, ◌||◌, Option, none, some, List,
  [], ◌∷◌, ◌++◌, map, Outcome, ok, err, ltb, leb, ◌==◌, if◌then◌else◌, ◌>>=◌, ◌>>◌, attempt, check,
}
use ai_verse_dashboard.Base.Text.{Text, text, ◌===◌, starts_with}
use ai_verse_dashboard.Base.Decimal.{decimal}
use ai_verse_dashboard.Base.Map.{Map, lookup, insert, remove, has, values}
use ai_verse_dashboard.Protocol.Ids.{is_system_id}
use ai_verse_dashboard.Registry.Compatibility.{
  RegistryFault, Disk, Host, OsCompatibility, RootIdentity, validate_compatible_os,
  capture_root_identity, same_root_identity, os_type_name,
}
use ai_verse_dashboard.Registry.Bindings.{
  ConnectionRecord, PublicConnection, to_public, SystemRegistry, empty_registry, Readings,
  ApprovedBinding, is_own, max_safe_integer, is_some_other, usable_root, validate_binding_candidate,
  is_within, overlaps, no_overlap, assert_no_overlap,
}

-- `aiverse-` and the number in at least two digits.
unfoldable pub auto_id : ℕ → Text
auto_id n = text "aiverse-" ++ (if ltb n 10 then b'0' ∷ decimal n else decimal n)

unfoldable pub choose_id :
    Option Text → SystemRegistry → Outcome RegistryFault Text × SystemRegistry
unfolding auto_id
choose_id none reg = (ok (auto_id (reg.counter + 1)), record reg { counter = reg.counter + 1 })
choose_id (some id) reg = (if is_system_id id then ok id else err RegistryFault.invalid_id, reg)

-- The record under its id and under its root, then `bumpBindingGeneration`.
unfoldable pub bind :
    ConnectionRecord → SystemRegistry → Outcome RegistryFault ConnectionRecord × SystemRegistry
bind record_ reg =
    let bound : SystemRegistry = record reg {
      by_id = insert record_.system_id record_ reg.by_id;
      by_root = insert record_.root record_.system_id reg.by_root;
    } in
    let next = reg.binding_serial + 1 in
    if leb next max_safe_integer
    then (
      ok record_,
      record bound {
        binding_serial = next;
        binding_generations = insert record_.system_id next reg.binding_generations;
      },
    )
    else (err RegistryFault.generation_exhausted, bound)

-- `if (byRoot.get(record.root) === systemId) byRoot.delete(record.root)`
unfoldable pub release : Text → Text → SystemRegistry → SystemRegistry
unfolding is_own
release id root reg = record reg {
  by_root = if is_own (lookup root reg.by_root) id then remove root reg.by_root else reg.by_root;
}

unfoldable pub label_or : Option Text → Text → Text
label_or none id = id
label_or (some label) id = label

unfoldable pub find_system : Text → SystemRegistry → Outcome RegistryFault ConnectionRecord
find_system id reg = elim (lookup id reg.by_id) [
  | none ↦ err RegistryFault.system_not_registered
  | some r ↦ ok r
]

unfoldable pub new_record : Text → Option Text → ApprovedBinding → Text → ConnectionRecord
unfolding label_or
new_record id label approved now = record {
  system_id = id;
  label = label_or label id;
  os_type = os_type_name;
  os_version = approved.os_version;
  architecture = approved.architecture;
  root = approved.root;
  root_identity = approved.identity;
  identity_drifted = false;
  authorized = true;
  registered_at = now;
  last_validated_at = now;
}

unfoldable pub rebound_record : ConnectionRecord → ApprovedBinding → Text → ConnectionRecord
rebound_record r approved now = record r {
  root = approved.root;
  root_identity = approved.identity;
  identity_drifted = false;
  authorized = true;
  os_type = os_type_name;
  os_version = approved.os_version;
  architecture = approved.architecture;
  last_validated_at = now;
}

unfoldable pub mark_identity_drift : ConnectionRecord → Text → SystemRegistry → SystemRegistry
mark_identity_drift r now reg = record reg {
  by_id =
      insert r.system_id
        (record r { authorized = false; identity_drifted = true; last_validated_at = now })
        reg.by_id;
}

-- Whether `assertRootBinding` leaves the record alone.
unfoldable pub is_bound : Disk → ConnectionRecord → Bool
is_bound disk r = elim (capture_root_identity disk r.root) [
  | err e ↦ false
  | ok current ↦ same_root_identity r.root_identity current
]

unfoldable pub assert_root_binding :
    Disk
    → ConnectionRecord
    → Text
    → SystemRegistry
    → Outcome RegistryFault (Unit {0}) × SystemRegistry
unfolding is_bound mark_identity_drift
assert_root_binding disk r now reg =
    if is_bound disk r
    then (ok tt, reg)
    else (err RegistryFault.system_identity_drift, mark_identity_drift r now reg)

unfoldable pub resolve_root :
    Disk → Text → Text → SystemRegistry → Outcome RegistryFault Text × SystemRegistry
unfolding find_system assert_root_binding
resolve_root disk now id reg =
    attempt
      (find_system id reg >>= λ r. check r.authorized RegistryFault.system_unauthorized >> ok r) reg
      λ r. let (bound, reg') = assert_root_binding disk r now reg in (bound >> ok r.root, reg')

unfoldable pub generation_or_zero : Option ℕ → ℕ
generation_or_zero none = 0
generation_or_zero (some n) = n

unfoldable pub binding_generation :
    Disk → Text → Text → SystemRegistry → Outcome RegistryFault ℕ × SystemRegistry
unfolding resolve_root generation_or_zero
binding_generation disk now id reg =
    let (root, reg') = resolve_root disk now id reg in
    (root >>= λ _. ok (generation_or_zero (lookup id reg'.binding_generations)), reg')

unfoldable pub unregister : Text → SystemRegistry → Bool × SystemRegistry
unfolding release
unregister id reg = elim (lookup id reg.by_id) [
  | none ↦ (false, reg)
  | some r ↦ (
    true,
    release id r.root (record reg {
      by_id = remove id reg.by_id;
      binding_generations = remove id reg.binding_generations;
    }),
  )
]

unfoldable pub list_public : SystemRegistry → List PublicConnection
unfolding to_public
list_public reg = map to_public (values reg.by_id)

drifted_answer : ConnectionRecord → OsCompatibility
drifted_answer r = record {
  compatible = false;
  os_type = none;
  os_version = some r.os_version;
  architecture = some r.architecture;
  root = some r.root;
  reasons = text "registered root identity changed; explicit rebind required" ∷ [];
}

module _ (host : Host) where
  unfoldable pub register :
      Readings
      → Text
      → Text
      → Option Text
      → Option Text
      → SystemRegistry
      → Outcome RegistryFault ConnectionRecord × SystemRegistry
  unfolding assert_no_overlap choose_id new_record bind
  register disks now candidate system_id label reg =
      attempt (validate_binding_candidate host disks candidate) reg λ approved.
        attempt (assert_no_overlap host approved.root none reg) reg λ _.
          let (chosen, reg') = choose_id system_id reg in
          attempt chosen reg' λ id.
            attempt (check (not (has id reg'.by_id)) RegistryFault.system_duplicate) reg'
              λ _. bind (new_record id label approved now) reg'

  unfoldable pub rebind :
      Readings
      → Text
      → Text
      → Text
      → SystemRegistry
      → Outcome RegistryFault ConnectionRecord × SystemRegistry
  unfolding find_system assert_no_overlap release rebound_record bind
  rebind disks now id candidate reg = attempt (find_system id reg) reg λ r.
      attempt (validate_binding_candidate host disks candidate) reg λ approved.
        attempt (assert_no_overlap host approved.root (some id) reg) reg
          λ _. bind (rebound_record r approved now) (release id r.root reg)

  -- The disk is read once for the identity, and again for the compatibility.
  unfoldable pub revalidate :
      Disk
      → Disk
      → Text
      → Text
      → SystemRegistry
      → Outcome RegistryFault OsCompatibility × SystemRegistry
  unfolding find_system assert_root_binding drifted_answer
  revalidate bound probed now id reg = attempt (find_system id reg) reg λ r.
      if r.identity_drifted
      then (ok (drifted_answer r), reg)
      else if not (is_bound bound r)
      then (ok (drifted_answer r), mark_identity_drift r now reg)
      else let compat = validate_compatible_os host probed r.root in
        (
          ok compat,
          record reg {
            by_id =
                insert id (record r { authorized = compat.compatible; last_validated_at = now })
                  reg.by_id;
          },
        )
