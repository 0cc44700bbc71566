-- ===== src/Registry/Examples.antt =====
-- The registry on a host where two folders, `/a` and `/b`, hold a compatible system.
use ai_verse_dashboard.Base.{
  ℕ, ◌≡◌, ◌≢◌, refl, true, false, none, some, List, [], ◌∷◌, ◌++◌, ok, err, arith, if◌then◌else◌,
}
use ai_verse_dashboard.Base.Text.{
  Text, text, ◌===◌, starts_with, is_digit, is_slug, is_slug_head, is_lower,
}
use ai_verse_dashboard.Base.Decimal.{decimal}
use ai_verse_dashboard.Base.Map.{lookup, insert, remove, has}
use ai_verse_dashboard.Protocol.Ids.{is_system_id}
use ai_verse_dashboard.Registry.Compatibility.{
  RegistryFault, Disk, Host, canonicalize_root, major_of, incompatible, is_some_of, missing_parts,
  missing_directories, is_required_major, check_layout, check_version, check_manifest, probe_root,
  validate_compatible_os, capture_root_identity, same_root_identity, required_architecture,
  os_type_name,
}
use ai_verse_dashboard.Registry.Systems.{
  register, rebind, unregister, resolve_root, binding_generation, revalidate, choose_id, auto_id,
  bind, release, label_or, find_system, new_record, rebound_record, mark_identity_drift, is_bound,
  assert_root_binding, generation_or_zero,
}
use ai_verse_dashboard.Registry.Bindings.{
  ConnectionRecord, SystemRegistry, Readings, empty_registry, usable_root,
  validate_binding_candidate, is_within, overlaps, no_overlap, assert_no_overlap, is_own,
  is_some_other,
}
use ai_verse_dashboard.Registry.Systems.Roots.{IsWellFormed}
use ai_verse_dashboard.Registry.Systems.Calls.{Call, run, run_all, run_all-IsWellFormed}
use ai_verse_dashboard.Registry.Systems.Drift.{resolve_root_sound, drift_is_sticky}
use ai_verse_dashboard.Registry.Systems.Leases.{
  IsCounted, Renews, lease_is_spent, run_all-IsCounted,
}
use ai_verse_dashboard.Registry.Compatibility.Sound.{
  HasManifest, HasLayout, validate_compatible_os_sound,
}
use ai_verse_dashboard.Registry.Selection.{
  WindowSelection, set, check_selection, is_window_id, is_workspace_choice,
}

run_here : Unit {0}
unfolding text ◌===◌ starts_with is_digit decimal lookup insert remove has is_system_id is_slug
    is_slug_head is_lower canonicalize_root major_of incompatible is_some_of missing_parts
    check_layout check_version check_manifest probe_root validate_compatible_os
    capture_root_identity same_root_identity required_architecture os_type_name register rebind
    unregister resolve_root binding_generation revalidate usable_root validate_binding_candidate
    is_within overlaps no_overlap assert_no_overlap is_own is_some_other choose_id auto_id bind
    release label_or find_system new_record rebound_record mark_identity_drift is_bound
    assert_root_binding generation_or_zero run run_all set check_selection is_window_id
    is_workspace_choice missing_directories is_required_major
run_here = tt

abbrev path_a : Text
path_a = 47 ∷ 97 ∷ []

abbrev path_b : Text
path_b = 47 ∷ 98 ∷ []

abbrev sys : Text
sys = 97 ∷ []

abbrev now : Text
now = []

host : Host
unfolding text ◌===◌
host = record {
  join = λ p q. p ++ 47 ∷ q;
  relative = λ parent child. if parent === child then [] else text "..";
  is_absolute = λ p. false;
  trim = λ t. t;
  scalar = λ manifest key.
      if key === text "schema_version" then some (text "2.0") else some (text "unified-workspace");
}

-- The inode tells one state of the disk from another.
disk : Text → Disk
disk inode = record {
  stat = λ p. some (record {
    is_directory = true;
    is_file = true;
    size = 10;
    device = [];
    inode = inode;
    birthtime_ns = [];
  });
  realpath = λ p. some p;
  exists_path = λ p. true;
  read_file = λ p. some [];
}

here : Disk
unfolding disk
here = disk []

exchanged : Disk
unfolding disk
exchanged = disk (1 ∷ [])

steady : Readings
unfolding here
steady = record { first = here; captured = here; second = here; recaptured = here }

abbrev registers_a : Call
registers_a = Call.registers steady now path_a (some sys) none

abbrev with_a : SystemRegistry
with_a = run host registers_a empty_registry

empty_registry-IsWellFormed : IsWellFormed host empty_registry
unfolding lookup
empty_registry-IsWellFormed = record {
  keyed = λ id r h. absurd (cc h);
  located = λ id r h. absurd (cc h);
  owned = λ root id h. absurd (cc h);
  apart = λ root root' id id' h h' ne. absurd (cc h);
}

empty_registry-IsCounted : IsCounted empty_registry
unfolding lookup
empty_registry-IsCounted id n h = absurd (cc h)

with_a-IsWellFormed : IsWellFormed host with_a
unfolding run_all
with_a-IsWellFormed =
    run_all-IsWellFormed host (registers_a ∷ []) empty_registry empty_registry-IsWellFormed

with_a-IsCounted : IsCounted with_a
unfolding run_all
with_a-IsCounted = run_all-IsCounted host (registers_a ∷ []) empty_registry empty_registry-IsCounted

run_all-IsWellFormed_example : IsWellFormed host (
    run_all host
      (registers_a ∷ Call.rebinds steady now sys path_b ∷ Call.unregisters sys ∷ [])
      empty_registry)
run_all-IsWellFormed_example =
    run_all-IsWellFormed host
      (registers_a ∷ Call.rebinds steady now sys path_b ∷ Call.unregisters sys ∷ []) empty_registry
      empty_registry-IsWellFormed

same_root_is_refused :
    (register host steady now path_a none none with_a).0 ≡ err RegistryFault.system_duplicate
unfolding run_here host steady
same_root_is_refused = refl

second_system : (register host steady now path_b none none with_a).1.counter ≡ 1
unfolding run_here host steady
second_system = refl

resolves : (resolve_root here now sys with_a).0 ≡ ok path_a
unfolding run_here host steady
resolves = refl

drifts_there : (resolve_root exchanged now sys with_a).0 ≡ err RegistryFault.system_identity_drift
unfolding run_here host steady exchanged
drifts_there = refl

resolve_root_sound_example :
    (r : ConnectionRecord) × (lookup sys with_a.by_id ≡ some r)
    × (r.authorized ≡ true)
    × (r.root ≡ path_a)
    × (capture_root_identity here path_a ≡ ok r.root_identity)
    × ((resolve_root here now sys with_a).1 ≡ with_a)
resolve_root_sound_example = resolve_root_sound here now sys path_a with_a resolves

abbrev unrelated : List Call
unrelated =
    Call.revalidates here here now sys
    ∷ Call.registers steady now path_b none none
    ∷ registers_a
    ∷ []

drift_is_sticky_example :
    (resolve_root here now sys (run_all host unrelated (resolve_root exchanged now sys with_a).1)).0
    ≡ err RegistryFault.system_unauthorized
drift_is_sticky_example =
    drift_is_sticky host exchanged now sys with_a unrelated here now with_a-IsWellFormed
      drifts_there (tt, (tt, (tt, tt)))

generation_is_1 : (binding_generation here now sys with_a).0 ≡ ok 1
unfolding run_here host steady
generation_is_1 = refl

generation_is_2 :
    (binding_generation here now sys (
      run_all host (registers_a ∷ []) (run host (Call.unregisters sys) (run_all host [] with_a)))).0
    ≡ ok 2
unfolding run_here host steady
generation_is_2 = refl

forgets : Renews host sys (Call.unregisters sys) (run_all host [] with_a)
unfolding run_here host steady
forgets = (refl, refl)

abbrev told_first : ℕ
told_first = 1

abbrev told_later : ℕ
told_later = 2

lease_is_spent_example : told_first ≢ told_later
lease_is_spent_example =
    lease_is_spent host here now sys with_a 1 [] (Call.unregisters sys) (registers_a ∷ []) here now
      2 with_a-IsWellFormed with_a-IsCounted generation_is_1 (omega arith) forgets generation_is_2

compatible_here : (validate_compatible_os host here path_a).compatible ≡ true
unfolding run_here host here
compatible_here = refl

validate_compatible_os_sound_example :
    (root : Text) × (canonicalize_root here path_a ≡ ok root)
    × ((validate_compatible_os host here path_a).root ≡ some root)
    × HasManifest host here root
    × HasLayout host here root
validate_compatible_os_sound_example = validate_compatible_os_sound host here path_a compatible_here

abbrev window : Text
window = 119 ∷ []

abbrev selection : WindowSelection
selection = record { system_id = sys; workspace_id = none }

selected : (set with_a window selection []).0 ≡ ok selection
unfolding run_here host steady
selected = refl
