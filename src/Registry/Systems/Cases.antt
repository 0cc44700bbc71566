-- ===== src/Registry/Systems/Cases.antt =====
-- The ways in which the methods of `SystemRegistry` end.
use ai_verse_dashboard.Base.{
  ◌≡◌, refl, inl, inr, Bool, true, false, not, Option, none, some, Outcome, ok, err, arith,
  Bool-cases, Option-cases, check, check-ok, attempt-cases,
}
use ai_verse_dashboard.Base.Text.{Text}
use ai_verse_dashboard.Base.Map.{lookup, remove, has, has-lookup}
use ai_verse_dashboard.Registry.Compatibility.{RegistryFault, Disk, Host}
use ai_verse_dashboard.Registry.Systems.{
  bind, release, register, rebind, unregister, resolve_root, find_system, mark_identity_drift,
  assert_root_binding, is_bound, choose_id, new_record, rebound_record,
}
use ai_verse_dashboard.Registry.Bindings.{
  ConnectionRecord, SystemRegistry, Readings, assert_no_overlap, ApprovedBinding,
  validate_binding_candidate,
}
use ai_verse_dashboard.Registry.Systems.Kept.{find_system_sound}

pub find_system-some :
    (id : Text) (reg : SystemRegistry) (r : ConnectionRecord)
    → lookup id reg.by_id ≡ some r
    → find_system id reg ≡ ok r
unfolding find_system
find_system-some id reg r found = rw (find_system, found) refl

pub find_system-none :
    (id : Text) (reg : SystemRegistry)
    → lookup id reg.by_id ≡ none
    → find_system id reg ≡ err RegistryFault.system_not_registered
unfolding find_system
find_system-none id reg none_ = rw (find_system, none_) refl

-- The four ways in which `resolveRoot` ends.
pub resolve_root-cases {ℓ} :
    (P : Outcome RegistryFault Text × SystemRegistry → Type ℓ) (disk : Disk) (now id : Text)
    (reg : SystemRegistry)
    → (lookup id reg.by_id ≡ none → P (err RegistryFault.system_not_registered, reg))
    → ((r : ConnectionRecord)
        → lookup id reg.by_id ≡ some r
        → r.authorized ≡ false
        → P (err RegistryFault.system_unauthorized, reg))
    → ((r : ConnectionRecord)
        → lookup id reg.by_id ≡ some r
        → r.authorized ≡ true
        → is_bound disk r ≡ true
        → P (ok r.root, reg))
    → ((r : ConnectionRecord)
        → lookup id reg.by_id ≡ some r
        → r.authorized ≡ true
        → is_bound disk r ≡ false
        → P (err RegistryFault.system_identity_drift, mark_identity_drift r now reg))
    → P (resolve_root disk now id reg)
unfolding resolve_root assert_root_binding
resolve_root-cases P disk now id reg unknown unauthorized bound drifted =
    elim (Option-cases (lookup id reg.by_id)) [
      | inl none_ ↦ rw (resolve_root, find_system-none id reg none_) (unknown none_)
      | inr (r, found) ↦
          let here = find_system-some id reg r found in
          elim (Bool-cases r.authorized) [
            | inr cannot ↦ rw (resolve_root, here, cannot) (unauthorized r found cannot)
            | inl can ↦ elim (Bool-cases (is_bound disk r)) [
              | inl same ↦ rw (resolve_root, here, can, same) (bound r found can same)
              | inr other ↦ rw (resolve_root, here, can, other) (drifted r found can other)
            ]
          ]
    ]

-- Behind the tests of `register`, the id that was chosen is new.
pub register-cases {ℓ} :
    (host : Host) (P : Outcome RegistryFault ConnectionRecord × SystemRegistry → Type ℓ)
    (disks : Readings) (now candidate : Text) (system_id label : Option Text) (reg : SystemRegistry)
    → ((e : RegistryFault) → P (err e, reg))
    → ((e : RegistryFault) → P (err e, (choose_id system_id reg).1))
    → ((id : Text) (approved : ApprovedBinding)
        → lookup id (choose_id system_id reg).1.by_id ≡ none
        → P (bind (new_record id label approved now) (choose_id system_id reg).1))
    → P (register host disks now candidate system_id label reg)
unfolding register
register-cases host P disks now candidate system_id label reg early late bound =
    let reg' = (choose_id system_id reg).1 in
    attempt-cases P (validate_binding_candidate host disks candidate) reg _ early
      λ approved checked.
        attempt-cases P (assert_no_overlap host approved.root none reg) reg _ early λ u passed.
          attempt-cases P (choose_id system_id reg).0 reg' _ late λ id chosen.
            attempt-cases P (check (not (has id reg'.by_id)) RegistryFault.system_duplicate) reg' _
              late
              λ v new.
                bound id approved (has-lookup id reg'.by_id (ground (arith, check-ok _ _ v new)))

pub rebind-cases {ℓ} :
    (host : Host) (P : Outcome RegistryFault ConnectionRecord × SystemRegistry → Type ℓ)
    (disks : Readings) (now id candidate : Text) (reg : SystemRegistry)
    → ((e : RegistryFault) → P (err e, reg))
    → ((r : ConnectionRecord) (approved : ApprovedBinding)
        → lookup id reg.by_id ≡ some r
        → P (bind (rebound_record r approved now) (release id r.root reg)))
    → P (rebind host disks now id candidate reg)
unfolding rebind
rebind-cases host P disks now id candidate reg early bound =
    attempt-cases P (find_system id reg) reg _ early λ r found.
      attempt-cases P (validate_binding_candidate host disks candidate) reg _ early
        λ approved checked.
          attempt-cases P (assert_no_overlap host approved.root (some id) reg) reg _ early
            λ u passed. bound r approved (find_system_sound id reg r found)

pub unregister-cases {ℓ} :
    (P : Bool × SystemRegistry → Type ℓ) (id : Text) (reg : SystemRegistry)
    → (lookup id reg.by_id ≡ none → P (false, reg))
    → ((r : ConnectionRecord)
        → lookup id reg.by_id ≡ some r
        → P (
          true,
          release id r.root (record reg {
            by_id = remove id reg.by_id;
            binding_generations = remove id reg.binding_generations;
          }),
        ))
    → P (unregister id reg)
unfolding unregister
unregister-cases P id reg unknown known = elim (Option-cases (lookup id reg.by_id)) [
  | inl none_ ↦ rw (unregister, none_) (unknown none_)
  | inr (r, there) ↦ rw (unregister, there) (known r there)
]
