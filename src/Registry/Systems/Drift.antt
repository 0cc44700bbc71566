-- ===== src/Registry/Systems/Drift.antt =====
-- When a root resolves, and what becomes of a system whose root was exchanged.
use ai_verse_dashboard.Base.{
  ◌≡◌, ◌≢◌, refl, sym, ap, ◌∙◌, subst, inl, inr, true, false, Option, none, some, List, [], ◌∷◌,
  Outcome, ok, err, arith, leb, Bool-cases, attempt-cases, ◌+◌, All,
}
use ai_verse_dashboard.Base.Text.{Text, ◌===◌, ===_sound, ===_iff}
use ai_verse_dashboard.Base.Map.{lookup, lookup-insert_ne, lookup-insert_same, lookup-remove_ne}
use ai_verse_dashboard.Registry.Compatibility.{
  RegistryFault, RootIdentity, Disk, Host, capture_root_identity, same_root_identity,
}
use ai_verse_dashboard.Registry.Systems.{
  bind, release, resolve_root, revalidate, find_system, mark_identity_drift, is_bound, choose_id,
  new_record, rebound_record,
}
use ai_verse_dashboard.Registry.Bindings.{ConnectionRecord, SystemRegistry, max_safe_integer}
use ai_verse_dashboard.Registry.Systems.Roots.{IsWellFormed}
use ai_verse_dashboard.Registry.Systems.Kept.{find_system_sound}
use ai_verse_dashboard.Registry.Systems.Cases.{
  find_system-some, resolve_root-cases, register-cases, rebind-cases, unregister-cases,
}
use ai_verse_dashboard.Registry.Systems.Calls.{Call, run, run_all, Spares, run-IsWellFormed}

same_root_identity_sound : (a b : RootIdentity) → same_root_identity a b ≡ true → a ≡ b
unfolding same_root_identity
same_root_identity_sound a b h =
    let p = ===_sound a.realpath b.realpath (ground arith) in
    let q = ===_sound a.device b.device (ground arith) in
    let r = ===_sound a.inode b.inode (ground arith) in
    let s = ===_sound a.birthtime_ns b.birthtime_ns (ground arith) in
    λ i. record { realpath = p i; device = q i; inode = r i; birthtime_ns = s i }

is_bound_sound :
    (disk : Disk) (r : ConnectionRecord)
    → is_bound disk r ≡ true
    → capture_root_identity disk r.root ≡ ok r.root_identity
unfolding is_bound
is_bound_sound disk r h = captured (capture_root_identity disk r.root) h
  where
    captured :
        (o : Outcome RegistryFault RootIdentity)
        → (elim o [ err e ↦ false | ok c ↦ same_root_identity r.root_identity c ]) ≡ true
        → o ≡ ok r.root_identity
    captured (err e) h = absurd (cc h)
    captured (ok c) h = ap ok (sym (same_root_identity_sound r.root_identity c h))

-- A root that resolves is the approved root of the system, which is authorized, and the directory
-- that the disk has there is the one that was approved; nothing changes.
pub resolve_root_sound :
    (disk : Disk) (now id root : Text) (reg : SystemRegistry)
    → (resolve_root disk now id reg).0 ≡ ok root
    → (r : ConnectionRecord) × (lookup id reg.by_id ≡ some r)
      × (r.authorized ≡ true)
      × (r.root ≡ root)
      × (capture_root_identity disk root ≡ ok r.root_identity)
      × ((resolve_root disk now id reg).1 ≡ reg)
resolve_root_sound disk now id root reg =
    resolve_root-cases
      (λ x.
        x.0 ≡ ok root
        → (r : ConnectionRecord) × (lookup id reg.by_id ≡ some r)
          × (r.authorized ≡ true)
          × (r.root ≡ root)
          × (capture_root_identity disk root ≡ ok r.root_identity)
          × (x.1 ≡ reg))
      disk now id reg (λ e h. absurd (cc h)) (λ r found cannot h. absurd (cc h))
      (λ r found can same h.
        let at_root : r.root ≡ root = cc h in
        (
          r,
          found,
          can,
          at_root,
          subst (λ t. capture_root_identity disk t ≡ ok r.root_identity) at_root
              (is_bound_sound disk r same),
          refl,
        ))
      (λ r found can other h. absurd (cc h))

-- The system is known, marked as drifted and not authorized.
abbrev pub IsDrifted : Text → SystemRegistry → Type 0
IsDrifted id reg =
    (r : ConnectionRecord) × (lookup id reg.by_id ≡ some r)
    × (r.identity_drifted ≡ true)
    × (r.authorized ≡ false)

mark-IsDrifted :
    (r : ConnectionRecord) (now : Text) (reg : SystemRegistry)
    → IsDrifted r.system_id (mark_identity_drift r now reg)
unfolding mark_identity_drift
mark-IsDrifted r now reg = (_, lookup-insert_same r.system_id _ reg.by_id, refl, refl)

mark-IsDrifted_ne :
    (r : ConnectionRecord) (now id : Text) (reg : SystemRegistry)
    → r.system_id ≢ id
    → IsDrifted id reg
    → IsDrifted id (mark_identity_drift r now reg)
unfolding mark_identity_drift
mark-IsDrifted_ne r now id reg ne (s, found, d, a) =
    (s, lookup-insert_ne r.system_id id _ reg.by_id ne ∙ found, d, a)

-- Whoever is marked, a drifted system stays drifted.
mark-IsDrifted_any :
    (host : Host) (r : ConnectionRecord) (now id id' : Text) (reg : SystemRegistry)
    → IsWellFormed host reg
    → lookup id' reg.by_id ≡ some r
    → IsDrifted id reg
    → IsDrifted id (mark_identity_drift r now reg)
mark-IsDrifted_any host r now id id' reg agree found drifted =
    elim (Bool-cases (r.system_id === id)) [
      | inl e ↦
          subst (λ k. IsDrifted k (mark_identity_drift r now reg)) (===_sound r.system_id id e)
            (mark-IsDrifted r now reg)
      | inr e ↦
          mark-IsDrifted_ne r now id reg (λ same. ground (arith, ===_iff r.system_id id)) drifted
    ]

bind-IsDrifted :
    (r : ConnectionRecord) (id : Text) (reg : SystemRegistry)
    → r.system_id ≢ id
    → IsDrifted id reg
    → IsDrifted id (bind r reg).1
unfolding bind
bind-IsDrifted r id reg ne (s, found, d, a) =
    let kept = lookup-insert_ne r.system_id id r reg.by_id ne ∙ found in
    elim (Bool-cases (leb (reg.binding_serial + 1) max_safe_integer)) [
      | inl e ↦ rw (bind, e) (s, kept, d, a)
      | inr e ↦ rw (bind, e) (s, kept, d, a)
    ]

chosen-by_id : (id : Option Text) (reg : SystemRegistry) → (choose_id id reg).1.by_id ≡ reg.by_id
unfolding choose_id
chosen-by_id none reg = refl
chosen-by_id (some id) reg = refl

-- A drifted system is answered without a look at the disk; another one changes its own record.
revalidate-IsDrifted :
    (host : Host) (id : Text) (bound probed : Disk) (now id' : Text) (reg : SystemRegistry)
    → IsWellFormed host reg
    → IsDrifted id reg
    → IsDrifted id (revalidate host bound probed now id' reg).1
unfolding revalidate
revalidate-IsDrifted host id bound probed now id' reg agree (s, found, d, a) =
    attempt-cases (λ x. IsDrifted id x.1) (find_system id' reg) reg _ (λ e. (s, found, d, a))
      λ r chosen.
        let there = find_system_sound id' reg r chosen in
        elim (Bool-cases r.identity_drifted) [
          | inl e ↦ rw e (s, found, d, a)
          | inr e ↦
              let other : id' ≢ id = λ same.
                let it : some r ≡ some s = sym there ∙ ap (λ k. lookup k reg.by_id) same ∙ found in
                let one : r ≡ s = cc in
                cc (e, d, ap (λ (t : ConnectionRecord). t.identity_drifted) one) in
              elim (Bool-cases (is_bound bound r)) [
                | inl e' ↦ rw (e, e') (s, lookup-insert_ne id' id _ reg.by_id other ∙ found, d, a)
                | inr e' ↦
                    rw (e, e')
                      (mark-IsDrifted_any host r now id id' reg agree there (s, found, d, a))
              ]
        ]

run-IsDrifted :
    (host : Host) (id : Text) (call : Call) (reg : SystemRegistry)
    → IsWellFormed host reg
    → Spares id call
    → IsDrifted id reg
    → IsDrifted id (run host call reg)
unfolding run new_record rebound_record release
run-IsDrifted host id (Call.registers disks now candidate id' label) reg agree spares drifted =
    let (s, found, d, a) = drifted in
    let kept : IsDrifted id (choose_id id' reg).1 =
      (s, ap (lookup id) (chosen-by_id id' reg) ∙ found, d, a) in
    register-cases host (λ x. IsDrifted id x.1) disks now candidate id' label reg (λ e. drifted)
      (λ e. kept)
      (λ new approved fresh.
        bind-IsDrifted (new_record new label approved now) id (choose_id id' reg).1
          (λ same. cc (kept.1, fresh)) kept)
run-IsDrifted host id (Call.rebinds disks now id' candidate) reg agree spares drifted =
    rebind-cases host (λ x. IsDrifted id x.1) disks now id' candidate reg (λ e. drifted)
      (λ r approved found.
        bind-IsDrifted (rebound_record r approved now) id (release id' r.root reg)
          (λ same. spares (sym (agree.keyed id' r found) ∙ same)) drifted)
run-IsDrifted host id (Call.unregisters id') reg agree spares (s, found, d, a) =
    unregister-cases (λ x. IsDrifted id x.1) id' reg (λ e. (s, found, d, a))
      (λ r there. (s, lookup-remove_ne id' id reg.by_id spares ∙ found, d, a))
run-IsDrifted host id (Call.resolves disk now id') reg agree spares drifted =
    resolve_root-cases (λ x. IsDrifted id x.1) disk now id' reg (λ e. drifted)
      (λ r found cannot. drifted) (λ r found can same. drifted)
      (λ r found can other. mark-IsDrifted_any host r now id id' reg agree found drifted)
run-IsDrifted host id (Call.revalidates bound probed now id') reg agree spares drifted =
    revalidate-IsDrifted host id bound probed now id' reg agree drifted

run_all-IsDrifted :
    (host : Host) (id : Text) (calls : List Call) (reg : SystemRegistry)
    → IsWellFormed host reg
    → All (Spares id) calls
    → IsDrifted id reg
    → IsDrifted id (run_all host calls reg)
unfolding run_all
run_all-IsDrifted host id [] reg agree spares drifted = drifted
run_all-IsDrifted host id (call ∷ calls) reg agree spares drifted =
    run_all-IsDrifted host id calls (run host call reg) (run-IsWellFormed host call reg agree)
      spares.1 (run-IsDrifted host id call reg agree spares.0 drifted)

resolve_root_of_IsDrifted :
    (disk : Disk) (now id : Text) (reg : SystemRegistry)
    → IsDrifted id reg
    → resolve_root disk now id reg ≡ (err RegistryFault.system_unauthorized, reg)
unfolding resolve_root
resolve_root_of_IsDrifted disk now id reg (r, found, d, a) =
    rw (find_system-some id reg r found, a) refl

run-IsWellFormed_at :
    (host : Host) (disk : Disk) (now id : Text) (reg : SystemRegistry)
    → IsWellFormed host reg
    → IsWellFormed host (resolve_root disk now id reg).1
unfolding run
run-IsWellFormed_at host disk now id reg agree =
    run-IsWellFormed host (Call.resolves disk now id) reg agree

drifts :
    (host : Host) (disk : Disk) (now id : Text) (reg : SystemRegistry)
    → IsWellFormed host reg
    → (resolve_root disk now id reg).0 ≡ err RegistryFault.system_identity_drift
    → IsDrifted id (resolve_root disk now id reg).1
drifts host disk now id reg agree =
    resolve_root-cases (λ x. x.0 ≡ err RegistryFault.system_identity_drift → IsDrifted id x.1) disk
      now id reg (λ e h. absurd (cc h)) (λ r found cannot h. absurd (cc h))
      (λ r found can same h. absurd (cc h))
      (λ r found can other h.
        subst (λ k. IsDrifted k (mark_identity_drift r now reg)) (agree.keyed id r found)
          (mark-IsDrifted r now reg))

-- Once a well-formed registry has found the root of a system to be exchanged, the system does not
-- resolve: not in any later history of calls, on any disk, as long as no call rebinds the
-- system or forgets it.
pub drift_is_sticky :
    (host : Host) (disk : Disk) (now id : Text) (reg : SystemRegistry) (calls : List Call)
    (later : Disk) (then_ : Text)
    → IsWellFormed host reg
    → (resolve_root disk now id reg).0 ≡ err RegistryFault.system_identity_drift
    → All (Spares id) calls
    → (resolve_root later then_ id (run_all host calls (resolve_root disk now id reg).1)).0
      ≡ err RegistryFault.system_unauthorized
drift_is_sticky host disk now id reg calls later then_ agree h spares =
    ap (λ x. x.0)
      (resolve_root_of_IsDrifted later then_ id
        (run_all host calls (resolve_root disk now id reg).1)
        (run_all-IsDrifted host id calls (resolve_root disk now id reg).1
          (run-IsWellFormed_at host disk now id reg agree) spares
          (drifts host disk now id reg agree h)))
