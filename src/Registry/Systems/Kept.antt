-- ===== src/Registry/Systems/Kept.antt =====
-- Every method of `SystemRegistry` keeps ids and roots in agreement and the roots apart.
use ai_verse_dashboard.Base.{
  ◌≡◌, ◌≢◌, refl, sym, subst, ap, ◌∙◌, inl, inr, false, not, Option, none, some, Outcome, ok, arith,
  leb, Bool-cases, Option-cases, check, ◌>>=◌, check-ok, bind-ok, attempt-cases, ◌+◌, ◌>>◌,
}
use ai_verse_dashboard.Base.Text.{Text, ===_refl, ===_ne}
use ai_verse_dashboard.Base.Map.{lookup, remove, has, lookup-remove_ne, remove-cases, has-lookup}
use ai_verse_dashboard.Registry.Compatibility.{RegistryFault, Disk, Host}
use ai_verse_dashboard.Registry.Systems.{
  bind, release, register, rebind, unregister, resolve_root, revalidate, find_system,
  mark_identity_drift, assert_root_binding, is_bound, choose_id, new_record, rebound_record,
}
use ai_verse_dashboard.Registry.Bindings.{
  ConnectionRecord, SystemRegistry, Readings, ApprovedBinding, is_own, assert_no_overlap,
  validate_binding_candidate, max_safe_integer,
}
use ai_verse_dashboard.Registry.Systems.Roots.{
  Agree, IsReady, IsWellFormed, bind-Agree, replace-Agree, assert_no_overlap_sound,
}

pub find_system_sound :
    (id : Text) (reg : SystemRegistry) (r : ConnectionRecord)
    → find_system id reg ≡ ok r
    → lookup id reg.by_id ≡ some r
unfolding find_system
find_system_sound id reg r h = ground arith

is_own_ne : (own id : Text) → own ≢ id → is_own (some own) id ≡ false
unfolding is_own
is_own_ne own id ne = ===_ne own id ne

module _ (host : Host) where
  abbrev pub Keeps : {A : Type 0} → Outcome RegistryFault A × SystemRegistry → Type 0
  Keeps x = IsWellFormed host x.1

  bind-IsWellFormed :
      (r : ConnectionRecord) (reg : SystemRegistry)
      → IsReady host r reg.by_id reg.by_root
      → IsWellFormed host (bind r reg).1
  unfolding bind
  bind-IsWellFormed r reg ready =
      let agree = bind-Agree host r reg.by_id reg.by_root ready in
      elim (Bool-cases (leb (reg.binding_serial + 1) max_safe_integer)) [
        | inl e ↦ rw e agree
        | inr e ↦ rw e agree
      ]

  -- Behind `release` the root is in nobody's hands, the other roots are where they were.
  release-by_root :
      (id : Text) (r : ConnectionRecord) (reg : SystemRegistry)
      → lookup id reg.by_id ≡ some r
      → IsWellFormed host reg
      → (release id r.root reg).by_root ≡ remove r.root reg.by_root
  unfolding release is_own
  release-by_root id r reg found agree = rw (agree.located id r found, ===_refl id) refl

  -- Who holds another root is not the owner of the released one.
  released-ne :
      (id : Text) (r : ConnectionRecord) (reg : SystemRegistry)
      → lookup id reg.by_id ≡ some r
      → IsWellFormed host reg
      → (root id' : Text) → r.root ≢ root
      → lookup root reg.by_root ≡ some id'
      → id ≢ id'
  released-ne id r reg found agree root id' ne held same =
      let (s, found', at_root) = agree.owned root id' held in
      let it : some r ≡ some s = sym found ∙ ap (λ k. lookup k reg.by_id) same ∙ found' in ne (cc)

  rebind-IsReady :
      (id : Text) (r : ConnectionRecord) (reg : SystemRegistry) (approved : ApprovedBinding)
      (now : Text) (u : Unit {0})
      → lookup id reg.by_id ≡ some r
      → IsWellFormed host reg
      → assert_no_overlap host approved.root (some id) reg ≡ ok u
      → IsReady host (rebound_record r approved now) reg.by_id (remove r.root reg.by_root)
  unfolding rebound_record
  rebind-IsReady id r reg approved now u found agree passed =
      let own = agree.keyed id r found in
      record {
        keyed = agree.keyed;
        located = λ j s other there.
            let at_root = agree.located j s there in
            lookup-remove_ne r.root s.root reg.by_root (λ same.
              other
                (cc (at_root, ap (λ t. lookup t reg.by_root) same, agree.located id r found, own)))
            ∙ at_root;
        owned = λ root j held.
            let (ne, before) = remove-cases r.root root j reg.by_root held in
            let theirs = released-ne id r reg found agree root j ne before in
            let (s, found_s, at_root) = agree.owned root j before in
            (λ same. theirs (sym own ∙ sym same), s, found_s, at_root);
        apart = λ root root' j j' held held' ne.
            agree.apart root root' j j' (remove-cases r.root root j reg.by_root held).1
              (remove-cases r.root root' j' reg.by_root held').1 ne;
        free = λ root j held.
            let (ne, before) = remove-cases r.root root j reg.by_root held in
            let theirs = released-ne id r reg found agree root j ne before in
            assert_no_overlap_sound host approved.root (some id) reg u passed root j before
              (is_own_ne id j theirs);
      }

  -- An explicit rebind keeps the registry well-formed, whether it succeeds or throws.
  pub rebind-IsWellFormed :
      (disks : Readings) (now id candidate : Text) (reg : SystemRegistry)
      → IsWellFormed host reg
      → IsWellFormed host (rebind host disks now id candidate reg).1
  unfolding rebind release
  rebind-IsWellFormed disks now id candidate reg agree =
      attempt-cases Keeps (find_system id reg) reg _ (λ e. agree)
        λ r found.
          attempt-cases Keeps (validate_binding_candidate host disks candidate) reg _ (λ e. agree)
            λ approved checked.
              attempt-cases Keeps (assert_no_overlap host approved.root (some id) reg) reg _
                (λ e. agree)
                λ u passed.
                  let there = find_system_sound id reg r found in
                  bind-IsWellFormed (rebound_record r approved now) (release id r.root reg) (
                    rw (release-by_root id r reg there agree)
                      (rebind-IsReady id r reg approved now u there agree passed))

  register-IsReady :
      (id : Text) (label : Option Text) (reg : SystemRegistry) (approved : ApprovedBinding)
      (now : Text) (u : Unit {0})
      → lookup id reg.by_id ≡ none
      → IsWellFormed host reg
      → assert_no_overlap host approved.root none reg ≡ ok u
      → IsReady host (new_record id label approved now) reg.by_id reg.by_root
  unfolding new_record is_own
  register-IsReady id label reg approved now u fresh agree passed = record {
    keyed = agree.keyed;
    located = λ j s other there. agree.located j s there;
    owned = λ root j held.
        let (s, found_s, at_root) = agree.owned root j held in
        (λ same. cc (found_s, fresh), s, found_s, at_root);
    apart = agree.apart;
    free = λ root j held.
        assert_no_overlap_sound host approved.root none reg u passed root j held refl;
  }

  choose_id-by_id :
      (id : Option Text) (reg : SystemRegistry) → (choose_id id reg).1.by_id ≡ reg.by_id
  unfolding choose_id
  choose_id-by_id none reg = refl
  choose_id-by_id (some id) reg = refl

  choose_id-by_root :
      (id : Option Text) (reg : SystemRegistry) → (choose_id id reg).1.by_root ≡ reg.by_root
  unfolding choose_id
  choose_id-by_root none reg = refl
  choose_id-by_root (some id) reg = refl

  assert_no_overlap_at :
      (root : Text) (own : Option Text) (r : SystemRegistry) (u : Unit {0})
      → assert_no_overlap host root own r ≡ ok u
      → (r' : SystemRegistry) → r'.by_root ≡ r.by_root
      → assert_no_overlap host root own r' ≡ ok u
  unfolding assert_no_overlap
  assert_no_overlap_at root own r u h r' same = rw same h

  -- Registering keeps the registry well-formed, whether it succeeds or throws.
  pub register-IsWellFormed :
      (disks : Readings) (now candidate : Text) (system_id label : Option Text)
      (reg : SystemRegistry)
      → IsWellFormed host reg
      → IsWellFormed host (register host disks now candidate system_id label reg).1
  unfolding register
  register-IsWellFormed disks now candidate system_id label reg agree =
      let reg' = (choose_id system_id reg).1 in
      let kept : IsWellFormed host reg' =
        rw (choose_id-by_id system_id reg, choose_id-by_root system_id reg) agree in
      attempt-cases Keeps (validate_binding_candidate host disks candidate) reg _ (λ e. agree)
        λ approved checked.
          attempt-cases Keeps (assert_no_overlap host approved.root none reg) reg _ (λ e. agree)
            λ u passed.
              attempt-cases Keeps (choose_id system_id reg).0 reg' _ (λ e. kept)
                λ id chosen.
                  attempt-cases Keeps
                    (check (not (has id reg'.by_id)) RegistryFault.system_duplicate) reg' _
                    (λ e. kept)
                    λ v new.
                      let fresh = has-lookup id reg'.by_id (ground (arith, check-ok _ _ v new)) in
                      bind-IsWellFormed (new_record id label approved now) reg' (
                        register-IsReady id label reg' approved now u fresh kept (
                          assert_no_overlap_at approved.root none reg u passed reg'
                            (choose_id-by_root system_id reg)))

  release-by_root' :
      (id : Text) (reg : SystemRegistry) (r : ConnectionRecord)
      → IsWellFormed host reg
      → lookup id reg.by_id ≡ some r
      → (release id r.root (record reg {
        by_id = remove id reg.by_id;
        binding_generations = remove id reg.binding_generations;
      })).by_root
        ≡ remove r.root reg.by_root
  unfolding release is_own
  release-by_root' id reg r agree found = rw (agree.located id r found, ===_refl id) refl

  -- Forgetting a system frees its root and no other.
  pub unregister-IsWellFormed :
      (id : Text) (reg : SystemRegistry)
      → IsWellFormed host reg
      → IsWellFormed host (unregister id reg).1
  unfolding unregister
  unregister-IsWellFormed id reg agree = elim (Option-cases (lookup id reg.by_id)) [
    | inl none_ ↦ rw (unregister, none_) agree
    | inr (r, found) ↦
        rw (unregister, found)
          (subst (Agree host (remove id reg.by_id)) (sym (release-by_root' id reg r agree found))
            (record {
              keyed = λ j s there. agree.keyed j s (remove-cases id j s reg.by_id there).1;
              located = λ j s there.
                  let (ne, before) = remove-cases id j s reg.by_id there in
                  let at_root = agree.located j s before in
                  lookup-remove_ne r.root s.root reg.by_root (λ same.
                    ne
                      (cc (at_root, ap (λ t. lookup t reg.by_root) same, agree.located id r found)))
                  ∙ at_root;
              owned = λ root j held.
                  let (ne, before) = remove-cases r.root root j reg.by_root held in
                  let (s, there, at_root) = agree.owned root j before in
                  (
                    s,
                    lookup-remove_ne id j reg.by_id
                          (released-ne id r reg found agree root j ne before)
                        ∙ there,
                    at_root,
                  );
              apart = λ root root' j j' held held' ne.
                  agree.apart root root' j j' (remove-cases r.root root j reg.by_root held).1
                    (remove-cases r.root root' j' reg.by_root held').1 ne;
            }))
  ]

  mark-IsWellFormed :
      (r : ConnectionRecord) (id now : Text) (reg : SystemRegistry)
      → lookup id reg.by_id ≡ some r
      → IsWellFormed host reg
      → IsWellFormed host (mark_identity_drift r now reg)
  unfolding mark_identity_drift
  mark-IsWellFormed r id now reg found agree =
      let own = agree.keyed id r found in
      replace-Agree host r _ r.system_id reg.by_id reg.by_root
        (subst (λ k. lookup k reg.by_id ≡ some r) (sym own) found) refl refl agree

  -- Resolving a root keeps the registry well-formed, also when it marks a drift and throws.
  pub resolve_root-IsWellFormed :
      (disk : Disk) (now id : Text) (reg : SystemRegistry)
      → IsWellFormed host reg
      → IsWellFormed host (resolve_root disk now id reg).1
  unfolding resolve_root assert_root_binding
  resolve_root-IsWellFormed disk now id reg agree =
      attempt-cases Keeps
        (find_system id reg >>= λ r. check r.authorized RegistryFault.system_unauthorized >> ok r)
        reg _ (λ e. agree)
        λ r chosen.
          let (s, found, granted) =
            bind-ok (find_system id reg)
              (λ r. check r.authorized RegistryFault.system_unauthorized >> ok r) r chosen in
          let (u, allowed, same) =
            bind-ok (check s.authorized RegistryFault.system_unauthorized) (λ _. ok s) r granted in
          let it : s ≡ r = cc in
          let there = find_system_sound id reg r (rw (← it) found) in
          elim (Bool-cases (is_bound disk r)) [
            | inl e ↦ rw e agree
            | inr e ↦ rw e (mark-IsWellFormed r id now reg there agree)
          ]

  -- Validating again keeps the registry well-formed.
  pub revalidate-IsWellFormed :
      (bound probed : Disk) (now id : Text) (reg : SystemRegistry)
      → IsWellFormed host reg
      → IsWellFormed host (revalidate host bound probed now id reg).1
  unfolding revalidate
  revalidate-IsWellFormed bound probed now id reg agree =
      attempt-cases Keeps (find_system id reg) reg _ (λ e. agree)
        λ r chosen.
          let there = find_system_sound id reg r chosen in
          elim (Bool-cases r.identity_drifted) [
            | inl e ↦ rw e agree
            | inr e ↦ elim (Bool-cases (is_bound bound r)) [
              | inl e' ↦
                  rw (e, e') (replace-Agree host r _ id reg.by_id reg.by_root there refl refl agree)
              | inr e' ↦ rw (e, e') (mark-IsWellFormed r id now reg there agree)
            ]
          ]
