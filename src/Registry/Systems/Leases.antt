-- ===== src/Registry/Systems/Leases.antt =====
-- The generations of `bindingGeneration`, by which the gateway knows a lease that is stale.
use ai_verse_dashboard.Base.{
  ℕ, ◌+◌, ◌≤◌, ◌<◌, ◌≡◌, ◌≢◌, refl, ap, ◌∙◌, subst, inl, inr, ◌⊎◌, true, Option, none, some, List,
  [], ◌∷◌, Outcome, ok, arith, leb, Bool-cases, ◌>>=◌, attempt-cases,
}
use ai_verse_dashboard.Base.Text.{Text}
use ai_verse_dashboard.Base.Map.{Map, lookup, insert, remove, insert-cases, remove-cases}
use ai_verse_dashboard.Registry.Compatibility.{RegistryFault, Disk, Host}
use ai_verse_dashboard.Registry.Systems.{
  bind, release, rebind, unregister, revalidate, mark_identity_drift, choose_id, new_record,
  rebound_record, binding_generation, generation_or_zero, find_system, is_bound,
}
use ai_verse_dashboard.Registry.Bindings.{ConnectionRecord, SystemRegistry, max_safe_integer}
use ai_verse_dashboard.Registry.Systems.Cases.{
  resolve_root-cases, register-cases, rebind-cases, unregister-cases,
}
use ai_verse_dashboard.Registry.Systems.Calls.{Call, run, run_all, run_all-IsWellFormed}
use ai_verse_dashboard.Registry.Systems.Roots.{IsWellFormed}

-- What holds of the serial number and the generations, and survives a new generation and the loss
-- of one, holds in every history.
module _ {ℓ} (host : Host) (Q : ℕ → Map ℕ → Type ℓ)
    (bump : (id : Text) (n : ℕ) (m : Map ℕ) → Q n m → Q (n + 1) (insert id (n + 1) m))
    (forget : (id : Text) (n : ℕ) (m : Map ℕ) → Q n m → Q n (remove id m)) where
  abbrev Holds : SystemRegistry → Type ℓ
  Holds reg = Q reg.binding_serial reg.binding_generations

  bind-Holds : (r : ConnectionRecord) (reg : SystemRegistry) → Holds reg → Holds (bind r reg).1
  unfolding bind
  bind-Holds r reg holds = elim (Bool-cases (leb (reg.binding_serial + 1) max_safe_integer)) [
    | inl e ↦ rw (bind, e) (bump r.system_id reg.binding_serial reg.binding_generations holds)
    | inr e ↦ rw (bind, e) holds
  ]

  choose_id-Holds :
      (id : Option Text) (reg : SystemRegistry) → Holds reg → Holds (choose_id id reg).1
  unfolding choose_id
  choose_id-Holds none reg holds = holds
  choose_id-Holds (some id) reg holds = holds

  revalidate-Holds :
      (bound probed : Disk) (now id : Text) (reg : SystemRegistry)
      → Holds reg
      → Holds (revalidate host bound probed now id reg).1
  unfolding revalidate mark_identity_drift
  revalidate-Holds bound probed now id reg holds =
      attempt-cases (λ x. Holds x.1) (find_system id reg) reg _ (λ e. holds)
        λ r found. elim (Bool-cases r.identity_drifted) [
          | inl e ↦ rw e holds
          | inr e ↦ elim (Bool-cases (is_bound bound r)) [
            | inl e' ↦ rw (e, e') holds
            | inr e' ↦ rw (e, e') holds
          ]
        ]

  run-Holds : (call : Call) (reg : SystemRegistry) → Holds reg → Holds (run host call reg)
  unfolding run release mark_identity_drift
  run-Holds (Call.registers disks now candidate id label) reg holds =
      let chosen = choose_id-Holds id reg holds in
      register-cases host (λ x. Holds x.1) disks now candidate id label reg (λ e. holds)
        (λ e. chosen)
        (λ new approved fresh.
          bind-Holds (new_record new label approved now) (choose_id id reg).1 chosen)
  run-Holds (Call.rebinds disks now id candidate) reg holds =
      rebind-cases host (λ x. Holds x.1) disks now id candidate reg (λ e. holds)
        (λ r approved found.
          bind-Holds (rebound_record r approved now) (release id r.root reg) holds)
  run-Holds (Call.unregisters id) reg holds =
      unregister-cases (λ x. Holds x.1) id reg (λ e. holds)
        (λ r there. forget id reg.binding_serial reg.binding_generations holds)
  run-Holds (Call.resolves disk now id) reg holds =
      resolve_root-cases (λ x. Holds x.1) disk now id reg (λ e. holds) (λ r f a. holds)
        (λ r f a b. holds) (λ r f a b. holds)
  run-Holds (Call.revalidates bound probed now id) reg holds =
      revalidate-Holds bound probed now id reg holds

  run_all-Holds :
      (calls : List Call) (reg : SystemRegistry) → Holds reg → Holds (run_all host calls reg)
  unfolding run_all
  run_all-Holds [] reg holds = holds
  run_all-Holds (call ∷ calls) reg holds =
      run_all-Holds calls (run host call reg) (run-Holds call reg holds)

-- No generation is above the serial number.
abbrev Counted : ℕ → Map ℕ → Type 0
Counted serial m = (id : Text) (n : ℕ) → lookup id m ≡ some n → n ≤ serial

abbrev pub IsCounted : SystemRegistry → Type 0
IsCounted reg = Counted reg.binding_serial reg.binding_generations

-- The serial number is not below `low`, and the generation of the system, if any, is above.
abbrev Renewed : Text → ℕ → ℕ → Map ℕ → Type 0
Renewed id low serial m = (low ≤ serial) × ((n : ℕ) → lookup id m ≡ some n → low < n)

Counted-bump : (id : Text) (n : ℕ) (m : Map ℕ) → Counted n m → Counted (n + 1) (insert id (n + 1) m)
Counted-bump id n m counted j k found = elim (insert-cases id j (n + 1) k m found) [
  | inl (same, it) ↦ omega arith
  | inr (ne, old) ↦ omega (arith, counted j k old)
]

Counted-forget : (id : Text) (n : ℕ) (m : Map ℕ) → Counted n m → Counted n (remove id m)
Counted-forget id n m counted j k found = counted j k (remove-cases id j k m found).1

-- In every history the generations stay within the serial number.
pub run_all-IsCounted :
    (host : Host) (calls : List Call) (reg : SystemRegistry)
    → IsCounted reg
    → IsCounted (run_all host calls reg)
run_all-IsCounted host calls reg counted =
    run_all-Holds host Counted Counted-bump Counted-forget calls reg counted

serial_grows :
    (host : Host) (calls : List Call) (reg : SystemRegistry)
    → reg.binding_serial ≤ (run_all host calls reg).binding_serial
serial_grows host calls reg =
    run_all-Holds host (λ n m. reg.binding_serial ≤ n) (λ id n m h. omega arith) (λ id n m h. h)
      calls reg (omega arith)

Renewed-bump :
    (own : Text) (low : ℕ) (id : Text) (n : ℕ) (m : Map ℕ)
    → Renewed own low n m
    → Renewed own low (n + 1) (insert id (n + 1) m)
Renewed-bump own low id n m (above, renewed) = (
  omega arith,
  λ k found. elim (insert-cases id own (n + 1) k m found) [
    | inl (same, it) ↦ omega arith
    | inr (ne, old) ↦ renewed k old
  ],
)

-- The call approves a root for the system anew, or forgets the system.
abbrev pub Renews : Host → Text → Call → SystemRegistry → Type 0
Renews host id (Call.rebinds disks now id' candidate) reg =
    (r : ConnectionRecord) × (id' ≡ id) × ((rebind host disks now id' candidate reg).0 ≡ ok r)
Renews host id (Call.unregisters id') reg = (id' ≡ id) × ((unregister id' reg).0 ≡ true)
Renews host id _ reg = ⊥

bind-Renewed :
    (s : ConnectionRecord) (reg : SystemRegistry) (r : ConnectionRecord)
    → IsCounted reg
    → (bind s reg).0 ≡ ok r
    → Renewed s.system_id reg.binding_serial
        (bind s reg).1.binding_serial
        (bind s reg).1.binding_generations
unfolding bind
bind-Renewed s reg r counted = elim (Bool-cases (leb (reg.binding_serial + 1) max_safe_integer)) [
  | inl e ↦
      rw (bind, e)
        (λ h. (
          omega arith,
          λ k found.
              elim (insert-cases s.system_id s.system_id (reg.binding_serial + 1) k
                reg.binding_generations found) [
                  | inl (same, it) ↦ omega arith
                  | inr (ne, old) ↦ absurd (ne refl)
                ],
        ))
  | inr e ↦ rw (bind, e) (λ h. absurd (cc h))
]

run-Renewed :
    (host : Host) (id : Text) (call : Call) (reg : SystemRegistry)
    → IsWellFormed host reg
    → IsCounted reg
    → Renews host id call reg
    → Renewed id reg.binding_serial
        (run host call reg).binding_serial
        (run host call reg).binding_generations
unfolding run release rebound_record
run-Renewed host id (Call.rebinds disks now id' candidate) reg agree counted (r, same, done) =
    rebind-cases host
      (λ x. x.0 ≡ ok r → Renewed id reg.binding_serial x.1.binding_serial x.1.binding_generations)
      disks now id' candidate reg (λ e h. absurd (cc h))
      (λ old approved found h.
        let own : old.system_id ≡ id = agree.keyed id' old found ∙ same in
        subst
          (λ k.
            Renewed k reg.binding_serial
              (bind (rebound_record old approved now) (release id' old.root reg)).1.binding_serial
              (bind (rebound_record old approved now)
                (release id' old.root reg)).1.binding_generations)
          own
          (bind-Renewed (rebound_record old approved now) (release id' old.root reg) r counted h))
      done
run-Renewed host id (Call.unregisters id') reg agree counted (same, done) =
    unregister-cases
      (λ x. x.0 ≡ true → Renewed id reg.binding_serial x.1.binding_serial x.1.binding_generations)
      id' reg (λ e h. absurd (cc h))
      (λ r there h. (
        omega arith,
        λ k found. absurd ((remove-cases id' id k reg.binding_generations found).0 same),
      ))
      done
run-Renewed host id (Call.registers disks now candidate id' label) reg agree counted h = absurd h
run-Renewed host id (Call.resolves disk now id') reg agree counted h = absurd h
run-Renewed host id (Call.revalidates bound probed now id') reg agree counted h = absurd h

-- The generation that is told is the one kept, or 0.
told :
    (disk : Disk) (now id : Text) (reg : SystemRegistry) (g : ℕ)
    → (binding_generation disk now id reg).0 ≡ ok g
    → (lookup id reg.binding_generations ≡ some g) ⊎ (g ≡ 0)
unfolding binding_generation mark_identity_drift
told disk now id reg g =
    resolve_root-cases
      (λ x.
        (x.0 >>= λ _. ok (generation_or_zero (lookup id x.1.binding_generations))) ≡ ok g
        → (lookup id reg.binding_generations ≡ some g) ⊎ (g ≡ 0))
      disk now id reg (λ e h. absurd (cc h)) (λ r f a h. absurd (cc h))
      (λ r f a b h. or_zero (lookup id reg.binding_generations) h) (λ r f a b h. absurd (cc h))
  where
    or_zero :
        (o : Option ℕ)
        → ◌≡◌ {A = Outcome RegistryFault ℕ} (ok (generation_or_zero o)) (ok g)
        → (o ≡ some g) ⊎ (g ≡ 0)
    or_zero none h = inr (cc)
    or_zero (some n) h = let same : n ≡ g = cc in inl (ap some same)

-- A lease does not come back. In a well-formed registry whose generations are within its serial
-- number, a generation above 0 that was told for a system is told no more in any history in
-- which the system was since bound anew or forgotten with success, whatever else was called
-- before and after that.
pub lease_is_spent :
    (host : Host) (disk : Disk) (now id : Text) (reg : SystemRegistry) (g : ℕ) (before : List Call)
    (call : Call) (after : List Call) (later : Disk) (then_ : Text) (g' : ℕ)
    → IsWellFormed host reg
    → IsCounted reg
    → (binding_generation disk now id reg).0 ≡ ok g
    → 0 < g
    → Renews host id call (run_all host before reg)
    → (binding_generation later then_ id
        (run_all host after (run host call (run_all host before reg)))).0
      ≡ ok g'
    → g ≢ g'
lease_is_spent host disk now id reg g before call after later then_ g' agree counted had positive
      renews has_ =
    let mid = run_all host before reg in
    let (above, renewed) =
      run_all-Holds host (Renewed id mid.binding_serial) (Renewed-bump id mid.binding_serial)
        (λ i n m h. (h.0, λ k found. h.1 k (remove-cases i id k m found).1)) after
        (run host call mid)
        (run-Renewed host id call mid (run_all-IsWellFormed host before reg agree)
          (run_all-IsCounted host before reg counted) renews) in
    let low = serial_grows host before reg in
    λ same. elim (told disk now id reg g had) [
      | inr zero_ ↦ omega arith
      | inl kept ↦ elim (told later then_ id (run_all host after (run host call mid)) g' has_) [
        | inr zero_ ↦ omega arith
        | inl kept' ↦ omega (arith, counted id g kept, renewed g' kept')
      ]
    ]
