-- ===== src/Registry/Systems/Roots.antt =====
-- Which roots the registry holds: ids and roots point at each other, and no approved root lies
-- within another.
use ai_verse_dashboard.Base.{
  ◌≡◌, ◌≢◌, sym, ap, ◌∙◌, inl, inr, false, not, Option, none, some, [], ◌∷◌, ok, arith, Bool-cases,
  All, check, bind-ok,
}
use ai_verse_dashboard.Base.Text.{Text, ◌===◌, ===_sound, ===_refl}
use ai_verse_dashboard.Base.Map.{
  Map, lookup, insert, lookup-insert_same, lookup-insert_ne, insert-cases, All-lookup,
}
use ai_verse_dashboard.Registry.Compatibility.{RegistryFault, Host}
use ai_verse_dashboard.Registry.Bindings.{
  ConnectionRecord, SystemRegistry, is_own, is_some_other, overlaps, no_overlap, assert_no_overlap,
}

module _ (host : Host) where
  -- Ids and roots agree, and two roots do not overlap.
  pub record Agree (ids : Map ConnectionRecord) (roots : Map Text) : Type 0 where
    pub keyed : (id : Text) (r : ConnectionRecord) → lookup id ids ≡ some r → r.system_id ≡ id
    pub located :
        (id : Text) (r : ConnectionRecord) → lookup id ids ≡ some r → lookup r.root roots ≡ some id
    pub owned :
        (root id : Text)
        → lookup root roots ≡ some id
        → (r : ConnectionRecord) × (lookup id ids ≡ some r) × (r.root ≡ root)
    pub apart :
        (root root' id id' : Text)
        → lookup root roots ≡ some id
        → lookup root' roots ≡ some id'
        → root ≢ root'
        → overlaps host root root' ≡ false

  abbrev pub IsWellFormed : SystemRegistry → Type 0
  IsWellFormed reg = Agree reg.by_id reg.by_root

  -- A registry that can take the record: nothing in it has the id or overlaps the root.
  pub record IsReady (r : ConnectionRecord) (ids : Map ConnectionRecord) (roots : Map Text)
      : Type 0 where
    pub keyed : (id : Text) (s : ConnectionRecord) → lookup id ids ≡ some s → s.system_id ≡ id
    pub located :
        (id : Text) (s : ConnectionRecord)
        → id ≢ r.system_id
        → lookup id ids ≡ some s
        → lookup s.root roots ≡ some id
    pub owned :
        (root id : Text)
        → lookup root roots ≡ some id
        → (id ≢ r.system_id) × (s : ConnectionRecord) × (lookup id ids ≡ some s) × (s.root ≡ root)
    pub apart :
        (root root' id id' : Text)
        → lookup root roots ≡ some id
        → lookup root' roots ≡ some id'
        → root ≢ root'
        → overlaps host root root' ≡ false
    pub free :
        (root id : Text)
        → lookup root roots ≡ some id
        → (root ≢ r.root) × (overlaps host r.root root ≡ false)

  overlaps_comm : (a b : Text) → overlaps host a b ≡ overlaps host b a
  unfolding overlaps
  overlaps_comm a b = ground arith

  no_overlap_sound :
      (root : Text) (own : Option Text) (roots : Map Text) (u : Unit {0})
      → no_overlap host root own roots ≡ ok u
      → All (λ e. is_own own e.1 ≡ false → overlaps host root e.0 ≡ false) roots
  unfolding no_overlap
  no_overlap_sound root own [] u h = tt
  no_overlap_sound root own ((other, id) ∷ rest) u h = elim (Bool-cases (is_own own id)) [
    | inl mine ↦ (λ e. absurd (cc), no_overlap_sound root own rest u (ground arith))
    | inr theirs ↦ elim (Bool-cases (overlaps host root other)) [
      | inl hit ↦ absurd (ground arith)
      | inr miss ↦ (λ e. miss, no_overlap_sound root own rest u (ground arith))
    ]
  ]

  taken :
      (at_root own : Option Text) (id : Text) (u : Unit {0})
      → check (not (is_some_other at_root own)) RegistryFault.system_duplicate ≡ ok u
      → at_root ≡ some id
      → ¬ (is_own own id ≡ false)
  unfolding is_some_other
  taken none own id u passed e theirs = cc
  taken (some other) own id u passed e theirs =
      let same : other ≡ id = cc in ground (arith, ap (is_own own) same)

  pub assert_no_overlap_sound :
      (root : Text) (own : Option Text) (reg : SystemRegistry) (u : Unit {0})
      → assert_no_overlap host root own reg ≡ ok u
      → (root' id : Text) → lookup root' reg.by_root ≡ some id
      → is_own own id ≡ false
      → (root' ≢ root) × (overlaps host root root' ≡ false)
  unfolding assert_no_overlap
  assert_no_overlap_sound root own reg u h root' id found theirs =
      let test =
        check (not (is_some_other (lookup root reg.by_root) own)) RegistryFault.system_duplicate in
      let (v, first, second) = bind-ok test (λ _. no_overlap host root own reg.by_root) u h in
      (
        λ same.
            taken (lookup root reg.by_root) own id v first
              (ap (λ t. lookup t reg.by_root) (sym same) ∙ found) theirs,
        All-lookup (λ e. is_own own e.1 ≡ false → overlaps host root e.0 ≡ false) root' reg.by_root
            id (no_overlap_sound root own reg.by_root u second) found theirs,
      )

  pub bind-Agree :
      (r : ConnectionRecord) (ids : Map ConnectionRecord) (roots : Map Text)
      → IsReady r ids roots
      → Agree (insert r.system_id r ids) (insert r.root r.system_id roots)
  bind-Agree r ids roots ready = record {
    keyed = λ id s found. elim (insert-cases r.system_id id r s ids found) [
      | inl (same, it) ↦ ap (λ (t : ConnectionRecord). t.system_id) (sym it) ∙ same
      | inr (ne, old) ↦ ready.keyed id s old
    ];
    located = λ id s found. elim (insert-cases r.system_id id r s ids found) [
      | inl (same, it) ↦ rw (← it, ← same) (lookup-insert_same r.root r.system_id roots)
      | inr (ne, old) ↦
          let at_old = ready.located id s (λ e. ne (sym e)) old in
          let apart_ = (ready.free s.root id at_old).0 in
          lookup-insert_ne r.root s.root r.system_id roots (λ e. apart_ (sym e)) ∙ at_old
    ];
    owned = λ root id found. elim (insert-cases r.root root r.system_id id roots found) [
      | inl (same, it) ↦ (r, rw (← it) (lookup-insert_same r.system_id r ids), same)
      | inr (ne, old) ↦
          let (theirs, s, there, at_) = ready.owned root id old in
          (s, lookup-insert_ne r.system_id id r ids (λ e. theirs (sym e)) ∙ there, at_)
    ];
    apart = λ root root' id id' found found' ne.
        elim (insert-cases r.root root r.system_id id roots found) [
          | inl (same, it) ↦ elim (insert-cases r.root root' r.system_id id' roots found') [
            | inl (same', it') ↦ absurd (ne (sym same ∙ same'))
            | inr (ne', old') ↦ rw (← same) ((ready.free root' id' old').1)
          ]
          | inr (ne_, old) ↦ elim (insert-cases r.root root' r.system_id id' roots found') [
            | inl (same', it') ↦ rw (overlaps_comm root root', ← same') ((ready.free root id old).1)
            | inr (ne', old') ↦ ready.apart root root' id id' old old' ne
          ]
        ];
  }

  -- A record that is changed in place, but for its id and its root.
  pub replace-Agree :
      (r s : ConnectionRecord) (id : Text) (ids : Map ConnectionRecord) (roots : Map Text)
      → lookup id ids ≡ some r
      → s.system_id ≡ r.system_id
      → s.root ≡ r.root
      → Agree ids roots
      → Agree (insert id s ids) roots
  replace-Agree r s id ids roots found same_id same_root agree = record {
    keyed = λ j t found_t. elim (insert-cases id j s t ids found_t) [
      | inl (same, it) ↦ rw (← it, same_id, ← same) (agree.keyed id r found)
      | inr (ne, old) ↦ agree.keyed j t old
    ];
    located = λ j t found_t. elim (insert-cases id j s t ids found_t) [
      | inl (same, it) ↦ rw (← it, same_root, ← same) (agree.located id r found)
      | inr (ne, old) ↦ agree.located j t old
    ];
    owned = λ root j at_root.
        let (t, found_t, t_root) = agree.owned root j at_root in
        elim (Bool-cases (id === j)) [
          | inl e ↦
              let same = ===_sound id j e in
              let it : some r ≡ some t = sym found ∙ ap (λ k. lookup k ids) same ∙ found_t in
              (s, rw (← same) (lookup-insert_same id s ids), same_root ∙ cc)
          | inr e ↦
              (t, lookup-insert_ne id j s ids (λ same. cc (===_refl id, same, e)) ∙ found_t, t_root)
        ];
    apart = agree.apart;
  }
