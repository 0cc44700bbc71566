-- ===== src/OsRead/Cache/Ideal/Refined.antt =====
-- packages/os-read-adapter/src/cache.ts: the cache against what it is meant to be. The cache forgets
-- an old entry when it is read; the ideal one only stops answering with it.
use mathlib.Core.List.{append_assoc}
use ai_verse_dashboard.Base.{
  ℕ, ◌≡◌, ◌≢◌, ◌≤◌, refl, sym, ◌∙◌, Bool, true, false, ◌&&◌, Option, none, some, List, [], ◌∷◌,
  ◌++◌, Outcome, ok, err, arith, inl, inr, Bool-cases, if◌then◌else◌, false_of_not, ap,
}
use ai_verse_dashboard.Base.Text.{
  Text, ◌===◌, ===_iff, ===_refl, ===_sound, colon, NoColon, starts_with_sound,
}
use ai_verse_dashboard.Base.Map.{lookup, lookup-insert, lookup-remove}
use ai_verse_dashboard.Protocol.Ids.{is_system_id, is_system_id-NoColon}
use ai_verse_dashboard.Protocol.Scope.{ScopeFault, join, scope_key}
use ai_verse_dashboard.Protocol.Scope.Keys.{scope_key-ok, scope_key-isolates}
use ai_verse_dashboard.OsRead.Cache.{
  Entry, DisposableCache, drop_keys, of_system, of_workspace, expired, put_at, answer, get_at, set,
  get, invalidate_system, invalidate_workspace, clear,
}
use ai_verse_dashboard.OsRead.Cache.Lookup.{value_of, get-value_of}
use ai_verse_dashboard.OsRead.Cache.Invalidation.{lookup-drop_keys, of_system-join, join-eq_system}
use ai_verse_dashboard.OsRead.Cache.Ideal.{
  CacheCall, store, read, drop_system, drop_workspace, drop_all, Partitions, call, call_all,
  kept_at, ideal, ideal_all, clock, drops_valid, IsTimed,
}

of_workspace-join :
    (sys sys' ws : Text) (parts : List Text)
    → NoColon sys
    → NoColon sys'
    → sys' ≢ sys
    → of_workspace sys ws (join (sys' ∷ parts)) ≡ false
unfolding of_workspace
of_workspace-join sys sys' ws parts plain plain' ne = false_of_not λ h.
    let whole = sys ++ colon ∷ ws ++ colon ∷ [] in
    let (rest, e) = starts_with_sound whole (join (sys' ∷ parts)) h in
    ne (
      join-eq_system sys sys' parts (ws ++ colon ∷ rest) plain plain' (
        e
        ∙ append_assoc (sys ++ colon ∷ ws) (colon ∷ []) rest
        ∙ append_assoc sys (colon ∷ ws) (colon ∷ rest)))

same_system :
    (sys s : Text) (ps parts : List Text) (j k : Text)
    → scope_key sys ps ≡ ok j
    → scope_key s parts ≡ ok k
    → (sys === s && j === k) ≡ (j === k)
same_system sys s ps parts j k mine key = elim (Bool-cases (j === k)) [
  | inr other ↦ rw other (ground arith)
  | inl same ↦
      let one : sys ≡ s =
        scope_key-isolates sys s ps parts k (mine ∙ ap ok (===_sound j k same)) key in
      rw (same, one, ===_refl s)
]

of_workspace-valid :
    (sys s ws : Text) (parts : List Text) (k : Text)
    → is_system_id sys ≡ true
    → scope_key s parts ≡ ok k
    → of_workspace sys ws k ≡ (sys === s && of_workspace sys ws k)
of_workspace-valid sys s ws parts k valid key = elim (Bool-cases (sys === s)) [
  | inl same ↦ rw same
  | inr other ↦
      let (valid', at) = scope_key-ok s parts k key in
      rw (
        other,
        ← at,
        of_workspace-join sys s ws parts (is_system_id-NoColon sys valid)
            (is_system_id-NoColon s valid') (λ e. ground (arith, ===_iff sys s)),
      )
]

of_system-valid :
    (sys s : Text) (parts : List Text) (k : Text)
    → is_system_id sys ≡ true
    → scope_key s parts ≡ ok k
    → of_system sys k ≡ (sys === s)
of_system-valid sys s parts k valid key =
    let (valid', at) = scope_key-ok s parts k key in
    rw (← at)
      (of_system-join sys s parts (is_system_id-NoColon sys valid) (is_system_id-NoColon s valid'))

module _ {ℓ} {V : Type ℓ} where
  -- From `t` on both answer alike, at the key `k` of the system `s`.
  abbrev AgreesAt : ℕ → DisposableCache V → Partitions V → Text → Text → Type ℓ
  AgreesAt t cache kept s k =
      (now : ℕ) → t ≤ now → value_of now (lookup k cache.entries) ≡ value_of now (kept s k)

  abbrev Agrees : ℕ → DisposableCache V → Partitions V → Type ℓ
  Agrees t cache kept =
      (s : Text) (parts : List Text) (k : Text)
      → scope_key s parts ≡ ok k
      → AgreesAt t cache kept s k

  expired-le : (t now : ℕ) (e : Entry V) → t ≤ now → expired t e ≡ true → expired now e ≡ true
  unfolding expired
  expired-le t now e le h = ground arith

  value_of-expired : (now : ℕ) (e : Entry V) → expired now e ≡ true → value_of now (some e) ≡ none
  unfolding value_of
  value_of-expired now e h = rw h

  value_of-none : (now : ℕ) (o : Option V) → o ≡ none → value_of now none ≡ o
  unfolding value_of
  value_of-none now o h = sym h

  put_at-Agrees :
      (m : Outcome ScopeFault Text) (sys : Text) (ps : List Text) (value : V) (ttl u t : ℕ)
      (cache : DisposableCache V) (kept : Partitions V)
      → scope_key sys ps ≡ m
      → t ≤ u
      → Agrees t cache kept
      → Agrees u
          (put_at m value ttl u cache).1
          (kept_at m sys (record { value = value; at_ms = u; ttl_ms = ttl }) kept)
  unfolding put_at kept_at
  put_at-Agrees (err f) sys ps value ttl u t cache kept mine le h s parts k key now after =
      h s parts k key now (omega arith)
  put_at-Agrees (ok j) sys ps value ttl u t cache kept mine le h s parts k key now after =
      let e : Entry V = record { value = value; at_ms = u; ttl_ms = ttl } in
      rw (lookup-insert {V = Entry V} j k e cache.entries, same_system sys s ps parts j k mine key)
        (elim (Bool-cases (j === k)) [
          | inl same ↦ rw same
          | inr other ↦ rw other (h s parts k key now (omega arith))
        ])

  answer-AgreesAt :
      (j : Text) (o : Option (Entry V)) (u t : ℕ) (cache : DisposableCache V) (kept : Partitions V)
      (s k : Text)
      → lookup j cache.entries ≡ o
      → t ≤ u
      → AgreesAt t cache kept s k
      → AgreesAt u (answer j o u cache).1 kept s k
  unfolding answer
  answer-AgreesAt j none u t cache kept s k at le h now after = h now (omega arith)
  answer-AgreesAt j (some e) u t cache kept s k at le h now after =
      elim (Bool-cases (expired u e)) [
        | inr fresh ↦ rw fresh (h now (omega arith))
        | inl old ↦
            rw (old, lookup-remove {V = Entry V} j k cache.entries)
              (elim (Bool-cases (j === k)) [
                | inr other ↦ rw other (h now (omega arith))
                | inl same ↦ rw same (
                    let gone : value_of now (lookup k cache.entries) ≡ none =
                      rw (← ===_sound j k same, at)
                        (value_of-expired now e (expired-le u now e after old)) in
                    value_of-none now (value_of now (lookup k cache.entries)) gone
                    ∙ h now (omega arith))
              ])
      ]

  get-Agrees :
      (sys : Text) (ps : List Text) (u t : ℕ) (cache : DisposableCache V) (kept : Partitions V)
      (m : Outcome ScopeFault Text)
      → t ≤ u
      → Agrees t cache kept
      → Agrees u (get_at m u cache).1 kept
  unfolding get_at
  get-Agrees sys ps u t cache kept (err f) le h s parts k key now after =
      h s parts k key now (omega arith)
  get-Agrees sys ps u t cache kept (ok j) le h s parts k key now after =
      answer-AgreesAt j (lookup j cache.entries) u t cache kept s k refl le (h s parts k key) now
        after

  drop-AgreesAt :
      (drops : Text → Bool) (b : Bool) (t : ℕ) (cache : DisposableCache V) (o : Option (Entry V))
      (k : Text)
      → drops k ≡ b
      → ((now : ℕ) → t ≤ now → value_of now (lookup k cache.entries) ≡ value_of now o)
      → (now : ℕ) → t ≤ now
      → value_of now (lookup k (drop_keys drops cache.entries).0)
        ≡ value_of now (if b then none else o)
  drop-AgreesAt drops true t cache o k picked h now after =
      rw (lookup-drop_keys drops k cache.entries, picked)
  drop-AgreesAt drops false t cache o k picked h now after =
      rw (lookup-drop_keys drops k cache.entries, picked) (h now after)

  call-Agrees :
      (c : CacheCall V) (t : ℕ) (cache : DisposableCache V) (kept : Partitions V)
      → t ≤ clock c t
      → drops_valid c ≡ true
      → Agrees t cache kept
      → Agrees (clock c t) (call c cache) (ideal c kept)
  unfolding call ideal clock drops_valid set get invalidate_system invalidate_workspace clear lookup
  call-Agrees (store sys ps value ttl u) t cache kept le valid h s parts k key now after =
      put_at-Agrees (scope_key sys ps) sys ps value ttl u t cache kept refl le h s parts k key now
        after
  call-Agrees (read sys ps u) t cache kept le valid h s parts k key now after =
      get-Agrees sys ps u t cache kept (scope_key sys ps) le h s parts k key now after
  call-Agrees (drop_system sys) t cache kept le valid h s parts k key now after =
      drop-AgreesAt (of_system sys) (sys === s) t cache (kept s k) k
        (of_system-valid sys s parts k valid key) (h s parts k key) now after
  call-Agrees (drop_workspace sys ws) t cache kept le valid h s parts k key now after =
      drop-AgreesAt (of_workspace sys ws) (sys === s && of_workspace sys ws k) t cache (kept s k) k
        (of_workspace-valid sys s ws parts k valid key) (h s parts k key) now after
  call-Agrees drop_all t cache kept le valid h s parts k key now after = refl

  call_all-Agrees :
      (cs : List (CacheCall V)) (t now : ℕ) (cache : DisposableCache V) (kept : Partitions V)
      → IsTimed t cs now
      → Agrees t cache kept
      → Agrees now (call_all cs cache) (ideal_all cs kept)
  unfolding call_all ideal_all
  call_all-Agrees [] t now cache kept le h s parts k key later after =
      h s parts k key later (omega arith)
  call_all-Agrees (c ∷ cs) t now cache kept (le, valid, timed) h s parts k key later after =
      call_all-Agrees cs (clock c t) now (call c cache) (ideal c kept) timed
        (call-Agrees c t cache kept le valid h) s parts k key later after

  -- After any history of calls on an empty cache, in which the clock never goes back and what is
  -- dropped is named by valid ids, a read at a valid key answers as the partitions do in which
  -- reading removes nothing and a drop leaves the other systems alone: with what was stored there
  -- last and not dropped since, unless its time to live has passed.
  pub call_all-refines :
      (cs : List (CacheCall V)) (now : ℕ) (sys : Text) (parts : List Text) (k : Text)
      → IsTimed 0 cs now
      → scope_key sys parts ≡ ok k
      → (get sys parts now (call_all cs (record { entries = []; hits = 0; misses = 0 }))).0
        ≡ ok (value_of now (ideal_all cs (λ s j. none) sys k))
  unfolding lookup
  call_all-refines cs now sys parts k timed key =
      let empty : DisposableCache V = record { entries = []; hits = 0; misses = 0 } in
      rw (get-value_of sys parts now (call_all cs empty) k key) (
        ap ok (
          call_all-Agrees cs 0 now empty (λ s j. none) timed (λ s ps j h n le. refl) sys parts k key
            now (omega arith)))
