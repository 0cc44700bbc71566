-- ===== src/OsRead/Cache/Lookup.antt =====
-- What the cache answers after an entry was stored, and how it counts.
use ai_verse_dashboard.Base.{
  ℕ, ◌+◌, ◌≡◌, ◌≢◌, refl, Option, none, some, List, ok, arith, ltb, inl, inr, Bool-cases,
  if◌then◌else◌,
}
use ai_verse_dashboard.Base.Text.{Text, ===_refl, ===_ne}
use ai_verse_dashboard.Base.Map.{lookup, insert, lookup-insert}
use ai_verse_dashboard.Protocol.Scope.{scope_key}
use ai_verse_dashboard.Protocol.Scope.Keys.{scope_key-isolates}
use ai_verse_dashboard.OsRead.Cache.{
  Entry, DisposableCache, expired, put_at, set, answer, get_at, get,
}

module _ {ℓ} {V : Type ℓ} where
  -- Whether an entry is there, fresh or expired, decides the answer alone.
  unfoldable pub value_of : ℕ → Option (Entry V) → Option V
  value_of now none = none
  value_of now (some e) = if expired now e then none else some e.value

  answer-value_of :
      (k : Text) (o : Option (Entry V)) (now : ℕ) (cache : DisposableCache V)
      → (answer k o now cache).0 ≡ value_of now o
  unfolding answer value_of
  answer-value_of k none now cache = refl
  answer-value_of k (some e) now cache = elim (Bool-cases (expired now e)) [
    | inl old ↦ rw old
    | inr new ↦ rw new
  ]

  pub get-value_of :
      (sys : Text) (parts : List Text) (now : ℕ) (cache : DisposableCache V) (k : Text)
      → scope_key sys parts ≡ ok k
      → (get sys parts now cache).0 ≡ ok (value_of now (lookup k cache.entries))
  unfolding get
  get-value_of sys parts now cache k valid =
      rw (valid, get_at) (rw (answer-value_of k (lookup k cache.entries) now cache))

  set-entries :
      (sys : Text) (parts : List Text) (value : V) (ttl now : ℕ) (cache : DisposableCache V)
      (k : Text)
      → scope_key sys parts ≡ ok k
      → (set sys parts value ttl now cache).1.entries
        ≡ insert k (record { value = value; at_ms = now; ttl_ms = ttl }) cache.entries
  unfolding set
  set-entries sys parts value ttl now cache k valid = rw (valid, put_at)

  -- A value that was stored under valid parts is given back until its time to live has passed,
  -- and not afterwards.
  pub get-set :
      (sys : Text) (parts : List Text) (value : V) (ttl stored now : ℕ) (cache : DisposableCache V)
      (k : Text)
      → scope_key sys parts ≡ ok k
      → (get sys parts now (set sys parts value ttl stored cache).1).0
        ≡ ok (if ltb (stored + ttl) now then none else some value)
  unfolding value_of expired
  get-set sys parts value ttl stored now cache k valid = rw (
    get-value_of sys parts now (set sys parts value ttl stored cache).1 k valid,
    set-entries sys parts value ttl stored cache k valid,
    lookup-insert {V = Entry V} k k (record { value = value; at_ms = stored; ttl_ms = ttl }),
    ===_refl k,
  )

  -- Storing for one system does not change what another system is answered, where the keys of
  -- both are valid.
  pub get-set_ne :
      (sys sys' : Text) (parts parts' : List Text) (value : V) (ttl stored now : ℕ)
      (cache : DisposableCache V) (k k' : Text)
      → scope_key sys parts ≡ ok k
      → scope_key sys' parts' ≡ ok k'
      → sys ≢ sys'
      → (get sys' parts' now (set sys parts value ttl stored cache).1).0
        ≡ (get sys' parts' now cache).0
  get-set_ne sys sys' parts parts' value ttl stored now cache k k' valid valid' ne =
      let apart : k ≢ k' =
        λ e. ne (scope_key-isolates sys sys' parts parts' k' (rw e at valid) valid') in
      rw (
        get-value_of sys' parts' now (set sys parts value ttl stored cache).1 k' valid',
        get-value_of sys' parts' now cache k' valid',
        set-entries sys parts value ttl stored cache k valid,
        lookup-insert {V = Entry V} k k' (record { value = value; at_ms = stored; ttl_ms = ttl }),
        ===_ne k k' apart,
      )

  answer-counts :
      (k : Text) (o : Option (Entry V)) (now : ℕ) (cache : DisposableCache V)
      → let c = (answer k o now cache).1 in c.hits + c.misses ≡ cache.hits + cache.misses + 1
  unfolding answer
  answer-counts k none now cache = omega arith
  answer-counts k (some e) now cache = elim (Bool-cases (expired now e)) [
    | inl old ↦ rw old (omega arith)
    | inr new ↦ rw new (omega arith)
  ]

  -- Every call with a valid key counts as a hit or as a miss, and as one of them only.
  pub get-counts :
      (sys : Text) (parts : List Text) (now : ℕ) (cache : DisposableCache V) (k : Text)
      → scope_key sys parts ≡ ok k
      → let c = (get sys parts now cache).1 in c.hits + c.misses ≡ cache.hits + cache.misses + 1
  unfolding get
  get-counts sys parts now cache k valid =
      rw (valid, get_at) (answer-counts k (lookup k cache.entries) now cache)
