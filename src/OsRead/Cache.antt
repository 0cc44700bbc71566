-- ===== src/OsRead/Cache.antt =====
-- packages/os-read-adapter/src/cache.ts: the disposable cache of projections. `now` is `Date.now()`
-- in whole milliseconds; `mtime` and `size` are the texts of the numbers that the source prints into
-- a key.
pub mod Lookup
pub mod Invalidation
pub mod Projections
pub mod Ideal
mod Examples
use ai_verse_dashboard.Base.{
  ℕ, ◌+◌, ◌≡◌, Bool, true, false, ◌||◌, Option, none, some, List, [], ◌∷◌, ◌++◌, Outcome, ok, err,
  ltb, length, if◌then◌else◌,
}
use ai_verse_dashboard.Base.Text.{Text, text, ◌===◌, colon, starts_with}
use ai_verse_dashboard.Base.Map.{Map, lookup, insert, remove}
use ai_verse_dashboard.Protocol.Scope.{ScopeFault, scope_key}

pub record Entry {ℓ} (V : Type ℓ) : Type ℓ where
  pub value : V
  pub at_ms : ℕ
  pub ttl_ms : ℕ

pub record DisposableCache {ℓ} (V : Type ℓ) : Type ℓ where
  pub entries : Map (Entry V)
  pub hits : ℕ
  pub misses : ℕ

-- `ttlMs = 60_000`
abbrev pub default_ttl : ℕ
default_ttl = 60_000

-- The parts under which a projection is kept.
unfoldable pub projection_parts : Text → Text → Text → Text → List Text
projection_parts workspace_id path mtime size =
    text "proj" ∷ workspace_id ∷ path ∷ mtime ∷ size ∷ []

unfoldable pub of_system : Text → Text → Bool
of_system system_id k = k === system_id || starts_with (system_id ++ colon ∷ []) k

unfoldable pub of_workspace : Text → Text → Text → Bool
of_workspace system_id workspace_id = starts_with (system_id ++ colon ∷ workspace_id ++ colon ∷ [])

module _ {ℓ} {V : Type ℓ} where
  -- `now - atMs > ttlMs`
  unfoldable pub expired : ℕ → Entry V → Bool
  expired now e = ltb (e.at_ms + e.ttl_ms) now

  put_at :
      Outcome ScopeFault Text
      → V
      → ℕ
      → ℕ
      → DisposableCache V
      → Outcome ScopeFault Text × DisposableCache V
  put_at (err f) value ttl now cache = (err f, cache)
  put_at (ok k) value ttl now cache =
      let entry : Entry V = record { value = value; at_ms = now; ttl_ms = ttl } in
      (ok k, record cache { entries = insert k entry cache.entries })

  unfoldable pub set :
      Text → List Text → V → ℕ → ℕ → DisposableCache V → Outcome ScopeFault Text × DisposableCache V
  unfolding put_at
  set system_id parts value ttl now cache = put_at (scope_key system_id parts) value ttl now cache

  answer : Text → Option (Entry V) → ℕ → DisposableCache V → Option V × DisposableCache V
  answer k none now cache = (none, record cache { misses = cache.misses + 1 })
  answer k (some e) now cache =
      if expired now e
      then (none, record cache { entries = remove k cache.entries; misses = cache.misses + 1 })
      else (some e.value, record cache { hits = cache.hits + 1 })

  get_at :
      Outcome ScopeFault Text
      → ℕ
      → DisposableCache V
      → Outcome ScopeFault (Option V) × DisposableCache V
  get_at (err f) now cache = (err f, cache)
  get_at (ok k) now cache =
      let (found, cache') = answer k (lookup k cache.entries) now cache in (ok found, cache')

  unfoldable pub get :
      Text → List Text → ℕ → DisposableCache V → Outcome ScopeFault (Option V) × DisposableCache V
  unfolding get_at answer expired
  get system_id parts now cache = get_at (scope_key system_id parts) now cache

  unfoldable pub put_projection :
      Text
      → Text
      → Text
      → Text
      → Text
      → V
      → ℕ
      → ℕ
      → DisposableCache V
      → Outcome ScopeFault Text × DisposableCache V
  unfolding set projection_parts
  put_projection system_id workspace_id path mtime size projection ttl now cache =
      set system_id (projection_parts workspace_id path mtime size) projection ttl now cache

  unfoldable pub get_projection :
      Text
      → Text
      → Text
      → Text
      → Text
      → ℕ
      → DisposableCache V
      → Outcome ScopeFault (Option V) × DisposableCache V
  unfolding get projection_parts
  get_projection system_id workspace_id path mtime size now cache =
      get system_id (projection_parts workspace_id path mtime size) now cache

  -- The loop over the keys: what the test picks is deleted and counted.
  unfoldable pub drop_keys : (Text → Bool) → Map (Entry V) → Map (Entry V) × ℕ
  drop_keys drops [] = ([], 0)
  drop_keys drops ((k, e) ∷ m) =
      let (kept, dropped) = drop_keys drops m in
      if drops k then (kept, dropped + 1) else ((k, e) ∷ kept, dropped)

  unfoldable pub invalidate_system : Text → DisposableCache V → ℕ × DisposableCache V
  unfolding drop_keys of_system
  invalidate_system system_id cache =
      let (kept, dropped) = drop_keys (of_system system_id) cache.entries in
      (dropped, record cache { entries = kept })

  unfoldable pub invalidate_workspace : Text → Text → DisposableCache V → ℕ × DisposableCache V
  unfolding drop_keys of_workspace
  invalidate_workspace system_id workspace_id cache =
      let (kept, dropped) = drop_keys (of_workspace system_id workspace_id) cache.entries in
      (dropped, record cache { entries = kept })

  unfoldable pub clear : DisposableCache V → DisposableCache V
  clear cache = record cache { entries = [] }

  unfoldable pub stats : DisposableCache V → record { entries : ℕ; hits : ℕ; misses : ℕ }
  stats cache = record { entries = length cache.entries; hits = cache.hits; misses = cache.misses }
