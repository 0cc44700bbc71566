-- ===== src/OsRead/Cache/Ideal.antt =====
-- What the cache is meant to be: for each system a partition of its own, in which what is stored stays
-- until it is dropped; a read changes nothing, and age is a matter of the reader.
pub mod Refined
use ai_verse_dashboard.Base.{
  ℕ, ◌≡◌, ◌≤◌, Bool, true, false, ◌&&◌, Option, none, some, List, [], ◌∷◌, Outcome, ok, err,
  if◌then◌else◌,
}
use ai_verse_dashboard.Base.Text.{Text, ◌===◌}
use ai_verse_dashboard.Protocol.Ids.{is_system_id}
use ai_verse_dashboard.Protocol.Scope.{ScopeFault, scope_key}
use ai_verse_dashboard.OsRead.Cache.{
  Entry, DisposableCache, set, get, of_workspace, invalidate_system, invalidate_workspace, clear,
}

-- The calls that change the cache, each with the arguments of the method, and the clock where it is
-- read.
pub data CacheCall {ℓ} (V : Type ℓ) : Type ℓ where
  store : Text → List Text → V → ℕ → ℕ → CacheCall V
  read : Text → List Text → ℕ → CacheCall V
  drop_system : Text → CacheCall V
  drop_workspace : Text → Text → CacheCall V
  drop_all : CacheCall V

-- By the system, then by the key.
abbrev pub Partitions {ℓ} : Type ℓ → Type ℓ
Partitions V = Text → Text → Option (Entry V)

module _ {ℓ} {V : Type ℓ} where
  unfoldable pub call : CacheCall V → DisposableCache V → DisposableCache V
  unfolding set get invalidate_system invalidate_workspace clear
  call (store sys parts value ttl now) cache = (set sys parts value ttl now cache).1
  call (read sys parts now) cache = (get sys parts now cache).1
  call (drop_system sys) cache = (invalidate_system sys cache).1
  call (drop_workspace sys ws) cache = (invalidate_workspace sys ws cache).1
  call drop_all cache = clear cache

  unfoldable pub call_all : List (CacheCall V) → DisposableCache V → DisposableCache V
  unfolding call
  call_all [] cache = cache
  call_all (c ∷ cs) cache = call_all cs (call c cache)

  unfoldable pub kept_at :
      Outcome ScopeFault Text → Text → Entry V → Partitions V → Text → Text → Option (Entry V)
  unfolding ◌===◌
  kept_at (err f) sys e kept s k = kept s k
  kept_at (ok j) sys e kept s k = if sys === s && j === k then some e else kept s k

  unfoldable pub ideal : CacheCall V → Partitions V → Partitions V
  unfolding ◌===◌ scope_key kept_at of_workspace
  ideal (store sys parts value ttl now) kept s k =
      kept_at (scope_key sys parts) sys (record { value = value; at_ms = now; ttl_ms = ttl }) kept s
        k
  ideal (read sys parts now) kept s k = kept s k
  ideal (drop_system sys) kept s k = if sys === s then none else kept s k
  ideal (drop_workspace sys ws) kept s k =
      if sys === s && of_workspace sys ws k then none else kept s k
  ideal drop_all kept s k = none

  unfoldable pub ideal_all : List (CacheCall V) → Partitions V → Partitions V
  unfolding ideal
  ideal_all [] kept = kept
  ideal_all (c ∷ cs) kept = ideal_all cs (ideal c kept)

  -- The clock after a call, if it stood at `t` before.
  unfoldable pub clock : CacheCall V → ℕ → ℕ
  clock (store sys parts value ttl now) t = now
  clock (read sys parts now) t = now
  clock (drop_system sys) t = t
  clock (drop_workspace sys ws) t = t
  clock drop_all t = t

  -- What is dropped is named by a valid id.
  unfoldable pub drops_valid : CacheCall V → Bool
  unfolding is_system_id
  drops_valid (store sys parts value ttl now) = true
  drops_valid (read sys parts now) = true
  drops_valid (drop_system sys) = is_system_id sys
  drops_valid (drop_workspace sys ws) = is_system_id sys
  drops_valid drop_all = true

  -- The clock, at `t` before the calls, never goes back, and stands at `now` or before after them.
  abbrev pub IsTimed : ℕ → List (CacheCall V) → ℕ → Type 0
  IsTimed t [] now = t ≤ now
  IsTimed t (c ∷ cs) now = (t ≤ clock c t) × (drops_valid c ≡ true) × IsTimed (clock c t) cs now
