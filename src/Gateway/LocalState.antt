-- ===== src/Gateway/LocalState.antt =====
-- apps/gateway/src/local-app-session.ts: the state of `LocalApplicationSession`, the identity of its owner
-- and of its workspace, and the end of a session. What the registry, the workspace reader and `statSync`
-- answer at a call is its `Owner` argument. Abort controllers and sockets are numbers; `aborted` and
-- `closed` hold those that were aborted and closed.
use ai_verse_dashboard.Base.{
  ℕ, ◌*◌, Bool, true, false, not, ◌&&◌, Option, none, some, List, [], ◌∷◌, ◌++◌, Outcome, ok, err,
  leb, ◌==◌, all, length, if◌then◌else◌, last?,
}
use ai_verse_dashboard.Base.Text.{Text, text, ◌===◌, is_slug, is_slug_head}

pub data AppFault : Type 0 where
  scope_invalid : AppFault
  host_authority_required : AppFault
  os_binding_stale : AppFault
  request_invalid : AppFault
  workspace_changed : AppFault
  port_invalid : AppFault
  pairing_expired : AppFault
  not_bound : AppFault
  origin_denied : AppFault
  unpaired : AppFault
  chooser_unavailable : AppFault
  catalog_unavailable : AppFault
  request_limit : AppFault
  request_pending : AppFault
  workspace_invalid : AppFault
  host_unavailable : AppFault
  pairing_invalid : AppFault
  pairing_denied : AppFault
  route_unknown : AppFault
  -- The error of `resolveRoot`.
  owner_refused : AppFault
  -- The error of `getWorkspace` or of `statSync`.
  workspace_unreadable : AppFault

abbrev pub max_pair_attempts : ℕ
max_pair_attempts = 5

abbrev pub pair_ttl : ℕ
pair_ttl = 5 * 60 * 1000

abbrev pub session_ttl : ℕ
session_ttl = 8 * 60 * 60 * 1000

abbrev pub workspace_request_ttl : ℕ
workspace_request_ttl = 90 * 1000

abbrev pub max_workspace_requests : ℕ
max_workspace_requests = 5

-- `/^[a-z0-9][a-z0-9-]{0,63}$/`
unfoldable pub is_app_id : Text → Bool
is_app_id [] = false
is_app_id (c ∷ s) = is_slug_head c && all is_slug s && leb (length s) 63

ends_in_slug_head : Option ℕ → Bool
ends_in_slug_head none = true
ends_in_slug_head (some c) = is_slug_head c

-- `/^[a-z0-9](?:[a-z0-9-]{0,126}[a-z0-9])?$/`
unfoldable pub is_app_workspace : Text → Bool
unfolding ends_in_slug_head
is_app_workspace [] = false
is_app_workspace (c ∷ s) =
    is_slug_head c && all is_slug s && ends_in_slug_head (last? s) && leb (length s) 127

pub record WorkspaceIdentity : Type 0 where
  pub root : Text
  pub dev : ℕ
  pub ino : ℕ

pub record AppScope : Type 0 where
  pub system_id : Text
  pub workspace_id : Text

-- What the owner's registry and its workspaces answer at a call; a call that throws is `none`.
pub record Owner : Type 0 where
  pub root : Option Text
  pub generation : Option ℕ
  pub workspace : Text → Option WorkspaceIdentity

pub record PendingRequest : Type 0 where
  pub id : Text
  pub workspace_id : Text
  pub at : ℕ
  pub identity : Option WorkspaceIdentity
  pub denied : Bool

pub record LocalAppSession : Type 0 where
  pub port : ℕ
  pub pairing : Text
  pub born : ℕ
  pub session_token : Text
  pub session_abort : ℕ
  pub aborted : List ℕ
  pub scope : AppScope
  pub has_owner : Bool
  pub owner_root : Option Text
  pub owner_generation : Option ℕ
  pub workspace_identity : Option WorkspaceIdentity
  pub has_listener : Bool
  pub request_count : ℕ
  pub pending_request : Option PendingRequest
  pub sessions_until : ℕ
  pub attempts : ℕ
  pub used : Bool
  pub sockets : List ℕ
  pub closed : List ℕ
  -- When `expiryTimer` calls `revoke`.
  pub expiry_timer : Option ℕ

unfoldable pub operator_id : Text
operator_id = text "operator"

unfoldable pub capture_workspace :
    Owner → LocalAppSession → Text → Outcome AppFault (Option WorkspaceIdentity)
capture_workspace owner s workspace_id =
    if workspace_id === operator_id
    then ok none
    else if not s.has_owner
    then err AppFault.host_authority_required
    else elim (owner.workspace workspace_id) [
      | none ↦ err AppFault.workspace_unreadable
      | some identity ↦ ok (some identity)
    ]

unfoldable pub same_text : Option Text → Option Text → Bool
same_text none none = true
same_text (some a) (some b) = a === b
same_text none (some b) = false
same_text (some a) none = false

unfoldable pub same_number : Option ℕ → Option ℕ → Bool
same_number none none = true
same_number (some a) (some b) = a == b
same_number none (some b) = false
same_number (some a) none = false

unfoldable pub same_identity : Option WorkspaceIdentity → Option WorkspaceIdentity → Bool
same_identity none none = true
same_identity (some a) (some b) = a.root === b.root && a.dev == b.dev && a.ino == b.ino
same_identity none (some b) = false
same_identity (some a) none = false

is_current : Outcome AppFault (Option WorkspaceIdentity) → LocalAppSession → Bool
is_current (err e) s = false
is_current (ok none) s = s.scope.workspace_id === operator_id
is_current (ok (some i)) s = same_identity (some i) s.workspace_identity

unfoldable pub is_there : {A : Type 0} → Option A → Bool
is_there none = false
is_there (some a) = true

unfoldable pub owner_still_approved : Owner → LocalAppSession → Bool
unfolding is_current is_there same_text same_number
owner_still_approved owner s =
    if not s.has_owner
    then true
    else is_there owner.root
      && same_text owner.root s.owner_root
      && is_there owner.generation
      && same_number owner.generation s.owner_generation
      && is_current (capture_workspace owner s s.scope.workspace_id) s

unfoldable pub revoke : LocalAppSession → LocalAppSession
revoke s = record s {
  aborted = s.session_abort ∷ s.aborted;
  sessions_until = 0;
  pending_request = none;
  expiry_timer = none;
  sockets = [];
  closed = s.sockets ++ s.closed;
}
