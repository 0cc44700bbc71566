-- ===== src/Protocol/Methods.antt =====
-- packages/protocol/src/methods.ts: the register of methods, what each of them requires, and the
-- guard of a boundary that only reads.
pub mod Guard
use ai_verse_dashboard.Base.{Bool, not, List, [], ◌∷◌, ◌++◌, Outcome, ok, err, if◌then◌else◌}
use ai_verse_dashboard.Base.Text.{Text, text, member}

abbrev pub query_methods : List Text
query_methods =
    text "system.list"
    ∷ text "system.registry.summary"
    ∷ text "system.get"
    ∷ text "system.info"
    ∷ text "workspace.list"
    ∷ text "workspace.get"
    ∷ text "operator.activity"
    ∷ text "workspace.health"
    ∷ text "workspace.inbox.list"
    ∷ text "purpose.get"
    ∷ text "initiative.list"
    ∷ text "initiative.get"
    ∷ text "task.list"
    ∷ text "task.get"
    ∷ text "task.children"
    ∷ text "run.list"
    ∷ text "run.get"
    ∷ text "run.logs"
    ∷ text "cron.list"
    ∷ text "cron.history"
    ∷ text "agent.list"
    ∷ text "agent.sessions"
    ∷ text "usage.summary"
    ∷ text "graph.query"
    ∷ text "graph.node"
    ∷ text "source.preview"
    ∷ text "aiverse.gateway.status"
    ∷ text "aiverse.gateway.models"
    ∷ text "aiverse.gateway.run.get"
    ∷ text "aiverse.gateway.run.diagnostics"
    ∷ text "aiverse.gateway.session.list"
    ∷ text "aiverse.gateway.session.runs"
    ∷ text "aiverse.canvas.list"
    ∷ text "aiverse.canvas.get"
    ∷ text "aiverse.canvas.history"
    ∷ []

abbrev pub purpose_control_methods : List Text
purpose_control_methods =
    text "purpose.change.propose" ∷ text "purpose.change.confirm" ∷ text "purpose.change.apply" ∷ []

abbrev pub command_methods : List Text
command_methods =
    text "chat.send"
    ∷ text "chat.abort"
    ∷ text "task.start"
    ∷ text "task.cancel"
    ∷ text "task.retry"
    ∷ text "cron.create"
    ∷ text "cron.pause"
    ∷ text "cron.resume"
    ∷ text "cron.runNow"
    ∷ text "approval.resolve"
    ∷ text "initiative.activate"
    ∷ text "inbox.resolve"
    ∷ (purpose_control_methods
        ++ (text "aiverse.gateway.run.create"
            ∷ text "aiverse.gateway.run.cancel"
            ∷ text "aiverse.gateway.run.pause"
            ∷ text "aiverse.gateway.run.resume"
            ∷ text "aiverse.gateway.run.approval"
            ∷ text "aiverse.canvas.create"
            ∷ text "aiverse.canvas.rename"
            ∷ text "aiverse.canvas.edit"
            ∷ text "aiverse.canvas.duplicate"
            ∷ text "aiverse.canvas.revert"
            ∷ text "aiverse.canvas.delete"
            ∷ []))

abbrev pub protocol_methods : List Text
protocol_methods = text "protocol.handshake" ∷ text "protocol.capabilities" ∷ []

abbrev pub all_methods : List Text
all_methods = protocol_methods ++ (query_methods ++ command_methods)

-- `SYSTEM_OPTIONAL` and `WORKSPACE_SCOPED`
abbrev pub system_optional : List Text
system_optional = text "protocol.handshake" ∷ text "protocol.capabilities" ∷ text "system.list" ∷ []

abbrev pub workspace_scoped : List Text
workspace_scoped =
    text "workspace.get"
    ∷ text "system.registry.summary"
    ∷ text "operator.activity"
    ∷ text "workspace.health"
    ∷ text "workspace.inbox.list"
    ∷ text "purpose.get"
    ∷ text "initiative.list"
    ∷ text "initiative.get"
    ∷ text "task.list"
    ∷ text "task.get"
    ∷ text "task.children"
    ∷ text "run.list"
    ∷ text "run.get"
    ∷ text "run.logs"
    ∷ text "cron.list"
    ∷ text "cron.history"
    ∷ text "agent.list"
    ∷ text "agent.sessions"
    ∷ text "usage.summary"
    ∷ text "graph.query"
    ∷ text "graph.node"
    ∷ text "source.preview"
    ∷ text "aiverse.gateway.status"
    ∷ text "aiverse.gateway.models"
    ∷ text "aiverse.gateway.run.get"
    ∷ text "aiverse.gateway.run.diagnostics"
    ∷ text "aiverse.gateway.run.create"
    ∷ text "aiverse.gateway.run.cancel"
    ∷ text "aiverse.gateway.run.pause"
    ∷ text "aiverse.gateway.run.resume"
    ∷ text "aiverse.gateway.run.approval"
    ∷ text "aiverse.gateway.session.list"
    ∷ text "aiverse.gateway.session.runs"
    ∷ text "aiverse.canvas.list"
    ∷ text "aiverse.canvas.get"
    ∷ text "aiverse.canvas.history"
    ∷ text "aiverse.canvas.create"
    ∷ text "aiverse.canvas.rename"
    ∷ text "aiverse.canvas.edit"
    ∷ text "aiverse.canvas.duplicate"
    ∷ text "aiverse.canvas.revert"
    ∷ text "aiverse.canvas.delete"
    ∷ text "chat.send"
    ∷ text "chat.abort"
    ∷ text "task.start"
    ∷ text "task.cancel"
    ∷ text "task.retry"
    ∷ text "cron.create"
    ∷ text "cron.pause"
    ∷ text "cron.resume"
    ∷ text "cron.runNow"
    ∷ text "approval.resolve"
    ∷ text "initiative.activate"
    ∷ text "inbox.resolve"
    ∷ (purpose_control_methods)

unfoldable pub is_known_method : Text → Bool
is_known_method method = member method all_methods

unfoldable pub is_query_method : Text → Bool
is_query_method method = member method query_methods

unfoldable pub is_command_method : Text → Bool
is_command_method method = member method command_methods

unfoldable pub is_purpose_control_method : Text → Bool
is_purpose_control_method method = member method purpose_control_methods

unfoldable pub requires_system : Text → Bool
requires_system method = not (member method system_optional)

unfoldable pub requires_workspace : Text → Bool
requires_workspace method = member method workspace_scoped

pub data ProtocolFault : Type 0 where
  invalid_envelope unknown_method system_required workspace_required invalid_id : ProtocolFault
  raw_root_forbidden : Text → ProtocolFault
  payload_too_large version_mismatch command_blocked_read_only : ProtocolFault

unfoldable pub assert_query_only : Text → Outcome ProtocolFault (Unit {0})
unfolding is_command_method is_known_method
assert_query_only method =
    if is_command_method method
    then err command_blocked_read_only
    else if is_known_method method
    then ok tt
    else err unknown_method
