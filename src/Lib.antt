-- ===== src/Lib.antt =====
-- AI-Verse Dashboard: a local dashboard over several registered AI-Verse operating systems.
--
-- A local gateway process (apps/gateway) holds the registry of the approved systems
-- (packages/registry), reads their folders through a disposable cache (packages/os-read-adapter),
-- fans live events out to subscribers and pairs one browser at a time. packages/live keeps the
-- chat sessions, packages/protocol the identifiers and scope keys by which everything is
-- partitioned, and the frames of requests, answers and events; packages/client is what a pane of
-- the browser knows of a conversation, whose requests go to the gateway and whose events come back
-- over a socket; packages/read-models normalizes the records that the panels show, and apps/web has
-- the panels of the shell and their layout.
--
-- The files and the code that they model:
--   Base: what the other files share: Boolean tests, lists, results of calls that throw (Outcome), texts
--     as UTF-16 units, `Map` as an association list in insertion order, `sort`, decimals.
--   Protocol/Ids, Protocol/Scope: the id patterns (packages/protocol/src/ids.ts), scopeKey and
--     workspaceScopeKey (packages/protocol/src/methods.ts).
--   Protocol/Methods: METHODS, the requirements of a method and assertQueryOnly
--     (packages/protocol/src/methods.ts).
--   Protocol/Json: JSON values and checkNoRawRoots (packages/protocol/src/ids.ts).
--   Protocol/Fields, Protocol/Envelope: the schemas of frames and parseFrame
--     (packages/protocol/src/envelope.ts).
--   Live/Timeline: normalizeTimelineEntry (packages/live/src/timeline.ts).
--   Live/Sessions: SessionStore (packages/live/src/sessions.ts); create, append, history, setStatus,
--     abort, list, summaries, recentEntries and findEntry are functions of the same names.
--   Live/Runs: buildTrace, buildLogDrawer and copyLogLine (packages/live/src/runs.ts).
--   Live/Activity: publishLive and groupToolsBySession (packages/live/src/activity.ts), over
--     Live/Sessions and Gateway/Subscriptions.
--   OsRead/Cache: DisposableCache (packages/os-read-adapter/src/cache.ts); Ideal
--     is its specification, over every history of its calls.
--   OsRead/Paths: assertRelativeLogical, resolveWorkspaceRoot and resolveWithinWorkspace
--     (packages/os-read-adapter/src/path-resolve.ts).
--   Registry/Compatibility: validateCompatibleOs and captureRootIdentity
--     (packages/registry/src/validation.ts, packages/registry/src/root-identity.ts).
--   Registry/Bindings, Registry/Systems: SystemRegistry (packages/registry/src/registry.ts): its records and
--     the approval of a root, then register, rebind, unregister, resolve_root,
--     binding_generation, revalidate; Registry/Systems/Calls has them as a data type, so that a
--     history is a list of calls.
--   Registry/Selection: SelectionStore (packages/registry/src/selection.ts).
--   Gateway/Subscriptions: SubscriptionHub (apps/gateway/src/subscriptions.ts).
--   Gateway/LocalState, Gateway/LocalApp: LocalApplicationSession
--     (apps/gateway/src/local-app-session.ts): its state, and the methods of the host;
--     Requests has the tests of cookie, origin and frame, Routes the routes of `handle`, Actions everything that can happen to a session as a data type.
--   ReadModels/Work: normalizeWorkItem and summarizeWork (packages/read-models/src/work.ts).
--   ReadModels/Inbox: normalizeInboxItem and sortInbox (packages/read-models/src/inbox.ts).
--   Client/Runs, Client/Rows, Client/History: asRun and the checks of a run, the rows of a session's
--     history, boundedHistory (packages/client/src/conversation-run.ts).
--   Client/Chat: PersonalChatRunController of the same file: its state; Methods has its methods up to
--     their request, Answers, Checks and Pages what they do with the answer, Stream the callbacks
--     of its events, Moves everything that can happen to it as a data type.
--   Client/Feed: DashboardChatEventFeed.subscribe (packages/client/src/gateway-event-feed.ts).
--   Web/Panels, Web/Layout: PanelRegistry and LayoutManager (apps/web/src/panels.ts,
--     apps/web/src/layout.ts).
--
-- Conventions. A class is a record of its fields; a method takes the record and returns its answer beside
-- the new record, also when it throws, since what was written before the throw stays. An object
-- that the code changes in place is reached through one map only (the others hold copies), so
-- the change is the insertion of the changed record. The clock, random texts, the disk, and
-- what node:path, JSON.parse, Date.parse, SHA-256 and toLowerCase compute are arguments. A
-- handler that awaits a request body is two functions, one before and one behind the body, and a
-- history may put any other action between them; so is a method of the controller that awaits an
-- answer, with the epoch and the scope that it remembers as the argument of the second. Where the
-- controller compares a cursor with the one it holds, a serial number stands for the object. JSON
-- is a tree, a data type in a mutual block with its members; the length in bytes of its text is an
-- argument. What `zod` documents of strict objects, unions and refinements is written out. Every loop is structural recursion on a
-- list, so that no fuel is needed; counters are natural numbers, and the one that the code
-- bounds (the serial number of bindings, Number.isSafeInteger) keeps its bound.
--
-- Not modelled: sockets, HTTP framing and the bodies of responses (apps/gateway/src/server.ts), which are
-- input and output; `watchWorkspace`, which joins node:fs to the hub; the regular expression of
-- `topLevelScalar`; the tests that the constructor of DashboardChatEventFeed makes of its origin and
-- token; query-router.ts, auth.ts, canonical-gateway-bridge.ts and purpose-mutation-bridge.ts of
-- apps/gateway; client.ts and canonical-gateway-client.ts of packages/client, which hold the
-- requests in flight; the runtime adapters of packages/live; the other files of
-- packages/read-models and packages/os-read-adapter; the shell and the personal pages of apps/web,
-- most of which build DOM nodes; and the scripts that drive a running gateway.
pub mod Base
pub mod Protocol
pub mod Client
pub mod Live
pub mod OsRead
pub mod Gateway
pub mod Registry
pub mod Web
pub mod ReadModels
