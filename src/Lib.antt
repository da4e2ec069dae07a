-- ===== src/Lib.antt =====
-- Overgent: the local coordination service of a developer's machine.
--
-- A profile (internal/config) names the backends, the Projects bound to them and the registered
-- repositories. The store (internal/store) is the SQLite database of the service: it keeps the
-- workspaces and a queue of events, numbered per workspace, beside sessions, contracts, deliveries
-- and focus. The publisher (internal/app) sends the queue to the backends, window by window, and
-- acknowledges or quarantines what it sent. The injection (internal/app) fetches a brief for an
-- agent's session, chooses what fits its budget and is new to the session, and marks it delivered.
-- The agents call the service from hooks that internal/hookconfig writes into their settings files.
-- What a hook tells passes internal/agentactivity. The watcher (internal/watcher) keeps
-- the directories of the registered repositories under watch.
--
-- Config.antt is internal/config/config.go: one definition for each method on `Config`, of the
-- same name (`UpsertBackend` is `upsert_backend`). Config/Origin.antt has the origins of backends.
--
-- Store.antt and its children are internal/store/store.go. A table is the list of its rows; a
-- method is a function from the database to the new one, or to an error, which is the rollback of
-- its transaction. Store/Queue.antt has the event queue (`EnqueueEvent`, `Pending`, `Batch`,
-- `Ack`, `Quarantine`, `CleanupAcknowledged`), Store/Workspaces.antt registration
-- (`UpsertWorkspace`, `RebindWorkspace`, `DeleteWorkspace`), Store/Lifecycle.antt
-- `PublishLifecycle`, Store/Manifests.antt `PublishManifest`, Store/Deliveries.antt the injection
-- deliveries, Store/Sessions.antt agents and their sessions, Store/Focus.antt focus,
-- Store/Contracts.antt fingerprints and read sets, Store/Payload.antt JSON and `fillObservedAt`.
-- The step relation of Store/Sequences/Reachable.antt has one constructor for each method that
-- writes. Where a theorem about sequences of transactions, or of edits of a profile, needs a
-- condition that the code does not check, the condition is a predicate on the sequence. A map that
-- the code ranges over is a list in any order.
--
-- Publisher.antt is `flush` of internal/app/app.go and what it calls, Publisher/Failures.antt its
-- reading of errors and its retry delay. A backend is a state and an answer to each batch.
--
-- Injection.antt has the choice of items (`selectInjectionItems`, `injectionLine`,
-- `renderInjection`), `claimMidTurnFetch` and the search for a workspace, and
-- Injection/Handler.antt `handleAgentInjection`, all of internal/app/app.go; Injection/Text.antt
-- has the functions on text.
--
-- Hooks/Command.antt, with Paths, is internal/hookconfig/command.go and `commandForOS` and
-- `ParseManagedCommand` of hooks.go: a command line is built and read as its bytes, over the
-- functions of package strings in Prelude/Bytes.antt. Hooks/Settings.antt is the settings file as
-- `read` and `write` of hooks.go see it, Hooks/Groups.antt the handlers of one event, and
-- Hooks/Binding.antt `Install`, `Inspect`, `Rebind` and `Remove`, of the same names. A JSON object
-- is a list of its members; the members that the Go structs do not name are lost when an event is
-- written.
--
-- Watcher.antt is `Add`, `Remove`, `addTree`, `addCreated`, `ignorerFor`, `Run` and `schedule` of
-- internal/watcher/watcher.go. fsnotify is the record `Backend`, of which a proof assumes how long
-- its watch list is after a call.
--
-- Activity.antt is `NormalizePaths`, `canonicalizeExisting`, `validateSafePath` and the labels of
-- internal/agentactivity/activity.go. The climb of `canonicalizeExisting` runs on fuel, one more
-- than the path has bytes, which is enough since each step shortens the path. Hooks/Grants.antt is
-- `AllowTools` and `DisallowTools` of hooks.go, and Hooks/Profiles.antt `ParseManagedPrefix` and
-- `Abandoned`, over the file system as the record `Host`.
--
-- SHA-256, JSON encoding, number and time formatting, URL parsing, the file system and the
-- backends are not code of these files: they are the fields of `Platform`, `Codec`, `Outside` and
-- `Context`. Instants are nanoseconds since the Unix epoch, as natural numbers; a method that
-- reads the clock takes the instant. Machine integers are natural numbers: a counter of events or
-- revisions grows by the events of one call, and 64 bits are not reached.
--
-- The loop of `flush` over one workspace's windows runs on fuel: the number of its events, of
-- which each round takes at least one.
--
-- Not modelled: opening and migrating the database and failures of SQLite itself, the files of a
-- profile and of the settings, the decoding of hook payloads, the supervision of the bundled backend, and the other packages of the repository.
pub mod Prelude
pub mod Config
pub mod Store
pub mod Publisher
pub mod Hooks
pub mod Injection
pub mod Watcher
pub mod Activity
