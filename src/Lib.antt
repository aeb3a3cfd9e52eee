-- ===== src/Lib.antt =====
-- Bahn Project Manager: projects with reviews by departments, edited by many people at once. The
-- server writes each change in one transaction with its audit rows and one versioned event; events
-- travel to clients on channels, filtered for each recipient; a client keeps a mirror of the
-- projects that it shows, finds gaps by versions, and lays unconfirmed edits over server state.
--
-- The parts and their files (paths from the root of the repository):
-- - shared/domain-events.ts is Event (the envelope), Event/Slug (slugify), Event/Scopes (scope,
--   isValidScope, isMembershipEvent, scopesForEvent), Event/Decide (decideEvent), Event/Seen
--   (SeenEvents), Event/Order (the order of versions, with Event/Order/Sorted).
-- - server/domain/permissions.ts and shared/itk/access.ts is Permissions, with Permissions/Rules and
--   Permissions/Monotone on rights and Permissions/Channels on subscriptions.
-- - server/domain/eventVisibility.ts is Visibility, with Visibility/Safety.
-- - shared/project-contract.ts is Project.
-- - client/src/realtime/projectSyncEngine.ts is Sync/Engine (the state, withChange, view, seed),
--   Sync/Events (applyEvent, commit, replay, recover), Sync/Recovery (applyRecovery and the answer
--   to recover), Sync/CatchUp (catchUp, resync, syncRows), Sync/Edits (optimistic, confirm,
--   rollback); Sync/Cells, Sync/Mirror, Sync/Overlay and Sync/Versions prove.
-- - server/infra/mysqlProjectStore.ts behind server/domain/ports.ts is Store, with Store/Log and
--   Store/Since on the event log.
-- - server/domain/projectService.ts is Service (normalizePatch, diffOf, buildEvent, auditRows,
--   notifyWatchers, conflict), Service/Write (update, delete), Service/Create (create,
--   createWithin), Service/Reviews (updateReview, createReview), Service/Within
--   (updateWithin), Service/Feed (changes), Service/Reads (get, sync);
--   Service/Frame, Service/Keyed, Service/Guards, Service/Outcomes, Service/Deletion,
--   Service/Refusals, Service/Missed, Service/Reviewed and Service/ReviewLog prove.
--   Service/Server puts the five writes together; Service/Server/Keys and Service/Server/Runs
--   prove what holds after any sequence of requests.
-- - server/infra/mysqlOutbox.ts is Outbox (drain, backlog); Outbox/Table, Outbox/Selection,
--   Outbox/Numbering, Outbox/Prepared, Outbox/Stamps, Outbox/Delivery and Outbox/Progress prove.
-- - server/realtime/relay.ts is Relay, with Relay/Wakes.
-- - server/domain/bookingService.ts is Booking (rows, view, list, diff) and Booking/Operations (book,
--   bookWithin, release), shared/booking-contract.ts is Booking/Contract; Booking/Logged,
--   Booking/Transitions, Booking/Requests, Booking/Taken, Booking/Views and Booking/Agenda prove.
-- - server/realtime/hub.ts is Hub, with Hub/Queues and Hub/Publish.
-- - server/infra/freshRead.ts is FreshRead, with FreshRead/Freshness.
-- - shared/sse.ts is Sse, with Sse/Chunks; what server/realtime/gateway.ts writes to a stream is in
--   Sse/Stream.
-- - server/domain/notificationPolicy.ts is Notification, with Notification/Kinds;
--   server/domain/departmentNotifications.ts is Notification/Departments, with
--   Notification/Recipients.
-- - Prelude holds what all share; Runtime the parameters; Examples concrete runs.
--
-- How the code is read. A text is the list of its code units. What depends on Unicode tables, on
-- the formatting of numbers, on dates, hashes, random ids, JSON and collations is a parameter
-- (Runtime, Env); RuntimeLaws states what ECMAScript documents of it. The nullable columns of a
-- project are a map from field names to values, a date in the form in which it travels; change keys
-- other than the editable fields and the review keys do not occur, since the contract's schemas
-- refuse them. A Map of JavaScript is an association list in insertion order. A transaction is a
-- function from tables to an answer with new tables, or an error; an error leaves the tables, and
-- the retry after a deadlock is left out. The ids of notifications are positions in their table.
-- What listeners of the engine are told is a log. A recovery in flight ends in a step of its own,
-- with the server's answer or with a failure, so anything may come in between; no loop of the parts
-- modelled needs fuel, since each runs over a list, but for the five scans of changes and the loop
-- of the stream parser, which gets the length of its buffer: each frame found shortens it. Each wait
-- of catchUp, resync and syncRows ends a step as well; the numbers of changed projects that they
-- return are left out. The times of the last change of rows, which the database keeps by itself, stay
-- as they are.
--
-- The parse of an envelope and the bus's answers are parameters of the outbox; a drain that the
-- process does not survive is a step that ends before its stamps. The idempotency keys of bookings
-- stand in a table of their own, where a key that another operation took has no response.
--
-- A subscriber of the hub is a position in its list of subscriptions; waking a reader, the
-- confirmations of a transport and later changes of a subscription are left out. The titles and
-- bodies of a department's notifications are written out from their templates.
--
-- A promise of a shared load is named by the time of its start; that a queued load starts when the
-- running one has settled is a step of its own, as the runtime makes it.
--
-- A stream is what the gateway writes to it, as text; the texts of JSON are arguments of a write.
--
-- Not modelled: sockets, the requests of the gateway, Redis, presence, checklists, imports, search, read models,
-- sign-in and the user interface, which are input and output around libraries or planned next.
pub mod Prelude
pub mod Runtime
pub mod Booking
pub mod Event
pub mod FreshRead
pub mod Hub
pub mod Notification
pub mod Outbox
pub mod Permissions
pub mod Relay
pub mod Visibility
pub mod Project
pub mod Sse
pub mod Sync
pub mod Store
pub mod Service
pub mod Examples
