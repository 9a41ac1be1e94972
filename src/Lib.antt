-- ===== src/Lib.antt =====
-- The hsync server: models of its components and theorems about them.
--
-- The server guards its routes with a rate limiter, runs dangerous writes under an idempotency
-- key, tells the devices of a user about new data over WebSockets, sends e-mails and webhooks from
-- a durable outbox, stores bundles and snapshots inside a quota, asks
-- for a second factor at login, and keeps its database by
-- versioned migrations. The handlers call the
-- components one by one: the limiter's middleware comes first, ExecuteIdempotent wraps a write,
-- the write's service calls the hub's PushToUser, and where a quota is crossed it enqueues a
-- notification, which a later tick of ProcessOutbox delivers.
--
-- RateLimit (pkg/middleware/ratelimit.go). Modes: the fail modes, Redis fallbacks and the runtime
-- policy, as texts. Limiter: decide, windowSeconds and the limiters; a MemoryLimiter is the map
-- behind its mutex, so that every Allow and every sweep is one step on it. Enforce: what
-- EnforceRateLimit and RateLimit do with any limiter's answer. Window, Admission and Answers are
-- about the in-process limiter over one window, Policies about the decisions and the modes. Go's
-- int, int64 and Duration wrap to 64 bits where the code computes.
--
-- Hub (pkg/ws/hub.go). State: the maps and the client objects behind them, and one function for
-- each mutex section and each case of Run. What panics in Go (a send on a closed channel, a second
-- close) is none. System: the goroutines around the hub as a step relation, every interleaving of
-- mutex sections a sequence of steps. Sends, Ownership, Pushes and Counts are lemmas, Reservations
-- and Governance the invariant. RegisterClient has no caller and takes no part.
--
-- Idempotency (pkg/repository/idempotency.go, pkg/service/idempotency.go and
-- pkg/model/idempotency.go). Table: the rows and the statements on them, each transaction one step.
-- Service: ExecuteIdempotent, over the hash, the JSON coder, the JSONB column and the guarded
-- function as an argument, and with faults for the two database calls. Rows and Calls say what
-- changes a row; Replay, Recording and Retries what a retry gets, Locking what concurrent requests
-- get, Failures what a late report does. Timestamps keep their nanoseconds, where PostgreSQL keeps
-- microseconds.
--
-- Outbox (pkg/repository/notification_outbox.go, pkg/service/notification.go and
-- pkg/model/model.go). Table: the rows of notification_outbox and one function for each statement.
-- Delivery: ProcessOutbox, over what deliverOutboxItem answers for an item, with one
-- time for a whole batch; Actions: RetryFailure,
-- RetryFailures, RequeueFailure and DiscardFailure. System: the table and the items that the
-- workers of all server instances hold, as a step relation in which each statement is one step.
-- Lookup, Distinct, Custody and Steps prove its invariant, Batches and Refinement that the
-- service's calls are runs of it; Abandoned is about items whose worker has stopped, Backoff about
-- delays and counts. Redaction: redactNotificationSecretAssignments, whose loop runs on fuel, one
-- more than the length of the text; Redacts is about the rounds and Secrets about the values, in ASCII texts.
-- Sanitize: sanitizeNotificationError, redactNotificationSecretWords and SanitizeWebhookError
-- (pkg/provider/notification_webhook.go), over net/url as an argument; Sanitized is about
-- their length.
--
-- Quota (pkg/service/notification.go). Thresholds: usagePercent, quotaIncreaseEvent and
-- quotaRestored. Levels: the same as changes of a level.
--
-- Sync (pkg/service/service.go, pkg/repository/repository.go, pkg/storage/blob.go and
-- pkg/model/model.go). Tables and Usage: the rows of bundles, snapshots and storage_usage and the
-- statements on them; Guard: the reservation of an upload and the calls of its hook. Bundles:
-- UploadBundle, DownloadBundle and DeleteBundle; Snapshots: UploadSnapshot with Prune's PruneOldest;
-- Retention: purgeExpiredBundles. Each statement, storage call and hook call of an upload has a
-- flag that makes it fail, and then has no effect, but a Put that fails may have stored the object;
-- what the tables users and devices hold is an argument. Covered, Live, Uploads, Pruned, SnapshotRows and SnapshotUploads are about the counted
-- bytes, History about sequences of calls, Success and Promises about an upload that succeeds,
-- Reservations about the hook, Owned, Keys and OwnedUploads about the objects, Purged and
-- Expired about purges.
-- The Redis cache of GetUsage, the overflow of the two INTEGER counters, and the statements of
-- different calls that interleave are left out, but the bytes that other uploads have in flight
-- are a number in the lemmas.
--
-- TwoFactor (pkg/service/two_factor.go, pkg/repository/two_factor.go and pkg/model/model.go), for
-- one user. Rows: his row and backup codes and the statements on them; Codes: the texts of codes;
-- Service: the verification of codes with its lock, and what Setup, Enable, Disable and
-- RegenerateBackupCodes do, over the cipher, the HMAC and the TOTP library. Guesses and Bound are
-- about attempts that follow one another, Backup and Printed about backup codes. Attempts that
-- interleave are not modelled. Times keep their nanoseconds, where PostgreSQL keeps microseconds.
--
-- Migrate (pkg/migrate/migrate.go and pkg/migrate/status.go). Files: parseFileName, FormatVersion,
-- SanitizeName and the names that Create gives. Parse: Parse over the entries of a directory. Plan:
-- what is pending, what is rolled back, the next version. Run: the loops of UpWithTable and
-- DownWithTable over the tracking table, with what runs a script as an argument; Whole: the two
-- functions from the directory on. Status: BuildStatus and Status. Snake and Names are about file
-- names, Parsing, Directory, Stored, Sorted and Parsed about Parse, Resume about runs of Up, Order
-- and Rollback about Down, Versions about new versions, Consistent about reports. A number of steps
-- back that is too large for memory, at which make panics, is left out.
--
-- Prelude has the tests, maps, lists and integers that the parts share, GoStrings what Go's
-- strings package does to ASCII text (unicode case and space are left out); in the redaction what
-- strings.ToLower does to other texts is an argument, and an index out of range gives none.
--
-- All functions are structural, on fuel in two places: the digits of a decimal number, where the
-- number itself is enough, and the redaction. Not modelled: the WebSocket handshake with its origin
-- check and tokens, deadlines and pings, the contents and preferences of notifications, the archival
-- of sent and discarded rows (pkg/repository/operational_history.go), the purge of snapshots, the
-- drift check of schemas, log lines and metrics, and the components that no file here names.
mod Prelude
mod GoStrings
pub mod RateLimit
pub mod Hub
pub mod Idempotency
pub mod Outbox
pub mod Migrate
pub mod Quota
pub mod Sync
pub mod TwoFactor
