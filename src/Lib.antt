-- ===== src/Lib.antt =====
-- The server of Running Tools: what decides who may use it, and the jobs and links of its mail module.
--
-- The parts
--   - internal/platform/auth guards every path of the API. ProtectAPIs authenticates a request by its
--     bearer token or its cookie, checks the first password change and the origin, and hands the
--     principal to the handlers; Service and sqlStore keep users, sessions and API tokens.
--   - modules/mail/backend/alias_queue.go creates up to 99 hidden addresses of iCloud, one by one, in
--     a goroutine that a timer starts and that Pause, Resume and Cancel steer. Its state is one JSON
--     file.
--   - modules/mail/backend/create_schedule.go creates addresses in batches at set intervals. A running
--     batch and an active queue keep each other out: the queue takes the scheduler's state as the
--     argument `blocked` of `enqueue`, the scheduler that of the queue in its calls.
--   - modules/mail/backend/share_links.go hands out links that show one address to a visitor, and the
--     sessions that such a visitor opens.
--   - modules/mail/backend/alias_applications.go reads off the messages of an alias whether somebody
--     opened an account of an application with it.
--   - modules/mail/backend/autorefresh.go checks the Session of iCloud at an interval, keeps the Apple
--     Account alive in between, and switches itself off when only a login can help.
--   - internal/platform/config/envfile.go fills the environment from a file when the server starts.
--   - internal/platform/activitylog records what a module did, in a JSON file, in PostgreSQL or in
--     both, and shows it in pages.
--   - internal/platform/systemupdate leaves requests for a check or an update to the host, one at a
--     time, and reads the status that the host writes.
--   - modules/mail/backend/errors.go sorts the errors of Apple, on which both jobs depend, and hides
--     secrets in what they store of an error.
--
-- The files
--   Prelude         the shared names, in Prelude/Tests, Lists, Results, Search, Int, Clock, Text,
--                   Fields and Sort:
--                   Boolean tests, lists over the native numbers, the first row of a table that meets
--                   a test and updates of rows, results, int, time, and Go strings as bytes
--   EnvFile         config/envfile.go: LoadEnvFile, its parser and validEnvName
--   Errors          errors.go: UpstreamError, isSessionExpired, safeErrorText
--   Auth/Types      the records of service.go and store.go
--   Auth/Database   store.go: one function for each statement of sqlStore (BootstrapUser, FindSession,
--                   UpdatePassword, DeleteExpired and the others), on tables that are lists of rows
--   Auth/Limiter    limiter.go: allow and clear
--   Auth/Password   password.go: hashPassword, verifyPassword, validateNewPassword
--   Auth/Login      service.go: Login, cut at its two limits, where `login` calls `login_user`,
--                   `check_login` and `open_login`
--   Auth/Service    service.go: Authenticate, ChangePassword, Logout, ListAPITokens, CreateAPIToken,
--                   RevokeAPIToken, Cleanup
--   Auth/Startup    NewService of service.go and its bootstrap
--   Auth/Gate       http.go: ProtectAPIs with its predicates, and sameOrigin of service.go
--   Auth/Tables, LoginSteps, Logins, Backing, Presented, Revocation, ApiTokens, Cleaning, Restarts,
--   Gatekeeping, Throttle, PasswordLaws
--                   what is proved of them
--   AliasQueue/Types, Api, Worker
--                   alias_queue.go: the stored job; Status, Enqueue, Pause, Cancel, Resume, Start and
--                   Stop; runIfDue and the goroutine run, of which one step leads from a call of
--                   Apple or a wait to the next
--   AliasQueue/Machine
--                   the queue, its goroutines and the calls of Resume under way, as a step
--                   relation whose steps are the regions under the mutex
--   AliasQueue/Counters, Invariant, Requests, Progress, Stale
--                   what is proved of them
--   CreateSchedule/Types, Service, Batch
--                   create_schedule.go: the configuration and the status; Update, Stop, Start,
--                   Shutdown, nextWakeDelay; runIfDue, startRun and the batch goroutine
--   CreateSchedule/Runs, Interruptions, Due, Bounds
--                   what is proved of them
--   ShareLinks/Types, Store, Access
--                   share_links.go: the records; the stored links and their revocation; CreateBatch,
--                   Resolve, CreateSession and ResolveSession
--   ShareLinks/Database, Import
--                   share_links.go on PostgreSQL: one function for each method, of the account whose
--                   store it is, on the tables mail_share_links and mail_share_sessions with their
--                   keys; and importLegacy
--   ShareLinks/Search, Creating, Resolving, Sessions, Revoking, Clearing
--                   what is proved of the store on its file
--   ShareLinks/Views, Keys, Integrity, Steps, Refinement, Operations, Isolation, Order
--                   what is proved of the store on its tables, and of both
--   ActivityLog/Types, Entries, Pages, Store, Import
--                   activitylog/store.go: the records; normalizedEntry and normalizedQuery; queryEntries
--                   and queryPostgres; Record, Query and Clear; importLegacyJSON
--   ActivityLog/Retention, Paging, Agreement, Recording
--                   what is proved of them
--   AliasApps/Types, Evidence, Store
--                   alias_applications.go: the rows; what a message shows and nextApplicationStatus;
--                   observeEvidence, ObserveMessages, List, DeleteAlias and Backfill
--   AliasApps/Progress, Rows, Settled, Messages, Valid
--                   what is proved of them
--   AutoRefresh/Types, Apple, Service
--                   autorefresh.go: the configuration; when a keep-alive is due, with
--                   appleAccountKeepAliveSchedule of session.go and refreshDueAt of apple_types.go;
--                   Status, Update, run, nextWakeDelay, runIfDue and recordAppleKeepAliveResult
--   AutoRefresh/Retries, Runs, Wakes
--                   what is proved of them
--   SystemUpdate/Service
--                   systemupdate/service.go: New, Status and enqueue, which Check and Request call
--   SystemUpdate/Requests
--                   what is proved of them
--   Tests, TokenTests, TableTests, Samples
--                   small inputs in the folder of each part
--
-- How the code is modelled
--   - An operation takes its state and returns the new one. What it meets outside is an argument: the
--     reading of the clock, whether a write succeeds, the answer of a call, the random text drawn.
--     Errors are values of a result type, with the state that the code leaves on that branch.
--   - A time is a number of nanoseconds since 1970. Go's int is the `ℤ` of Prelude/Int, without its
--     bound. The seconds as float64 of the JSON files are read as whole nanoseconds.
--   - The reasons for which a batch stops are a data type, where create_schedule.go searches the text
--     of the reason for a word. The 30 days of the activity log are 30 times 24 hours, where AddDate
--     may differ by the hour of a clock change.
--   - A string is its list of bytes. strings.ToLower and EqualFold act on ASCII letters.
--   - SHA-256, Argon2, base64, fmt.Sscanf, url.Parse, mail.ParseAddress, strconv.Itoa, the
--     regular expression of safeDetail, the random source, Redis, the check of a Session
--     and the calls of Apple are parameters. The theorem on passwords takes what the libraries document
--     as the record `Documented`, which Auth/Samples fills.
--   - PostgreSQL is its tables: a statement reads or writes rows, and its clauses are tests on a row.
--   - Goroutines are cut at the points where the code gives up its mutex. Bounds: 5
--     steps of the queue for each address, since a loop round has 5 such points; and 62 steps of a
--     batch, since each of its 20 addresses at most has 3, and the entry and the end have one each.
--
-- What is not modelled
--   - The constructors but NewService, the timer loops around the steps, and the wait for goroutines at shutdown.
--   - The HTTP handlers but the gate; cookies and JSON.
--   - The conversions between times and seconds in a float64, and the microseconds to which
--     PostgreSQL rounds a time.
--   - Apple's login, IMAP, the proxy, the mailbox, the accounts,
--     the rest of the configuration, and the generated package ent.
pub mod Prelude
pub mod EnvFile
pub mod Errors
pub mod ActivityLog
pub mod Auth
pub mod AliasApps
pub mod AliasQueue
pub mod CreateSchedule
pub mod ShareLinks
pub mod SystemUpdate
pub mod AutoRefresh
