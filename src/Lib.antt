-- ===== src/Lib.antt =====
-- lite_settings: a configuration service on MySQL or PostgreSQL with a Go client that keeps a full
-- snapshot in memory.
--
-- The parts, and how they interact. Package store keeps two tables and a revision counter; a write
-- bumps the revision, changes lite_config and appends to lite_config_history in one transaction.
-- The server polls the revision into a watermark, on which the watch handler waits, and labels each
-- snapshot that it sends. A client polls a source, either the server or the database itself, with
-- the label of its snapshot as the baseline; it replaces its view, writes the fallback file and
-- calls the watchers of the prefixes that changed. lsctl reads and writes through the server or the
-- database, by commands or in a terminal interface, and shows the diff of two values.
--
-- The files. Store/Validate is store/validate.go (ValidateKey, ValidateChange, ValidateValue);
-- Store/Tables is the rows, the two dialects' BumpRevision and the statements of store/store.go,
-- store/mysql.go and store/postgres.go; Store/Dialect is store/dialect.go (DialectFor,
-- rebindDollar, likePrefix, and the LIKE that its patterns are for); Store/Read is Get, History,
-- ListPrefixes and Revision, and Store/Write is write, withTx, Set, Delete and Rollback, of
-- store/store.go. Store/Log is the abstract store: one log of events. Client/View is client/view.go
-- and client/wire.go; Client/Prefixes, Client/Refresh and Client/Run are client/client.go
-- (normalizePrefixes, filterPrefix; apply, notify, fetchOnce, markSuccess, markFailure; run,
-- jitter). Source/Db is Poll of client/dbsource/dbsource.go. Server/Watcher is
-- server/revision_watcher.go and Server/Handlers is handleList and handleWatch of server/handler.go
-- with what they call; Server/Entries is its other handlers. Client/Start is New, loadFallback,
-- Watch, Close and Stats of client/client.go, Client/Group is client/group.go, and Client/Decode is
-- client/decode.go with the cache of client/view.go. Lsctl/Diff is
-- cmd/lsctl/internal/render/diff.go and Lsctl/Render is render.go beside it. Lsctl/Backend is
-- cmd/lsctl/internal/backend (backend.go, db.go, http.go), where the HTTP back end is composed with
-- the server's handlers; Lsctl/Command is cmd/lsctl/internal/command (root.go, write.go, read.go),
-- each command as a function of a back end and its tables to new tables, what is printed and an
-- error. Lsctl/Ui is cmd/lsctl/internal/ui: the state and its rows (Ui, Rows), the cursors
-- (Scroll), the overlay (Overlay), the editor (Edit), the keys (Keys), Update with every message
-- (Update), the commands (Commands), and the screen (Lines, View). Sync puts the store's writes
-- beside the readers. Base holds what they share: Go strings as lists of bytes, int64 as integers,
-- maps as association lists, sorting. Modules named Tests hold runs.
--
-- What is a parameter. Env is the database engine: the statements it refuses, the clock, the
-- generated id, its order of keys, whether it reports the rows affected, and how a commit ends:
-- done, lost, or done without report. A write's transaction sees the tables alone, as the row lock
-- of the revision makes it. Parsers is the JSON and YAML decoders of package store, and Decoders
-- those of the client, with the parsers of scalars. What the network returns, the clock, random
-- numbers and cancellations are arguments of the steps that meet them. Wire is the HTTP between
-- lsctl and the server: the JSON of a rollback request, the routing of a key's path, and whether
-- the client is gone. Terminal is the widths of runes and the colours; Desk the editors and
-- temporary files; Files the standard input and files. Answers reach the interface as messages in
-- any order.
--
-- Bounds. Revisions, versions and ids are unbounded, as an int64 counter does not wrap in use. The
-- binary search runs on the length of its list as fuel, itoa on its number; the theorems on them
-- hold for all inputs. The LCS table is rows of numbers below the product of the line counts, at
-- most 4 * 2 ^ 20, so that int32 does not wrap. A watcher's channels are numbered, and waiting is a
-- step relation over every interleaving of the poller and a waiter.
--
-- Not modelled. The JSON of the fallback file and its writing, the HTTP source, migrations and data
-- source names, the set-up of the server, flags, timeouts and logs, the alignment of tables, and
-- the routing of requests. The text of errors is dropped; their kind is kept.
mod Base
pub mod Store
pub mod Client
pub mod Server
pub mod Source
pub mod Sync
pub mod Lsctl
