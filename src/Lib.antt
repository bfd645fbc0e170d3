-- ===== src/Lib.antt =====
-- A model of resumable-upload, a TUS server and its client: the protocol core in
-- resumable_upload/server, the SQLite storage back end, the in-memory locks, the metrics, and the
-- synchronous client in resumable_upload/client with its uploader, its URL storages and its
-- parallel uploads.
--
-- A request enters `handle_request` (server/core.py; Server/Request.antt), which applies the method
-- override, the gates on the body's size, the incoming hook and the check of the version, picks a
-- route, and runs a handler, for PATCH and DELETE under the lock of the upload. The handlers
-- (server/handlers/*.py) plan first: a pure function checks the request against the record of the
-- upload and gives a plan or an error response. Then they call the storage (storage/base.py), the
-- hooks and the metrics in the order of the code.
--
-- Where the code is modelled:
--   Metrics.antt            resumable_upload/metrics.py
--   Locks.antt              resumable_upload/locks/base.py, memory_lock.py
--   Headers.antt            resumable_upload/server/headers.py
--   Checksum.antt           resumable_upload/checksum.py
--   Storage.antt            resumable_upload/storage/base.py: the interface as a record `Storage`
--   Storage/Contract.antt   what a back end promises of it, `IsLawful`, for the lengths it can store
--   Storage/File.antt       seek and write on a file
--   Storage/Sound.antt      the invariant that ties a record to its file
--   Sqlite.antt and Sqlite/ resumable_upload/storage/sqlite_storage.py
--   Server.antt             resumable_upload/server/core.py: configuration, hooks, shared helpers
--   Server/Patch, Create, Final, Head, Delete, Download, Options
--                           resumable_upload/server/handlers/*.py
--   Server/Assembly.antt    the assembly of pending finals in server/handlers/patch.py
--   Server/Request.antt     `handle_request` and `_with_lock` of server/core.py
--   Client/Protocol.antt    resumable_upload/client/_protocol.py
--   Client/FileSlice.antt   resumable_upload/client/_fileslice.py
--   Client/Outcome.antt     resumable_upload/exceptions.py: the client's methods that may raise
--   Client/Network.antt     sockets, urlopen, uuid4 and waits, as a record `Network`
--   Client/Uploader.antt and Client/Uploader/Upload.antt
--                           resumable_upload/client/uploader.py; Client/Stats.antt: client/stats.py
--   Client/Contract.antt    what a TUS server promises a client, `IsTusServer`, and what a network
--                           and a server do that let an upload pass, `IsReliable`
--   Client/UrlStorage.antt  resumable_upload/url_storage
--   Client/TusClient.antt   resumable_upload/client/client.py, with its upload_file and
--                           resume_upload in Client/TusClient/Files.antt, for files that are
--                           sent in one part; Client/TusClient/Parallel.antt: client/parallel.py;
--                           Client/TusClient/Concatenation.antt: client/concatenation.py;
--                           Client/TusClient/Queries.antt: client/protocol.py
--   EndToEnd.antt and EndToEnd/
--                           the uploader against the server over a link that may lose messages
--   Prelude.antt, Exec.antt names, dicts, texts and the state monad that the modules share
--   Tests.antt and Tests/   runs on concrete inputs, and an instance of each theorem
--
-- State. `World` holds the storage's own state, the counters and the record of the hook calls; `Site`
-- adds the locks and the time of the last cleanup. A method that changes state is an `Exec S A`,
-- a function from the state to a result or an exception and the new state, so that what was written
-- before an exception stays written. The database is a dict of rows and a dict of files; a statement
-- of SQL is one step, and so is a section under a mutex. Times are microseconds since the epoch, and
-- a request takes its clock and the id that uuid4 draws as arguments.
--
-- The client. `TusClient` finds the URL of a file's upload in its URL storage or creates an upload,
-- and opens an uploader on it. An uploader is a `Session`: its offset, its counters, whether its
-- connection is open, and the state of the network. It sends requests to a `Network`, which
-- answers, fails, or has a stale socket. The theorems on `upload` suppose `IsTusServer`. EndToEnd puts
-- the server at the other end, for an uploader without custom headers, checksum and hooks, on a
-- server without expiry
-- of uploads, CORS and hooks, as long as nobody else writes to the upload. There the link loses
-- what a list of `Fate`s says, and nothing once the list is spent.
--
-- The slices of a parallel upload are sent one after the other, which is one of the orders of its
-- threads.
--
-- Integers. Lengths, offsets and byte counts are natural numbers. SQLite's columns have 64 bits: a
-- declared length of 2^63 or more makes `create_upload`, `set_upload_length` and
-- `concatenate_uploads` raise, as sqlite3 does, and a theorem on a request that stores a length
-- supposes one that the storage can store. Offsets and the totals of assemblies count bytes that are in
-- a file, and are taken to be below 2^63.
--
-- Loops. All loops are over lists, but for three. The retries of a chunk recur on the attempts
-- left. The loop of `upload` takes fuel, and gives `none` where that is spent; a round that does
-- not raise moves the offset, so one more unit than there are bytes left is enough. The wait in
-- `acquire` takes the list of its rounds: what the clock shows, the token that would be drawn, and
-- what other threads do meanwhile. It ends within any list of rounds that reaches the deadline.
--
-- Parameters. Base64 with UTF-8, the digests, urlparse, quote and the text of a date are functions
-- in the record `Library`, without hypotheses but those that a theorem's own statement names. Hooks
-- are pure functions into `HookResult`.
--
-- Not modelled: the async siblings, which repeat the synchronous code; the back ends for S3, GCS,
-- Azure and Redis, which are calls of their SDKs; the transports (server/http_handler.py, asgi.py),
-- the command line, the fingerprints of files; what the client's observers see; logging; failures
-- of the file system other than a missing file; the limit that CPython puts on the digits that int()
-- reads; the case of letters and the blanks beyond those
-- that an HTTP header can hold.
pub mod Prelude
pub mod Exec
pub mod Metrics
pub mod Locks
pub mod Headers
pub mod Checksum
pub mod Storage
pub mod Sqlite
pub mod Server
pub mod Client
pub mod EndToEnd
pub mod Tests
