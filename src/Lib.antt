-- ===== src/Lib.antt =====
-- A model of Teploy Arcade, a panel that runs game servers from one Go process (internal/arcade). Its
-- parts share the process: the manager keeps the servers and their ports, the hub fans their console
-- lines out to browsers, the scheduler starts work on them at given times, and every request passes
-- the gate of the accounts first.
--
--   Hub        internal/arcade/hub.go: `Conn`, `Room`, `Hub`; Conn (the bounded buffer of a socket), Rooms
--              (the operations), and what they guarantee in Heap, Valid, History, Replay, Delivery and
--              Tombstone. `truncateLine` of internal/arcade/runtime.go is in Rooms.
--   Ports      the ports of internal/arcade/manager.go: Geometry (`serverBindingsLocked`, `candidateBindings`,
--              `bindingConflict`), Ledger (`claimPortBindings`, `releaseReservationLocked`, `claimPort`,
--              `releasePort`, `NextFreePort`), and theorems in Bindings, Claims, Release and Suggest.
--   Auth       internal/arcade/auth.go: State (the record `Auth`, the password hash, the setup gate),
--              Accounts, Sessions, Gate (with the login limiter), and theorems in Commit, Admins, Revoke,
--              Access, Login, Bounds and Limits; Load (`Load`, `validateUserRecord`) and its theorem.
--   Scheduler  internal/arcade/scheduler.go: Clock (`parseClock`), Tasks (the list and its file), Runs
--              (`dispatchDue`, `runTask`), and theorems in Kept, Count, Turns, Slots, History, Format, Once
--              and Load.
--   Restore    `RestoreBackup` of internal/arcade/backup.go from the extracted archive on, with
--              internal/arcade/restore_journal.go, and `recoverInterruptedRestores` of
--              internal/arcade/manager.go. Disk (the directory, its staging directory and one durable change
--              at a time), Swap (the restore and its rollback), Recover, Removal (of the staging directory);
--              what is kept while entries move is in
--              Safe, Undo, World, Over, Parts, Install, Rollback, Outcome and Remains, and the theorems in
--              Recovery, Ends, Crash and Boots.
--   Lifecycle  the life of a server in internal/arcade/manager.go and internal/arcade/lifecycle_intent.go. State
--              (a server, servers.json, `persistIntent`), Start (`startExpected`, `claimStart`), Exit
--              (`setStatus`, `stopped`, `fail`, `processExited`, `stopIntent`, `Kill`, `Restart`, `Send`), Calls
--              (the steps in any order, `Load`, `resume`); what a step does to the intents is in Quiet, Intents
--              and Moves, and the theorems in Resume, Stale, Launched and Claims. It reads the ports
--              of a server by Ports.
--   Jobs       internal/arcade/job_store.go, internal/arcade/operations.go and the jobs of
--              internal/arcade/import.go: State (a job, `validateJob`, `view`), Store (`pruneJobRecords`,
--              `trackImportJob`, `persist`, `reapImportJobs`, `startOperation`); Known, Steps and Once follow one
--              job through the steps of a history; the theorems are in Key and Valid.
--   Text       `atoi` of internal/arcade/model.go and what the program uses of strings and strconv.
--   Prelude    shared names, tests, lists, association lists and integers.
--
-- The state of a part is a record, an operation a function from the state to its answer and the next
-- state. What runs under one lock is one step; so are, although their locks change or are given up on
-- the way, a run up to its claim, a publication or a leave with its sends, and the suggestion of a
-- port. Where the source gives its lock up in between (a login or a change of password while it
-- hashes, the two reads of the gate, a run and its outcome), an operation is two functions, and the
-- second one takes the state of its own moment. A history is a list of such calls in any order.
--
-- An operation on a server that waits in between (a start for Docker, a stop or a restart for the
-- process) is one step for each part that runs under a lock, and a history may interleave them in any
-- way. The steps of a history carry whether servers.json could be written. Servers are kept in one
-- association list, in the panel's order; none is created or deleted in a history. The number of
-- failures of a server is not bounded by the bits of an int.
--
-- The restore runs against a fate that says of each attempt to change the disk, by its number, whether
-- it succeeds, and of a failed write of a small file whether it landed all the same. A crash is the
-- fate in which everything after a point fails; the disk that the functions return is then the disk at
-- the crash. A start of the panel is one recovery with a fate of its own. A rename is one change, and
-- so is the removal of a live entry. The removal of the staging directory is a list of the things that
-- are gone from it, in any order, so that it may stop anywhere. Whether a recovery can read `old` and
-- the journal, and whether the journal passes `validateRestoreJournal`, is a parameter of it.
--
-- Parameters stand for what is not in the repository: the clock and its time zone, the randomness of
-- an ID, a token or a salt (`none` where it fails), HMAC-SHA256, and whether an atomic write of a file
-- succeeded. The theorems on accounts hold for any function in the place of the password hash.
--
-- The share of a job's bytes by floats, and whether a job's JSON stays within 64 KiB, are parameters
-- too, as are the IDs and fingerprints that SHA-256 makes of a key and a request.
--
-- Numbers are natural numbers, or integers where a value may be negative. The counter of dropped
-- messages and the numbers of lines wrap around at 2 ^ 64, as the bits of an int64. `decimal` writes a
-- length with fuel for 20 digits, enough below 2 ^ 64; the search for a free port has fuel for every
-- port from the hint up to 65535, and a new task ID has the 20 attempts of the source. Go's maps are
-- association lists: no result depends on the order of their entries.
--
-- Not modelled: the change of a server's port and the reservations that ApplySettings writes for its
-- own lease, letters and spaces outside ASCII, connections without a buffer, the audit log, previews
-- of the next run, and the parts that are input and output for the most part (containers, files, HTTP,
-- MCP, the frontend). Of backups only the restore is modelled, from the moment the archive is
-- extracted and checked, and without the rewriting of server.properties when another server took the
-- archive's port in the meantime. Of the lifecycle, the runners, the wait of a restart for its stop,
-- console lines and events are left out, and of the jobs the recovery of their records at a start of
-- the panel. Metrics are not modelled.

pub mod Prelude
pub mod Text
pub mod Hub
pub mod Ports
pub mod Auth
pub mod Scheduler
pub mod Restore
pub mod Lifecycle
pub mod Jobs
