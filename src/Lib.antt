-- ===== src/Lib.antt =====
-- CyberGuard Enterprise, the Windows endpoint agent (agent/cg-agent): what it captures, keeps, renders
-- and delivers.
--
-- The kernel's process and network events and the Event Log's logons reach the agent as raw records.
-- Dispatch turns each one into an event, dates it and looks up its process in the cache of creation
-- times, and puts it in a bounded ring that drops the oldest event when it is full. The delivery loop
-- drains the ring in batches, renders each event once in the shape of its class, with its device path
-- translated to a drive path, and sends the batch as a signed POST, which it repeats until the server
-- takes it or has refused it too often; an empty POST is the heartbeat.
--
-- The files, and the code that each one models:
--   Prelude: texts as lists of bytes, lists and tests over native numbers, bits, integers, the
--     printing of numbers; nothing of the program.
--   Net: std::net's IpAddr and SocketAddr, and how they are displayed.
--   Etw/Types: agent/cg-agent/src/etw/types.rs, the events and the errors of opening a session.
--   Etw/Ring: agent/cg-agent/src/etw/ring.rs, EventRing and OverflowWarning.
--   Etw/Cache: agent/cg-agent/src/etw/cache.rs, CreatedTimeCache; a `HashMap` is a list of
--     pairs, and what other threads do to it during a sweep is a function.
--   Etw/Network: agent/cg-agent/src/etw/network.rs, the decoding of a connection's record.
--   Etw/Dispatch: agent/cg-agent/src/etw/dispatch.rs, dispatch_record, dispatch_network_record
--     and NetworkDiscards.
--   Etw/Hygiene: agent/cg-agent/src/etw/hygiene.rs, EventsLostMonitor and DiscardMonitor.
--   Logon: agent/cg-agent/src/logon/mod.rs, the decoding of Security-log records and
--     UnusableMonitor; in Logon/Types its types, and in Logon/Fields the decoding of each field.
--   Paths: agent/cg-agent/src/paths.rs, DevicePathMap and UnresolvedPathLog.
--   Cges: agent/cg-agent/src/cges/emit.rs and agent/cg-agent/src/etw/uid.rs, the events as they
--     are sent.
--   Delivery: agent/cg-agent/src/delivery.rs, the loop `run_until` and `finish`; in
--     Delivery/Batches `form_batch`, what an attempt comes to and when a batch is due.
--   Transport: agent/cg-agent/src/transport.rs, the retries of HeartbeatClient::send.
--   Version: agent/cg-agent/src/version.rs, is_release_version.
--   Config: agent/cg-agent/src/config.rs, load_from_path and load_from_str; in Config/Uuid
--     is_uuidv7, and in Config/Position the place of a parse error.
--   Errors: agent/cg-agent/src/errors.rs, the exit codes and the lines; InstanceLock:
--     agent/cg-agent/src/instance_lock.rs, what taking the lock comes to.
--   Custody: agent/cg-agent/src/custody.rs, the checks of an object through its handle, with its
--     descriptor in Custody/Security; a handle is what Windows answers of it.
--   Service/Migration: agent/cg-agent/src/service/migration.rs. Arguments is parse_start_arguments;
--     Host the three directories, the record and the points at which a start can fail or be cut;
--     Route the route with its commit and its reversal, and Route/Staging what comes before them;
--     Start is `prepare` and its branches; Entries and Files are the checks of names, of files and of
--     the directories to close, as functions of what Windows answers, and Copies the pass over the
--     old copies after a migration; Passes composes the starts with the passes, of which what they
--     leave of the old copies is an argument. `watch.at` and `?` are the steps of Host, which keep
--     what was changed before a failure.
--   Service/Rotation: agent/cg-agent/src/service/rotation.rs, the bytes given to RotatingLog as
--     records; in Log `rotate` over its files, and in Writing `write_record`, its rotation and its
--     retry.
--   Service/Exit: agent/cg-agent/src/service/mod.rs, how the service ends.
--   Service/Status: agent/cg-agent/src/service/windows.rs, the status that the service reports to
--     the SCM; `life` is the steps of the threads of the service on it, from its start to past its end.
-- Below a component, the modules named for what they prove hold its lemmas, and Tests its tests.
--
-- A method that holds a lock is one step, so that an interleaving of threads is a sequence of steps
-- (Etw/Ring/Fifo, Etw/Dispatch/Correlation). An instant and a duration are numbers of nanoseconds. A
-- word of w bits keeps its wrap-around as `% 2 ^ w`, and what saturates in the code stops at its bound.
-- A fresh event id, the time, the answer of the server and the failures of the file system are
-- arguments. A round of the delivery loop is one turn of its `loop`, with what it awaits as its input;
-- the events that the capture enqueues before it come first.
--
-- Fuel: `to_radix` prints with one unit per digit, and 20 digits hold every `u64` (16 in base 16);
-- `advance` passes missed ticks on one unit per tick, and `now + 1` is enough since a tick is at least
-- a nanosecond after the one before, which Delivery/Schedule proves; `send_loop` takes one unit per
-- attempt, of which `max_retries` are allowed.
--
-- Not modelled: the ETW session, the Event Log subscription, the list of running processes and of
-- volumes, which Windows answers; JSON, signing, TLS and HTTP, of which an attempt's response is
-- left; the TOML parser and serde; the log lines, except where a theorem counts them; the hygiene
-- thread, enrollment, the keys and the composition of a start of the service, which are parts of
-- the program of their own. Of the migration, what a start comes to when it checks, reads and
-- restricts the data root's files is an answer of its environment; the configuration that it generates
-- is left out.
pub mod Prelude
pub mod Net
pub mod Logon
pub mod Etw
pub mod Paths
pub mod Cges
pub mod Delivery
pub mod Config
pub mod Custody
pub mod Errors
pub mod InstanceLock
pub mod Service
pub mod Transport
pub mod Version
