-- ===== src/Lib.antt =====
-- Telegram Media Downloader: verification library.
--
-- The program downloads media from Telegram channels on one asyncio event loop, shows its tasks in a
-- Web console, and passes the files on. This library models the parts that keep its state right.
--
-- Task (module/task_state.py, module/app.py, module/progress_persistence.py) is the store of tasks.
--   Task/Status, Task/Snapshot, Task/Tables: the statuses with the transition table, the snapshots of
--   tasks and files, and the two SQLite tables with the statements that change them.
--   Task/Store, Task/Store/Methods, Task/Store/Files: TaskStateStore and each method that changes it.
--   A method holds the lock from start to end, so it is one function from the store to its result,
--   or the error that it raises, and the store that it leaves. The clock, and whether the database
--   takes each of the two transactions of a method, are the argument Moment.
--   Task/Store/Calls: the calls in the order in which the lock admits them. The other files under
--   Task/Store reason about them.
--   Task/Counts: the counters after a file transition. Task/Guard: terminal_safe_task_updates and
--   _transition_without_reopening, which takes the lock twice; other calls may come in between.
--   Task/Recovery: _recover_interrupted_storage. Task/Restart: what __init__ does to the tables, which is
--   the recovery and then _prune_completed_storage. Task/Loading: _load_storage. Task/Pages: the pages
--   of paginate_files.
--   Task/Node: the counters of TaskNode, and the statuses that the store reads off a node.
-- Disk (module/download_admission.py) is DiskSpaceAdmission, which hands out disk space. Disk/Acquire
--   is acquire(), split at its awaits; Disk/System has the coroutines and the reservation objects
--   beside the admission, and histories of events. The free bytes and the time are arguments.
-- Gate (module/telegram_activity.py) is TelegramActivityGate, which keeps scans and downloads apart.
--   An event is what runs between two awaits; a release that create_task has scheduled runs as an
--   event of its own, in any order.
-- Package (module/package_download.py) is build_package_result, which reads the files of a task.
-- Progress (module/progress_persistence.py, module/transfer_progress.py, module/download_stat.py) is
--   ProgressPersistence, split at its awaits, whose writes are the guarded transitions of Task/Guard,
--   and go on in their threads when the report that awaits them is cancelled;
--   Progress/Transfer is TransferProgressTracker, which the watchdog reads; Progress/Results is
--   DownloadResultStore, which the console shows.
-- Resource (module/resource_bot_store.py) is ResourceBotStore, the activation keys, users, channel
--   bindings and delivery jobs of the resource bot. Resource/Access, Resource/Deliveries and
--   Resource/Jobs have its methods, each one transaction over the four tables; Resource/Calls the calls
--   in the order in which SQLite admits them; Resource/Invariant what the tables agree on;
--   Resource/Life the automaton of a delivery job. The digest of a key, the clock and the tokens that
--   are drawn are arguments.
-- Scan (module/channel_library_store.py) is the state of the scan jobs of ChannelLibraryStore.
--   Scan/Controls and Scan/Jobs have the methods that create, control, claim, move and recover a job,
--   Scan/Calls their order, Scan/Invariant what holds of the jobs together. The watermarks of a running
--   job, which the checkpoints of batches write, stay as they are.
-- Planning (module/comment_workflow.py) is plan_message_package and plan_message_package_sequence, which
--   split the media messages of a chat into packages by their captions. What regular expressions say of
--   a caption is a parameter.
-- Config (module/config_persistence.py) is atomic_write_yaml, atomic_write_yaml_pair and
--   recover_yaml_pair, which write two settings files as one generation. A run is a function of the
--   disk and of the fates of its effects, each of which works, raises or is where the process dies;
--   Config/Rules reasons about runs, Config/Views says what contents a disk stands for,
--   Config/Histories puts attempts one after the other, Config/Names has the names of staged files,
--   and Config/Single is about one file alone. The digest, what pathlib says of a path, and the
--   names that mkstemp draws are arguments.
-- Rows is the SQL that the stores use, on lists of rows in the order of insertion.
-- Dict and Prelude are what the parts share: dictionaries in insertion order, keys with a Boolean
--   equality, and lists and tests over the native numbers.
--
-- Representation. Ids of tasks and files are texts, as the code makes them by str(); ids of rows and
-- messages are natural numbers, and those of users and chats integers. Times, sizes and counters are
-- natural numbers without bound, as Python's integers; a float is a number of some small unit. A
-- status that is none of the constants is kept as text. A snapshot's current file is the key of that
-- file, since the code shares the object.
--
-- Fuel. Only the eviction of finished tasks runs on fuel: it gets as much as there are tasks, and
-- each round takes one out, so it ends by its own test. Every other loop goes down a list.
--
-- Not modelled: the bot and its Telegram calls, the Web console, the cloud drive, the rest of the
-- channel library, the download queue and lifecycle, and the vendored scripts. What they call of
-- the parts above are the calls and events of the histories, in any order.
pub mod Config
pub mod Prelude
pub mod Dict
pub mod Planning
pub mod Rows
pub mod Scan
pub mod Disk
pub mod Task
pub mod Gate
pub mod Package
pub mod Progress
pub mod Resource
